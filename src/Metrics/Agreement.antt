-- ===== src/Metrics/Agreement.antt =====
-- The counters of retries and of dead messages agree with the results that were observed.
use kaftar.Prelude.{
  ℕ, suc, String, ◌≡◌, refl, Option, List, [], ◌∷◌, Bool, true, false, ◌&&◌, str_eq, str_eq_iff,
  str_eq_refl, Bool-cases, inl, inr, if◌then◌else◌,
}
use kaftar.Entity.Channel.{Channel}
use kaftar.Health.Check
use kaftar.Metrics.Vector.{Vector, value_at, same_labels, value_at-change}
use kaftar.Metrics.Labels.{channel_label}
use kaftar.Metrics.Build.{BuildInfo}
use kaftar.Metrics.Observers.{
  Metrics, inc, new_metrics, observe_broker_error, observe_delivery_attempt,
  observe_delivery_result, observe_submission, set_worker_ready, observe_health,
}

-- A call of one of the methods.
pub data Observed : Type 0 where
  broker_error : String → Channel → Observed
  attempted : Channel → Observed
  resulted : Channel → String → ℕ → Observed
  submitted : Channel → String → Observed
  readied : String → Channel → Bool → Observed
  checked : Check.Check → Observed

unfoldable pub observe : Observed → Metrics → Metrics
unfolding observe_broker_error observe_delivery_attempt observe_delivery_result observe_submission
    set_worker_ready observe_health
observe (broker_error operation channel) = observe_broker_error operation channel
observe (attempted channel) = observe_delivery_attempt channel
observe (resulted channel outcome duration) = observe_delivery_result channel outcome duration
observe (submitted channel outcome) = observe_submission channel outcome
observe (readied worker channel ready) = set_worker_ready worker channel ready
observe (checked check) = observe_health check

unfoldable pub observe_all : List Observed → Metrics → Metrics
unfolding observe
observe_all [] m = m
observe_all (o ∷ os) m = observe_all os (observe o m)

-- For every channel's label there are as many retries as results "retry", and as many dead messages
-- as results "dead".
pub record Agrees (m : Metrics) : Type 0 where
  pub retries_agree :
      (label : String)
      → value_at 0 (label ∷ []) m.retries ≡ value_at 0 (label ∷ "retry" ∷ []) m.delivery_results
  pub dead_agree :
      (label : String)
      → value_at 0 (label ∷ []) m.dead_messages
        ≡ value_at 0 (label ∷ "dead" ∷ []) m.delivery_results

-- A counter that counts one outcome only, beside the counter of all outcomes.
module _ (kind label : String) (one all : Vector ℕ)
    (agree : value_at 0 (label ∷ []) one ≡ value_at 0 (label ∷ kind ∷ []) all) where
  both_counted :
      (l : String)
      → value_at 0 (label ∷ []) (inc (l ∷ []) one)
        ≡ value_at 0 (label ∷ kind ∷ []) (inc (l ∷ kind ∷ []) all)
  unfolding inc same_labels
  both_counted l = elim (Bool-cases (str_eq l label)) [
    | inl e ↦
        rw
          (
            (str_eq_iff l label).0 e,
            value_at-change 0 (label ∷ []) (label ∷ []) suc one,
            value_at-change 0 (label ∷ kind ∷ []) (label ∷ kind ∷ []) suc all,
            str_eq_refl label,
            str_eq_refl kind,
            agree,
          )
          refl
    | inr e ↦
        rw
          (
            value_at-change 0 (l ∷ []) (label ∷ []) suc one,
            value_at-change 0 (l ∷ kind ∷ []) (label ∷ kind ∷ []) suc all,
            e,
            agree,
          )
          refl
  ]

  and_false : (b : Bool) → (b && (false && true)) ≡ false
  and_false true = refl
  and_false false = refl

  one_counted :
      (l outcome : String)
      → str_eq outcome kind ≡ false
      → value_at 0 (label ∷ []) one ≡ value_at 0 (label ∷ kind ∷ []) (inc (l ∷ outcome ∷ []) all)
  unfolding inc same_labels
  one_counted l outcome h =
      rw
        (
          value_at-change 0 (l ∷ outcome ∷ []) (label ∷ kind ∷ []) suc all,
          h,
          and_false (str_eq l label),
          agree,
        )
        refl

  counted_alike :
      (outcome l : String)
      → value_at 0 (label ∷ []) (if str_eq outcome kind then inc (l ∷ []) one else one)
        ≡ value_at 0 (label ∷ kind ∷ []) (inc (l ∷ outcome ∷ []) all)
  counted_alike outcome l = elim (Bool-cases (str_eq outcome kind)) [
    | inl e ↦ rw ((str_eq_iff outcome kind).0 e, str_eq_refl kind) (both_counted l)
    | inr e ↦ rw e (one_counted l outcome e)
  ]

observe-Agrees : (o : Observed) (m : Metrics) → Agrees m → Agrees (observe o m)
unfolding observe
observe-Agrees (broker_error operation channel) m a = record {
  retries_agree = a.retries_agree;
  dead_agree = a.dead_agree;
}
observe-Agrees (attempted channel) m a = record {
  retries_agree = a.retries_agree;
  dead_agree = a.dead_agree;
}
observe-Agrees (submitted channel outcome) m a = record {
  retries_agree = a.retries_agree;
  dead_agree = a.dead_agree;
}
observe-Agrees (readied worker channel ready) m a = record {
  retries_agree = a.retries_agree;
  dead_agree = a.dead_agree;
}
observe-Agrees (checked check) m a = record {
  retries_agree = a.retries_agree;
  dead_agree = a.dead_agree;
}
observe-Agrees (resulted channel outcome duration) m a = record {
  retries_agree = λ label.
      counted_alike "retry" label m.retries m.delivery_results (a.retries_agree label) outcome
        (channel_label channel);
  dead_agree = λ label.
      counted_alike "dead" label m.dead_messages m.delivery_results (a.dead_agree label) outcome
        (channel_label channel);
}

observe_all-kept : (os : List Observed) (m : Metrics) → Agrees m → Agrees (observe_all os m)
unfolding observe_all
observe_all-kept [] m a = a
observe_all-kept (o ∷ os) m a = observe_all-kept os (observe o m) (observe-Agrees o m a)

-- After whatever calls on new metrics, each channel's counter of retries is the number of its
-- results "retry", and its counter of dead messages the number of its results "dead".
pub observe_all-Agrees :
    (info : Option BuildInfo) (os : List Observed) → Agrees (observe_all os (new_metrics info))
unfolding new_metrics value_at
observe_all-Agrees info os =
    observe_all-kept os (new_metrics info)
      (record { retries_agree = λ label. refl; dead_agree = λ label. refl })
