-- ===== src/Health/Verdict.antt =====
-- The aggregate status of a readiness report, whatever order the checks answer in.
use kaftar.Prelude.{
  ◌≡◌, refl, sym, ap, ◌∙◌, List, Bool, true, false, not, any, sort_by, any-sort_by, any-perm,
}
use mathlib.Core.List.{Permᴰ}
use kaftar.Entity.Time.{Time}
use kaftar.Health.Check.{Status, healthy, unhealthy, Check}
use kaftar.Health.Report.{fails, ready, aggregate_status, readiness, name_lt}
use kaftar.Health.Aggregate.{degrades, none_fails-any, verdict, aggregate_from-verdict}

abbrev pub is_unhealthy : Status → Bool
is_unhealthy unhealthy = true
is_unhealthy _ = false

verdict-is_unhealthy : (f d : Bool) → not f ≡ not (is_unhealthy (verdict healthy f d))
verdict-is_unhealthy true d = refl
verdict-is_unhealthy false true = refl
verdict-is_unhealthy false false = refl

-- For any results in any order, the readiness report is ready exactly when its aggregate status
-- is not unhealthy.
readiness-ready :
    (arrived : List Check) (now : Time)
    → ready (readiness arrived now) ≡ not (is_unhealthy (readiness arrived now).status)
unfolding ready readiness aggregate_status
readiness-ready arrived now =
    let checks = sort_by name_lt arrived in
    none_fails-any checks
    ∙ verdict-is_unhealthy (any fails checks) (any degrades checks)
    ∙ ap (λ s. not (is_unhealthy s)) (sym (aggregate_from-verdict healthy checks))

-- The aggregate status of the readiness report does not depend on the order in which the results
-- arrive.
pub readiness_order :
    (arrived arrived' : List Check) (now : Time)
    → Permᴰ arrived arrived'
    → (readiness arrived now).status ≡ (readiness arrived' now).status
unfolding readiness aggregate_status
readiness_order arrived arrived' now h = cc (
  aggregate_from-verdict healthy (sort_by name_lt arrived),
  aggregate_from-verdict healthy (sort_by name_lt arrived'),
  any-sort_by fails name_lt arrived,
  any-sort_by fails name_lt arrived',
  any-sort_by degrades name_lt arrived,
  any-sort_by degrades name_lt arrived',
  any-perm fails h,
  any-perm degrades h,
)
