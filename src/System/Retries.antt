-- ===== src/System/Retries.antt =====
-- A message whose provider always fails: its delivery ends.
use kaftar.Prelude.{
  ℕ, suc, ◌+◌, ◌≤◌, String, ◌≡◌, ◌⊎◌, refl, ◌∙◌, ◌<◌, List, [], ◌∷◌, false, not, ◌||◌, arith, pos,
  length, leb, Bool-cases, inl, inr, if◌then◌else◌,
}
use kaftar.Entity.Time.{Time, reached}
use kaftar.Entity.State.{dead}
use kaftar.Entity.Outbox.{Outbox}
use kaftar.Repo.Model.{Row, Uuids, outbox_model_to_entity, outbox_entity_to_model}
use kaftar.Repo.Delivery.{
  take_lease, exhausted, make_dead, finished_row, transition_values, is_open,
}
use kaftar.Service.Settle.{settle, refused, settle_failure, mark_failed}
use kaftar.Service.Retry.{retry_limit_reached}

-- One attempt: when it is claimed, for how long and with which token, when and with which error it
-- fails, the draw of the jitter, and the database's clock.
pub record Attempted : Type 0 where
  pub claimed_at : Time
  pub lease : ℕ
  pub token : String
  pub finished_at : Time
  pub error : String
  pub draw : ℕ
  pub clock : Time

module _ (uuids : Uuids) where
  -- The row after Claim, a refused attempt and Finish.
  unfoldable pub refused_row : Attempted → Row → Row
  unfolding take_lease outbox_model_to_entity settle finished_row transition_values
  refused_row a row =
      let taken = take_lease a.claimed_at a.lease a.token row in
      let settled =
        settle (refused a.error) a.finished_at a.draw (outbox_model_to_entity uuids taken) in
      transition_values (finished_row uuids settled a.finished_at) a.clock taken

  -- What a worker that claims a row and fails leaves of it: a row that is not open is not claimed,
  -- and one whose budget or age is exhausted is buried instead.
  unfoldable pub attempt_row : Attempted → Row → Row
  unfolding exhausted make_dead refused_row
  attempt_row a row =
      if not (is_open row.state)
      then row
      else if exhausted row a.claimed_at
      then make_dead row
      else refused_row a row

  unfoldable pub attempt_rows : List Attempted → Row → Row
  unfolding attempt_row
  attempt_rows [] row = row
  attempt_rows (a ∷ as') row = attempt_rows as' (attempt_row a row)

  closed_stays :
      (as' : List Attempted) (row : Row)
      → is_open row.state ≡ false
      → is_open (attempt_rows as' row).state ≡ false
  unfolding attempt_rows attempt_row
  closed_stays [] row h = h
  closed_stays (a ∷ as') row h = rw (h, attempt_rows) (closed_stays as' row h)

  finished_row-keeps :
      (o : Outbox) (now : Time)
      → ((finished_row uuids o now).state ≡ o.state)
        × ((finished_row uuids o now).attempts ≡ o.attempts)
  unfolding finished_row outbox_entity_to_model
  finished_row-keeps o now = (ground arith, ground arith)

  failure_cases :
      (error : String) (now : Time) (draw : ℕ) (o : Outbox) (m : ℕ)
      → o.max_retries ≡ pos m
      → ((settle_failure error now draw o).attempts ≡ o.attempts)
        × (((settle_failure error now draw o).state ≡ dead) ⊎ (o.retry_count < m))
  unfolding settle_failure mark_failed retry_limit_reached
  failure_cases error now draw o m h =
      elim (Bool-cases (leb m o.retry_count || reached o.retry_deadline now)) [
        | inl t ↦ rw (h, t) (refl, inl refl)
        | inr t ↦ rw (h, t) (refl, inr (ground arith))
      ]

  -- A refused attempt counts, and ends the delivery when the limit is reached.
  refused_row-counts :
      (a : Attempted) (row : Row) (m : ℕ)
      → row.max_retries ≡ pos m
      → ((refused_row a row).max_retries ≡ pos m)
        × ((refused_row a row).attempts ≡ suc row.attempts)
        × ((is_open (refused_row a row).state ≡ false) ⊎ (row.attempts < m))
  unfolding refused_row settle transition_values outbox_model_to_entity take_lease
  refused_row-counts a row m h =
      let o = outbox_model_to_entity uuids (take_lease a.claimed_at a.lease a.token row) in
      let (counted, ending) = failure_cases a.error a.finished_at a.draw o m h in
      let kept = finished_row-keeps (settle_failure a.error a.finished_at a.draw o) a.finished_at in
      (
        h,
        kept.1 ∙ counted ∙ omega arith,
        elim ending [ inl d ↦ inl (rw (kept.0, d) refl) | inr l ↦ inr (omega (arith, l)) ],
      )

  -- Whatever an attempt finds, a message that is still open afterwards has one attempt more.
  attempt_cases :
      (a : Attempted) (row : Row) (m : ℕ)
      → row.max_retries ≡ pos m
      → (is_open (attempt_row a row).state ≡ false)
        ⊎ (((attempt_row a row).max_retries ≡ pos m)
            × ((attempt_row a row).attempts ≡ suc row.attempts)
            × (row.attempts < m))
  unfolding attempt_row make_dead
  attempt_cases a row m h = elim (Bool-cases (is_open row.state)) [
    | inr n ↦ rw (n) (inl n)
    | inl n ↦ elim (Bool-cases (exhausted row a.claimed_at)) [
      | inl e ↦ rw (n, e) (inl refl)
      | inr e ↦
          let (limit, counted, ending) = refused_row-counts a row m h in
          rw (n, e) (elim ending [ inl d ↦ inl d | inr l ↦ inr (limit, counted, l) ])
    ]
  ]

  -- The delivery of a message with a limit of m retries ends: when as many attempts have been refused
  -- as are left of m + 1, at whatever times and with whatever errors, the message is not open for
  -- another.
  pub attempts_end :
      (as' : List Attempted) (row : Row) (m : ℕ)
      → row.max_retries ≡ pos m
      → row.attempts ≤ m
      → m < row.attempts + length as'
      → is_open (attempt_rows as' row).state ≡ false
  unfolding attempt_rows
  attempts_end [] row m h k l = absurd (omega (arith, k, l))
  attempts_end (a ∷ as') row m h k l = elim (attempt_cases a row m h) [
    | inl closed ↦ closed_stays as' (attempt_row a row) closed
    | inr (limit, counted, left) ↦
        attempts_end as' (attempt_row a row) m limit (omega (arith, counted, left))
          (omega (arith, counted, l))
  ]
