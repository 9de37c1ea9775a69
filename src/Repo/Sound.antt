-- ===== src/Repo/Sound.antt =====
-- What holds of every row between two calls, and the writes of ReserveDispatch and Claim that keep
-- it. (The write of Finish depends on who calls it: see System.)
use kaftar.Prelude.{
  ℕ, ◌+◌, ◌≤◌, ◌≡◌, refl, String, none, Bool, true, false, ℤ, pos, negsuc, is_some, arith, ◌||◌,
  if◌then◌else◌,
}
use kaftar.Entity.Time.{Time}
use kaftar.Entity.State.{OutboxState, pending, sending, failed, dead, is_sending, is_sent, is_dead}
use kaftar.Repo.Model.{Row}
use kaftar.Repo.Delivery.{
  over_budget, exhausted, transition_values, make_dead, reserve_row, take_lease, is_open, is_due,
}
use kaftar.Repo.Lifecycle.{
  Evolves, Reach, here, next, fails, expires_pending, expires_failed, gives_up,
  transition_values-Evolves, is_due-live,
}

-- At most one attempt more than the retries that are allowed; a negative limit is none.
abbrev pub Within : ℤ → ℕ → Type 0
Within (pos m) attempts = attempts ≤ m + 1
Within (negsuc m) attempts = Unit

pub record IsSound (r : Row) : Type 0 where
  pub budget : Within r.max_retries r.attempts
  pub counted : is_sending r.state ≡ true → r.attempts ≡ r.retry_count + 1
  pub leased : is_sending r.state ≡ true → is_some r.lease_until ≡ true
  pub released : is_sending r.state ≡ false → (r.lease_token ≡ "") × (r.lease_until ≡ none)
  pub delivered :
      is_sent r.state ≡ true
      → (is_some r.sent_at ≡ true) × (r.next_retry_at ≡ none) × (r.last_error ≡ "")
  pub buried : is_dead r.state ≡ true → (r.next_retry_at ≡ none) × (r.dispatch_after ≡ none)

abbrev after_reserve : Bool → OutboxState → OutboxState
after_reserve true s = dead
after_reserve false s = if is_sending s then failed else s

reserve-Reach :
    (e : Bool) (s : OutboxState) → (is_open s || is_sending s) ≡ true → Reach s (after_reserve e s)
reserve-Reach true pending h = next expires_pending here
reserve-Reach true failed h = next expires_failed here
reserve-Reach true sending h = next gives_up here
reserve-Reach true _ h = cc
reserve-Reach false sending h = next fails here
reserve-Reach false pending h = here
reserve-Reach false _ h = here

module _ (clock now : Time) where
  is_due-active :
      (c : String) (r : Row)
      → is_due c now r ≡ true
      → (is_open r.state || is_sending r.state) ≡ true
  unfolding is_due
  is_due-active c r h = ground arith

  pub reserve_row-IsSound :
      (interval : ℕ) (c : String) (r : Row)
      → is_due c now r ≡ true
      → IsSound r
      → IsSound (transition_values (reserve_row now interval r).0 clock r)
  unfolding reserve_row transition_values is_due
  reserve_row-IsSound interval c r h v = record {
    budget = ground arith;
    counted = ground arith;
    leased = ground arith;
    released = ground arith;
    delivered = ground arith;
    buried = ground arith;
  }

  pub Within-budget : (z : ℤ) (n : ℕ) → over_budget z n ≡ false → Within z (n + 1)
  Within-budget (pos m) n h = ground arith
  Within-budget (negsuc m) n h = tt

  -- A claim takes an attempt only where the budget has one left.
  pub take_lease-IsSound :
      (lease : ℕ) (token : String) (r : Row)
      → exhausted r now ≡ false
      → IsSound (transition_values (take_lease now lease token r) clock r)
  unfolding transition_values take_lease exhausted
  take_lease-IsSound lease token r fits = record {
    budget = Within-budget r.max_retries r.attempts (ground arith);
    counted = λ _. omega arith;
    leased = λ _. refl;
    released = λ h. cc;
    delivered = λ h. cc;
    buried = λ h. cc;
  }

  pub make_dead-IsSound : (r : Row) → IsSound r → IsSound (transition_values (make_dead r) clock r)
  unfolding transition_values make_dead
  make_dead-IsSound r v = record {
    budget = v.budget;
    counted = λ h. cc;
    leased = λ h. cc;
    released = λ _. (refl, refl);
    delivered = λ h. cc;
    buried = λ _. (refl, refl);
  }

  reserved_state :
      (interval : ℕ) (r : Row)
      → (reserve_row now interval r).0.state ≡ after_reserve (exhausted r now) r.state
  unfolding reserve_row
  reserved_state interval r = ground arith

  pub reserve_row-Evolves :
      (interval : ℕ) (c : String) (r : Row)
      → is_due c now r ≡ true
      → Evolves r (transition_values (reserve_row now interval r).0 clock r)
  unfolding reserve_row
  reserve_row-Evolves interval c r h =
      transition_values-Evolves (reserve_row now interval r).0 r clock (is_due-live c now r h)
        (ground arith)
        (rw (reserved_state interval r)
          (reserve-Reach (exhausted r now) r.state (is_due-active c r h)))
