-- ===== src/Repo/Spent.antt =====
-- When a row has no further attempt: what the test `exhausted` of a claim and a dispatch decides.
use kaftar.Prelude.{
  ℕ, ◌+◌, ◌<◌, ◌≤◌, ◌≡◌, ◌⊎◌, refl, Option, none, some, true, false, arith, ℤ, pos, negsuc,
  Bool-cases, inl, inr,
}
use kaftar.Entity.Time.{Time, reached}
use kaftar.Repo.Model.{Row}
use kaftar.Repo.Delivery.{exhausted, over_budget}
use kaftar.Repo.Sound.{Within, Within-budget}

-- A row has no attempt left, or is too old for one.
pub data IsSpent (now : Time) (r : Row) : Type 0 where
  no_attempt : (m : ℕ) → r.max_retries ≡ pos m → m < r.attempts → IsSpent now r
  too_old : (t : Time) → r.retry_deadline ≡ some t → t ≤ now → IsSpent now r

-- A row has an attempt left within its retries, and its deadline, if any, is to come.
pub record IsAble (now : Time) (r : Row) : Type 0 where
  pub budget : Within r.max_retries (r.attempts + 1)
  pub deadline : (r.retry_deadline ≡ none) ⊎ ((t : Time) × (r.retry_deadline ≡ some t) × (now < t))

spent_budget : (z : ℤ) (n : ℕ) → over_budget z n ≡ true → (m : ℕ) × (z ≡ pos m) × (m < n)
spent_budget (pos m) n h = (m, refl, ground (arith, h))
spent_budget (negsuc m) n h = absurd (ground arith)

past : (o : Option Time) (now : Time) → reached o now ≡ true → (t : Time) × (o ≡ some t) × (t ≤ now)
past none now h = absurd (ground arith)
past (some t) now h = (t, refl, ground (arith, h))

to_come :
    (o : Option Time) (now : Time)
    → reached o now ≡ false
    → (o ≡ none) ⊎ ((t : Time) × (o ≡ some t) × (now < t))
to_come none now h = inl refl
to_come (some t) now h = inr (t, refl, ground (arith, h))

pub exhausted-IsSpent : (r : Row) (now : Time) → exhausted r now ≡ true → IsSpent now r
unfolding exhausted
exhausted-IsSpent r now h = elim (Bool-cases (over_budget r.max_retries r.attempts)) [
  | inl b ↦ let (m, e, l) = spent_budget r.max_retries r.attempts b in no_attempt m e l
  | inr b ↦ let (t, e, l) = past r.retry_deadline now (rw (b) at h) in too_old t e l
]

pub exhausted-IsAble : (r : Row) (now : Time) → exhausted r now ≡ false → IsAble now r
unfolding exhausted
exhausted-IsAble r now h = record {
  budget = Within-budget now now r.max_retries r.attempts (ground (arith, h));
  deadline = to_come r.retry_deadline now (ground (arith, h));
}
