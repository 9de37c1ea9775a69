-- ===== src/Service/Delays.antt =====
-- The bounds of the retry schedule.
use kaftar.Prelude.{
  ℕ, ◌+◌, ◌*◌, ◌/◌, ◌≤◌, ◌<◌, ◌≡◌, refl, String, Option, some, false, ltb, arith, Bool-cases, inl,
  inr,
}
use native.Mathlib.Nat.{pow-le-pow_right}
use kaftar.Entity.Time.{Time, second, minute}
use kaftar.Entity.Outbox.{Outbox}
use kaftar.Service.Retry.{retry_delay, duration_jitter}
use kaftar.Service.Settle.{mark_failed}

two : 0 < 2
two = omega arith

at_most : (a b : ℕ) → ltb b a ≡ false → a ≤ b
at_most a b h = ground arith

retry_delay-le : (count : ℕ) → retry_delay count ≤ 15 * minute
unfolding retry_delay
retry_delay-le count = elim (Bool-cases (ltb 9 count)) [
  | inl far ↦ rw (far, retry_delay) (omega arith)
  | inr near ↦ rw (near, retry_delay) (omega (arith, pow-le-pow_right two (at_most count 9 near)))
]

retry_delay-ge : (count : ℕ) → 1 ≤ count → 2 * second ≤ retry_delay count
unfolding retry_delay
retry_delay-ge count h = elim (Bool-cases (ltb 9 count)) [
  | inl far ↦ rw (far, retry_delay) (omega arith)
  | inr near ↦ rw (near, retry_delay) (omega (arith, pow-le-pow_right two h))
]

-- A message that has failed more often does not wait for a shorter time, before the jitter.
pub retry_delay_mono : (a b : ℕ) → a ≤ b → retry_delay a ≤ retry_delay b
unfolding retry_delay
retry_delay_mono a b h = elim (Bool-cases (ltb 9 b)) [
  | inl far ↦ rw (far) (retry_delay-le a)
  | inr near ↦ rw (near, below near) (omega (arith, pow-le-pow_right two h))
]
  where
    below : ltb 9 b ≡ false → ltb 9 a ≡ false
    below near = ground arith

-- Where a failed attempt is put off to.
pub record IsPutOff (now : Time) (o : Outbox) (next : Option Time) : Type 0 where
  pub wait : ℕ
  pub at : next ≡ some (now + wait)
  pub nine_tenths : 9 * retry_delay (o.retry_count + 1) ≤ 10 * wait
  pub eleven_tenths : 10 * wait < 11 * retry_delay (o.retry_count + 1)
  pub shortest : 1800000000 ≤ wait
  pub longest : wait < 990 * second

-- When the jitter's draw is below a fifth of the delay, as rand.Int64N gives it, a failed attempt is
-- put off by between nine and eleven tenths of the delay for its retry: never by less than 1.8
-- seconds, and always by less than 990.
pub mark_failed-IsPutOff :
    (error : String) (now : Time) (draw : ℕ) (o : Outbox)
    → draw < retry_delay (o.retry_count + 1) / 5
    → IsPutOff now o (mark_failed error now draw o).next_retry_at
unfolding mark_failed duration_jitter
mark_failed-IsPutOff error now draw o h =
    let count = o.retry_count + 1 in
    let low = retry_delay-ge count (omega arith) in
    let high = retry_delay-le count in
    record {
      wait = duration_jitter (retry_delay count) draw;
      at = refl;
      nine_tenths = omega (arith, h);
      eleven_tenths = omega (arith, h);
      shortest = omega (arith, h, low);
      longest = omega (arith, h, high);
    }
