-- ===== src/Metrics/Balance.antt =====
-- The gauge of requests in flight, over the course of a request.
use kaftar.Prelude.{
  ℕ, zero, suc, String, ◌≡◌, refl, ◌∙◌, ℤ, pos, negsuc, Bool-cases, inl, inr, if◌then◌else◌,
}
use kaftar.Metrics.Vector.{
  Labels, value_at, same_labels, value_at-change, same_labels_iff, same_labels_refl,
}
use kaftar.Metrics.Observers.{Metrics}
use kaftar.Metrics.Requests.{
  Request, Outcome, returned, panicked, inc_ℤ, dec_ℤ, request_labels, count_request, set_in_flight,
  middleware,
}

dec-inc : (z : ℤ) → dec_ℤ (inc_ℤ z) ≡ z
dec-inc (pos n) = refl
dec-inc (negsuc zero) = refl
dec-inc (negsuc (suc n)) = refl

-- How many requests are in flight under some labels.
abbrev pub in_flight : Labels → Metrics → ℤ
in_flight labels m = value_at (pos 0) labels m.http_in_flight

module _ (itoa : ℕ → String) where
  uncounted :
      (r : Request) (duration : ℕ) (outcome : Outcome) (m : Metrics) (labels : Labels)
      → in_flight labels (count_request itoa r duration outcome m) ≡ in_flight labels m
  unfolding count_request
  uncounted r duration panicked m labels = refl
  uncounted r duration (returned written error) m labels = refl

  shown :
      (f : ℤ → ℤ) (r : Request) (m : Metrics) (labels : Labels)
      → in_flight labels (set_in_flight f r m) ≡ (
          if same_labels (request_labels r) labels
          then f (in_flight (request_labels r) m)
          else in_flight labels m)
  unfolding set_in_flight request_labels
  shown f r m labels = value_at-change (pos 0) (request_labels r) labels f m.http_in_flight

  -- If the next handler leaves the gauge as it finds it, so does the middleware, for all labels,
  -- whether the handler returns or panics.
  pub middleware-in_flight :
      (next : Metrics → Metrics × Outcome) (r : Request) (duration : ℕ) (m : Metrics)
      → ((before : Metrics) (labels : Labels)
          → in_flight labels (next before).0 ≡ in_flight labels before)
      → (labels : Labels)
      → in_flight labels (middleware itoa next r duration m).0 ≡ in_flight labels m
  unfolding middleware
  middleware-in_flight next r duration m kept labels =
      let own = request_labels r in
      let during = (next (set_in_flight inc_ℤ r m)).0 in
      let outcome = (next (set_in_flight inc_ℤ r m)).1 in
      let after : (l : Labels)
          → in_flight l (count_request itoa r duration outcome during)
            ≡ in_flight l (set_in_flight inc_ℤ r m) =
        λ l. uncounted r duration outcome during l ∙ kept (set_in_flight inc_ℤ r m) l in
      elim (Bool-cases (same_labels own labels)) [
        | inl e ↦
            rw
              (
                shown dec_ℤ r (count_request itoa r duration outcome during) labels,
                e,
                after own,
                shown inc_ℤ r m own,
                same_labels_refl own,
                dec-inc (in_flight own m),
                same_labels_iff own labels e,
              )
              refl
        | inr e ↦
            rw
              (
                shown dec_ℤ r (count_request itoa r duration outcome during) labels,
                e,
                after labels,
                shown inc_ℤ r m labels,
                e,
              )
              refl
      ]
