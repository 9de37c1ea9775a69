-- ===== src/Metrics/Requests.antt =====
-- Middleware of metrics.go: what is counted of a request. The next handler is given.
use kaftar.Prelude.{ℕ, zero, suc, String, Option, List, [], ◌∷◌, ℤ, pos, negsuc}
use kaftar.Metrics.Vector.{change}
use kaftar.Metrics.Labels.{HandlerError, normalized_route, normalized_method, response_status}
use kaftar.Metrics.Observers.{Metrics, inc, note}

-- How the next handler ends: it returns, with the status that was written and its error, or panics.
pub data Outcome : Type 0 where
  returned : ℕ → Option HandlerError → Outcome
  panicked : Outcome

pub record Request : Type 0 where
  pub path : String
  pub method : String

abbrev pub inc_ℤ : ℤ → ℤ
inc_ℤ (pos n) = pos (suc n)
inc_ℤ (negsuc zero) = pos 0
inc_ℤ (negsuc (suc n)) = negsuc n

abbrev pub dec_ℤ : ℤ → ℤ
dec_ℤ (pos zero) = negsuc 0
dec_ℤ (pos (suc n)) = pos n
dec_ℤ (negsuc n) = negsuc (suc n)

unfoldable pub request_labels : Request → List String
unfolding normalized_route normalized_method
request_labels r = normalized_route r.path ∷ normalized_method r.method ∷ []

unfoldable pub set_in_flight : (ℤ → ℤ) → Request → Metrics → Metrics
unfolding change request_labels
set_in_flight f r m = record m {
  http_in_flight = change (pos 0) (request_labels r) f m.http_in_flight;
}

module _ (itoa : ℕ → String) where
  -- What follows the call of the next handler; a panic skips it.
  unfoldable pub count_request : Request → ℕ → Outcome → Metrics → Metrics
  unfolding inc note normalized_route normalized_method response_status
  count_request r duration panicked m = m
  count_request r duration (returned written error) m =
      let route = normalized_route r.path in
      let method = normalized_method r.method in
      let status = itoa (response_status written error) in
      record m {
        http_requests = inc (route ∷ method ∷ status ∷ []) m.http_requests;
        http_duration = note (route ∷ method ∷ []) duration m.http_duration;
      }

  -- Middleware: `next` may change the metrics too. The deferred Dec runs after a panic as well.
  unfoldable pub middleware :
      (Metrics → Metrics × Outcome) → Request → ℕ → Metrics → Metrics × Outcome
  unfolding count_request set_in_flight
  middleware next r duration m =
      let (during, outcome) = next (set_in_flight inc_ℤ r m) in
      (set_in_flight dec_ℤ r (count_request r duration outcome during), outcome)
