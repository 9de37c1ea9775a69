-- ===== src/Provider/Inversion.antt =====
-- Inversion of a chain of provider calls that ended without an error.
use kaftar.Prelude.{
  ℕ, ◌∙◌, not, ltb, length, String, ◌≡◌, refl, Option, none, some, Bool, true, false, arith,
}
use kaftar.Provider.Client.{
  ProviderError, Result, ok, err, ◌>>=◌, guard, error_of, safe_error, safely, successful,
  response_limit, Response, response,
}
use kaftar.Entity.Message.{Bytes}
use kaftar.Provider.Http.{of_option, of_text, wrap_error}

module _ {A : Type 0} where
  -- A chain that ends well went well at its first step.
  pub bind-ok :
      {B : Type 0} {b : B} (r : Result A) (f : A → Result B)
      → (r >>= f) ≡ ok b
      → (a : A) × (r ≡ ok a) × (f a ≡ ok b)
  bind-ok (ok a) f h = (a, refl, h)
  bind-ok (err e) f h = absurd (ground arith)

pub bind_unit :
    {B : Type 0} {b : B} (r : Result (Unit {0})) (f : Result B)
    → (r >>= λ _. f) ≡ ok b
    → (r ≡ ok tt) × (f ≡ ok b)
bind_unit (ok u) f h = (refl, h)
bind_unit (err e) f h = absurd (ground arith)

pub guard-ok :
    {B : Type 0} {b : B} (t : Bool) (e : ProviderError) (f : Result B)
    → (guard t e >>= λ _. f) ≡ ok b
    → (t ≡ true) × (f ≡ ok b)
guard-ok true e f h = (refl, h)
guard-ok false e f h = absurd (ground arith)

pub no_error : (r : Result (Unit {0})) → error_of r ≡ none → r ≡ ok tt
no_error (ok u) h = refl
no_error (err e) h = absurd (ground arith)

pub unsafe_none :
    (provider : String) (e : Option ProviderError) → safe_error provider e ≡ none → e ≡ none
unfolding safe_error
unsafe_none provider none h = refl
unsafe_none provider (some e) h = absurd (ground arith)

pub option_none :
    {B : Type 0} {b : B} (o : Option ProviderError) (f : Result B)
    → (of_option o >>= λ _. f) ≡ ok b
    → (o ≡ none) × (f ≡ ok b)
option_none none f h = (refl, h)
option_none (some e) f h = absurd (ground arith)

pub unwrap :
    {A : Type 0} {a : A} (text : String) (r : Result A) → wrap_error text r ≡ ok a → r ≡ ok a
unwrap text (ok a) h = h
unwrap text (err e) h = absurd (ground arith)

pub text_none :
    (o : Option String) {B : Type 0} {b : B} (f : Result B)
    → (of_text o >>= λ _. f) ≡ ok b
    → (o ≡ none) × (f ≡ ok b)
text_none none f h = (refl, h)
text_none (some e) f h = absurd (ground arith)

pub guard-true : (t : Bool) (e : ProviderError) → guard t e ≡ ok tt → t ≡ true
guard-true true e h = refl
guard-true false e h = absurd (ground arith)

kept_safely :
    {A : Type 0} {a : A} (provider : String) (r : Result A) → safely provider r ≡ ok a → r ≡ ok a
unfolding safely
kept_safely provider (ok a) h = h
kept_safely provider (err e) h = absurd (ground arith)

-- A response that was read: the answer had status 200, and its body is these bytes.
pub record IsRead (answer : Result Response) (body : Bytes) : Type 0 where
  pub response : Response
  pub answered : answer ≡ ok response
  pub status : response.status_code ≡ 200
  pub read : response.body ≡ ok body

pub response-IsRead :
    (print : ℕ → String) (provider : String) (answer : Result Response) (body : Bytes)
    → response print provider 200 answer ≡ ok body
    → IsRead answer body
unfolding response
response-IsRead print provider answer body h =
    let (r, a, h1) = bind-ok (safely provider answer) _ h in
    let (s, h2) = guard-ok (successful 200 r.status_code) _ _ h1 in
    let (b, c, h3) = bind-ok (safely provider r.body) _ h2 in
    let (l, h4) = guard-ok (not (ltb response_limit (length b))) _ (ok b) h3 in
    record {
      response = r;
      answered = kept_safely provider answer a;
      status = ground arith;
      read = kept_safely provider r.body c ∙ h4;
    }
