-- ===== src/Provider/Headers.antt =====
-- What the HTTP sender makes of a message's headers.
use kaftar.Prelude.{
  String, ◌≡◌, refl, sym, ◌∙◌, List, [], ◌∷◌, Bool, true, false, not, ◌||◌, arith, All, All-mono,
  any, str_eq, str_eq_iff, str_eq_refl, subst, Bool-cases, inl, inr,
}
use mathlib.Core.List.{Memᴰ}
use kaftar.Provider.Client.{failure, ok}
use kaftar.Provider.Destination.{Net}
use kaftar.Provider.Http.{Header, hop_by_hop, set_header, set_headers}
use kaftar.Provider.Inversion.{guard-ok}

abbrev pub has_key : String → Header → Bool
has_key key header = any (λ h. str_eq h.0 key) header

-- No key stands twice.
abbrev pub IsUnique : Header → Type 0
IsUnique [] = Unit
IsUnique ((k, v) ∷ rest) = (has_key k rest ≡ false) × IsUnique rest

-- The header that is sent for these headers: it has the canonical form of each name, once, with the
-- value of a header of the message whose name has that form, and nothing else; and no name is one
-- of a connection or an authority.
pub record IsHeaderOf (net : Net) (canonical : String → String) (headers : List (String × String))
    (sent : Header) : Type 0 where
  pub allowed : All (λ k. any (λ h. str_eq h (net.to_lower k.0)) hop_by_hop ≡ false) headers
  pub taken : All (λ k. has_key (canonical k.0) sent ≡ true) headers
  pub once : IsUnique sent
  pub own : All (λ h. (k : String × String) × Memᴰ k headers × (h ≡ (canonical k.0, k.1))) sent

has_key-set_header :
    (j key value : String) (header : Header)
    → has_key j (set_header key value header) ≡ (str_eq key j || has_key j header)
unfolding set_header any
has_key-set_header j key value [] = refl
has_key-set_header j key value ((k, v) ∷ rest) = elim (Bool-cases (str_eq k key)) [
  | inl e ↦ rw (e, (str_eq_iff k key).0 e) (twice (str_eq key j) (has_key j rest))
  | inr e ↦
      rw (e, has_key-set_header j key value rest)
        (swapped (str_eq k j) (str_eq key j) (has_key j rest))
]
  where
    twice : (a b : Bool) → (a || b) ≡ (a || (a || b))
    twice true b = refl
    twice false b = refl

    swapped : (a b c : Bool) → (a || (b || c)) ≡ (b || (a || c))
    swapped true true c = refl
    swapped true false c = refl
    swapped false b c = refl

set_header-IsUnique :
    (key value : String) (header : Header)
    → IsUnique header
    → IsUnique (set_header key value header)
unfolding set_header any
set_header-IsUnique key value [] u = (refl, tt)
set_header-IsUnique key value ((k, v) ∷ rest) u = elim (Bool-cases (str_eq k key)) [
  | inl e ↦ rw (e) (rw (sym ((str_eq_iff k key).0 e)) u)
  | inr e ↦ rw (e) (
    has_key-set_header k key value rest ∙ ground (arith, u.0, str_eq_iff k key, str_eq_iff key k),
    set_header-IsUnique key value rest u.1,
  )
]

set_header-All :
    (P : String × String → Type 0) (key value : String) (header : Header)
    → P (key, value)
    → All P header
    → All P (set_header key value header)
unfolding set_header
set_header-All P key value [] p a = (p, tt)
set_header-All P key value ((k, v) ∷ rest) p a = elim (Bool-cases (str_eq k key)) [
  | inl e ↦ rw (e) (p, a.1)
  | inr e ↦ rw (e) (a.0, set_header-All P key value rest p a.1)
]

All-self : (headers : List (String × String)) → All (λ k. Memᴰ k headers) headers
All-self [] = tt
All-self (h ∷ headers) = (Memᴰ.head refl, All-mono (λ k m. Memᴰ.tail m) headers (All-self headers))

module _ (net : Net) (canonical : String → String) where
  abbrev allows : String → Bool
  allows name = any (λ h. str_eq h (net.to_lower name)) hop_by_hop

  -- The first step of the loop, and the rest.
  one_set :
      (name value : String) (headers : List (String × String)) (header sent : Header)
      → set_headers net canonical ((name, value) ∷ headers) header ≡ ok sent
      → (allows name ≡ false)
        × (set_headers net canonical headers (set_header (canonical name) value header) ≡ ok sent)
  unfolding set_headers
  one_set name value headers header sent h =
      let (g, rest) =
        guard-ok (not (allows name))
          (failure "http: hop-by-hop or authority header is not permitted") _ h in
      (ground arith, rest)

  all_allowed :
      (headers : List (String × String)) (header sent : Header)
      → set_headers net canonical headers header ≡ ok sent
      → All (λ k. allows k.0 ≡ false) headers
  all_allowed [] header sent h = tt
  all_allowed ((name, value) ∷ headers) header sent h =
      let (a, rest) = one_set name value headers header sent h in
      (a, all_allowed headers (set_header (canonical name) value header) sent rest)

  -- What every write of Set keeps holds of the header at the end.
  kept :
      (P : Header → Type 0)
      → ((name value : String) (header : Header)
          → P header
          → P (set_header (canonical name) value header))
      → (headers : List (String × String)) (header sent : Header)
      → set_headers net canonical headers header ≡ ok sent
      → P header
      → P sent
  unfolding set_headers
  kept P keeps [] header sent h p = subst P (grind (arith, h)) p
  kept P keeps ((name, value) ∷ headers) header sent h p =
      let (a, rest) = one_set name value headers header sent h in
      kept P keeps headers (set_header (canonical name) value header) sent rest
        (keeps name value header p)

  all_taken :
      (headers : List (String × String)) (header sent : Header)
      → set_headers net canonical headers header ≡ ok sent
      → All (λ k. has_key (canonical k.0) sent ≡ true) headers
  all_taken [] header sent h = tt
  all_taken ((name, value) ∷ headers) header sent h =
      let (a, rest) = one_set name value headers header sent h in
      let after = set_header (canonical name) value header in
      (
        kept (λ s. has_key (canonical name) s ≡ true)
            (λ n v s k. has_key-set_header (canonical name) (canonical n) v s ∙ ground (arith, k))
            headers after sent rest
            (has_key-set_header (canonical name) (canonical name) value header
              ∙ ground (arith, str_eq_refl (canonical name))),
        all_taken headers after sent rest,
      )

  all_own :
      (P : String × String → Type 0) (headers : List (String × String)) (header sent : Header)
      → set_headers net canonical headers header ≡ ok sent
      → All (λ k. P (canonical k.0, k.1)) headers
      → All P header
      → All P sent
  unfolding set_headers
  all_own P [] header sent h p a = subst (All P) (grind (arith, h)) a
  all_own P ((name, value) ∷ headers) header sent h p a =
      let (g, rest) = one_set name value headers header sent h in
      all_own P headers (set_header (canonical name) value header) sent rest p.1
        (set_header-All P (canonical name) value header p.0 a)

  pub set_headers-IsHeaderOf :
      (headers : List (String × String)) (sent : Header)
      → set_headers net canonical headers [] ≡ ok sent
      → IsHeaderOf net canonical headers sent
  set_headers-IsHeaderOf headers sent h = record {
    allowed = all_allowed headers [] sent h;
    taken = all_taken headers [] sent h;
    once = kept IsUnique (λ n v s. set_header-IsUnique (canonical n) v s) headers [] sent h tt;
    own =
        all_own (λ h. (k : String × String) × Memᴰ k headers × (h ≡ (canonical k.0, k.1))) headers
          [] sent h (All-mono (λ k m. (k, m, refl)) headers (All-self headers)) tt;
  }
