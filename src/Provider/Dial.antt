-- ===== src/Provider/Dial.antt =====
-- What the HTTP provider can reach: every address it dials.
use kaftar.Prelude.{
  ℕ, ◌/◌, ◌*◌, ◌+◌, ◌^◌, String, ◌≡◌, ◌≢◌, refl, ap, ◌∙◌, subst, some, List, [], ◌∷◌, Bool, true,
  ◌==◌, any, all, arith, All, All-mono, Bool-cases, inl, inr, Option-cases,
}
use kaftar.Provider.Client.{ProviderError, failure, Result, ok, err}
use kaftar.Provider.Address.{
  Addr, invalid, v4, v6, Prefix, unmap, permits, permits_unmapped, contains,
}
use kaftar.Provider.Destination.{
  Net, Policy, Network, Dialed, is_allowed, key, try_address, dial_rest, dial_each, dial_checked,
  dial_context, refuse, addresses_of,
}

-- Whatever was tried, and whatever was reached, satisfies P.
pub record OnlyDials (P : Addr → Type 0) (d : Dialed) : Type 0 where
  pub tries : All P d.tried
  pub reaches : (a : Addr) → d.connection ≡ ok a → P a

unmap-unmap : (a : Addr) → unmap (unmap a) ≡ unmap a
unfolding unmap
unmap-unmap invalid = refl
unmap-unmap (v4 n) = refl
unmap-unmap (v6 n zone) = elim (Bool-cases (n / 2 ^ 32 == 65535)) [
  | inl m ↦ rw (m)
  | inr m ↦ rw (m, m)
]

permits-unmap : (private : List Prefix) (a : Addr) → permits private (unmap a) ≡ permits private a
unfolding permits
permits-unmap private a = ap (permits_unmapped private) (unmap-unmap a)

ok_injective : {A : Type 0} {a b : A} → ok a ≡ ok b → a ≡ b
ok_injective {a = a} e = ap (λ r. elim r [ ok x ↦ x | err _ ↦ a ]) e

module _ (network : Network) (P : Addr → Type 0) where
  try_address-OnlyDials :
      (port : String) (a : Addr) (rest : ProviderError → Dialed)
      → P a
      → ((e : ProviderError) → OnlyDials P (rest e))
      → OnlyDials P (try_address network port a rest)
  try_address-OnlyDials port a rest p h = elim (Option-cases (network.dial a port)) [
    | inl n ↦
        rw (n, try_address)
          (record { tries = (p, tt); reaches = λ b e. subst P (ok_injective e) p })
    | inr (error, n) ↦ elim (Option-cases (network.context_error a)) [
      | inl c ↦
          rw (n, c, try_address)
            (record { tries = (p, (h error).tries); reaches = (h error).reaches })
      | inr (stop, c) ↦
          rw (n, c, try_address)
            (record { tries = (p, tt); reaches = λ b e. absurd (ground arith) })
    ]
  ]

  dial_rest-OnlyDials :
      (port : String) (last : ProviderError) (addresses : List Addr)
      → All (λ a. P (unmap a)) addresses
      → OnlyDials P (dial_rest network port last addresses)
  unfolding dial_rest
  dial_rest-OnlyDials port last [] h = record { tries = tt; reaches = λ a e. absurd (ground arith) }
  dial_rest-OnlyDials port last (a ∷ addresses) h =
      try_address-OnlyDials port (unmap a) (λ e. dial_rest network port e addresses) h.0
        (λ e. dial_rest-OnlyDials port e addresses h.1)

  dial_each-OnlyDials :
      (port : String) (a : Addr) (addresses : List Addr)
      → P (unmap a)
      → All (λ a. P (unmap a)) addresses
      → OnlyDials P (dial_each network port a addresses)
  unfolding dial_each
  dial_each-OnlyDials port a addresses p h =
      try_address-OnlyDials port (unmap a) (λ e. dial_rest network port e addresses) p
        (λ e. dial_rest-OnlyDials port e addresses h)

  refuse-OnlyDials : (e : ProviderError) → OnlyDials P (refuse network e)
  refuse-OnlyDials e = record { tries = tt; reaches = λ a h. absurd (ground arith) }

all-All : (p : Addr → Bool) (xs : List Addr) → all p xs ≡ true → All (λ x. p x ≡ true) xs
unfolding all
all-All p [] h = tt
all-All p (x ∷ xs) h = ground (arith, all-All p xs)

-- The target is one of the policy's entries, and the policy permits the address.
pub record IsGuarded (net : Net) (policy : Policy) (target : String) (a : Addr) : Type 0 where
  pub host : String
  pub port : String
  pub split : net.split_host_port target ≡ some (host, port)
  pub listed : is_allowed policy (key net host port) ≡ true
  pub permitted : permits policy.private a ≡ true

module _ (net : Net) (network : Network) (policy : Policy) (target : String) where
  dial_checked-OnlyDials :
      (host port : String)
      → net.split_host_port target ≡ some (host, port)
      → is_allowed policy (key net host port) ≡ true
      → (addresses : Result (List Addr))
      → OnlyDials (IsGuarded net policy target) (dial_checked net network policy port addresses)
  unfolding dial_checked
  dial_checked-OnlyDials host port s l (err e) =
      refuse-OnlyDials network (IsGuarded net policy target) e
  dial_checked-OnlyDials host port s l (ok []) =
      refuse-OnlyDials network (IsGuarded net policy target)
        (failure "http: destination has no addresses")
  dial_checked-OnlyDials host port s l (ok (a ∷ rest)) =
      elim (Bool-cases (all (permits policy.private) (a ∷ rest))) [
        | inl p ↦ rw (p) (
            dial_each-OnlyDials network (IsGuarded net policy target) port a rest
              (guarded a (all-All (permits policy.private) (a ∷ rest) p).0)
              (All-mono guarded rest (all-All (permits policy.private) (a ∷ rest) p).1))
        | inr p ↦ rw (p) (
            refuse-OnlyDials network (IsGuarded net policy target)
              (failure "http: destination address is blocked"))
      ]
    where
      guarded : (x : Addr) → permits policy.private x ≡ true → IsGuarded net policy target (unmap x)
      guarded x q = record {
        host = host;
        port = port;
        split = s;
        listed = l;
        permitted = permits-unmap policy.private x ∙ q;
      }

  -- Whatever the target and whatever its name resolves to, every address that a dial tries or
  -- reaches belongs to a target that is one of the policy's entries, and is an address that
  -- the policy permits.
  pub dial_context-OnlyDials :
      OnlyDials (IsGuarded net policy target) (dial_context net network policy target)
  unfolding dial_context
  dial_context-OnlyDials = elim (Option-cases (net.split_host_port target)) [
    | inl n ↦
        rw (n, dial_context)
          (refuse-OnlyDials network (IsGuarded net policy target)
            (failure "http: invalid destination"))
    | inr ((host, port), n) ↦ elim (Bool-cases (is_allowed policy (key net host port))) [
      | inl l ↦
          rw (n, l, dial_context)
            (dial_checked-OnlyDials host port n l
              (addresses_of net network (net.to_lower (net.trim_dot host))))
      | inr l ↦
          rw (n, l, dial_context)
            (refuse-OnlyDials network (IsGuarded net policy target)
              (failure "http: destination is not allowlisted"))
    ]
  ]

-- Without configured private networks, a permitted IPv4 address is in none of the ranges that
-- reach the host itself, its neighbours or a cloud's metadata service.
pub record IsPublic (n : ℕ) : Type 0 where
  pub not_this_host : n / 2 ^ 24 ≢ 0
  pub not_loopback : n / 2 ^ 24 ≢ 127
  pub not_ten : n / 2 ^ 24 ≢ 10
  pub not_link_local : n / 2 ^ 16 ≢ 169 * 256 + 254
  pub not_multicast : n / 2 ^ 28 ≢ 14

-- Under a policy without private networks, a permitted IPv4 address lies outside 0.0.0.0/8,
-- 127.0.0.0/8, 10.0.0.0/8, 169.254.0.0/16 and 224.0.0.0/4.
pub permits-IsPublic : (n : ℕ) → permits [] (v4 n) ≡ true → IsPublic n
unfolding permits unmap permits_unmapped any contains
permits-IsPublic n h = record {
  not_this_host = λ e. ground arith;
  not_loopback = λ e. ground arith;
  not_ten = λ e. ground arith;
  not_link_local = λ e. ground arith;
  not_multicast = λ e. ground arith;
}
