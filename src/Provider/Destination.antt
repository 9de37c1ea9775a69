-- ===== src/Provider/Destination.antt =====
-- destination.go of the HTTP provider: the policy and the dial. Functions of Go's packages net,
-- netip, strconv and strings are the parameter `Net`.
use kaftar.Prelude.{
  String, Option, none, some, List, [], ◌∷◌, Bool, false, not, ◌&&◌, ◌||◌, if◌then◌else◌, any, all,
  str_eq, ltb, ℤ, pos, negsuc,
}
use kaftar.Provider.Client.{ProviderError, failure, classify, Result, ok, err, ◌>>=◌, safely}
use kaftar.Provider.Address.{Addr, Prefix, permits, unmap}

pub record Net : Type 0 where
  pub split_host_port : String → Option (String × String)
  pub join_host_port : String → String → String
  pub atoi : String → Option ℤ
  pub itoa : ℤ → String
  pub to_lower : String → String
  pub trim_dot : String → String
  pub contains_any : String → String → Bool
  pub parse_addr : String → Option Addr
  pub parse_prefix : String → Option Prefix
  pub masked : Prefix → Prefix

-- destinationPolicy, without its two functions.
pub record Policy : Type 0 where
  pub allowed : List String
  pub private : List Prefix

-- What the code reads of a *url.URL.
pub record Destination : Type 0 where
  pub scheme : String
  pub user : Bool
  pub fragment : String
  pub hostname : String
  pub port : String

abbrev pub is_allowed : Policy → String → Bool
unfolding any
is_allowed policy key = any (λ k. str_eq k key) policy.allowed

abbrev pub port_in_range : ℤ → Bool
port_in_range (pos n) = not (ltb n 1) && not (ltb 65535 n)
port_in_range (negsuc n) = false

module _ (net : Net) where
  -- The key of the map for a host and a port.
  abbrev pub key : String → String → String
  key host port = net.join_host_port (net.to_lower (net.trim_dot host)) port

  abbrev pub entry : String → Option ℤ → Result String
  entry host none = err (failure "HTTP destinations must be exact host:port entries")
  entry host (some number) =
      if not (port_in_range number) || str_eq host "" || net.contains_any host "/@?#% \t\r\n"
      then err (failure "HTTP destinations must be exact host:port entries")
      else ok (key host (net.itoa number))

  abbrev pub destination_key : String → Result String
  destination_key destination = elim (net.split_host_port destination) [
    | none ↦ err (failure "HTTP destinations must be exact host:port entries")
    | some (host, port) ↦ entry host (net.atoi port)
  ]

  -- The two loops of newDestinationPolicy.
  unfoldable pub allowed_keys : List String → Result (List String)
  allowed_keys [] = ok []
  allowed_keys (d ∷ ds) = do k ← destination_key d; ks ← allowed_keys ds; ok (k ∷ ks)

  abbrev pub private_prefix : Option Prefix → Result Prefix
  private_prefix none = err (failure "invalid HTTP private destination CIDR")
  private_prefix (some p) = ok (net.masked p)

  unfoldable pub private_prefixes : List String → Result (List Prefix)
  private_prefixes [] = ok []
  private_prefixes (c ∷ cs) = do
    p ← private_prefix (net.parse_prefix c)
    ps ← private_prefixes cs
    ok (p ∷ ps)

  -- newDestinationPolicy
  unfoldable pub new_destination_policy : List String → List String → Result Policy
  unfolding allowed_keys private_prefixes
  new_destination_policy destinations cidrs = do
    allowed ← allowed_keys destinations
    private ← private_prefixes cidrs
    ok (record { allowed = allowed; private = private })

  abbrev pub effective_port : Destination → String
  effective_port d =
      if not (str_eq d.port "") then d.port else if str_eq d.scheme "https" then "443" else "80"

  -- (*destinationPolicy).validate
  unfoldable pub validate : Policy → Destination → Option ProviderError
  unfolding any
  validate policy d =
      if d.user
        || not (str_eq d.fragment "")
        || not (str_eq d.scheme "http") && not (str_eq d.scheme "https")
      then some (failure "http: destination is not permitted")
      else if not (is_allowed policy (key d.hostname (effective_port d)))
      then some (failure "http: destination is not allowlisted")
      else none

-- A dial: the address it reached, or the error, and every address that was tried.
pub record Dialed : Type 0 where
  pub connection : Result Addr
  pub tried : List Addr

-- The network around a dial: what a name resolves to, what the dialer answers for an address (none
-- is a connection), and ctx.Err() after it failed.
pub record Network : Type 0 where
  pub resolve : String → Result (List Addr)
  pub dial : Addr → String → Option ProviderError
  pub context_error : Addr → Option ProviderError

module _ (network : Network) where
  -- What a failed dial leads to, if `rest` is what the next addresses lead to.
  abbrev pub dial_next : Addr → Option ProviderError → Dialed → Dialed
  dial_next a (some stop) rest = record { connection = err stop; tried = a ∷ [] }
  dial_next a none rest = record { connection = rest.connection; tried = a ∷ rest.tried }

  -- One turn of the loop over the addresses; `rest` goes on with the error of this turn.
  abbrev pub try_address : String → Addr → (ProviderError → Dialed) → Dialed
  try_address port a rest = elim (network.dial a port) [
    | none ↦ record { connection = ok a; tried = a ∷ [] }
    | some e ↦ dial_next a (network.context_error a) (rest e)
  ]

  -- The loop after its first turn, with the variable err.
  unfoldable pub dial_rest : String → ProviderError → List Addr → Dialed
  unfolding unmap classify
  dial_rest port last [] = record { connection = err (classify "http dial" last); tried = [] }
  dial_rest port last (a ∷ addresses) = try_address port (unmap a) (λ e. dial_rest port e addresses)

  unfoldable pub dial_each : String → Addr → List Addr → Dialed
  unfolding unmap dial_rest
  dial_each port a addresses = try_address port (unmap a) (λ e. dial_rest port e addresses)

  abbrev pub refuse : ProviderError → Dialed
  refuse e = record { connection = err e; tried = [] }

module _ (net : Net) (network : Network) where
  -- A host that is an address is not resolved.
  abbrev pub addresses_of : String → Result (List Addr)
  unfolding classify
  addresses_of host = elim (net.parse_addr host) [
    | some a ↦ ok (a ∷ [])
    | none ↦ safely "http DNS" (network.resolve host)
  ]

  unfoldable pub dial_checked : Policy → String → Result (List Addr) → Dialed
  unfolding all permits dial_each
  dial_checked policy port (err e) = refuse network e
  dial_checked policy port (ok []) = refuse network (failure "http: destination has no addresses")
  dial_checked policy port (ok (a ∷ rest)) =
      if not (all (permits policy.private) (a ∷ rest))
      then refuse network (failure "http: destination address is blocked")
      else dial_each network port a rest

  -- (*destinationPolicy).dialContext
  unfoldable pub dial_context : Policy → String → Dialed
  unfolding any classify dial_checked
  dial_context policy target = elim (net.split_host_port target) [
    | none ↦ refuse network (failure "http: invalid destination")
    | some (host, port) ↦
        if not (is_allowed policy (key net host port))
        then refuse network (failure "http: destination is not allowlisted")
        else dial_checked policy port (addresses_of (net.to_lower (net.trim_dot host)))
  ]
