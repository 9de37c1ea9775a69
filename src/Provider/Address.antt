-- ===== src/Provider/Address.antt =====
-- The addresses of net/netip, as destination.go uses them, and its policy on them.
use kaftar.Prelude.{
  ℕ, ◌+◌, ◌-◌, ◌*◌, ◌/◌, ◌%◌, ◌^◌, String, List, [], ◌∷◌, Bool, true, false, not, ◌&&◌, ◌||◌,
  if◌then◌else◌, ◌==◌, str_eq, any,
}

-- netip.Addr: the zero Addr, an IPv4 address as a 32-bit number, an IPv6 address as a 128-bit
-- number with its zone.
pub data Addr : Type 0 where
  invalid : Addr
  v4 : ℕ → Addr
  v6 : ℕ → String → Addr

-- netip.Prefix, of an IPv4 or an IPv6 address without a zone.
pub data Prefix : Type 0 where
  prefix4 prefix6 : ℕ → ℕ → Prefix

abbrev pub quad : ℕ → ℕ → ℕ → ℕ → ℕ
quad a b c d = ((a * 256 + b) * 256 + c) * 256 + d

-- An IPv6 address by its first four groups, the rest zero.
abbrev pub groups : ℕ → ℕ → ℕ → ℕ → ℕ
groups a b c d = (((a * 65536 + b) * 65536 + c) * 65536 + d) * 2 ^ 64

-- (Addr).Unmap
unfoldable pub unmap : Addr → Addr
unmap invalid = invalid
unmap (v4 n) = v4 n
unmap (v6 n zone) = if n / 2 ^ 32 == 65535 then v4 (n % 2 ^ 32) else v6 n zone

abbrev pub has_zone : Addr → Bool
has_zone (v6 n zone) = not (str_eq zone "")
has_zone _ = false

-- (Prefix).Contains
unfoldable pub contains : Prefix → Addr → Bool
contains (prefix4 base bits) (v4 n) = n / 2 ^ (32 - bits) == base / 2 ^ (32 - bits)
contains (prefix6 base bits) (v6 n zone) =
    str_eq zone "" && n / 2 ^ (128 - bits) == base / 2 ^ (128 - bits)
contains _ _ = false

abbrev pub top16 : ℕ → ℕ
top16 n = n / 2 ^ 112

abbrev pub is_unspecified : Addr → Bool
is_unspecified invalid = false
is_unspecified (v4 n) = n == 0
is_unspecified (v6 n zone) = n == 0 && str_eq zone ""

-- 224.0.0.0/4 and ff00::/8
abbrev pub is_multicast : Addr → Bool
is_multicast invalid = false
is_multicast (v4 n) = n / 2 ^ 28 == 14
is_multicast (v6 n zone) = n / 2 ^ 120 == 255

-- 169.254.0.0/16 and fe80::/10
abbrev pub is_link_local_unicast : Addr → Bool
is_link_local_unicast invalid = false
is_link_local_unicast (v4 n) = n / 2 ^ 16 == 169 * 256 + 254
is_link_local_unicast (v6 n zone) = n / 2 ^ 118 == 0xfe80 / 2 ^ 6

-- 224.0.0.0/24, and ff02 with any flags
abbrev pub is_link_local_multicast : Addr → Bool
is_link_local_multicast invalid = false
is_link_local_multicast (v4 n) = n / 2 ^ 8 == quad 224 0 0 0 / 2 ^ 8
is_link_local_multicast (v6 n zone) = top16 n / 2 ^ 8 == 255 && top16 n % 16 == 2

-- 127.0.0.0/8 and ::1
abbrev pub is_loopback : Addr → Bool
is_loopback invalid = false
is_loopback (v4 n) = n / 2 ^ 24 == 127
is_loopback (v6 n zone) = n == 1

-- 10.0.0.0/8, 172.16.0.0/12, 192.168.0.0/16 and fc00::/7
abbrev pub is_private : Addr → Bool
is_private invalid = false
is_private (v4 n) = n / 2 ^ 24 == 10 || n / 2 ^ 20 == 172 * 16 + 1 || n / 2 ^ 16 == 192 * 256 + 168
is_private (v6 n zone) = n / 2 ^ 121 == 0xfc / 2

abbrev pub is_broadcast : Addr → Bool
is_broadcast (v4 n) = n == 2 ^ 32 - 1
is_broadcast _ = false

abbrev pub is_valid : Addr → Bool
is_valid invalid = false
is_valid _ = true

abbrev pub is_6 : Addr → Bool
is_6 (v6 n zone) = true
is_6 _ = false

-- (Addr).IsGlobalUnicast
abbrev pub is_global_unicast : Addr → Bool
is_global_unicast a =
    is_valid a
    && not (is_broadcast a)
    && not (is_unspecified a)
    && not (is_loopback a)
    && not (is_multicast a)
    && not (is_link_local_unicast a)

-- specialNetworks
abbrev pub special_networks : List Prefix
special_networks =
    prefix4 (quad 0 0 0 0) 8
    ∷ prefix4 (quad 100 64 0 0) 10
    ∷ prefix4 (quad 192 0 0 0) 24
    ∷ prefix4 (quad 192 0 2 0) 24
    ∷ prefix4 (quad 192 88 99 0) 24
    ∷ prefix4 (quad 198 18 0 0) 15
    ∷ prefix4 (quad 198 51 100 0) 24
    ∷ prefix4 (quad 203 0 113 0) 24
    ∷ prefix4 (quad 240 0 0 0) 4
    ∷ prefix6 (groups 0x64 0xff9b 0 0) 96
    ∷ prefix6 (groups 0x64 0xff9b 1 0) 48
    ∷ prefix6 (groups 0x100 0 0 0) 64
    ∷ prefix6 (groups 0x2001 0 0 0) 23
    ∷ prefix6 (groups 0x2001 0xdb8 0 0) 32
    ∷ prefix6 (groups 0x2002 0 0 0) 16
    ∷ prefix6 (groups 0x3fff 0 0 0) 20
    ∷ []

-- 168.63.129.16 and fd00:ec2::254
abbrev pub is_metadata : Addr → Bool
is_metadata invalid = false
is_metadata (v4 n) = n == quad 168 63 129 16
is_metadata (v6 n zone) = n == groups 0xfd00 0xec2 0 0 + 0x254 && str_eq zone ""

abbrev pub in_any : List Prefix → Addr → Bool
unfolding contains any
in_any prefixes a = any (λ p. contains p a) prefixes

-- The tests of permits, on an address that is not mapped.
unfoldable pub permits_unmapped : List Prefix → Addr → Bool
unfolding contains any
permits_unmapped private a =
    if not (is_valid a)
      || has_zone a
      || is_unspecified a
      || is_multicast a
      || is_link_local_unicast a
      || is_link_local_multicast a
    then false
    else if is_metadata a
    then false
    else if in_any special_networks a
    then false
    else if is_private a || is_loopback a
    then in_any private a
    else if is_6 a && not (contains (prefix6 (groups 0x2000 0 0 0) 3) a)
    then false
    else is_global_unicast a

-- (*destinationPolicy).permits, for the policy's private prefixes.
unfoldable pub permits : List Prefix → Addr → Bool
unfolding unmap permits_unmapped
permits private a = permits_unmapped private (unmap a)
