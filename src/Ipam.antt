-- ===== src/Ipam.antt =====
-- internal/ipam/ipv4.go: the address plan of one IPv4 tunnel network, and static allocation.
pub mod Bounds
pub mod Partition
pub mod Allocation
pub mod Fresh
mod Tests
use openvpn_docker.Prelude.{
  ℕ, zero, suc, ◌+◌, ◌-◌, ◌%◌, ◌^◌, Bool, true, false, ◌&&◌, List, [], ◌∷◌, map, Result, ok, err,
  ◌>>=◌, ◌>>◌, refuse_if, ltb, leb, ◌==◌, if◌then◌else◌, has, ◌*◌,
}
use openvpn_docker.Domain.{
  Addr, invalid, v4, v6, Prefix, no_prefix, prefix, AddressFamily, unknown, ipv4, ipv6, Address,
  Network, address_from4, family, network_family,
}

pub data IpamError : Type 0 where
  unsupported_family network_too_small pool_too_large : IpamError
  not_ipv4 outside_static outside_dynamic duplicate_static static_exhausted : IpamError

pub record AddressRange : Type 0 where
  pub first : Address
  pub last : Address
  pub capacity : ℕ  -- uint64

-- The zero value of an AddressRange.
abbrev pub no_range : AddressRange
no_range = record {
  first = record { value = invalid };
  last = record { value = invalid };
  capacity = 0;
}

abbrev pub is_empty : AddressRange → Bool
is_empty r = r.capacity == 0

-- As4 panics on the zero value and on an IPv6 address that is not mapped; each call in this
-- package stands behind a test of the family or of an empty range.
abbrev pub ipv4_uint32 : Addr → ℕ
ipv4_uint32 invalid = 0
ipv4_uint32 (v4 n) = n
ipv4_uint32 (v6 n _) = n % 2 ^ 32

abbrev pub uint32 : ℕ → ℕ
uint32 n = n % 2 ^ 32

abbrev pub is_ipv4 : AddressFamily → Bool
is_ipv4 ipv4 = true
is_ipv4 _ = false

unfoldable pub contains : AddressRange → Address → Bool
contains r a =
    if is_empty r
    then false
    else if is_ipv4 (family a)
    then leb (ipv4_uint32 r.first.value) (ipv4_uint32 a.value)
      && leb (ipv4_uint32 a.value) (ipv4_uint32 r.last.value)
    else false

pub record Layout : Type 0 where
  pub network : Network
  pub netmask : Address
  pub server : Address
  pub clients : AddressRange
  pub static : AddressRange
  pub dynamic : AddressRange

-- Prefix.Bits(); -1 of the zero value is not met behind the family test.
abbrev pub prefix_bits : Prefix → ℕ
prefix_bits no_prefix = 0
prefix_bits (prefix _ bits) = bits

abbrev pub prefix_addr : Prefix → Addr
prefix_addr no_prefix = invalid
prefix_addr (prefix a _) = a

unfoldable pub client_capacity : Network → Result IpamError ℕ
client_capacity n = do
  refuse_if (if is_ipv4 (network_family n) then false else true) unsupported_family
  refuse_if (ltb 30 (prefix_bits n.value)) network_too_small
  ok (2 ^ (32 - prefix_bits n.value) - 3)

-- ^uint32(0) << (32 - prefix)
unfoldable pub uint32_mask : ℕ → ℕ
uint32_mask bits = if bits == 0 then 0 else uint32 ((2 ^ 32 - 1) * 2 ^ (32 - bits))

abbrev pub new_range : ℕ → ℕ → ℕ → AddressRange
new_range first last capacity = record {
  first = address_from4 (uint32 first);
  last = address_from4 (uint32 last);
  capacity = capacity;
}

-- The layout for a network value, the number of addresses in it, a capacity and a pool size.
unfoldable pub layout_at : Network → ℕ → ℕ → ℕ → ℕ → Layout
unfolding uint32_mask
layout_at n value total capacity pool = record {
  network = n;
  netmask = address_from4 (uint32_mask (prefix_bits n.value));
  server = address_from4 (uint32 (value + 1));
  clients = new_range (value + 2) (value + total - 2) capacity;
  static =
      if ltb 0 (capacity - pool)
      then new_range (value + 2) (value + 2 + (capacity - pool) - 1) (capacity - pool)
      else no_range;
  dynamic =
      if ltb 0 pool
      then new_range (value + total - 2 - pool + 1) (value + total - 2) pool
      else no_range;
}

unfoldable pub new_ipv4_layout : Network → ℕ → Result IpamError Layout
new_ipv4_layout n pool = do
  capacity ← client_capacity n
  refuse_if (ltb capacity pool) pool_too_large
  ok (
      layout_at n (ipv4_uint32 (prefix_addr n.value)) (2 ^ (32 - prefix_bits n.value)) capacity
        pool)

unfoldable pub validate_static : Layout → Address → Result IpamError (Unit {0})
validate_static l a = do
  refuse_if (if is_ipv4 (family a) then false else true) not_ipv4
  refuse_if (if contains l.static a then false else true) outside_static

unfoldable pub validate_dynamic_lease : Layout → Address → Result IpamError (Unit {0})
validate_dynamic_lease l a = do
  refuse_if (if is_ipv4 (family a) then false else true) not_ipv4
  refuse_if (if contains l.dynamic a then false else true) outside_dynamic

-- The loop of ValidateStaticSet; `seen` is the map.
validate_set_from : Layout → List ℕ → List Address → Result IpamError (Unit {0})
validate_set_from l seen [] = ok tt
validate_set_from l seen (a ∷ as') = do
  validate_static l a
  refuse_if (has seen (ipv4_uint32 a.value)) duplicate_static
  validate_set_from l (ipv4_uint32 a.value ∷ seen) as'

unfoldable pub validate_static_set : Layout → List Address → Result IpamError (Unit {0})
unfolding validate_set_from
validate_static_set l addresses = validate_set_from l [] addresses

abbrev pub values : List Address → List ℕ
values = map (λ a. ipv4_uint32 a.value)

-- The loop over the candidates, with the number of candidates left.
next_from : List ℕ → ℕ → ℕ → Result IpamError Address
next_from used zero candidate = err static_exhausted
next_from used (suc left) candidate =
    let rest = next_from used left (candidate + 1) in
    if has used (uint32 candidate) then rest else ok (address_from4 (uint32 candidate))

unfoldable pub next_static : Layout → List Address → Result IpamError Address
unfolding next_from
next_static l addresses = do
  validate_static_set l addresses
  refuse_if (is_empty l.static) static_exhausted
  let first = ipv4_uint32 l.static.first.value
  let last = ipv4_uint32 l.static.last.value
  next_from (values addresses) (last + 1 - first) first
