-- ===== src/Domain.antt =====
-- internal/domain/address.go: addresses and networks, over Go's net/netip values.
pub mod Networks
pub mod Config
pub mod Sets
pub mod Ids
use openvpn_docker.Prelude.{
  ℕ, ◌-◌, ◌/◌, ◌%◌, ◌^◌, ◌<◌, String, Bool, true, false, not, ◌&&◌, ◌||◌, Result, ok, err, ltb,
  ◌==◌, str_eq, if◌then◌else◌,
}

-- netip.Addr: the zero value, 32 bits, or 128 bits with a zone.
pub data Addr : Type 0 where
  invalid : Addr
  v4 : ℕ → Addr
  v6 : ℕ → String → Addr

-- netip.Prefix: the zero value has Bits() = -1.
pub data Prefix : Type 0 where
  no_prefix : Prefix
  prefix : Addr → ℕ → Prefix

pub data AddressFamily : Type 0 where
  unknown ipv4 ipv6 : AddressFamily

pub Family-discrete : Discrete AddressFamily
Family-discrete = hlevel

pub data DomainError : Type 0 where
  address_invalid address_zoned : DomainError
  network_invalid network_prefix_length network_not_canonical : DomainError

pub record Address : Type 0 where
  pub value : Addr

pub record Network : Type 0 where
  pub value : Prefix

-- An IPv4-mapped IPv6 address becomes the IPv4 address in its low 32 bits.
unfoldable pub unmap : Addr → Addr
unmap (v6 n zone) = if n / 2 ^ 32 == 0xffff then v4 (n % 2 ^ 32) else v6 n zone
unmap a = a

abbrev pub is4 : Addr → Bool
is4 (v4 _) = true
is4 _ = false

abbrev pub is6 : Addr → Bool
is6 (v6 _ _) = true
is6 _ = false

abbrev pub bit_len : Addr → ℕ
bit_len invalid = 0
bit_len (v4 _) = 32
bit_len (v6 _ _) = 128

abbrev pub zone : Addr → String
zone (v6 _ z) = z
zone _ = ""

unfoldable pub new_address : Addr → Result DomainError Address
unfolding unmap
new_address invalid = err address_invalid
new_address a =
    if not (str_eq (zone a) "") then err address_zoned else ok (record { value = unmap a })

abbrev pub address_from4 : ℕ → Address
address_from4 n = record { value = v4 n }

abbrev pub addr_family : Addr → AddressFamily
addr_family invalid = unknown
addr_family (v4 _) = ipv4
addr_family (v6 _ _) = ipv6

abbrev pub family : Address → AddressFamily
family a = addr_family a.value

abbrev prefix_family : Prefix → AddressFamily
prefix_family no_prefix = unknown
prefix_family (prefix a _) = elim a [ v4 _ ↦ ipv4 | _ ↦ ipv6 ]

abbrev pub network_family : Network → AddressFamily
network_family n = prefix_family n.value

-- `value == value.Masked()`: no host bit is set.
abbrev pub canonical : Addr → ℕ → Bool
canonical (v4 n) bits = n % 2 ^ (32 - bits) == 0
canonical (v6 n _) bits = n % 2 ^ (128 - bits) == 0
canonical invalid bits = false

-- The prefix length counted in the unmapped address; the second test is `bits < 0`.
checked_network : Addr → ℕ → Result DomainError Network
checked_network a bits =
    if ltb (bit_len a) bits
    then err network_prefix_length
    else if canonical a bits
    then ok (record { value = prefix a bits })
    else err network_not_canonical

-- `if address.Is4() && value.Addr().Is6() { bits -= 96 }`, and then the tests.
rebased_network : Bool → Addr → ℕ → Result DomainError Network
rebased_network true a bits =
    if ltb bits 96 then err network_prefix_length else checked_network a (bits - 96)
rebased_network false a bits = checked_network a bits

unfoldable pub new_network : Prefix → Result DomainError Network
unfolding rebased_network checked_network
new_network no_prefix = err network_invalid
new_network (prefix invalid _) = err network_invalid
new_network (prefix a bits) = rebased_network (is4 (unmap a) && is6 a) (unmap a) bits
