-- ===== src/Ipam/Partition.antt =====
-- How a layout splits the network between the server, the static and the dynamic addresses.
use openvpn_docker.Domain.Networks.{IsCanonical}
use openvpn_docker.Ipam.Bounds.{IsLayout, size, base, new_ipv4_layout-IsLayout}
use openvpn_docker.Domain.{Network, address_from4, Addr, Address, v6, is4, v4, invalid}
use openvpn_docker.Ipam.{
  Layout, contains, Network, new_range, layout_at, leb, ltb, AddressRange, new_ipv4_layout, ok,
  false, is_empty, ipv4_uint32,
}
use openvpn_docker.Prelude.{
  ℕ, ◌≡◌, ◌<◌, ◌^◌, leb, ltb, ◌-◌, ◌+◌, ◌&&◌, arith, ◌||◌, false, ok, refl, if◌then◌else◌,
}

-- A range that NewIPv4Layout builds, at an IPv4 address.
contains_range :
    (first last capacity : ℕ) (y : ℕ)
    → first < 2 ^ 32
    → last < 2 ^ 32
    → 0 < capacity
    → contains (new_range first last capacity) (address_from4 y) ≡ (leb first y && leb y last)
unfolding contains
contains_range first last capacity y h k c = ground arith

module _ {l : Layout} {n : Network} {x t pool : ℕ} (h : IsLayout l n x t pool) where
  clients_at : (y : ℕ) → contains l.clients (address_from4 y) ≡ (leb (x + 2) y && leb y (x + t - 2))
  unfolding layout_at
  clients_at y = rw h.built (
      contains_range (x + 2) (x + t - 2) (t - 3) y (omega (arith, h)) (omega (arith, h))
        (omega (arith, h)))

  pub static_at :
      (y : ℕ)
      → contains l.static (address_from4 y)
        ≡ (ltb pool (t - 3) && (leb (x + 2) y && leb y (x + t - 2 - pool)))
  unfolding layout_at contains
  static_at y = rw h.built (ground (arith, h))

  dynamic_at :
      (y : ℕ)
      → contains l.dynamic (address_from4 y)
        ≡ (ltb 0 pool && (leb (x + t - 1 - pool) y && leb y (x + t - 2)))
  unfolding layout_at contains
  dynamic_at y = rw h.built (ground (arith, h))

  server_at : l.server ≡ address_from4 (x + 1)
  unfolding layout_at
  server_at = rw h.built (ground (arith, h))

contains_not_ipv4 :
    (r : AddressRange) (a : Addr) → is4 a ≡ false → contains r (record { value = a }) ≡ false
unfolding contains
contains_not_ipv4 r invalid h = ground arith
contains_not_ipv4 r (v4 y) h = cc
contains_not_ipv4 r (v6 y z) h = ground arith

abbrev pub IsSplit : Layout → Address → Type 0
IsSplit l a =
    (contains l.clients a ≡ (contains l.static a || contains l.dynamic a))
    × ((contains l.static a && contains l.dynamic a) ≡ false)

IsSplit-at :
    {l : Layout} {n : Network} {x t pool : ℕ}
    → IsLayout l n x t pool
    → (a : Addr) → IsSplit l (record { value = a })
IsSplit-at {l} h invalid = simp contains_not_ipv4 (refl, refl)
IsSplit-at {l} h (v6 y z) = simp contains_not_ipv4 (refl, refl)
IsSplit-at {l} h (v4 y) = rw (clients_at h y, static_at h y, dynamic_at h y) (ground (arith, h))

-- In a layout that NewIPv4Layout accepts, an address is a client address exactly when it is in the
-- static or in the dynamic range, and it is never in both.
pub layout_partition :
    (n : Network) (pool : ℕ) {l : Layout}
    → IsCanonical n.value
    → new_ipv4_layout n pool ≡ ok l
    → (a : Address) → IsSplit l a
layout_partition n pool c e a = IsSplit-at (new_ipv4_layout-IsLayout n pool c e) a.value

-- The network address, the server's address and the broadcast address of an accepted layout are
-- no client addresses; the server has the first host address.
pub layout_reserved :
    (n : Network) (pool : ℕ) {l : Layout}
    → IsCanonical n.value
    → new_ipv4_layout n pool ≡ ok l
    → (l.server ≡ address_from4 (base n + 1))
      × (contains l.clients (address_from4 (base n)) ≡ false)
      × (contains l.clients l.server ≡ false)
      × (contains l.clients (address_from4 (base n + size n - 1)) ≡ false)
layout_reserved n pool {l} c e =
    let h = new_ipv4_layout-IsLayout n pool c e in
    let server = server_at h in
    (
      server,
      rw (clients_at h) (ground (arith, h)),
      rw (server, clients_at h) (ground (arith, h)),
      rw (clients_at h) (ground (arith, h)),
    )

-- The number of addresses from the first to the last of a range.
abbrev pub span : AddressRange → ℕ
span r = if is_empty r then 0 else ipv4_uint32 r.last.value + 1 - ipv4_uint32 r.first.value

-- Every range of an accepted layout has as many addresses as its capacity says; the static and the
-- dynamic capacity add up to the clients' capacity, which is the block size less three; and the
-- dynamic capacity is the pool size asked for.
pub layout_capacity :
    (n : Network) (pool : ℕ) {l : Layout}
    → IsCanonical n.value
    → new_ipv4_layout n pool ≡ ok l
    → (span l.clients ≡ l.clients.capacity)
      × (span l.static ≡ l.static.capacity)
      × (span l.dynamic ≡ l.dynamic.capacity)
      × (l.static.capacity + l.dynamic.capacity ≡ l.clients.capacity)
      × (l.clients.capacity + 3 ≡ size n)
      × (l.dynamic.capacity ≡ pool)
unfolding layout_at
layout_capacity n pool c e =
    let h = new_ipv4_layout-IsLayout n pool c e in rw h.built (ground (arith, h))
