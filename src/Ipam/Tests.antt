-- ===== src/Ipam/Tests.antt =====
-- Runs of the address plan on small networks, and the theorems at concrete inputs.
use openvpn_docker.Ipam.Bounds.{size, base}
use openvpn_docker.Domain.Networks.{IsCanonical, new_network-IsCanonical}
use openvpn_docker.Ipam.Allocation.{
  IsStaticSet, next_static_complete, validate_static_set_iff, next_static_sound,
}
use openvpn_docker.Ipam.Partition.{
  IsSplit, span, layout_partition, layout_capacity, layout_reserved,
}
use openvpn_docker.Ipam.{
  new_ipv4_layout, next_static, layout_at, validate_static_set, contains, Layout, values,
  validate_static, client_capacity, static_exhausted, pool_too_large,
}
use openvpn_docker.Domain.{Address, Network, address_from4, prefix, v4, v6, new_network, unmap}
use openvpn_docker.Prelude.{
  ℕ, ◌+◌, ◌-◌, ◌<◌, ◌≡◌, refl, ◌↔◌, true, false, List, [], ◌∷◌, arith, has, ok, err,
}

abbrev small : Network
small = record { value = prefix (v4 0x0a2a0000) 29 }

-- 10.42.0.0/29 with a pool of two: static .2 to .4, dynamic .5 and .6.
abbrev small_layout : Layout
unfolding layout_at
small_layout = layout_at small 0x0a2a0000 8 5 2

small_accepted : new_ipv4_layout small 2 ≡ ok small_layout
unfolding new_ipv4_layout client_capacity layout_at
small_accepted = refl

small-IsCanonical : IsCanonical small.value
small-IsCanonical = omega arith

small_too_large : new_ipv4_layout small 6 ≡ err pool_too_large
unfolding new_ipv4_layout client_capacity layout_at
small_too_large = refl

abbrev taken : List Address
taken = address_from4 0x0a2a0002 ∷ address_from4 0x0a2a0003 ∷ []

next_found : next_static small_layout taken ≡ ok (address_from4 0x0a2a0004)
unfolding next_static validate_static_set validate_static contains layout_at
next_found = refl

next_exhausted : next_static small_layout (address_from4 0x0a2a0004 ∷ taken) ≡ err static_exhausted
unfolding next_static validate_static_set validate_static contains layout_at
next_exhausted = refl

layout_partition_example : IsSplit small_layout (address_from4 0x0a2a0005)
layout_partition_example =
    layout_partition small 2 small-IsCanonical small_accepted (address_from4 0x0a2a0005)

layout_reserved_example :
    (small_layout.server ≡ address_from4 (base small + 1))
    × (contains small_layout.clients (address_from4 (base small)) ≡ false)
    × (contains small_layout.clients small_layout.server ≡ false)
    × (contains small_layout.clients (address_from4 (base small + size small - 1)) ≡ false)
layout_reserved_example = layout_reserved small 2 small-IsCanonical small_accepted

layout_capacity_example :
    (span small_layout.clients ≡ small_layout.clients.capacity)
    × (span small_layout.static ≡ small_layout.static.capacity)
    × (span small_layout.dynamic ≡ small_layout.dynamic.capacity)
    × (small_layout.static.capacity + small_layout.dynamic.capacity ≡ small_layout.clients.capacity)
    × (small_layout.clients.capacity + 3 ≡ size small)
    × (small_layout.dynamic.capacity ≡ 2)
layout_capacity_example = layout_capacity small 2 small-IsCanonical small_accepted

validate_static_set_example :
    (validate_static_set small_layout taken ≡ ok tt) ↔ IsStaticSet small_layout taken
validate_static_set_example = validate_static_set_iff small_layout taken

taken_valid : IsStaticSet small_layout taken
unfolding contains layout_at
taken_valid = ground arith

next_static_sound_example :
    IsStaticSet small_layout (address_from4 0x0a2a0004 ∷ taken)
    × ((y : ℕ)
        → contains small_layout.static (address_from4 y) ≡ true
        → y < 0x0a2a0004
        → has (values taken) y ≡ true)
next_static_sound_example =
    next_static_sound small 2 small-IsCanonical small_accepted taken {a = address_from4 0x0a2a0004}
      next_found

free_inside : contains small_layout.static (address_from4 0x0a2a0004) ≡ true
unfolding contains layout_at
free_inside = refl

next_static_complete_example : (a : Address) × (next_static small_layout taken ≡ ok a)
next_static_complete_example =
    next_static_complete small 2 small-IsCanonical small_accepted taken taken_valid 0x0a2a0004
      free_inside refl

new_network-IsCanonical_example : IsCanonical (prefix (v4 0x0a2a0000) 24)
new_network-IsCanonical_example =
    new_network-IsCanonical (prefix (v6 0xffff0a2a0000 "") 120)
      {n = record { value = prefix (v4 0x0a2a0000) 24 }} (omega arith)
      (unfold new_network unmap in refl)
