-- ===== src/Ipam/Bounds.antt =====
-- The shape of a layout: bounds of the ranges, and how they split the network.
use openvpn_docker.Domain.Networks.{IsCanonical}
use openvpn_docker.Ipam.{
  new_ipv4_layout, Layout, prefix_bits, client_capacity, ipv4_uint32, layout_at, ok, prefix_addr,
  ltb,
}
use openvpn_docker.Domain.{Network, Prefix, prefix, v4, v6, no_prefix, invalid}
use native.Mathlib.Nat.{
  pow-suc, div-add-mod, mul_comm, lt_of_mul-lt-mul_left, zero-add, pow-le-pow_right, suc-add,
  mul-le-mul_left, mul-suc,
}
use openvpn_docker.Prelude.{
  ℕ, zero, suc, ◌+◌, ◌-◌, ◌*◌, ◌/◌, ◌%◌, ◌^◌, ◌≤◌, ◌<◌, ◌≡◌, arith, sym, ◌∙◌, ap, ok, Bool-cases,
  ltb, inl, inr,
}

pow-add : (a b : ℕ) → 2 ^ (a + b) ≡ 2 ^ a * 2 ^ b
pow-add zero b = rw (zero-add b) (omega arith)
pow-add (suc a) b =
    rw (suc-add, pow-suc, pow-suc) (omega (arith, ap (λ (t : ℕ). t * 2) (pow-add a b)))

-- A multiple of `t` below `k * t` leaves room for one more `t`.
multiple_fits : (n t k : ℕ) → n < k * t → n % t ≡ 0 → n + t ≤ k * t
multiple_fits n t k h e =
    let q = n / t in
    let whole : n ≡ t * q = omega (arith, div-add-mod n t) in
    let less : q < k = lt_of_mul-lt-mul_left t (omega (arith, mul_comm k t)) in
    let more : t * suc q ≤ t * k = mul-le-mul_left t less in
    omega (arith, mul-suc t q, mul_comm k t)

-- A canonical block of size 2 ^ (32 - p) ends within the 32-bit space.
block_fits : (n p : ℕ) → n < 2 ^ 32 → p ≤ 32 → n % 2 ^ (32 - p) ≡ 0 → n + 2 ^ (32 - p) ≤ 2 ^ 32
block_fits n p h k e =
    let whole : 2 ^ p * 2 ^ (32 - p) ≡ 2 ^ 32 =
      sym (pow-add p (32 - p)) ∙ ap (λ (t : ℕ). 2 ^ t) {y = 32} (omega arith) in
    rw whole at (multiple_fits n (2 ^ (32 - p)) (2 ^ p) (rw whole h) e)

-- The smallest block that the plan accepts has four addresses.
block_min : (p : ℕ) → p ≤ 30 → 4 ≤ 2 ^ (32 - p)
block_min p h = pow-le-pow_right (omega arith) {i = 2} (omega arith)

-- A layout for the block of `t` addresses at `x`, with `pool` of them dynamic.
pub record IsLayout (l : Layout) (n : Network) (x t pool : ℕ) : Type 0 where
  pub four : 4 ≤ t
  pub fits : x + t ≤ 2 ^ 32
  pub pool_fits : pool ≤ t - 3
  pub built : l ≡ layout_at n x t (t - 3) pool

-- The block of an IPv4 network.
abbrev pub base : Network → ℕ
base n = ipv4_uint32 (prefix_addr n.value)

abbrev pub size : Network → ℕ
size n = 2 ^ (32 - prefix_bits n.value)

-- By η a network is the record of its value, so the match is on the value.
layout_of_value :
    (p : Prefix) (pool : ℕ) {l : Layout}
    → IsCanonical p
    → new_ipv4_layout (record { value = p }) pool ≡ ok l
    → IsLayout l
        (record { value = p })
        (ipv4_uint32 (prefix_addr p))
        (2 ^ (32 - prefix_bits p))
        pool
unfolding new_ipv4_layout client_capacity
layout_of_value (prefix (v4 x) p) pool c e = elim (Bool-cases (ltb 30 p)) [
  | inl large ↦ cc (rw large at e)
  | inr small ↦
      let four : 4 ≤ 2 ^ (32 - p) = block_min p (ground arith) in
      let fits : x + 2 ^ (32 - p) ≤ 2 ^ 32 = block_fits x p c.0 c.1 c.2 in
      elim (Bool-cases (ltb (2 ^ (32 - p) - 3) pool)) [
        | inl big ↦ cc (rw (small, big) at e)
        | inr room ↦ record {
          four = four;
          fits = fits;
          pool_fits = ground arith;
          built = cc (rw (small, room) at e);
        }
      ]
]
layout_of_value (prefix (v6 x z) p) pool c e = ground arith
layout_of_value (prefix invalid p) pool c e = elim c [ ]
layout_of_value no_prefix pool c e = elim c [ ]

pub new_ipv4_layout-IsLayout :
    (n : Network) (pool : ℕ) {l : Layout}
    → IsCanonical n.value
    → new_ipv4_layout n pool ≡ ok l
    → IsLayout l n (base n) (size n) pool
new_ipv4_layout-IsLayout n pool c e = layout_of_value n.value pool c e
