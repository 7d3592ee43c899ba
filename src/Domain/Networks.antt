-- ===== src/Domain/Networks.antt =====
-- What NewNetwork and NewAddress accept.
use mathlib.Core.Path.{subst}
use openvpn_docker.Prelude.{
  ℕ, ◌-◌, ◌/◌, ◌%◌, ◌^◌, ◌≤◌, ◌<◌, ◌≡◌, Bool, true, false, ok, arith, ltb, ◌==◌, Bool-cases, inl,
  inr, refl, ok-injective, ap, sym,
}
use openvpn_docker.Domain.{
  Addr, invalid, v4, v6, Prefix, no_prefix, prefix, Network, unmap, checked_network,
  rebased_network, new_network, bit_len, canonical, new_address, Address, str_eq, zone,
}

-- The values that Go's representation of an address can hold.
abbrev pub IsAddr : Addr → Type 0
IsAddr invalid = Unit
IsAddr (v4 n) = n < 2 ^ 32
IsAddr (v6 n _) = n < 2 ^ 128

abbrev pub IsPrefix : Prefix → Type 0
IsPrefix no_prefix = Unit
IsPrefix (prefix a _) = IsAddr a

-- A network address in range, with no host bits.
abbrev pub IsCanonical : Prefix → Type 0
IsCanonical (prefix (v4 n) bits) = (n < 2 ^ 32) × (bits ≤ 32) × (n % 2 ^ (32 - bits) ≡ 0)
IsCanonical (prefix (v6 n _) bits) = (n < 2 ^ 128) × (bits ≤ 128) × (n % 2 ^ (128 - bits) ≡ 0)
IsCanonical _ = ⊥

IsAddr-unmap : (a : Addr) → IsAddr a → IsAddr (unmap a)
unfolding unmap
IsAddr-unmap invalid h = h
IsAddr-unmap (v4 n) h = h
IsAddr-unmap (v6 n z) h = elim (Bool-cases (n / 2 ^ 32 == 0xffff)) [
  | inl e ↦ rw e (omega arith)
  | inr e ↦ rw e h
]

checked_network-IsCanonical :
    (a : Addr) (bits : ℕ) {n : Network}
    → IsAddr a
    → checked_network a bits ≡ ok n
    → IsCanonical n.value × (n.value ≡ prefix a bits)
unfolding checked_network
checked_network-IsCanonical invalid bits h e = ground arith
checked_network-IsCanonical (v4 x) bits h e = ground arith
checked_network-IsCanonical (v6 x z) bits h e = ground arith

rebased_network-IsCanonical :
    (mapped : Bool) (a : Addr) (bits : ℕ) {n : Network}
    → IsAddr a
    → rebased_network mapped a bits ≡ ok n
    → IsCanonical n.value
unfolding rebased_network
rebased_network-IsCanonical true a bits h e = elim (Bool-cases (ltb bits 96)) [
  | inl low ↦ cc (rw low at e)
  | inr _ ↦ (checked_network-IsCanonical a (bits - 96) h (ground arith)).0
]
rebased_network-IsCanonical false a bits h e = (checked_network-IsCanonical a bits h e).0

-- A network that NewNetwork accepts is canonical: its address is in range, its prefix length fits
-- the address it keeps, and no bit below the prefix is set.
pub new_network-IsCanonical :
    (p : Prefix) {n : Network} → IsPrefix p → new_network p ≡ ok n → IsCanonical n.value
unfolding new_network
new_network-IsCanonical no_prefix h e = cc
new_network-IsCanonical (prefix invalid b) h e = cc
new_network-IsCanonical (prefix (v4 x) b) h e =
    rebased_network-IsCanonical _ (unmap (v4 x)) b (IsAddr-unmap (v4 x) h) e
new_network-IsCanonical (prefix (v6 x z) b) h e =
    rebased_network-IsCanonical _ (unmap (v6 x z)) b (IsAddr-unmap (v6 x z) h) e

checked_network-value :
    (a : Addr) (bits : ℕ) (n : Network) → checked_network a bits ≡ ok n → n.value ≡ prefix a bits
unfolding checked_network
checked_network-value a bits n h = elim (Bool-cases (ltb (bit_len a) bits)) [
  | inl e ↦ absurd (cc (rw e at h))
  | inr e ↦ elim (Bool-cases (canonical a bits)) [
    | inl c ↦
        let same : record { value = prefix a bits } ≡ n = ok-injective (rw (e, c) at h) in
        ap (λ (m : Network). m.value) (sym same)
    | inr c ↦ absurd (cc (rw (e, c) at h))
  ]
]

checked_network_stable :
    (a : Addr) (bits : ℕ) (n : Network)
    → unmap a ≡ a
    → checked_network a bits ≡ ok n
    → new_network (prefix a bits) ≡ ok n
unfolding new_network rebased_network checked_network unmap
checked_network_stable invalid bits n same h = ground (arith, h)
checked_network_stable (v4 x) bits n same h = h
checked_network_stable (v6 x z) bits n same h = rw same h

unmap-unmap : (a : Addr) → unmap (unmap a) ≡ unmap a
unfolding unmap
unmap-unmap invalid = refl
unmap-unmap (v4 x) = refl
unmap-unmap (v6 x z) = elim (Bool-cases (x / 2 ^ 32 == 0xffff)) [
  | inl e ↦ rw e refl
  | inr e ↦ rw e (rw e refl)
]

rebased_network_stable :
    (mapped : Bool) (a : Addr) (bits : ℕ) (n : Network)
    → unmap a ≡ a
    → rebased_network mapped a bits ≡ ok n
    → new_network n.value ≡ ok n
unfolding rebased_network
rebased_network_stable false a bits n same h =
    subst (λ p. new_network p ≡ ok n) (sym (checked_network-value a bits n h))
      (checked_network_stable a bits n same h)
rebased_network_stable true a bits n same h = elim (Bool-cases (ltb bits 96)) [
  | inl e ↦ absurd (cc (rw e at h))
  | inr e ↦
      let c : checked_network a (bits - 96) ≡ ok n = rw e at h in
      subst (λ p. new_network p ≡ ok n) (sym (checked_network-value a (bits - 96) n c))
        (checked_network_stable a (bits - 96) n same c)
]

-- A network that NewNetwork accepts is accepted again, as it is.
pub new_network_stable :
    (p : Prefix) (n : Network) → new_network p ≡ ok n → new_network n.value ≡ ok n
unfolding new_network
new_network_stable no_prefix n h = absurd (cc)
new_network_stable (prefix invalid b) n h = absurd (cc)
new_network_stable (prefix (v4 x) b) n h =
    rebased_network_stable _ (unmap (v4 x)) b n (unmap-unmap (v4 x)) h
new_network_stable (prefix (v6 x z) b) n h =
    rebased_network_stable _ (unmap (v6 x z)) b n (unmap-unmap (v6 x z)) h

-- An address that NewAddress accepts has no zone, and is accepted again, as it is.
pub new_address_stable :
    (x : Addr) (a : Address)
    → new_address x ≡ ok a
    → (str_eq (zone x) "" ≡ true) × (unmap x ≡ a.value) × (new_address a.value ≡ ok a)
unfolding new_address unmap
new_address_stable invalid a h = absurd (cc)
new_address_stable (v4 n) a h =
    let same : record { value = v4 n } ≡ a = ok-injective h in
    (refl, ap (λ (b : Address). b.value) same, rw (← same) refl)
new_address_stable (v6 n z) a h = elim (Bool-cases (str_eq z "")) [
  | inr zoned ↦ absurd (cc (rw zoned at h))
  | inl plain ↦ elim (Bool-cases (n / 2 ^ 32 == 0xffff)) [
    | inl mapped ↦
        let same : record { value = v4 (n % 2 ^ 32) } ≡ a =
          ok-injective (rw (plain, mapped) at h) in
        (plain, rw mapped (ap (λ (b : Address). b.value) same), rw (← same) refl)
    | inr other ↦
        let same : record { value = v6 n z } ≡ a = ok-injective (rw (plain, other) at h) in
        (plain, rw other (ap (λ (b : Address). b.value) same), rw (← same) (rw (plain, other) refl))
  ]
]
