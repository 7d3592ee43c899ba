-- ===== src/Ipam/Fresh.antt =====
-- What NextStatic promises, in terms of the addresses in use.
use openvpn_docker.Ipam.Allocation.{next_static_sound}
use openvpn_docker.Domain.Networks.{IsCanonical}
use openvpn_docker.Ipam.{values, Layout, contains, ipv4_uint32, new_ipv4_layout, next_static}
use openvpn_docker.Prelude.{
  ℕ, ◌≡◌, refl, ap, inl, inr, true, false, List, [], ◌∷◌, arith, Bool-cases, has, ok,
}
use openvpn_docker.Domain.{Address, Network}
use openvpn_docker.Domain.Sets.{has_address, same_address, same_address_iff}

-- An address whose number is not among the used ones is not among the used addresses.
count_of_values :
    (used : List Address) (a : Address)
    → has (values used) (ipv4_uint32 a.value) ≡ false
    → has_address used a ≡ false
count_of_values [] a h = refl
count_of_values (b ∷ used) a h = elim (Bool-cases (same_address b a)) [
  | inl e ↦
      let same = ap (λ (t : Address). ipv4_uint32 t.value) ((same_address_iff b a).0 e) in
      ground arith
  | inr e ↦ rw e (count_of_values used a (ground arith))
]

-- What NextStatic promises of an address that it returns.
abbrev pub Fresh : Layout → List Address → Address → Type 0
Fresh l used a = (contains l.static a ≡ true) × (has_address used a ≡ false)

pub next_static-Fresh :
    (n : Network) (pool : ℕ) {l : Layout}
    → IsCanonical n.value
    → new_ipv4_layout n pool ≡ ok l
    → (used : List Address) (a : Address) → next_static l used ≡ ok a
    → Fresh l used a
next_static-Fresh n pool c e used a found =
    let (((inside, _), (free, _)), _) = next_static_sound n pool c e used {a = a} found in
    (inside, count_of_values used a free)
