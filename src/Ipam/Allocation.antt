-- ===== src/Ipam/Allocation.antt =====
-- ValidateStaticSet and NextStatic: what an accepted set is, and which address is allocated.
use openvpn_docker.Domain.Networks.{IsCanonical}
use openvpn_docker.Ipam.Partition.{static_at}
use openvpn_docker.Ipam.Bounds.{IsLayout, new_ipv4_layout-IsLayout}
use native.Mathlib.Decide.{ℕ_discrete}
use openvpn_docker.Domain.{Address, family, address_from4, Network}
use openvpn_docker.Ipam.{
  validate_set_from, validate_static, contains, Layout, next_from, IpamError, AddressRange, Address,
  values, true, ok, has, is_ipv4, false, ipv4_uint32, err, suc, uint32, duplicate_static, layout_at,
  next_static, is_empty, validate_static_set, static_exhausted, new_ipv4_layout,
}
use openvpn_docker.Prelude.{
  >>=-eq-ok, refuse_if-ok, ℕ, zero, suc, ◌+◌, ◌-◌, ◌^◌, ◌≤◌, ◌<◌, ◌≡◌, refl, ◌↔◌, inl, inr, true,
  false, List, [], ◌∷◌, arith, Bool-cases, All, has, IsDistinct, Result, ok, err, refuse_if,
}

-- Every address of the list lies in the static range, and no two are the same.
abbrev pub IsStaticSet : Layout → List Address → Type 0
IsStaticSet l as' = All (λ a. contains l.static a ≡ true) as' × IsDistinct (values as')

abbrev pub Avoids : List ℕ → List ℕ → Type 0
Avoids seen xs = All (λ x. has seen x ≡ false) xs

contains_ipv4 : (r : AddressRange) (a : Address) → contains r a ≡ true → is_ipv4 (family a) ≡ true
unfolding contains
contains_ipv4 r a h = ground arith

Avoids-nil : (xs : List ℕ) → Avoids [] xs
Avoids-nil [] = tt
Avoids-nil (x ∷ xs) = (refl, Avoids-nil xs)

validate_static-ok :
    (l : Layout) (a : Address) → (validate_static l a ≡ ok tt) ↔ (contains l.static a ≡ true)
unfolding validate_static
validate_static-ok l a = (λ h. ground arith, λ h. rw (contains_ipv4 l.static a h, h))

-- Walking on with one more value seen: the rest must also avoid that value.
Avoids-cons :
    (x : ℕ) (seen xs : List ℕ) → Avoids (x ∷ seen) xs ↔ (Avoids seen xs × (has xs x ≡ false))
Avoids-cons x seen xs = (there xs, back xs)
  where
    there : (xs : List ℕ) → Avoids (x ∷ seen) xs → Avoids seen xs × (has xs x ≡ false)
    there [] h = (tt, refl)
    there (y ∷ ys) h = ground (arith, there ys h.1)

    back : (xs : List ℕ) → Avoids seen xs × (has xs x ≡ false) → Avoids (x ∷ seen) xs
    back [] h = tt
    back (y ∷ ys) h = ground (arith, back ys)

validate_set_from_sound :
    (l : Layout) (seen : List ℕ) (as' : List Address)
    → validate_set_from l seen as' ≡ ok tt
    → IsStaticSet l as' × Avoids seen (values as')
unfolding validate_set_from
validate_set_from_sound l seen [] h = ((tt, tt), tt)
validate_set_from_sound l seen (a ∷ as') h =
    let (_, here, rest) = >>=-eq-ok (validate_static l a) _ h in
    let (_, new, more) =
      >>=-eq-ok (refuse_if (has seen (ipv4_uint32 a.value)) duplicate_static) _ rest in
    let (inside, avoided) = validate_set_from_sound l (ipv4_uint32 a.value ∷ seen) as' more in
    let split = (Avoids-cons _ seen (values as')).0 avoided in
    (
      (((validate_static-ok l a).0 here, inside.0), (split.1, inside.1)),
      (refuse_if-ok _ _ new, split.0),
    )

validate_set_from_complete :
    (l : Layout) (seen : List ℕ) (as' : List Address)
    → IsStaticSet l as'
    → Avoids seen (values as')
    → validate_set_from l seen as' ≡ ok tt
unfolding validate_set_from
validate_set_from_complete l seen [] h k = refl
validate_set_from_complete l seen (a ∷ as') h k =
    rw ((validate_static-ok l a).1 h.0.0, k.0)
      (validate_set_from_complete l (ipv4_uint32 a.value ∷ seen) as' (h.0.1, h.1.1)
        ((Avoids-cons _ seen (values as')).1 (k.1, h.1.0)))

uint32_lem : (n : ℕ) → n < 2 ^ 32 → uint32 n ≡ n
uint32_lem n h = omega arith

used_from :
    (used : List ℕ) (c y : ℕ)
    → has used c ≡ true
    → c ≤ y
    → (c + 1 ≤ y → has used y ≡ true)
    → has used y ≡ true
used_from used c y h k later = elim (ℕ_discrete c y) [
  | yes p ↦ rw (← p) h
  | no p ↦ later (omega arith)
]

next_from_sound :
    (used : List ℕ) (left candidate : ℕ) {a : Address}
    → candidate + left ≤ 2 ^ 32
    → next_from used left candidate ≡ ok a
    → (x : ℕ) × (a ≡ address_from4 x)
      × (candidate ≤ x)
      × (x < candidate + left)
      × (has used x ≡ false)
      × ((y : ℕ) → candidate ≤ y → y < x → has used y ≡ true)
unfolding next_from
next_from_sound used zero candidate b h = cc
next_from_sound used (suc left) candidate {a} b h = elim (Bool-cases (has used candidate)) [
  | inl taken ↦
      let (x, e, low, high, free, before) =
        next_from_sound used left (candidate + 1) {a = a} (omega arith)
          (rw (uint32_lem candidate (omega arith), taken) at h) in
      (
        x,
        e,
        omega arith,
        omega arith,
        free,
        λ y k m. used_from used candidate y taken k (λ p. before y p m),
      )
  | inr free ↦ (
    candidate,
    cc (rw (uint32_lem candidate (omega arith), free) at h),
    omega arith,
    omega arith,
    free,
    λ y k m. absurd (omega arith),
  )
]

next_from-exhausted :
    (used : List ℕ) (left candidate : ℕ) {e : IpamError}
    → candidate + left ≤ 2 ^ 32
    → next_from used left candidate ≡ err e
    → (y : ℕ) → candidate ≤ y
    → y < candidate + left
    → has used y ≡ true
unfolding next_from
next_from-exhausted used zero candidate b h y k m = absurd (omega arith)
next_from-exhausted used (suc left) candidate {e} b h y k m =
    elim (Bool-cases (has used candidate)) [
      | inl taken ↦ used_from used candidate y taken k (λ p.
          next_from-exhausted used left (candidate + 1) {e = e} (omega arith)
            (rw (uint32_lem candidate (omega arith), taken) at h) y p (omega arith))
      | inr free ↦ cc (rw (uint32_lem candidate (omega arith), free) at h)
    ]

module _ {l : Layout} {n : Network} {x t pool : ℕ} (h : IsLayout l n x t pool) where
  static_range :
      is_empty l.static ≡ false
      → (ipv4_uint32 l.static.first.value ≡ x + 2)
        × (ipv4_uint32 l.static.last.value ≡ x + t - 2 - pool)
        × (pool < t - 3)
  unfolding layout_at
  static_range = rw h.built (λ e. ground (arith, h))

  static_pool : (y : ℕ) → contains l.static (address_from4 y) ≡ true → is_empty l.static ≡ false
  unfolding contains
  static_pool y e = ground arith

  low_of_static :
      (y : ℕ)
      → contains l.static (address_from4 y) ≡ true
      → (ipv4_uint32 l.static.first.value ≤ y) × (y ≤ ipv4_uint32 l.static.last.value)
  unfolding contains
  low_of_static y e = ground arith

  found_in_static :
      (as' : List Address) {a : Address}
      → next_static l as' ≡ ok a
      → (contains l.static a ≡ true)
        × (has (values as') (ipv4_uint32 a.value) ≡ false)
        × ((y : ℕ)
            → contains l.static (address_from4 y) ≡ true
            → y < ipv4_uint32 a.value
            → has (values as') y ≡ true)
  unfolding next_static
  found_in_static as' {a} e =
      let (_, _, more) = >>=-eq-ok (validate_static_set l as') _ e in
      let (_, filled, walk) = >>=-eq-ok (refuse_if (is_empty l.static) static_exhausted) _ more in
      let (first, last, room) = static_range (refuse_if-ok _ _ filled) in
      let (y, here, low, high, free, before) =
        next_from_sound (values as') _ _ {a = a} (omega (arith, h)) walk in
      rw here (
        rw (static_at h) (ground (arith, h)),
        free,
        λ z inside less. before z (low_of_static z inside).0 less,
      )

  none_left :
      (as' : List Address) {e : IpamError}
      → IsStaticSet l as'
      → next_static l as' ≡ err e
      → (y : ℕ) → contains l.static (address_from4 y) ≡ true
      → has (values as') y ≡ true
  unfolding next_static validate_static_set
  none_left as' {e} valid fails y inside =
      let filled = static_pool y inside in
      let (first, last, room) = static_range filled in
      let (low, high) = low_of_static y inside in
      next_from-exhausted (values as') _ _ {e = e} (omega (arith, h))
        (rw (validate_set_from_complete l [] as' valid (Avoids-nil (values as')), filled) at fails)
        y low (omega arith)

-- ValidateStaticSet accepts a list exactly when every address of it lies in the static range and
-- no two of them are the same.
pub validate_static_set_iff :
    (l : Layout) (as' : List Address) → (validate_static_set l as' ≡ ok tt) ↔ IsStaticSet l as'
unfolding validate_static_set
validate_static_set_iff l as' = (
  λ h. (validate_set_from_sound l [] as' h).0,
  λ h. validate_set_from_complete l [] as' h (Avoids-nil (values as')),
)

valid_of_found :
    (l : Layout) (as' : List Address) {a : Address}
    → next_static l as' ≡ ok a
    → validate_static_set l as' ≡ ok tt
unfolding next_static
valid_of_found l as' e = (>>=-eq-ok (validate_static_set l as') _ e).1

-- The address that NextStatic returns lies in the static range, is none of the given addresses,
-- and every lower address of the static range is given; and the set stays valid with it.
pub next_static_sound :
    (n : Network) (pool : ℕ) {l : Layout}
    → IsCanonical n.value
    → new_ipv4_layout n pool ≡ ok l
    → (as' : List Address) {a : Address} → next_static l as' ≡ ok a
    → IsStaticSet l (a ∷ as')
      × ((y : ℕ)
          → contains l.static (address_from4 y) ≡ true
          → y < ipv4_uint32 a.value
          → has (values as') y ≡ true)
next_static_sound n pool {l} c e as' {a} found =
    let h = new_ipv4_layout-IsLayout n pool c e in
    let (inside, free, before) = found_in_static h as' {a = a} found in
    let valid = valid_of_found l as' {a = a} found in
    let (all, distinct) = (validate_static_set_iff l as').0 valid in
    (((inside, all), (free, distinct)), before)

-- NextStatic finds an address whenever the given set is valid and some address of the static range
-- is not in it.
pub next_static_complete :
    (n : Network) (pool : ℕ) {l : Layout}
    → IsCanonical n.value
    → new_ipv4_layout n pool ≡ ok l
    → (as' : List Address) → IsStaticSet l as'
    → (y : ℕ) → contains l.static (address_from4 y) ≡ true
    → has (values as') y ≡ false
    → (a : Address) × (next_static l as' ≡ ok a)
next_static_complete n pool {l} c e as' valid y inside free = go (next_static l as') refl
  where
    go :
        (r : Result IpamError Address)
        → next_static l as' ≡ r
        → (a : Address) × (next_static l as' ≡ ok a)
    go (ok a) q = (a, q)
    go (err x) q =
        cc (free, none_left (new_ipv4_layout-IsLayout n pool c e) as' {e = x} valid q y inside)
