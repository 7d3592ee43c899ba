-- ===== src/Configuration/Remap.antt =====
-- What the address remap of a configuration apply guarantees.
use openvpn_docker.Ipam.Fresh.{next_static-Fresh, Fresh}
use openvpn_docker.Domain.Config.{Config}
use openvpn_docker.Store.{ClientState, AddressAssignment}
use openvpn_docker.Domain.Networks.{IsCanonical}
use openvpn_docker.Configuration.{
  AddressChange, Pending, keep_free, contains, has_address, is_free, new_ipv4_layout, next_static,
  allocate, is_set, Collected, collect_one, place, moved_change, remap_addresses, collect, String,
  eq_iff, ClientState, Config, map, Option, map_host_bits, sort_by, AddressAssignment, prefix_addr,
  change_less, prefix_bits, is_empty, unchanged, Option-cases,
}
use openvpn_docker.Ipam.{
  Layout, contains, new_ipv4_layout, next_static, prefix_addr, prefix_bits, is_empty,
}
use openvpn_docker.Prelude.{
  ℕ, ◌+◌, ◌≤◌, ◌<◌, ◌≡◌, refl, inl, inr, true, false, none, some, List, [], ◌∷◌, arith,
  if◌then◌else◌, Bool-cases, str_eq, ok, >>=-eq-ok, Result-cases, String, map, eq_iff, ◌∙◌, Option,
  ◌++◌, Option-cases,
}
use openvpn_docker.Domain.{Address}
use openvpn_docker.Domain.Sets.{
  count, total, same_address, has_address, same_address_iff, has_address-count, sort_by,
  total-sort_by, total-append,
}

-- One for a pending entry that was given the address.
abbrev set_weight : Address → Pending → ℕ
set_weight x p = elim p.value [ none ↦ 0 | some a ↦ if same_address a x then 1 else 0 ]

-- One for a change that leaves a static client with the address.
abbrev pub gives : Address → AddressChange → ℕ
gives x c =
    if str_eq c.after.mode "static"
    then (elim c.after.address [ none ↦ 0 | some a ↦ if same_address a x then 1 else 0 ])
    else 0

abbrev pub Sound : Layout → (Address → ℕ) → Type 0
Sound l times = (x : Address) → (times x ≤ 1) × (0 < times x → contains l.static x ≡ true)

Sound-cons :
    (l : Layout) (a : Address) (used : List Address)
    → Sound l (λ x. count x used)
    → contains l.static a ≡ true
    → has_address used a ≡ false
    → Sound l (λ x. count x (a ∷ used))
Sound-cons l a used s inside free x = elim (Bool-cases (same_address a x)) [
  | inl e ↦
      let p = (same_address_iff a x).0 e in
      rw e (rw (← p) (ground (arith, has_address-count a used), λ _. inside))
  | inr e ↦ rw e (ground (arith, s x))
]

set_weight-none : (x : Address) (p : Pending) → p.value ≡ none → set_weight x p ≡ 0
set_weight-none x p h = ground arith

unset_none : (p : Pending) → is_set p ≡ false → p.value ≡ none
unset_none p h = ground arith

is_free-facts :
    (l : Layout) (used : List Address) (p : Pending) (a : Address)
    → is_free l used p a ≡ true
    → (p.value ≡ none) × (contains l.static a ≡ true) × (has_address used a ≡ false)
unfolding is_free
is_free-facts l used p a h = ground arith

keep_free-count :
    (candidate : Pending → Address) (l : Layout) (used : List Address) (ps : List Pending)
    (x : Address)
    → let r = keep_free candidate l used ps in
      total (set_weight x) r.0 + count x used ≡ total (set_weight x) ps + count x r.1
unfolding keep_free
keep_free-count candidate l used [] x = refl
keep_free-count candidate l used (p ∷ ps) x = elim (Bool-cases (is_free l used p (candidate p))) [
  | inl free ↦
      let (unset, _, _) = is_free-facts l used p (candidate p) free in
      rw free (
        omega
          (arith, set_weight-none x p unset, keep_free-count candidate l (candidate p ∷ used) ps x))
  | inr kept ↦ rw kept (omega (arith, keep_free-count candidate l used ps x))
]

keep_free-Sound :
    (candidate : Pending → Address) (l : Layout) (used : List Address) (ps : List Pending)
    → Sound l (λ x. count x used)
    → Sound l (λ x. count x (keep_free candidate l used ps).1)
unfolding keep_free
keep_free-Sound candidate l used [] s = s
keep_free-Sound candidate l used (p ∷ ps) s = elim (Bool-cases (is_free l used p (candidate p))) [
  | inl free ↦
      let (_, inside, new) = is_free-facts l used p (candidate p) free in
      rw free (
        keep_free-Sound candidate l (candidate p ∷ used) ps
          (Sound-cons l (candidate p) used s inside new))
  | inr kept ↦ rw kept (keep_free-Sound candidate l used ps s)
]

module _ (l : Layout)
    (fresh : (used : List Address) (a : Address) → next_static l used ≡ ok a → Fresh l used a) where
  abbrev Allocated : List Address → List Pending → List Pending × List Address → Type 0
  Allocated used ps r =
      ((x : Address)
        → total (set_weight x) r.0 + count x used ≡ total (set_weight x) ps + count x r.1)
      × Sound l (λ x. count x r.1)

  allocate-Sound :
      (used : List Address) (ps : List Pending) {r : List Pending × List Address}
      → allocate l used ps ≡ ok r
      → Sound l (λ x. count x used)
      → Allocated used ps r
  unfolding allocate
  allocate-Sound used [] {r} h s = let q : ([], used) ≡ r = cc in rw (← q) ((λ x. refl), s)
  allocate-Sound used (p ∷ ps) {r} h s = elim (Bool-cases (is_set p)) [
    | inl set ↦
        let (r', more, last) = >>=-eq-ok (allocate l used ps) _ (rw set at h) in
        let q : (p ∷ r'.0, r'.1) ≡ r = cc in
        let (sums, sound) = allocate-Sound used ps {r = r'} more s in
        rw (← q) ((λ x. omega (arith, sums x)), sound)
    | inr unset ↦ elim (Result-cases (next_static l used)) [
      | inr (_, failed) ↦ cc (rw (unset, failed) at h)
      | inl (a, found) ↦
          let (inside, free) = fresh used a found in
          let (r', more, last) = >>=-eq-ok (allocate l (a ∷ used) ps) _ (rw (unset, found) at h) in
          let q : (record p { value = some a } ∷ r'.0, r'.1) ≡ r = cc in
          let (sums, sound) =
            allocate-Sound (a ∷ used) ps {r = r'} more (Sound-cons l a used s inside free) in
          rw (← q) ((λ x. omega (arith, sums x, set_weight-none x p (unset_none p unset))), sound)
    ]
  ]

  place-Sound :
      (desired : Config) (static : List Pending) {r : List Pending × List Address}
      → ((x : Address) → total (set_weight x) static ≡ 0)
      → place l desired static ≡ ok r
      → Sound l (λ x. total (set_weight x) r.0)
  unfolding place
  place-Sound desired static {r} unset h x =
      let host = λ (p : Pending).
        map_host_bits p.current (prefix_addr desired.ipv4.network.value)
          (prefix_bits desired.ipv4.network.value) in
      let start : Sound l (λ x. count x []) = λ x. (omega arith, λ h. absurd (omega arith)) in
      let kept = keep_free (λ p. p.current) l [] static in
      let mapped = keep_free host l kept.1 kept.0 in
      let (sums, sound) = allocate-Sound mapped.1 mapped.0 {r = r} h (
        keep_free-Sound host l kept.1 kept.0
          (keep_free-Sound (λ p. p.current) l [] static start)) in
      let same : total (set_weight x) r.0 ≡ count x r.1 = omega (
        arith,
        sums x,
        keep_free-count host l kept.1 kept.0 x,
        keep_free-count (λ p. p.current) l [] static x,
        unset x,
      ) in
      rw same (sound x)

dynamic_not_static : (k : String) → str_eq k "dynamic" ≡ true → str_eq k "static" ≡ false
dynamic_not_static k h = rw ((eq_iff k "dynamic").0 h) refl

abbrev SameCounts : Collected → Collected → Type 0
SameCounts found found' =
    (x : Address)
    → (total (set_weight x) found'.0 ≡ total (set_weight x) found.0)
      × (total (gives x) found'.1 ≡ total (gives x) found.1)

collect_one-SameCounts :
    (l : Layout) (c : ClientState) (o : Option AddressAssignment) (found : Collected)
    {found' : Collected}
    → collect_one l c o found ≡ ok found'
    → SameCounts found found'
unfolding collect_one
collect_one-SameCounts l c none found {found'} h x =
    let q : found ≡ found' = cc in rw (← q) (refl, refl)
collect_one-SameCounts l c (some a) (static, changes) {found'} h x =
    elim (Bool-cases (str_eq a.kind "dynamic")) [
      | inl dynamic ↦ elim (Bool-cases (is_empty l.dynamic)) [
        | inl empty ↦ cc (rw (dynamic, empty) at h)
        | inr room ↦
            let q : (static, changes ++ unchanged c a ∷ []) ≡ found' =
              cc (rw (dynamic, room) at h) in
            rw (← q, total-append, dynamic_not_static a.kind dynamic) (refl, omega arith)
      ]
      | inr other ↦ elim (Bool-cases (str_eq a.kind "static")) [
        | inr unknown ↦ cc (rw (other, unknown) at h)
        | inl fixed ↦ elim (Option-cases a.address) [
          | inl missing ↦ cc (rw (other, fixed, missing) at h)
          | inr (current, given) ↦
              let q : (
                static
                    ++ record { client = c; assignment = a; current = current; value = none } ∷ [],
                changes,
              )
                  ≡ found' =
                cc (rw (other, fixed, given) at h) in
              rw (← q, total-append) (omega arith, refl)
        ]
      ]
    ]

collect-SameCounts :
    (l : Layout) (found : Collected) (cs : List ClientState) {found' : Collected}
    → collect l found cs ≡ ok found'
    → SameCounts found found'
unfolding collect
collect-SameCounts l found [] {found'} h x = let q : found ≡ found' = cc in rw (← q) (refl, refl)
collect-SameCounts l found (c ∷ cs) {found'} h x =
    let (mid, first, rest) = >>=-eq-ok (collect_one l c c.assignment found) _ h in
    let one = collect_one-SameCounts l c c.assignment found {found' = mid} first x in
    let more = collect-SameCounts l mid cs {found' = found'} rest x in
    (more.0 ∙ one.0, more.1 ∙ one.1)

total-moved_change :
    (x : Address) (ps : List Pending)
    → total (gives x) (map moved_change ps) ≡ total (set_weight x) ps
unfolding moved_change
total-moved_change x [] = refl
total-moved_change x (p ∷ ps) = omega (arith, total-moved_change x ps)

-- When the remap succeeds, no address is given to two static clients, and every address that is
-- given lies in the static range of the desired layout.
pub remap_addresses-Sound :
    (clients : List ClientState) (desired : Config) {l : Layout} {changes : List AddressChange}
    → IsCanonical desired.ipv4.network.value
    → new_ipv4_layout desired.ipv4.network desired.ipv4.dynamic_pool_size ≡ ok l
    → remap_addresses clients desired ≡ ok changes
    → Sound l (λ x. total (gives x) changes)
unfolding remap_addresses
remap_addresses-Sound clients desired {l} {changes} c e h x =
    let (found, collected, rest) =
      >>=-eq-ok (collect l ([], []) clients) _ (rw (e, remap_addresses) at h) in
    let (placed, done, last) = >>=-eq-ok (place l desired found.0) _ rest in
    let none_yet =
      λ (y : Address). collect-SameCounts l ([], []) clients {found' = found} collected y in
    let sound =
      place-Sound l (next_static-Fresh desired.ipv4.network desired.ipv4.dynamic_pool_size c e)
        desired found.0 {r = placed} (λ y. (none_yet y).0) done x in
    let q : sort_by change_less (found.1 ++ map moved_change placed.0) ≡ changes = cc in
    let same : total (gives x) changes ≡ total (set_weight x) placed.0 =
      rw (← q, total-sort_by, total-append, total-moved_change) (omega (arith, (none_yet x).1)) in
    rw same sound
