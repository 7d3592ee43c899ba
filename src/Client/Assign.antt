-- ===== src/Client/Assign.antt =====
-- What the planners of client addresses guarantee.
use openvpn_docker.Domain.Sets.{
  total, same_address, count, count-append, same_address_iff, has_address-count, has_address,
  sort_by, total-sort_by,
}
use openvpn_docker.Ipam.Fresh.{Fresh, next_static-Fresh}
use openvpn_docker.Domain.Networks.{IsCanonical}
use openvpn_docker.Store.{InstanceState, AddressAssignment, ClientState}
use openvpn_docker.Ipam.{Layout, validate_static, contains, next_static, new_ipv4_layout, is_empty}
use openvpn_docker.Client.{
  manual_address, auto_address, TextFunctions, AddressAssignment, contains, new_ipv4_layout,
  is_empty, next_static, parse_address, check_manual, Planned, choose, ClientState, extend, ℕ,
  Bool-cases, same_address, str_eq, draft, >>=-eq-ok, plan_loop, Option-cases, [], selection_of, ap,
  plan_create_assignment, plan_addresses, has_address, create_selected, static_addresses,
  all_addresses, kept_addresses, sort_by, target_less,
}
use openvpn_docker.Prelude.{
  String, ◌≡◌, ◌⊎◌, inl, inr, true, false, Option, none, some, List, arith, ok, Result-cases, ◌<◌,
  ℕ, if◌then◌else◌, ◌∷◌, Bool-cases, >>=-eq-ok, refl, ◌++◌, Option-cases, [], ap, ◌+◌, ◌∙◌,
}
use openvpn_docker.Domain.{Address}

-- A dynamic assignment names no address and needs a pool; a static one names an address of the
-- static range that is not in use.
abbrev pub IsGiven : Layout → List Address → AddressAssignment → Type 0
IsGiven l used a =
    ((a.kind ≡ "dynamic") × (a.address ≡ none) × (is_empty l.dynamic ≡ false))
    ⊎ ((a.kind ≡ "static") × ((x : Address) × (a.address ≡ some x) × (Fresh l used x)))

validate_static-contains :
    (l : Layout) (a : Address) {u : Unit {0}}
    → validate_static l a ≡ ok u
    → contains l.static a ≡ true
unfolding validate_static
validate_static-contains l a h = ground arith

check_manual-Fresh :
    (l : Layout) (used : List Address) (o : Option Address) {a : Address}
    → check_manual l used o ≡ ok a
    → Fresh l used a
unfolding check_manual
check_manual-Fresh l used none h = cc
check_manual-Fresh l used (some b) {a} h = elim (Result-cases (validate_static l b)) [
  | inr (_, refused) ↦ ground arith
  | inl (_, valid) ↦ ground (arith, validate_static-contains l b)
]

manual_address-Fresh :
    (text : TextFunctions) (l : Layout) (used : List Address) (selection : String) {a : Address}
    → manual_address text l used selection ≡ ok a
    → Fresh l used a
unfolding manual_address
manual_address-Fresh text l used selection h =
    check_manual-Fresh l used (parse_address text selection) h

-- The layout of the instance, which both planners build first.
abbrev pub Builds : InstanceState → Layout → Type 0
Builds i l =
    IsCanonical i.applied.config.ipv4.network.value
    × (new_ipv4_layout i.applied.config.ipv4.network i.applied.config.ipv4.dynamic_pool_size ≡ ok l)

auto_address-Fresh :
    (i : InstanceState) (l : Layout) (used : List Address) {a : Address}
    → Builds i l
    → auto_address l used ≡ ok a
    → Fresh l used a
unfolding auto_address
auto_address-Fresh i l used {a} b h = elim (Result-cases (next_static l used)) [
  | inr (_, failed) ↦ cc (rw (failed, auto_address) at h)
  | inl (x, found) ↦
      let q : x ≡ a = cc (rw (found, auto_address) at h) in
      rw (← q) (
        next_static-Fresh i.applied.config.ipv4.network i.applied.config.ipv4.dynamic_pool_size b.0
          b.1 used x found)
]

choose-IsGiven :
    (text : TextFunctions) (i : InstanceState) (l : Layout) (used : List Address)
    (selection : String) (now : ℕ) (id : String) {r : AddressAssignment × String}
    → Builds i l
    → choose text i l used selection now id ≡ ok r
    → IsGiven l used r.0
unfolding choose
choose-IsGiven text i l used selection now id {r} b h =
    elim (Bool-cases (str_eq (text.lower selection) "dynamic")) [
      | inl dynamic ↦ elim (Bool-cases (is_empty l.dynamic)) [
        | inl empty ↦ cc (rw (dynamic, empty) at h)
        | inr room ↦
            let q : (draft i now id "dynamic" none, "dynamic") ≡ r = cc (rw (dynamic, room) at h) in
            rw (← q) (inl (refl, refl, room))
      ]
      | inr other ↦ elim (Bool-cases (str_eq (text.lower selection) "auto")) [
        | inl auto ↦
            let (a, found, last) = >>=-eq-ok (auto_address l used) _ (rw (other, auto) at h) in
            let q : (draft i now id "static" (some a), text.show a) ≡ r = cc in
            rw (← q) (inr (refl, (a, refl, auto_address-Fresh i l used {a = a} b found)))
        | inr named ↦
            let (a, found, last) =
              >>=-eq-ok (manual_address text l used selection) _ (rw (other, named) at h) in
            let q : (draft i now id "static" (some a), text.show a) ≡ r = cc in
            rw (← q)
              (inr (refl, (a, refl, manual_address-Fresh text l used selection {a = a} found)))
      ]
    ]

-- One for a planned assignment of the address.
abbrev pub assigns : Address → Planned → ℕ
assigns x p = elim p.assignment.address [ none ↦ 0 | some a ↦ if same_address a x then 1 else 0 ]

abbrev pub named : String → Planned → ℕ
named id p = if str_eq p.client_id id then 1 else 0

abbrev pub targeted : String → ClientState → ℕ
targeted id c = if str_eq c.client.id id then 1 else 0

-- A planned address is planned once, was not in use, and lies in the static range.
abbrev pub IsNew : Layout → List Address → List Planned → Type 0
IsNew l used planned =
    (x : Address)
    → 0 < total (assigns x) planned
    → (total (assigns x) planned ≡ 1) × (count x used ≡ 0) × (contains l.static x ≡ true)

extend-some :
    (b : AddressAssignment) (used : List Address) (a : Address)
    → b.address ≡ some a
    → extend b used ≡ used ++ a ∷ []
extend-some b used a h = rw h refl

assigns-some :
    (x : Address) (p : Planned) (a : Address)
    → p.assignment.address ≡ some a
    → assigns x p ≡ (if same_address a x then 1 else 0)
assigns-some x p a h = rw h refl

absent : {n : ℕ} → ¬ (0 < n) → n ≡ 0
absent h = omega arith

IsNew-cons :
    (l : Layout) (used : List Address) (p : Planned) (ps : List Planned)
    → IsGiven l used p.assignment
    → IsNew l (extend p.assignment used) ps
    → IsNew l used (p ∷ ps)
IsNew-cons l used p ps (inl (_, unset, _)) later x more = ground (arith, later x)
IsNew-cons l used p ps (inr (_, (a, given, (inside, free)))) later x more =
    let grown : count x (extend p.assignment used) ≡ count x (used ++ a ∷ []) =
      ap (count x) (extend-some p.assignment used a given) in
    let sum = count-append x used (a ∷ []) in
    let mine : assigns x p ≡ (if same_address a x then 1 else 0) = assigns-some x p a given in
    elim (Bool-cases (same_address a x)) [
      | inl e ↦
          let q = (same_address_iff a x).0 e in
          let none_before : count x used ≡ 0 =
            rw (← q) (ground (arith, has_address-count a used)) in
          let once : count x (extend p.assignment used) ≡ 1 = rw (grown, sum, e) (omega arith) in
          let alone : total (assigns x) ps ≡ 0 = absent (λ m. omega (arith, (later x m).1)) in
          (rw (mine, e, alone) (omega arith), none_before, rw (← q) inside)
      | inr e ↦
          let same : count x (extend p.assignment used) ≡ count x used =
            rw (grown, sum, e) (omega arith) in
          let zero : assigns x p ≡ 0 = rw (mine, e) refl in
          let (once, unused, there) = later x (omega (arith, zero)) in
          (omega (arith, zero), omega (arith, same), there)
    ]

module _ (text : TextFunctions) (i : InstanceState) (l : Layout)
    (selections : List (String × String)) (now : ℕ) (ids : ℕ → Option String) where
  plan_loop-IsNew :
      (k : ℕ) (used : List Address) (ts : List ClientState) {planned : List Planned}
      → Builds i l
      → plan_loop text i l selections now ids k used ts ≡ ok planned
      → IsNew l used planned × ((id : String) → total (named id) planned ≡ total (targeted id) ts)
  unfolding plan_loop
  plan_loop-IsNew k used [] {planned} b h =
      let q : [] ≡ planned = cc in rw (← q) ((λ x m. absurd (omega arith)), λ id. refl)
  plan_loop-IsNew k used (t ∷ ts) {planned} b h = elim (Option-cases (ids k)) [
    | inl dry ↦ cc (rw (dry, plan_loop) at h)
    | inr (id, drawn) ↦
        let (r, first, rest) =
          >>=-eq-ok (choose text i l used (selection_of selections t.client.id) now id) _
            (rw (drawn, plan_loop) at h) in
        let (ps, more, last) =
          >>=-eq-ok (plan_loop text i l selections now ids (k + 1) (extend r.0 used) ts) _ rest in
        let p : Planned = record { client_id = t.client.id; assignment = r.0; normalized = r.1 } in
        let q : p ∷ ps ≡ planned = cc in
        let given =
          choose-IsGiven text i l used (selection_of selections t.client.id) now id {r = r} b
            first in
        let (later, counts) = plan_loop-IsNew (k + 1) (extend r.0 used) ts {planned = ps} b more in
        rw (← q) (IsNew-cons l used p ps given later, λ id'. omega (arith, counts id'))
  ]

-- When the addresses of a set of clients are planned, every static address that is planned lies in
-- the static range, is planned for one client only, and is assigned to none of the clients that
-- are not changed; and each id has as many planned assignments as the targets name it.
pub plan_addresses-IsNew :
    (text : TextFunctions) (i : InstanceState) (clients targets : List ClientState)
    (selections : List (String × String)) (now : ℕ) (ids : ℕ → Option String) {l : Layout}
    {planned : List Planned}
    → Builds i l
    → plan_addresses text i clients targets selections now ids ≡ ok planned
    → IsNew l (kept_addresses targets clients) planned
      × ((id : String) → total (named id) planned ≡ total (targeted id) targets)
unfolding plan_addresses
plan_addresses-IsNew text i clients targets selections now ids {l} {planned} b h =
    let (fresh, counts) =
      plan_loop-IsNew text i l selections now ids 0 (kept_addresses targets clients)
        (sort_by target_less targets) {planned = planned} b (rw (b.1, plan_addresses) at h) in
    (fresh, λ id. counts id ∙ total-sort_by target_less (targeted id) targets)

has_static_all :
    (cs : List ClientState) (x : Address)
    → has_address (all_addresses cs) x ≡ false
    → has_address (static_addresses cs) x ≡ false
has_static_all [] x h = refl
has_static_all (c ∷ cs) x h = elim (Option-cases c.assignment) [
  | inl bare ↦ rw bare (has_static_all cs x (rw bare at h))
  | inr (a, held) ↦ elim (Option-cases a.address) [
    | inl bare ↦ rw held (ground (arith, has_static_all cs x (rw (held, bare) at h)))
    | inr (y, at) ↦ rw held (ground (arith, has_static_all cs x, rw (held, at) at h))
  ]
]

create_selected-IsGiven :
    (text : TextFunctions) (i : InstanceState) (l : Layout) (clients : List ClientState)
    (selection : String) (now : ℕ) (id : String) {a : AddressAssignment}
    → Builds i l
    → create_selected text i l clients selection now id ≡ ok a
    → IsGiven l (static_addresses clients) a
unfolding create_selected
create_selected-IsGiven text i l clients selection now id {a} b h =
    elim (Bool-cases (str_eq selection "dynamic")) [
      | inl dynamic ↦ elim (Bool-cases (is_empty l.dynamic)) [
        | inl empty ↦ cc (rw (dynamic, empty) at h)
        | inr room ↦
            let q : draft i now id "dynamic" none ≡ a = cc (rw (dynamic, room) at h) in
            rw (← q) (inl (refl, refl, room))
      ]
      | inr other ↦ elim (Bool-cases (str_eq selection "auto")) [
        | inl auto ↦
            let (x, found, last) =
              >>=-eq-ok (auto_address l (static_addresses clients)) _ (rw (other, auto) at h) in
            let q : draft i now id "static" (some x) ≡ a = cc in
            rw (← q) (
              inr (
                refl,
                (x, refl, auto_address-Fresh i l (static_addresses clients) {a = x} b found),
              ))
        | inr named ↦
            let (x, found, last) =
              >>=-eq-ok (manual_address text l (all_addresses clients) selection) _
                (rw (other, named) at h) in
            let q : draft i now id "static" (some x) ≡ a = cc in
            let (inside, free) =
              manual_address-Fresh text l (all_addresses clients) selection {a = x} found in
            rw (← q) (inr (refl, (x, refl, (inside, has_static_all clients x free))))
      ]
    ]

-- The assignment planned for a new client is dynamic, with no address and a pool that is not empty;
-- or it is static, with an address of the static range that no client's static assignment has.
pub plan_create_assignment-IsGiven :
    (text : TextFunctions) (i : InstanceState) (clients : List ClientState) (selection : String)
    (now : ℕ) (id : Option String) {l : Layout} {a : AddressAssignment}
    → Builds i l
    → plan_create_assignment text i clients selection now id ≡ ok a
    → IsGiven l (static_addresses clients) a
unfolding plan_create_assignment
plan_create_assignment-IsGiven text i clients selection now none {l} {a} b h =
    cc (rw (b.1, plan_create_assignment) at h)
plan_create_assignment-IsGiven text i clients selection now (some id) {l} {a} b h =
    create_selected-IsGiven text i l clients selection now id {a = a} b
      (rw (b.1, plan_create_assignment) at h)
