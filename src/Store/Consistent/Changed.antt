-- ===== src/Store/Consistent/Changed.antt =====
-- The three loops of CommitClientAddressOperation over its changes.
use mathlib.Core.Path.{subst}
use openvpn_docker.Prelude.{
  ℕ, ◌≤◌, String, ◌≡◌, refl, true, false, not, ◌||◌, List, [], ◌∷◌, ◌++◌, arith, str_eq, Bool-cases,
  inl, inr, ◌==◌, ◌∙◌, Option-cases, ok, refuse_if, >>=-eq-ok, refuse_if-ok, ok-injective, All,
}
use openvpn_docker.Domain.Ids.{valid_uuid, valid_client_name}
use openvpn_docker.Store.{AddressAssignment}
use openvpn_docker.Store.Addressing.{
  AddressChange, check_changes, check_intent, release_all, assigned, assign_one, assign_all,
  is_release,
}
use openvpn_docker.Store.Rows.{count_where}
use openvpn_docker.Store.Tables.{
  Tables, ClientRow, invalid_request, source_changed, is_current, is_source, holds, status_eq,
  change_held, clear_leases, ensure_network_instance,
}
use openvpn_docker.Store.Validate.{one_of}
use openvpn_docker.Store.Consistent.{core, IsConsistent, is_live}
use openvpn_docker.Store.Consistent.Given.{
  insert_assignment-ok, source-is_live, status_eq-is_current,
}
use openvpn_docker.Store.Consistent.Kept.{Keeps}
use openvpn_docker.Store.Consistent.Placing.{place-IsConsistent, place-holds_other}
use openvpn_docker.Store.Consistent.Steps.{vacate-holds, vacate-IsConsistent, released-holds-le}

-- The clients of the changes are current, and no two are the same.
abbrev pub IsApart : String → List AddressChange → Type 0
IsApart id = All (λ c. str_eq id c.client_id ≡ false)

abbrev pub IsReady : List ClientRow → List AddressChange → Type 0
IsReady rows [] = Unit
IsReady rows (c ∷ cs) =
    IsApart c.client_id cs × (1 ≤ count_where (is_live c.client_id) rows) × IsReady rows cs

-- One change that the first loop accepts, and the rest.
check_changes-step :
    (kind i : String) (seen : List String) (c : AddressChange) (cs : List AddressChange)
    (t : Tables) {u : Unit {0}}
    → check_changes kind i seen (c ∷ cs) t ≡ ok u
    → (one_of seen c.client_id ≡ false)
      × (1 ≤ count_where (is_live c.client_id) t.clients)
      × ((w : Unit {0}) × (check_changes kind i (c.client_id ∷ seen) cs t ≡ ok w))
unfolding check_changes
check_changes-step kind i seen c cs t {u} h =
    let (_, fine, r1) =
      >>=-eq-ok
        (refuse_if
          (not (valid_uuid c.client_id)
            || (not (valid_client_name c.name) || not (is_current c.status)))
          invalid_request)
        _ h in
    let (_, new, r2) = >>=-eq-ok (refuse_if (one_of seen c.client_id) invalid_request) _ r1 in
    let (_, one, r3) =
      >>=-eq-ok
        (refuse_if
          (not (count_where (is_source c.client_id i c.name (status_eq c.status)) t.clients == 1))
          source_changed)
        _ r2 in
    let (_, _, r4) = >>=-eq-ok (check_intent (is_release kind) c.status c.assignment) _ r3 in
    let current : is_current c.status ≡ true =
      ground (arith, refuse_if-ok _ invalid_request fine) in
    (
      refuse_if-ok _ invalid_request new,
      source-is_live c.client_id i c.name (status_eq c.status) t.clients
          (λ r. status_eq-is_current c.status r current)
          (ground (arith, refuse_if-ok _ source_changed one)),
      (u, r4),
    )

check_changes-IsApart :
    (kind i id : String) (seen : List String) (cs : List AddressChange) (t : Tables) {u : Unit {0}}
    → check_changes kind i seen cs t ≡ ok u
    → ((s : String) → str_eq id s ≡ true → one_of seen s ≡ true)
    → IsApart id cs
check_changes-IsApart kind i id seen [] t h k = tt
check_changes-IsApart kind i id seen (c ∷ cs) t {u} h k =
    let (new, _, (w, r)) = check_changes-step kind i seen c cs t {u = u} h in
    (
      elim (Bool-cases (str_eq id c.client_id)) [ inl e ↦ cc (k c.client_id e) | inr e ↦ e ],
      check_changes-IsApart kind i id (c.client_id ∷ seen) cs t {u = w} r
          (λ s e. ground (arith, k s e)),
    )

pub check_changes-IsReady :
    (kind i : String) (seen : List String) (cs : List AddressChange) (t : Tables) {u : Unit {0}}
    → check_changes kind i seen cs t ≡ ok u
    → IsReady t.clients cs
check_changes-IsReady kind i seen [] t h = tt
check_changes-IsReady kind i seen (c ∷ cs) t {u} h =
    let (_, live, (w, r)) = check_changes-step kind i seen c cs t {u = u} h in
    (
      check_changes-IsApart kind i c.client_id (c.client_id ∷ seen) cs t {u = w} r
          (λ s e. ground arith),
      live,
      check_changes-IsReady kind i (c.client_id ∷ seen) cs t {u = w} r,
    )

-- The clients of the changes hold nothing.
abbrev pub IsVacant : Tables → List AddressChange → Type 0
IsVacant t = All (λ c. count_where (holds c.client_id) t.assignments ≡ 0)

pub release_all-clients :
    (at : ℕ) (cs : List AddressChange) (t : Tables) → (release_all at cs t).clients ≡ t.clients
unfolding release_all change_held clear_leases
release_all-clients at [] t = refl
release_all-clients at (c ∷ cs) t = release_all-clients at cs _

release_all-holds :
    (at : ℕ) (cs : List AddressChange) (t : Tables) (id : String)
    → count_where (holds id) t.assignments ≡ 0
    → count_where (holds id) (release_all at cs t).assignments ≡ 0
unfolding release_all change_held clear_leases
release_all-holds at [] t id h = h
release_all-holds at (c ∷ cs) t id h =
    release_all-holds at cs _ id
      (omega (arith, released-holds-le c.client_id at t.assignments id, h))

pub release_all-Keeps :
    (at : ℕ) (cs : List AddressChange) (t : Tables) → Keeps t (release_all at cs t)
unfolding release_all change_held clear_leases
release_all-Keeps at [] t v = v
release_all-Keeps at (c ∷ cs) t v =
    release_all-Keeps at cs _ (vacate-IsConsistent c.client_id at (core t) v)

pub release_all-IsVacant :
    (at : ℕ) (cs : List AddressChange) (t : Tables)
    → IsConsistent (core t)
    → IsVacant (release_all at cs t) cs
unfolding release_all change_held clear_leases
release_all-IsVacant at [] t v = tt
release_all-IsVacant at (c ∷ cs) t v = (
  release_all-holds at cs _ c.client_id (vacate-holds c.client_id at (core t) v),
  release_all-IsVacant at cs _ (vacate-IsConsistent c.client_id at (core t) v),
)

-- An assignment of another client leaves a client vacant.
place-IsVacant :
    (id : String) (a : AddressAssignment) (t : Tables) (cs : List AddressChange)
    → IsConsistent (core t)
    → IsApart id cs
    → IsVacant t cs
    → IsVacant
        (record t { assignments = t.assignments ++ record { client_id = id; value = a } ∷ [] })
        cs
place-IsVacant id a t [] v apart vacant = tt
place-IsVacant id a t (c ∷ cs) v apart vacant = (
  place-holds_other id a (core t) v c.client_id apart.0 ∙ vacant.0,
  place-IsVacant id a t cs v apart.1 vacant.1,
)

pub assign_all-Keeps :
    (at : ℕ) (i : String) (cs : List AddressChange) (t : Tables) {t' : Tables}
    → assign_all at i cs t ≡ ok t'
    → IsReady t.clients cs
    → IsVacant t cs
    → Keeps t t'
unfolding assign_all assign_one
assign_all-Keeps at i [] t h ready vacant v = subst (λ x. IsConsistent (core x)) (ok-injective h) v
assign_all-Keeps at i (c ∷ cs) t {t'} h (apart, live, ready) (empty, vacant) v =
    let (b, hb, r) = >>=-eq-ok (assign_one at i c.client_id c.status c.assignment t) _ h in
    elim (Option-cases c.assignment) [
      | inl e ↦
          let same : t ≡ b = ok-injective (rw (e, assign_one) at hb) in
          assign_all-Keeps at i cs b {t' = t'} r (rw (← same) ready) (rw (← same) vacant)
            (rw (← same) v)
      | inr (a, e) ↦
          let (_, _, q) =
            >>=-eq-ok (ensure_network_instance a.network_id i t) _ (rw (e, assign_one) at hb) in
          let (new, free, same) =
            insert_assignment-ok c.client_id (assigned at c.status a) t {t' = b} q in
          assign_all-Keeps at i cs b {t' = t'} r (rw same ready)
            (rw same (place-IsVacant c.client_id (assigned at c.status a) t cs v apart vacant))
            (rw same (
              place-IsConsistent c.client_id (assigned at c.status a) (core t) v new free empty
                (λ _. live)))
    ]
