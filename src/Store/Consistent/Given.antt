-- ===== src/Store/Consistent/Given.antt =====
-- Reissuing a client keeps the tables consistent.
use mathlib.Core.Path.{subst}
use openvpn_docker.Prelude.{
  ℕ, ◌≤◌, String, ◌≡◌, refl, Bool, true, false, not, ◌&&◌, ◌||◌, List, [], ◌∷◌, ◌++◌, arith, str_eq,
  Bool-cases, inl, inr, ltb, sym, ap, ◌∙◌, Option-cases, ok, ◌>>◌, refuse_if, >>=-eq-ok,
  refuse_if-ok, ok-injective,
}
use openvpn_docker.Domain.Config.{ClientStatus}
use openvpn_docker.Domain.Ids.{valid_uuid}
use openvpn_docker.Store.{AddressAssignment, AssignmentStatus}
use openvpn_docker.Store.Rows.{
  count_where, find_where, update_where, delete_where, count_mono, count-delete-le,
}
use openvpn_docker.Store.Tables.{
  Tables, ClientRow, constraint, invalid_request, status_eq, is_current, is_held, is_source, holds,
  is_assignment, update_client, change_held, release, clear_leases, insert_assignment,
  ensure_network_instance, check_pool, holds_in, address_taken, bad_kind_address, leases_of,
  leases_in,
}
use openvpn_docker.Store.Commits.{
  Session, require_files_installed, clear_lease_and_apply_artifacts, validate_lifecycle_input,
}
use openvpn_docker.Store.Clients.{Change, source, reissued, commit_reissue, reassign}
use openvpn_docker.Store.Validate.{is_some, bad_release}
use openvpn_docker.Store.Consistent.{Core, core, IsConsistent, is_live, moved-is_live}
use openvpn_docker.Store.Consistent.Clients.{reissue-IsConsistent}
use openvpn_docker.Store.Consistent.Frames.{finish-core, clear_lease-core}
use openvpn_docker.Store.Consistent.Kept.{Keeps, by_core, update_client-ok}
use openvpn_docker.Store.Consistent.Placing.{place-IsConsistent}
use openvpn_docker.Store.Consistent.Lending.{restore-IsConsistent}
use openvpn_docker.Store.Consistent.Steps.{vacate, vacate-holds, vacate-IsConsistent}

-- What an assignment that is inserted has met.
pub insert_assignment-ok :
    (id : String) (a : AddressAssignment) (t : Tables) {t' : Tables}
    → insert_assignment id a t ≡ ok t'
    → (count_where (is_assignment a.id) t.assignments ≡ 0)
      × ((is_held a.status && address_taken a t.assignments) ≡ false)
      × (t' ≡ record t { assignments = t.assignments ++ record { client_id = id; value = a } ∷ [] })
unfolding insert_assignment
insert_assignment-ok id a t h =
    let (_, _, r1) = >>=-eq-ok (check_pool a t) _ h in
    let (_, new, r2) =
      >>=-eq-ok (refuse_if (ltb 0 (count_where (is_assignment a.id) t.assignments)) constraint) _
        r1 in
    let (_, _, r3) =
      >>=-eq-ok
        (refuse_if
          (is_held a.status && ltb 0 (count_where (holds_in id a.network_id) t.assignments))
          constraint)
        _ r2 in
    let (_, free, r4) =
      >>=-eq-ok (refuse_if (is_held a.status && address_taken a t.assignments) constraint) _ r3 in
    let (_, _, r5) = >>=-eq-ok (refuse_if (bad_kind_address a.kind a.address) constraint) _ r4 in
    let (_, _, r6) =
      >>=-eq-ok (refuse_if (bad_release a.status (is_some a.released_at)) constraint) _ r5 in
    (
      ground (
        arith,
        refuse_if-ok (ltb 0 (count_where (is_assignment a.id) t.assignments)) constraint new,
      ),
      refuse_if-ok _ constraint free,
      sym (ok-injective r6),
    )

-- The source row of a change is a current client.
pub source-is_live :
    (id i n : String) (q : ClientStatus → Bool) (cs : List ClientRow)
    → ((s : ClientStatus) → q s ≡ true → is_current s ≡ true)
    → count_where (is_source id i n q) cs ≡ 1
    → 1 ≤ count_where (is_live id) cs
unfolding is_source is_live
source-is_live id i n q cs h one = omega (
  arith,
  count_mono (is_source id i n q) (is_live id) cs (λ c w. ground (arith, h c.status)),
  one,
)

pub status_eq-is_current :
    (s r : ClientStatus) → is_current s ≡ true → status_eq s r ≡ true → is_current r ≡ true
status_eq-is_current s r h k = ground arith

-- The held assignment of a client is replaced, and its leases go.
replaced-IsConsistent :
    (id : String) (at : ℕ) (a : AddressAssignment) (t : Tables) {t' : Tables}
    → insert_assignment id a (change_held (release at) id t) ≡ ok t'
    → 1 ≤ count_where (is_live id) t.clients
    → IsConsistent (core t)
    → IsConsistent (core (clear_leases id t'))
unfolding change_held clear_leases
replaced-IsConsistent id at a t {t'} h live v =
    let (new, free, e) = insert_assignment-ok id a _ {t' = t'} h in
    rw e (
      place-IsConsistent id a (vacate id at (core t)) (vacate-IsConsistent id at (core t) v) new
        free (vacate-holds id at (core t) v) (λ _. live))

cleared-IsConsistent :
    (id : String) (k : Core)
    → IsConsistent k
    → IsConsistent (record k { leases = delete_where (leases_of id) k.leases })
cleared-IsConsistent id k v = record {
  ids = v.ids;
  names = v.names;
  times = v.times;
  rows = v.rows;
  single = v.single;
  owned = v.owned;
  addresses = v.addresses;
  carried =
      λ i n. omega (arith, count-delete-le (leases_in i n) (leases_of id) k.leases, v.carried i n);
}

reassign-IsConsistent :
    (c : Change) (a : AddressAssignment) (t : Tables) {t' : Tables}
    → reassign c a t ≡ ok t'
    → 1 ≤ count_where (is_live c.client_id) t.clients
    → IsConsistent (core t)
    → IsConsistent (core (clear_leases c.client_id t'))
unfolding reassign clear_leases is_assignment
reassign-IsConsistent c a t {t'} h live v =
    let anew : (ensure_network_instance a.network_id c.instance_id t
            >> insert_assignment c.client_id a (change_held (release c.at) c.client_id t))
          ≡ ok t'
        → IsConsistent (core (clear_leases c.client_id t')) =
      (λ r.
        let (_, _, r') = >>=-eq-ok (ensure_network_instance a.network_id c.instance_id t) _ r in
        replaced-IsConsistent c.client_id c.at a t {t' = t'} r' live v) in
    elim (Option-cases (find_where (holds c.client_id) t.assignments)) [
      | inl e ↦ anew (rw (e, reassign) at h)
      | inr (row, e) ↦ elim (Bool-cases (str_eq row.value.id a.id)) [
        | inl same ↦
            let back = ok-injective (rw same at (rw (e, reassign) at h)) in
            subst (λ x. IsConsistent (core (clear_leases c.client_id x))) back
              (cleared-IsConsistent c.client_id _
                (restore-IsConsistent c.client_id a.id c.at (core t) v row e same))
        | inr other ↦ anew (rw other at (rw (e, reassign) at h))
      ]
    ]

pub reassign-clients :
    (c : Change) (a : AddressAssignment) (t : Tables) {t' : Tables}
    → reassign c a t ≡ ok t'
    → t'.clients ≡ t.clients
unfolding reassign change_held
reassign-clients c a t {t'} h =
    let anew : (ensure_network_instance a.network_id c.instance_id t
            >> insert_assignment c.client_id a (change_held (release c.at) c.client_id t))
          ≡ ok t'
        → t'.clients ≡ t.clients =
      (λ r.
        let (_, _, r') = >>=-eq-ok (ensure_network_instance a.network_id c.instance_id t) _ r in
        let (_, _, e) = insert_assignment-ok c.client_id a _ {t' = t'} r' in
        ap (λ (x : Tables). x.clients) e) in
    elim (Option-cases (find_where (holds c.client_id) t.assignments)) [
      | inl e ↦ anew (rw (e, reassign) at h)
      | inr (row, e) ↦ elim (Bool-cases (str_eq row.value.id a.id)) [
        | inl same ↦
            ap (λ (x : Tables). x.clients) (sym (ok-injective (rw same at (rw (e, reassign) at h))))
        | inr other ↦ anew (rw other at (rw (e, reassign) at h))
      ]
    ]

pub commit_reissue-ok :
    (s : Session) (c : Change) (status : ClientStatus) (a : AddressAssignment) (t : Tables)
    {t' : Tables}
    → commit_reissue s c status a t ≡ ok t'
    → (is_current status ≡ true)
      × (count_where (source c status) t.clients ≡ 1)
      × ((d : Tables) × (reassign c a
              (record t { clients = update_where (source c status) reissued t.clients })
            ≡ ok d)
          × (core t' ≡ core (clear_leases c.client_id d)))
unfolding commit_reissue
commit_reissue-ok s c status a t {t'} h =
    let (_, _, r1) =
      >>=-eq-ok
        (validate_lifecycle_input s c.operation_id c.instance_id c.client_id c.name c.payload c.at)
        _ h in
    let (_, cur, r2) = >>=-eq-ok (refuse_if (not (is_current status)) invalid_request) _ r1 in
    let (_, _, r3) =
      >>=-eq-ok
        (refuse_if
          (not (valid_uuid a.id) || elim a.status [ AssignmentStatus.active ↦ false | _ ↦ true ])
          invalid_request)
        _ r2 in
    let (_, _, r4) = >>=-eq-ok (require_files_installed c.operation_id c.instance_id t) _ r3 in
    let (b, hb, r5) = >>=-eq-ok (update_client (source c status) reissued t) _ r4 in
    let (one, e) = update_client-ok (source c status) reissued t {t' = b} hb in
    let (d, hd, r6) = >>=-eq-ok (reassign c a b) _ r5 in
    let (g, hg, r7) =
      >>=-eq-ok (clear_lease_and_apply_artifacts s c.instance_id c.client_id c.active c.removed d) _
        r6 in
    (
      ground (arith, refuse_if-ok (not (is_current status)) invalid_request cur),
      one,
      (
        d,
        subst (λ x. reassign c a x ≡ ok d) e hd,
        finish-core s c.operation_id c.instance_id "client.reissued" c.payload c.at g {t' = t'} r7
            ∙ clear_lease-core s c.instance_id c.client_id c.active c.removed d {t' = g} hg,
      ),
    )

pub commit_reissue-Keeps :
    (s : Session) (c : Change) (status : ClientStatus) (a : AddressAssignment) (t : Tables)
    {t' : Tables}
    → commit_reissue s c status a t ≡ ok t'
    → Keeps t t'
commit_reissue-Keeps s c status a t {t'} h v =
    let (current, one, (d, hd, e)) = commit_reissue-ok s c status a t {t' = t'} h in
    let live =
      source-is_live c.client_id c.instance_id c.name (status_eq status) t.clients
        (λ r. status_eq-is_current status r current) one in
    let same =
      moved-is_live c.client_id c.instance_id c.name (status_eq status) reissued t.clients
        c.client_id (λ x. refl) (λ x w. sym (status_eq-is_current status x.status current w)) in
    by_core t' e (
      reassign-IsConsistent c a _ {t' = d} hd (rw same live)
        (reissue-IsConsistent c.client_id c.instance_id c.name status (core t) current v))
