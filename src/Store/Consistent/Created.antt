-- ===== src/Store/Consistent/Created.antt =====
-- Creating a client keeps the tables consistent.
use mathlib.Core.Path.{subst}
use openvpn_docker.Prelude.{
  ℕ, ◌+◌, ◌≤◌, String, ◌≡◌, refl, true, false, not, ◌&&◌, ◌||◌, Option, none, some, List, [], ◌∷◌,
  ◌++◌, arith, eq_iff, if◌then◌else◌, ltb, ◌==◌, sym, ap, ◌∙◌, Result, ok, err, refuse_if,
  >>=-eq-ok, refuse_if-ok, ok-injective,
}
use openvpn_docker.Domain.Ids.{valid_uuid}
use openvpn_docker.Store.{AddressAssignment, ClientLease, ClientState}
use openvpn_docker.Store.Rows.{count_where, count-append_one}
use openvpn_docker.Store.Tables.{
  Tables, ClientRow, constraint, invalid_request, is_current, is_held, has_id, has_name, holds,
  holds_dynamic, insert_client, ensure_network_instance, validate_lease_pool, insert_lease,
  leases_in, leases_address,
}
use openvpn_docker.Store.Commits.{Session, require_files_installed, from_state}
use openvpn_docker.Store.Clients.{
  client_row, insert_current, insert_leased, insert_client_aggregate, commit_create,
}
use openvpn_docker.Store.Validate.{
  is_some, bad_timestamps, validate_client_state, is_released, StateError,
}
use openvpn_docker.Store.Validate.Accepted.{HasCarrier, validate_client_state-HasCarrier}
use openvpn_docker.Store.Consistent.{Core, core, IsConsistent, is_live, is_bad}
use openvpn_docker.Store.Consistent.Frames.{finish-core, insert_artifacts-core}
use openvpn_docker.Store.Consistent.Given.{insert_assignment-ok}
use openvpn_docker.Store.Consistent.Kept.{Keeps, by_core}
use openvpn_docker.Store.Consistent.Placing.{add_client-IsConsistent, new-holds, place-IsConsistent}
use openvpn_docker.Store.Consistent.Lending.{insert-IsConsistent}

-- A client that holds an assignment is current.
abbrev pub FitsStatus : ClientState → Type 0
FitsStatus c =
    (a : AddressAssignment)
    → c.assignment ≡ some a
    → is_held a.status ≡ true
    → is_current c.client.status ≡ true

insert_client-ok :
    (c : ClientRow) (t : Tables) {t' : Tables}
    → insert_client c t ≡ ok t'
    → (count_where (has_id c.id) t.clients ≡ 0)
      × ((is_current c.status
            && ltb 0 (count_where (has_name c.instance_id c.current_name) t.clients))
          ≡ false)
      × (is_bad c ≡ false)
      × (t' ≡ record t { clients = t.clients ++ c ∷ [] })
unfolding insert_client is_bad
insert_client-ok c t h =
    let (_, new, r1) =
      >>=-eq-ok (refuse_if (ltb 0 (count_where (has_id c.id) t.clients)) constraint) _ h in
    let (_, free, r2) =
      >>=-eq-ok
        (refuse_if
          (is_current c.status
            && ltb 0 (count_where (has_name c.instance_id c.current_name) t.clients))
          constraint)
        _ r1 in
    let (_, times, r3) =
      >>=-eq-ok
        (refuse_if (bad_timestamps c.status (is_some c.revoked_at) (is_some c.deleted_at))
          constraint)
        _ r2 in
    (
      ground (arith, refuse_if-ok (ltb 0 (count_where (has_id c.id) t.clients)) constraint new),
      refuse_if-ok _ constraint free,
      refuse_if-ok _ constraint times,
      sym (ok-injective r3),
    )

-- The tables after the row of a client with a new id.
module _ (id : String) (t : Tables) where
  abbrev HoldsNothing : Type 0
  HoldsNothing = count_where (holds id) t.assignments ≡ 0

  insert_current-Keeps :
      (i : String) (o : Option AddressAssignment) {t' : Tables}
      → insert_current i id o t ≡ ok t'
      → HoldsNothing
      → ((a : AddressAssignment)
          → o ≡ some a
          → is_held a.status ≡ true
          → 1 ≤ count_where (is_live id) t.clients)
      → Keeps t t'
  unfolding insert_current
  insert_current-Keeps i none {t'} h empty live v =
      subst (λ x. IsConsistent (core x)) (ok-injective h) v
  insert_current-Keeps i (some a) {t'} h empty live v =
      let (_, _, r) = >>=-eq-ok (ensure_network_instance a.network_id i t) _ h in
      let (new, free, e) = insert_assignment-ok id a t {t' = t'} r in
      rw e (place-IsConsistent id a (core t) v new free empty (live a refl))

  carrying :
      (a : AddressAssignment) (lease : ClientLease)
      → a.kind ≡ "dynamic"
      → a.network_id ≡ lease.network_id
      → is_released a.status ≡ false
      → 1
        ≤ count_where (holds_dynamic id lease.network_id) t.assignments
          + (if holds_dynamic id lease.network_id (record { client_id = id; value = a })
              then 1
              else 0)
  unfolding holds_dynamic
  carrying a lease k n r =
      ground (arith, eq_iff id id, eq_iff a.network_id lease.network_id, eq_iff a.kind "dynamic")

  -- An assignment that carries a lease is there after its insertion.
  insert_current-carries :
      (i : String) (o : Option AddressAssignment) (lease : ClientLease) {t' : Tables}
      → insert_current i id o t ≡ ok t'
      → HasCarrier o lease
      → 1 ≤ count_where (holds_dynamic id lease.network_id) t'.assignments
  unfolding insert_current
  insert_current-carries i none lease h carrier = cc (carrier.1)
  insert_current-carries i (some a) lease {t'} h (b, same, kind, network, _, current) =
      let (_, _, r) = >>=-eq-ok (ensure_network_instance a.network_id i t) _ h in
      let (_, _, e) = insert_assignment-ok id a t {t' = t'} r in
      let ab : a ≡ b = cc same in
      rw e (
        rw
          (count-append_one (holds_dynamic id lease.network_id) t.assignments
            (record { client_id = id; value = a }))
          (carrying a lease (rw ab kind) (rw ab network) (rw ab current)))

  insert_leased-Keeps :
      (lease : Option ClientLease) {t' : Tables}
      → insert_leased id lease t ≡ ok t'
      → ((l : ClientLease)
          → lease ≡ some l
          → 1 ≤ count_where (holds_dynamic id l.network_id) t.assignments)
      → Keeps t t'
  unfolding insert_leased insert_lease
  insert_leased-Keeps none h there v = subst (λ x. IsConsistent (core x)) (ok-injective h) v
  insert_leased-Keeps (some l) {t'} h there v =
      let (_, _, r1) = >>=-eq-ok (validate_lease_pool l t) _ h in
      let (_, free, r2) =
        >>=-eq-ok
          (refuse_if
            (ltb 0 (count_where (leases_in id l.network_id) t.leases)
              || ltb 0 (count_where (leases_address l.network_id l.address) t.leases))
            constraint)
          _ r1 in
      by_core t' (sym (ap core (ok-injective r2))) (
        insert-IsConsistent id l (core t) v (ground (arith, refuse_if-ok _ constraint free))
          (there l refl))

from_state-ok :
    (r : Result StateError (Unit {0})) {u : Unit {0}}
    → from_state r ≡ ok u
    → (w : Unit {0}) × (r ≡ ok w)
from_state-ok (ok w) h = (w, refl)
from_state-ok (err e) h = cc h

new-is_live :
    (i : String) (c : ClientState) (cs : List ClientRow)
    → is_current c.client.status ≡ true
    → 1 ≤ count_where (is_live c.client.id) (cs ++ client_row i c ∷ [])
unfolding is_live
new-is_live i c cs h =
    rw (count-append_one (is_live c.client.id) cs (client_row i c))
      (ground (arith, eq_iff c.client.id c.client.id))

aggregate-Keeps :
    (s : Session) (i : String) (c : ClientState) (t : Tables) {t' : Tables}
    → insert_client_aggregate s i c t ≡ ok t'
    → FitsStatus c
    → ((l : ClientLease) → c.lease ≡ some l → HasCarrier c.assignment l)
    → Keeps t t'
unfolding insert_client_aggregate
aggregate-Keeps s i c t {t'} h fits carrier v =
    let (a, ha, r1) = >>=-eq-ok (insert_client (client_row i c) t) _ h in
    let (b, hb, r2) = >>=-eq-ok (insert_current i c.client.id c.assignment a) _ r1 in
    let (d, hd, r3) = >>=-eq-ok (insert_leased c.client.id c.lease b) _ r2 in
    let (new, free, good, e) = insert_client-ok (client_row i c) t {t' = a} ha in
    let first : IsConsistent (core a) =
      rw e (add_client-IsConsistent (client_row i c) (core t) v new free good) in
    let empty : count_where (holds c.client.id) a.assignments ≡ 0 =
      rw e (new-holds (client_row i c) (core t) v new) in
    let second =
      insert_current-Keeps c.client.id a i c.assignment {t' = b} hb empty
        (λ x there held. rw e (new-is_live i c t.clients (fits x there held))) first in
    by_core t' (insert_artifacts-core s i c.client.id c.artifacts d {t' = t'} r3) (
      insert_leased-Keeps c.client.id b c.lease {t' = d} hd
        (λ l there.
          insert_current-carries c.client.id a i c.assignment l {t' = b} hb (carrier l there))
        second)

pub commit_create-ok :
    (s : Session) (o i : String) (c : ClientState) (payload : String) (at : ℕ) (t : Tables)
    {t' : Tables}
    → commit_create s o i c payload at t ≡ ok t'
    → ((u : Unit {0}) × (validate_client_state s.clean s.size c ≡ ok u))
      × ((a : Tables) × (insert_client_aggregate s i c t ≡ ok a) × (core t' ≡ core a))
unfolding commit_create
commit_create-ok s o i c payload at t {t'} h =
    let (_, _, r1) =
      >>=-eq-ok
        (refuse_if
          (not (valid_uuid o) || (not (valid_uuid i) || (not (s.json_valid payload) || at == 0)))
          invalid_request)
        _ h in
    let (_, good, r2) = >>=-eq-ok (from_state (validate_client_state s.clean s.size c)) _ r1 in
    let (_, _, r3) = >>=-eq-ok (require_files_installed o i t) _ r2 in
    let (a, ha, r4) = >>=-eq-ok (insert_client_aggregate s i c t) _ r3 in
    (
      from_state-ok (validate_client_state s.clean s.size c) good,
      (a, ha, finish-core s o i "client.created" payload at a {t' = t'} r4),
    )

pub commit_create-Keeps :
    (s : Session) (o i : String) (c : ClientState) (payload : String) (at : ℕ) (t : Tables)
    {t' : Tables}
    → commit_create s o i c payload at t ≡ ok t'
    → FitsStatus c
    → Keeps t t'
commit_create-Keeps s o i c payload at t {t'} h fits v =
    let ((_, valid), (a, ha, e)) = commit_create-ok s o i c payload at t {t' = t'} h in
    by_core t' e (
      aggregate-Keeps s i c t {t' = a} ha fits
        (λ l there. validate_client_state-HasCarrier s.clean s.size c l valid there) v)

-- The table of clients after a creation.
module _ (id : String) (t : Tables) where
  insert_current-clients :
      (i : String) (o : Option AddressAssignment) {t' : Tables}
      → insert_current i id o t ≡ ok t'
      → t'.clients ≡ t.clients
  unfolding insert_current
  insert_current-clients i none {t'} h = ap (λ (x : Tables). x.clients) (sym (ok-injective h))
  insert_current-clients i (some a) {t'} h =
      let (_, _, r) = >>=-eq-ok (ensure_network_instance a.network_id i t) _ h in
      let (_, _, e) = insert_assignment-ok id a t {t' = t'} r in ap (λ (x : Tables). x.clients) e

  insert_leased-clients :
      (lease : Option ClientLease) {t' : Tables}
      → insert_leased id lease t ≡ ok t'
      → t'.clients ≡ t.clients
  unfolding insert_leased insert_lease
  insert_leased-clients none h = ap (λ (x : Tables). x.clients) (sym (ok-injective h))
  insert_leased-clients (some l) h =
      let (_, _, r1) = >>=-eq-ok (validate_lease_pool l t) _ h in
      let (_, _, r2) =
        >>=-eq-ok
          (refuse_if
            (ltb 0 (count_where (leases_in id l.network_id) t.leases)
              || ltb 0 (count_where (leases_address l.network_id l.address) t.leases))
            constraint)
          _ r1 in
      ap (λ (x : Tables). x.clients) (sym (ok-injective r2))

pub commit_create-clients :
    (s : Session) (o i : String) (c : ClientState) (payload : String) (at : ℕ) (t : Tables)
    {t' : Tables}
    → commit_create s o i c payload at t ≡ ok t'
    → (count_where (has_id c.client.id) t.clients ≡ 0)
      × (t'.clients ≡ t.clients ++ client_row i c ∷ [])
unfolding insert_client_aggregate
commit_create-clients s o i c payload at t {t'} h =
    let (_, (g, hg, e)) = commit_create-ok s o i c payload at t {t' = t'} h in
    let (a, ha, r1) = >>=-eq-ok (insert_client (client_row i c) t) _ hg in
    let (b, hb, r2) = >>=-eq-ok (insert_current i c.client.id c.assignment a) _ r1 in
    let (d, hd, r3) = >>=-eq-ok (insert_leased c.client.id c.lease b) _ r2 in
    let (new, _, _, q) = insert_client-ok (client_row i c) t {t' = a} ha in
    (
      new,
      ap (λ (k : Core). k.clients)
            (e ∙ insert_artifacts-core s i c.client.id c.artifacts d {t' = g} r3)
          ∙ insert_leased-clients c.client.id b c.lease {t' = d} hd
          ∙ insert_current-clients c.client.id a i c.assignment {t' = b} hb
          ∙ ap (λ (x : Tables). x.clients) q,
    )
