-- ===== src/Store/Consistent/Noted.antt =====
-- Renaming a client and recording a lease keep the tables consistent.
use openvpn_docker.Prelude.{
  ℕ, zero, suc, ◌*◌, ◌≤◌, String, ◌≡◌, sym, ap, ◌∙◌, false, not, ◌&&◌, ◌||◌, arith, ltb, ◌==◌, ok,
  refuse_if, >>=-eq-ok, refuse_if-ok, ok-injective,
}
use openvpn_docker.Domain.{family}
use openvpn_docker.Domain.Ids.{valid_uuid}
use openvpn_docker.Ipam.{is_ipv4}
use openvpn_docker.Store.{ClientLease}
use openvpn_docker.Store.Rows.{count_where, update_where, delete_where}
use openvpn_docker.Store.Tables.{
  Tables, constraint, invalid_request, is_current, is_source, has_name, holds_dynamic,
  validate_lease_pool, no_dynamic_assignment,
}
use openvpn_docker.Store.Commits.{
  Session, require_files_installed, upsert_active_artifact, retire_artifact,
}
use openvpn_docker.Store.Clients.{
  Rename, renamed, commit_rename, rename_client, check_rename, record_lease, owned_networks,
  upsert_lease, leased_elsewhere,
}
use openvpn_docker.Store.Consistent.{core}
use openvpn_docker.Store.Consistent.Clients.{move, rename-IsConsistent}
use openvpn_docker.Store.Consistent.Frames.{finish-core, upsert-core}
use openvpn_docker.Store.Consistent.Kept.{Keeps, by_core, update_client-ok}
use openvpn_docker.Store.Consistent.Lending.{record-IsConsistent}

rename_client-ok :
    (i : String) (r : Rename) (t : Tables) {t' : Tables}
    → rename_client i r t ≡ ok t'
    → (count_where (is_source r.client_id i r.old_name is_current) t.clients ≡ 1)
      × (count_where (has_name i r.new_name) t.clients ≡ 0)
      × (t' ≡ record t {
        clients =
            update_where
              (is_source r.client_id i r.old_name is_current)
              (renamed r.new_name)
              t.clients;
      })
unfolding rename_client
rename_client-ok i r t {t'} h =
    let (_, free, r1) =
      >>=-eq-ok
        (refuse_if
          (ltb 0 (count_where (is_source r.client_id i r.old_name is_current) t.clients)
            && ltb 0 (count_where (has_name i r.new_name) t.clients))
          constraint)
        _ h in
    let (one, e) =
      update_client-ok (is_source r.client_id i r.old_name is_current) (renamed r.new_name) t
        {t' = t'} r1 in
    (one, ground (arith, refuse_if-ok _ constraint free), e)

pub commit_rename-ok :
    (s : Session) (o i : String) (r : Rename) (payload : String) (at : ℕ) (t : Tables) {t' : Tables}
    → commit_rename s o i r payload at t ≡ ok t'
    → (count_where (is_source r.client_id i r.old_name is_current) t.clients ≡ 1)
      × (count_where (has_name i r.new_name) t.clients ≡ 0)
      × (core t' ≡ move r.client_id i r.old_name is_current (renamed r.new_name) (core t))
unfolding commit_rename retire_artifact
commit_rename-ok s o i r payload at t {t'} h =
    let (_, _, r1) = >>=-eq-ok (check_rename s o i r payload at) _ h in
    let (_, _, r2) = >>=-eq-ok (require_files_installed o i t) _ r1 in
    let (b, hb, r3) = >>=-eq-ok (rename_client i r t) _ r2 in
    let (d, hd, r4) =
      >>=-eq-ok
        (upsert_active_artifact s i r.profile
          (retire_artifact i "client" r.client_id r.old_profile.key b))
        _ r3 in
    let (one, free, e) = rename_client-ok i r t {t' = b} hb in
    (
      one,
      free,
      finish-core s o i "client.renamed" payload at d {t' = t'} r4
          ∙ upsert-core s i r.profile _ {t' = d} hd
          ∙ ap core e,
    )

pub commit_rename-Keeps :
    (s : Session) (o i : String) (r : Rename) (payload : String) (at : ℕ) (t : Tables) {t' : Tables}
    → commit_rename s o i r payload at t ≡ ok t'
    → Keeps t t'
commit_rename-Keeps s o i r payload at t {t'} h v =
    let (one, free, e) = commit_rename-ok s o i r payload at t {t' = t'} h in
    by_core t' e (rename-IsConsistent r.client_id i r.old_name r.new_name (core t) one free v)

pub record_lease-ok :
    (s : Session) (id : String) (lease : ClientLease) (t : Tables) {t' : Tables}
    → record_lease s id lease t ≡ ok t'
    → (1 ≤ count_where (holds_dynamic id lease.network_id) t.assignments)
      × (core t' ≡ record (core t) {
        leases = upsert_lease id lease (delete_where (leased_elsewhere id lease) t.leases);
      })
unfolding record_lease
record_lease-ok s id lease t {t'} h =
    let (_, _, r1) =
      >>=-eq-ok
        (refuse_if
          (not (valid_uuid id) || (not (is_ipv4 (family lease.address)) || lease.updated_at == 0))
          invalid_request)
        _ h in
    let (_, one, r2) =
      >>=-eq-ok
        (refuse_if
          (not (
            count_where (holds_dynamic id lease.network_id) t.assignments
              * owned_networks id lease.network_id t.networks t.clients
            == 1))
          no_dynamic_assignment)
        _ r1 in
    let (_, _, r3) = >>=-eq-ok (validate_lease_pool lease t) _ r2 in
    let (_, _, r4) = >>=-eq-ok (refuse_if (not s.accepted) constraint) _ r3 in
    (positive _ _ (refuse_if-ok _ no_dynamic_assignment one), sym (ap core (ok-injective r4)))
  where
    positive : (a b : ℕ) → not (a * b == 1) ≡ false → 1 ≤ a
    positive zero b h = ground arith
    positive (suc a) b h = omega arith

pub record_lease-Keeps :
    (s : Session) (id : String) (lease : ClientLease) (t : Tables) {t' : Tables}
    → record_lease s id lease t ≡ ok t'
    → Keeps t t'
record_lease-Keeps s id lease t {t'} h v =
    let (there, e) = record_lease-ok s id lease t {t' = t'} h in
    by_core t' e (record-IsConsistent id lease (core t) v there)
