-- ===== src/Store/Consistent/Kept.antt =====
-- The transactions on one client keep the tables consistent: what each leaves in the tables of clients,
-- assignments and leases, and why that is consistent.
use mathlib.Core.Path.{subst}
use openvpn_docker.Prelude.{
  ◌≡◌, refl, Bool, true, false, not, arith, if◌then◌else◌, ◌==◌, sym, ◌∙◌, ok, refuse_if, >>=-eq-ok,
  refuse_if-ok, ok-injective,
}
use openvpn_docker.Domain.Config.{ClientStatus}
use openvpn_docker.Store.Rows.{count_where, update_where}
use openvpn_docker.Store.Tables.{
  Tables, ClientRow, source_changed, invalid_request, status_eq, is_current, update_client,
  change_held, release, retain, clear_leases,
}
use openvpn_docker.Store.Commits.{
  Session, require_files_installed, clear_lease_and_apply_artifacts, validate_lifecycle_input,
}
use openvpn_docker.Store.Clients.{Change, source, revoked, deleted, commit_revoke, commit_delete}
use openvpn_docker.Store.Consistent.{Core, core, IsConsistent}
use openvpn_docker.Store.Consistent.Clients.{move, revoke-IsConsistent, delete-IsConsistent}
use openvpn_docker.Store.Consistent.Frames.{finish-core, clear_lease-core}
use openvpn_docker.Store.Consistent.Steps.{
  vacate, keep_address, vacate-holds, vacate-IsConsistent, keep_address-IsConsistent,
}

abbrev pub Keeps : Tables → Tables → Type 0
Keeps t t' = IsConsistent (core t) → IsConsistent (core t')

pub by_core : {k : Core} (t' : Tables) → core t' ≡ k → IsConsistent k → IsConsistent (core t')
by_core t' e v = subst IsConsistent (sym e) v

-- An UPDATE of a client meets exactly one row.
pub update_client-ok :
    (w : ClientRow → Bool) (f : ClientRow → ClientRow) (t : Tables) {t' : Tables}
    → update_client w f t ≡ ok t'
    → (count_where w t.clients ≡ 1) × (t' ≡ record t { clients = update_where w f t.clients })
unfolding update_client
update_client-ok w f t h =
    let (_, one, r) =
      >>=-eq-ok (refuse_if (not (count_where w t.clients == 1)) source_changed) _ h in
    (
      ground (arith, refuse_if-ok (not (count_where w t.clients == 1)) source_changed one),
      sym (ok-injective r),
    )

pub commit_revoke-ok :
    (s : Session) (c : Change) (b : Bool) (t : Tables) {t' : Tables}
    → commit_revoke s c b t ≡ ok t'
    → (count_where (source c ClientStatus.active) t.clients ≡ 1)
      × (core t'
          ≡ (if b then vacate c.client_id c.at else keep_address c.client_id c.at) (
              move c.client_id c.instance_id c.name
                (status_eq ClientStatus.active)
                (revoked c.at)
                (core t)))
unfolding commit_revoke change_held clear_leases
commit_revoke-ok s c b t {t'} h =
    let (_, _, r1) =
      >>=-eq-ok
        (validate_lifecycle_input s c.operation_id c.instance_id c.client_id c.name c.payload c.at)
        _ h in
    let (_, _, r2) = >>=-eq-ok (require_files_installed c.operation_id c.instance_id t) _ r1 in
    let (a, ha, r3) =
      >>=-eq-ok (update_client (source c ClientStatus.active) (revoked c.at) t) _ r2 in
    let (one, e) = update_client-ok (source c ClientStatus.active) (revoked c.at) t {t' = a} ha in
    let (d, hd, r4) =
      >>=-eq-ok
        (clear_lease_and_apply_artifacts s c.instance_id c.client_id c.active c.removed
          (change_held (if b then release c.at else retain c.at) c.client_id a))
        _ r3 in
    (
      one,
      finish-core s c.operation_id c.instance_id "client.revoked" c.payload c.at d {t' = t'} r4
          ∙ clear_lease-core s c.instance_id c.client_id c.active c.removed _ {t' = d} hd
          ∙ rw e (split_on b),
    )
  where
    split_on :
        (b : Bool)
        → core (
            clear_leases c.client_id (
              change_held (if b then release c.at else retain c.at) c.client_id (record t {
                clients = update_where (source c ClientStatus.active) (revoked c.at) t.clients;
              })))
          ≡ (if b then vacate c.client_id c.at else keep_address c.client_id c.at) (
              move c.client_id c.instance_id c.name
                (status_eq ClientStatus.active)
                (revoked c.at)
                (core t))
    split_on true = refl
    split_on false = refl

pub commit_revoke-Keeps :
    (s : Session) (c : Change) (b : Bool) (t : Tables) {t' : Tables}
    → commit_revoke s c b t ≡ ok t'
    → Keeps t t'
commit_revoke-Keeps s c true t {t'} h v = by_core t' ((commit_revoke-ok s c true t {t' = t'} h).1) (
    vacate-IsConsistent c.client_id c.at _
      (revoke-IsConsistent c.client_id c.instance_id c.name c.at (core t) v))
commit_revoke-Keeps s c false t {t'} h v =
    by_core t' ((commit_revoke-ok s c false t {t' = t'} h).1) (
      keep_address-IsConsistent c.client_id c.at _
        (revoke-IsConsistent c.client_id c.instance_id c.name c.at (core t) v))

pub commit_delete-ok :
    (s : Session) (c : Change) (status : ClientStatus) (t : Tables) {t' : Tables}
    → commit_delete s c status t ≡ ok t'
    → (is_current status ≡ true)
      × (count_where (source c status) t.clients ≡ 1)
      × (core t'
          ≡ move c.client_id c.instance_id c.name
              (status_eq status)
              (deleted c.at)
              (vacate c.client_id c.at (core t)))
unfolding commit_delete change_held clear_leases
commit_delete-ok s c status t {t'} h =
    let (_, _, r1) =
      >>=-eq-ok
        (validate_lifecycle_input s c.operation_id c.instance_id c.client_id c.name c.payload c.at)
        _ h in
    let (_, cur, r2) = >>=-eq-ok (refuse_if (not (is_current status)) invalid_request) _ r1 in
    let (_, _, r3) = >>=-eq-ok (require_files_installed c.operation_id c.instance_id t) _ r2 in
    let (a, ha, r4) = >>=-eq-ok (update_client (source c status) (deleted c.at) t) _ r3 in
    let (one, e) = update_client-ok (source c status) (deleted c.at) t {t' = a} ha in
    let (d, hd, r5) =
      >>=-eq-ok
        (clear_lease_and_apply_artifacts s c.instance_id c.client_id c.active c.removed
          (change_held (release c.at) c.client_id a))
        _ r4 in
    (
      ground (arith, refuse_if-ok (not (is_current status)) invalid_request cur),
      one,
      finish-core s c.operation_id c.instance_id "client.deleted" c.payload c.at d {t' = t'} r5
          ∙ clear_lease-core s c.instance_id c.client_id c.active c.removed _ {t' = d} hd
          ∙ rw e refl,
    )

pub commit_delete-Keeps :
    (s : Session) (c : Change) (status : ClientStatus) (t : Tables) {t' : Tables}
    → commit_delete s c status t ≡ ok t'
    → Keeps t t'
commit_delete-Keeps s c status t {t'} h v =
    by_core t' ((commit_delete-ok s c status t {t' = t'} h).2) (
      delete-IsConsistent c.client_id c.instance_id c.name status c.at
        (vacate c.client_id c.at (core t)) (vacate-holds c.client_id c.at (core t) v)
        (vacate-IsConsistent c.client_id c.at (core t) v))
