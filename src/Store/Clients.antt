-- ===== src/Store/Clients.antt =====
-- The transactions on clients of internal/store/sqlite: CommitCreateClientOperation and
-- CommitRenameClientOperation (client_operation.go), CommitRevokeClientOperation,
-- CommitReissueClientOperation and CommitDeleteClientOperation (client_lifecycle_operation.go), and
-- RecordLease (client_state.go).
use openvpn_docker.Prelude.{
  ℕ, ◌+◌, ◌*◌, String, Bool, true, false, not, ◌&&◌, ◌||◌, Option, none, some, List, [], ◌∷◌, ◌++◌,
  ltb, ◌==◌, if◌then◌else◌, str_eq, Result, ok, ◌>>=◌, ◌>>◌, refuse_if,
}
use openvpn_docker.Domain.{family}
use openvpn_docker.Domain.Config.{ClientStatus}
use openvpn_docker.Domain.Ids.{valid_uuid, valid_client_name}
use openvpn_docker.Ipam.{is_ipv4}
use openvpn_docker.Store.{
  AssignmentStatus, AddressAssignment, ArtifactMetadata, ClientLease, ClientState,
}
use openvpn_docker.Store.Rows.{count_where, update_where, delete_where, find_where}
use openvpn_docker.Store.Tables.{
  Tables, ClientRow, LeaseRow, StoreError, invalid_request, constraint, no_dynamic_assignment,
  status_eq, is_current, has_name, is_source, holds, holds_dynamic, is_assignment, is_network,
  leases_in, leases_address, insert_client, update_client, ensure_network_instance,
  insert_assignment, change_held, release, retain, reactivate, validate_lease_pool, insert_lease,
  NetworkRow,
}
use openvpn_docker.Store.Commits.{
  Session, ArtifactDeletion, require_files_installed, finish, insert_artifact, from_state,
  upsert_active_artifact, retire_artifact, is_active_artifact, clear_lease_and_apply_artifacts,
  validate_lifecycle_input,
}
use openvpn_docker.Store.Validate.{validate_client_state, validate_artifact}

abbrev pub client_row : String → ClientState → ClientRow
client_row instance_id c = record {
  id = c.client.id;
  instance_id = instance_id;
  current_name = c.client.name;
  status = c.client.status;
  created_at = c.created_at;
  revoked_at = c.revoked_at;
  deleted_at = c.deleted_at;
}

-- The three parts of insertClientAggregate after the row of the client.
unfoldable pub insert_current :
    String → String → Option AddressAssignment → Tables → Result StoreError Tables
insert_current instance_id client_id none t = ok t
insert_current instance_id client_id (some a) t = do
  ensure_network_instance a.network_id instance_id t
  insert_assignment client_id a t

unfoldable pub insert_leased : String → Option ClientLease → Tables → Result StoreError Tables
insert_leased client_id none t = ok t
insert_leased client_id (some lease) t = do
  validate_lease_pool lease t
  insert_lease client_id lease t

unfoldable pub insert_artifacts :
    Session → String → String → List ArtifactMetadata → Tables → Result StoreError Tables
insert_artifacts s instance_id client_id [] t = ok t
insert_artifacts s instance_id client_id (a ∷ as') t = do
  t' ← insert_artifact s instance_id client_id a t
  insert_artifacts s instance_id client_id as' t'

unfoldable pub insert_client_aggregate :
    Session → String → ClientState → Tables → Result StoreError Tables
unfolding insert_current insert_leased insert_artifacts
insert_client_aggregate s instance_id c t = do
  inserted ← insert_client (client_row instance_id c) t
  assigned ← insert_current instance_id c.client.id c.assignment inserted
  leased ← insert_leased c.client.id c.lease assigned
  insert_artifacts s instance_id c.client.id c.artifacts leased

unfoldable pub commit_create :
    Session → String → String → ClientState → String → ℕ → Tables → Result StoreError Tables
unfolding insert_client_aggregate
commit_create s operation_id instance_id c payload at t = do
  refuse_if
      (not (valid_uuid operation_id)
        || (not (valid_uuid instance_id) || (not (s.json_valid payload) || at == 0)))
      invalid_request
  from_state (validate_client_state s.clean s.size c)
  require_files_installed operation_id instance_id t
  inserted ← insert_client_aggregate s instance_id c t
  finish s operation_id instance_id "client.created" payload at inserted

abbrev pub renamed : String → ClientRow → ClientRow
renamed name c = record c { current_name = name }

-- The arguments of a rename.
pub record Rename : Type 0 where
  pub client_id : String
  pub old_name : String
  pub new_name : String
  pub profile : ArtifactMetadata
  pub old_profile : ArtifactDeletion

unfoldable pub check_rename :
    Session → String → String → Rename → String → ℕ → Result StoreError (Unit {0})
check_rename s operation_id instance_id r payload at = do
  refuse_if
      (not (valid_uuid operation_id)
        || (not (valid_uuid instance_id)
            || (not (valid_uuid r.client_id)
                || (not (valid_client_name r.old_name)
                    || (not (valid_client_name r.new_name)
                        || (str_eq r.old_name r.new_name
                            || (not (s.json_valid payload) || at == 0)))))))
      invalid_request
  refuse_if
      (not (str_eq r.profile.owner_kind "client")
        || (not (str_eq r.profile.owner_id r.client_id)
            || (not (str_eq r.profile.kind "profile")
                || not (is_active_artifact r.profile.status))))
      invalid_request
  from_state (validate_artifact s.clean s.size r.profile)
  refuse_if
      (not (str_eq r.old_profile.owner_kind "client")
        || (not (str_eq r.old_profile.owner_id r.client_id)
            || str_eq r.old_profile.key r.profile.key))
      invalid_request

-- UPDATE clients SET current_name, under the unique index of the current names.
unfoldable pub rename_client : String → Rename → Tables → Result StoreError Tables
rename_client instance_id r t = do
  refuse_if
      (ltb 0 (count_where (is_source r.client_id instance_id r.old_name is_current) t.clients)
        && ltb 0 (count_where (has_name instance_id r.new_name) t.clients))
      constraint
  update_client (is_source r.client_id instance_id r.old_name is_current) (renamed r.new_name) t

unfoldable pub commit_rename :
    Session → String → String → Rename → String → ℕ → Tables → Result StoreError Tables
unfolding check_rename rename_client
commit_rename s operation_id instance_id r payload at t = do
  check_rename s operation_id instance_id r payload at
  require_files_installed operation_id instance_id t
  named ← rename_client instance_id r t
  refreshed ←
      upsert_active_artifact s instance_id r.profile
        (retire_artifact instance_id "client" r.client_id r.old_profile.key named)
  finish s operation_id instance_id "client.renamed" payload at refreshed

abbrev pub revoked : ℕ → ClientRow → ClientRow
revoked at c = record c { status = ClientStatus.revoked; revoked_at = some at; deleted_at = none }

abbrev pub reissued : ClientRow → ClientRow
reissued c = record c { status = ClientStatus.active; revoked_at = none; deleted_at = none }

abbrev pub deleted : ℕ → ClientRow → ClientRow
deleted at c = record c {
  status = ClientStatus.deleted;
  revoked_at = elim c.revoked_at [ none ↦ some at | some r ↦ some r ];
  deleted_at = some at;
}

-- What revoking, reissuing and deleting share: the client, its name, the rows of its artifacts.
pub record Change : Type 0 where
  pub operation_id : String
  pub instance_id : String
  pub client_id : String
  pub name : String
  pub active : List ArtifactMetadata
  pub removed : List ArtifactDeletion
  pub payload : String
  pub at : ℕ

abbrev pub source : Change → ClientStatus → ClientRow → Bool
source c status = is_source c.client_id c.instance_id c.name (status_eq status)

unfoldable pub commit_revoke : Session → Change → Bool → Tables → Result StoreError Tables
commit_revoke s c release_address t = do
  validate_lifecycle_input s c.operation_id c.instance_id c.client_id c.name c.payload c.at
  require_files_installed c.operation_id c.instance_id t
  ended ← update_client (source c ClientStatus.active) (revoked c.at) t
  applied ←
      clear_lease_and_apply_artifacts s c.instance_id c.client_id c.active c.removed
        (change_held (if release_address then release c.at else retain c.at) c.client_id ended)
  finish s c.operation_id c.instance_id "client.revoked" c.payload c.at applied

-- The switch on the current assignment.
unfoldable pub reassign : Change → AddressAssignment → Tables → Result StoreError Tables
reassign c a t =
    let replace : Result StoreError Tables = (do
      ensure_network_instance a.network_id c.instance_id t
      insert_assignment c.client_id a (change_held (release c.at) c.client_id t)) in
    elim (find_where (holds c.client_id) t.assignments) [
      | none ↦ replace
      | some row ↦
          if str_eq row.value.id a.id
          then ok (record t {
            assignments = update_where (is_assignment a.id) (reactivate c.at) t.assignments;
          })
          else replace
    ]

unfoldable pub commit_reissue :
    Session → Change → ClientStatus → AddressAssignment → Tables → Result StoreError Tables
unfolding reassign
commit_reissue s c status a t = do
  validate_lifecycle_input s c.operation_id c.instance_id c.client_id c.name c.payload c.at
  refuse_if (not (is_current status)) invalid_request
  refuse_if (not (valid_uuid a.id) || elim a.status [ AssignmentStatus.active ↦ false | _ ↦ true ])
      invalid_request
  require_files_installed c.operation_id c.instance_id t
  activated ← update_client (source c status) reissued t
  assigned ← reassign c a activated
  applied ← clear_lease_and_apply_artifacts s c.instance_id c.client_id c.active c.removed assigned
  finish s c.operation_id c.instance_id "client.reissued" c.payload c.at applied

unfoldable pub commit_delete : Session → Change → ClientStatus → Tables → Result StoreError Tables
commit_delete s c status t = do
  validate_lifecycle_input s c.operation_id c.instance_id c.client_id c.name c.payload c.at
  refuse_if (not (is_current status)) invalid_request
  require_files_installed c.operation_id c.instance_id t
  ended ← update_client (source c status) (deleted c.at) t
  applied ←
      clear_lease_and_apply_artifacts s c.instance_id c.client_id c.active c.removed
        (change_held (release c.at) c.client_id ended)
  finish s c.operation_id c.instance_id "client.deleted" c.payload c.at applied

-- The rows that the join of RecordLease makes of one assignment: the clients with its id, each with
-- the networks of its instance.
unfoldable pub owned_networks : String → String → List NetworkRow → List ClientRow → ℕ
owned_networks client_id network_id networks [] = 0
owned_networks client_id network_id networks (c ∷ cs) =
    (if str_eq c.id client_id
      then count_where (is_network network_id c.instance_id) networks
      else 0)
    + owned_networks client_id network_id networks cs

abbrev pub leased_elsewhere : String → ClientLease → LeaseRow → Bool
leased_elsewhere client_id lease l =
    leases_address lease.network_id lease.address l && not (str_eq l.client_id client_id)

abbrev pub renewed : ClientLease → LeaseRow → LeaseRow
renewed lease l = record l {
  value = record (l.value) { address = lease.address; updated_at = lease.updated_at };
}

-- INSERT INTO client_leases ... ON CONFLICT(client_id, network_id) DO UPDATE
unfoldable pub upsert_lease : String → ClientLease → List LeaseRow → List LeaseRow
upsert_lease client_id lease ls =
    if ltb 0 (count_where (leases_in client_id lease.network_id) ls)
    then update_where (leases_in client_id lease.network_id) (renewed lease) ls
    else ls ++ record { client_id = client_id; value = lease } ∷ []

unfoldable pub record_lease : Session → String → ClientLease → Tables → Result StoreError Tables
unfolding owned_networks upsert_lease
record_lease s client_id lease t = do
  refuse_if
      (not (valid_uuid client_id)
        || (not (is_ipv4 (family lease.address)) || lease.updated_at == 0))
      invalid_request
  refuse_if
      (not (
        count_where (holds_dynamic client_id lease.network_id) t.assignments
          * owned_networks client_id lease.network_id t.networks t.clients
        == 1))
      no_dynamic_assignment
  validate_lease_pool lease t
  refuse_if (not s.accepted) constraint
  ok (record t {
    leases =
        upsert_lease client_id lease (delete_where (leased_elsewhere client_id lease) t.leases);
  })
