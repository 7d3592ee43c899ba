-- ===== src/Store/Addressing.antt =====
-- CommitClientAddressOperation of internal/store/sqlite/client_address_operation.go: new assignments
-- for a set of clients, in one transaction.
use openvpn_docker.Prelude.{
  ℕ, ◌+◌, String, Bool, true, false, not, ◌||◌, Option, none, some, List, [], ◌∷◌, ◌==◌,
  if◌then◌else◌, str_eq, Result, ok, err, ◌>>=◌, ◌>>◌, refuse_if,
}
use openvpn_docker.Domain.Config.{ClientStatus, is_revoked, is_active}
use openvpn_docker.Domain.Ids.{valid_uuid, valid_client_name}
use openvpn_docker.Store.{AssignmentStatus, AddressAssignment, ArtifactMetadata}
use openvpn_docker.Store.Rows.{count_where}
use openvpn_docker.Store.Tables.{
  Tables, StoreError, invalid_request, source_changed, constraint, artifact_owner, status_eq,
  is_current, is_source, bad_kind_address, ensure_network_instance, insert_assignment, change_held,
  release, clear_leases,
}
use openvpn_docker.Store.Commits.{
  Session, ArtifactDeletion, require_files_installed, commit_operation_row, audit, from_state,
  upsert_active_artifact, retire_artifact, probe, is_active_artifact,
}
use openvpn_docker.Store.Validate.{validate_artifact, one_of, is_some}

pub record AddressChange : Type 0 where
  pub client_id : String
  pub name : String
  pub status : ClientStatus
  pub assignment : Option AddressAssignment

abbrev pub is_release : String → Bool
is_release kind = str_eq kind "client.address.release"

abbrev pub bad_assignment : AddressAssignment → Bool
bad_assignment a =
    not (valid_uuid a.id)
    || (not (valid_uuid a.network_id)
        || (a.created_at == 0 || (a.updated_at == 0 || bad_kind_address a.kind a.address)))

-- What the kind of the operation asks of a change.
unfoldable pub check_intent :
    Bool → ClientStatus → Option AddressAssignment → Result StoreError (Unit {0})
check_intent true status assignment =
    refuse_if (not (is_revoked status) || is_some assignment) invalid_request
check_intent false status none = err invalid_request
check_intent false status (some a) = refuse_if (bad_assignment a) invalid_request

-- The first loop, with the clients that it has met.
unfoldable pub check_changes :
    String → String → List String → List AddressChange → Tables → Result StoreError (Unit {0})
unfolding check_intent
check_changes kind instance_id seen [] t = ok tt
check_changes kind instance_id seen (c ∷ cs) t = do
  refuse_if
      (not (valid_uuid c.client_id)
        || (not (valid_client_name c.name) || not (is_current c.status)))
      invalid_request
  refuse_if (one_of seen c.client_id) invalid_request
  refuse_if
      (not (
        count_where (is_source c.client_id instance_id c.name (status_eq c.status)) t.clients == 1))
      source_changed
  check_intent (is_release kind) c.status c.assignment
  check_changes kind instance_id (c.client_id ∷ seen) cs t

-- The second loop.
unfoldable pub release_all : ℕ → List AddressChange → Tables → Tables
release_all at [] t = t
release_all at (c ∷ cs) t =
    release_all at cs (clear_leases c.client_id (change_held (release at) c.client_id t))

-- The row that a change asks for.
abbrev pub assigned : ℕ → ClientStatus → AddressAssignment → AddressAssignment
assigned at status a = record a {
  status = if is_active status then AssignmentStatus.active else AssignmentStatus.retained;
  updated_at = at;
  released_at = none;
}

unfoldable pub assign_one :
    ℕ
    → String
    → String
    → ClientStatus
    → Option AddressAssignment
    → Tables
    → Result StoreError Tables
assign_one at instance_id client_id status none t = ok t
assign_one at instance_id client_id status (some a) t = do
  ensure_network_instance a.network_id instance_id t
  insert_assignment client_id (assigned at status a) t

-- The third loop.
unfoldable pub assign_all : ℕ → String → List AddressChange → Tables → Result StoreError Tables
unfolding assign_one
assign_all at instance_id [] t = ok t
assign_all at instance_id (c ∷ cs) t = do
  t' ← assign_one at instance_id c.client_id c.status c.assignment t
  assign_all at instance_id cs t'

abbrev pub targets : List AddressChange → List String
targets [] = []
targets (c ∷ cs) = c.client_id ∷ targets cs

unfoldable pub retire_ccds :
    Session
    → String
    → String
    → List String
    → List ArtifactDeletion
    → Tables
    → Result StoreError Tables
retire_ccds s operation_id instance_id allowed [] t = ok t
retire_ccds s operation_id instance_id allowed (d ∷ ds) t = do
  refuse_if (not (str_eq d.owner_kind "client")) artifact_owner
  refuse_if (not (one_of allowed d.owner_id)) artifact_owner
  from_state (validate_artifact s.clean s.size (probe operation_id "client" d.owner_id "ccd" d.key))
  retire_ccds s operation_id instance_id allowed ds
      (retire_artifact instance_id "client" d.owner_id d.key t)

unfoldable pub activate_ccds :
    Session → String → List String → List ArtifactMetadata → Tables → Result StoreError Tables
activate_ccds s instance_id allowed [] t = ok t
activate_ccds s instance_id allowed (a ∷ as') t = do
  refuse_if
      (not (str_eq a.owner_kind "client")
        || (not (str_eq a.kind "ccd") || not (is_active_artifact a.status)))
      artifact_owner
  refuse_if (not (one_of allowed a.owner_id)) artifact_owner
  t' ← upsert_active_artifact s instance_id a t
  activate_ccds s instance_id allowed as' t'

-- One event for each change, from the k-th on, and the event of the commit.
unfoldable pub audit_changes :
    Session → ℕ → String → String → List AddressChange → Tables → Result StoreError Tables
audit_changes s k instance_id operation_id [] t =
    audit s k instance_id operation_id "operation.committed" t
audit_changes s k instance_id operation_id (c ∷ cs) t = do
  t' ← audit s k instance_id operation_id "client.address_changed" t
  audit_changes s (k + 1) instance_id operation_id cs t'

abbrev pub is_empty : List AddressChange → Bool
is_empty [] = true
is_empty (c ∷ cs) = false

abbrev pub address_kinds : List String
address_kinds = "client.address.set" ∷ "client.address.edit" ∷ "client.address.release" ∷ []

-- The arguments of the transaction.
pub record Addressing : Type 0 where
  pub operation_id : String
  pub instance_id : String
  pub kind : String
  pub changes : List AddressChange
  pub active : List ArtifactMetadata
  pub removed : List ArtifactDeletion
  pub payload : String
  pub at : ℕ

unfoldable pub commit_addresses : Session → Addressing → Tables → Result StoreError Tables
unfolding check_changes release_all assign_all retire_ccds activate_ccds audit_changes
commit_addresses s r t = do
  refuse_if
      (not (valid_uuid r.operation_id)
        || (not (valid_uuid r.instance_id)
            || (not (one_of address_kinds r.kind)
                || (is_empty r.changes || (not (s.json_valid r.payload) || r.at == 0)))))
      invalid_request
  require_files_installed r.operation_id r.instance_id t
  check_changes r.kind r.instance_id [] r.changes t
  placed ← assign_all r.at r.instance_id r.changes (release_all r.at r.changes t)
  dropped ← retire_ccds s r.operation_id r.instance_id (targets r.changes) r.removed placed
  refreshed ← activate_ccds s r.instance_id (targets r.changes) r.active dropped
  committed ← commit_operation_row r.operation_id r.payload r.at refreshed
  logged ← audit_changes s 0 r.instance_id r.operation_id r.changes committed
  refuse_if (not s.accepted) constraint
  ok logged
