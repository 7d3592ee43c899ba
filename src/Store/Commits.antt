-- ===== src/Store/Commits.antt =====
-- What the transactions of internal/store/sqlite that commit an operation share: its journal row and
-- audit events (client_operation.go), and the artifact rows (client_operation.go, client_state.go,
-- client_lifecycle_operation.go). A transaction returns the new tables, or an error that leaves them.
use openvpn_docker.Prelude.{
  ℕ, String, Bool, true, false, not, ◌&&◌, ◌||◌, none, some, List, [], ◌∷◌, ◌++◌, ltb, ◌==◌,
  if◌then◌else◌, str_eq, Result, ok, err, ◌>>=◌, ◌>>◌, refuse_if,
}
use openvpn_docker.Domain.Ids.{valid_uuid, valid_client_name}
use openvpn_docker.Store.{ArtifactStatus, ArtifactMetadata}
use openvpn_docker.Store.Journal.{
  Database, Env, JournalError, Operation, OperationState, append_audit, find_operation,
}
use openvpn_docker.Store.Rows.{count_where, update_where, find_where}
use openvpn_docker.Store.Tables.{
  Tables, ArtifactRow, StoreError, invalid_request, operation_missing, not_files_installed,
  source_changed, constraint, artifact_conflict, artifact_owner, invalid_state, journal_refused,
  has_key, is_artifact, is_kept, clear_leases,
}
use openvpn_docker.Store.Validate.{StateError, validate_artifact, validate_artifact_owner_kind}

-- What a transaction meets outside: what appendAudit draws for its k-th event, json.Valid, path.Clean,
-- the length of a fingerprint, and whether SQLite accepts the transaction otherwise (foreign keys,
-- identifiers of artifacts and events, the disk).
pub record Session : Type 0 where
  pub events : ℕ → Env
  pub json_valid : String → Bool
  pub clean : String → String
  pub size : String → ℕ
  pub accepted : Bool

pub record ArtifactDeletion : Type 0 where
  pub owner_kind : String
  pub owner_id : String
  pub key : String

abbrev pub is_files_installed : OperationState → Bool
is_files_installed OperationState.files_installed = true
is_files_installed _ = false

-- requireFilesInstalledOperation
unfoldable pub require_files_installed : String → String → Tables → Result StoreError (Unit {0})
require_files_installed operation_id instance_id t =
    elim (find_operation operation_id t.journal.operations) [
      | none ↦ err operation_missing
      | some o ↦
          refuse_if (not (str_eq o.instance_id instance_id) || not (is_files_installed o.state))
            not_files_installed
    ]

unfoldable pub is_open : String → Operation → Bool
is_open id o = str_eq o.id id && is_files_installed o.state

abbrev pub commit_row : String → ℕ → Operation → Operation
commit_row payload at o = record o {
  state = OperationState.committed;
  recovery_payload = payload;
  updated_at = at;
  failure = "";
}

-- commitOperationRow
unfoldable pub commit_operation_row : String → String → ℕ → Tables → Result StoreError Tables
unfolding is_open
commit_operation_row operation_id payload at t = do
  refuse_if (not (count_where (is_open operation_id) t.journal.operations == 1)) source_changed
  ok (record t {
    journal = record (t.journal) {
      operations = update_where (is_open operation_id) (commit_row payload at) t.journal.operations;
    };
  })

abbrev pub from_journal : Tables → Result JournalError Database → Result StoreError Tables
from_journal t (ok db) = ok (record t { journal = db })
from_journal t (err e) = err (journal_refused e)

unfoldable pub audit : Session → ℕ → String → String → String → Tables → Result StoreError Tables
audit s k instance_id operation_id event_type t =
    from_journal t (append_audit (s.events k) instance_id operation_id event_type t.journal)

-- The end of each of these transactions: the journal row, the event of the change, the event of the
-- commit, and COMMIT itself.
unfoldable pub finish :
    Session → String → String → String → String → ℕ → Tables → Result StoreError Tables
unfolding commit_operation_row audit
finish s operation_id instance_id event_type payload at t = do
  committed ← commit_operation_row operation_id payload at t
  changed ← audit s 0 instance_id operation_id event_type committed
  logged ← audit s 1 instance_id operation_id "operation.committed" changed
  refuse_if (not s.accepted) constraint
  ok logged

abbrev pub from_state : Result StateError (Unit {0}) → Result StoreError (Unit {0})
from_state (ok u) = ok u
from_state (err e) = err (invalid_state e)

-- validateArtifact and then validateArtifactOwnerKind
unfoldable pub check_artifact : Session → ArtifactMetadata → Result StoreError (Unit {0})
check_artifact s a = do
  from_state (validate_artifact s.clean s.size a)
  from_state (validate_artifact_owner_kind a)

-- insertArtifactMetadata
unfoldable pub insert_artifact_metadata :
    String → ArtifactMetadata → Tables → Result StoreError Tables
insert_artifact_metadata instance_id a t = do
  refuse_if (is_kept a.status && ltb 0 (count_where (has_key a.key) t.artifacts)) constraint
  ok (record t { artifacts = t.artifacts ++ record { instance_id = instance_id; value = a } ∷ [] })

-- insertArtifact
unfoldable pub insert_artifact :
    Session → String → String → ArtifactMetadata → Tables → Result StoreError Tables
unfolding insert_artifact_metadata
insert_artifact s instance_id client_id a t = do
  from_state (validate_artifact s.clean s.size a)
  refuse_if (not (str_eq a.owner_kind "client") || not (str_eq a.owner_id client_id)) artifact_owner
  from_state (validate_artifact_owner_kind a)
  insert_artifact_metadata instance_id a t

abbrev pub same_owner : String → ArtifactMetadata → ArtifactRow → Bool
same_owner instance_id a row =
    str_eq row.instance_id instance_id
    && (str_eq row.value.owner_kind a.owner_kind
        && (str_eq row.value.owner_id a.owner_id && str_eq row.value.kind a.kind))

abbrev pub refreshed : ArtifactMetadata → ArtifactRow → ArtifactRow
refreshed a row = record row {
  value = record (row.value) {
    digest = a.digest;
    certificate_serial = a.certificate_serial;
    certificate_fingerprint = a.certificate_fingerprint;
    status = ArtifactStatus.active;
  };
}

-- upsertActiveArtifact
unfoldable pub upsert_active_artifact :
    Session → String → ArtifactMetadata → Tables → Result StoreError Tables
unfolding check_artifact
upsert_active_artifact s instance_id a t = do
  check_artifact s a
  elim (find_where (has_key a.key) t.artifacts) [
    | none ↦ ok (record t {
      artifacts =
          t.artifacts
          ++ record {
            instance_id = instance_id;
            value = record a { status = ArtifactStatus.active };
          }
            ∷ [];
    })
    | some row ↦
        if same_owner instance_id a row
        then ok (record t { artifacts = update_where (has_key a.key) (refreshed a) t.artifacts })
        else err artifact_conflict
  ]

abbrev pub retired : ArtifactRow → ArtifactRow
retired row = record row { value = record (row.value) { status = ArtifactStatus.deleted } }

-- UPDATE artifacts SET status = 'deleted'
unfoldable pub retire_artifact : String → String → String → String → Tables → Tables
retire_artifact instance_id owner_kind owner_id key t = record t {
  artifacts = update_where (is_artifact instance_id owner_kind owner_id key) retired t.artifacts;
}

-- The metadata that stands for a deletion in the checks.
abbrev pub probe : String → String → String → String → String → ArtifactMetadata
probe id owner_kind owner_id kind key = record {
  id = id;
  owner_kind = owner_kind;
  owner_id = owner_id;
  kind = kind;
  key = key;
  digest = "";
  certificate_serial = "";
  certificate_fingerprint = "";
  status = ArtifactStatus.active;
}

abbrev pub probe_kind : String → String
probe_kind owner_kind = if str_eq owner_kind "instance" then "server-config" else "ccd"

-- The owner is neither the client nor the instance of the operation.
abbrev pub foreign_owner : String → String → String → String → Bool
foreign_owner instance_id client_id owner_kind owner_id =
    str_eq owner_kind "client" && not (str_eq owner_id client_id)
    || (str_eq owner_kind "instance" && not (str_eq owner_id instance_id)
        || not (str_eq owner_kind "client") && not (str_eq owner_kind "instance"))

unfoldable pub retire_all :
    Session → String → String → List ArtifactDeletion → Tables → Result StoreError Tables
unfolding retire_artifact
retire_all s instance_id client_id [] t = ok t
retire_all s instance_id client_id (d ∷ ds) t = do
  refuse_if (foreign_owner instance_id client_id d.owner_kind d.owner_id) artifact_owner
  from_state (
      validate_artifact s.clean s.size
        (probe client_id d.owner_kind d.owner_id (probe_kind d.owner_kind) d.key))
  retire_all s instance_id client_id ds
      (retire_artifact instance_id d.owner_kind d.owner_id d.key t)

abbrev pub is_active_artifact : ArtifactStatus → Bool
is_active_artifact ArtifactStatus.active = true
is_active_artifact _ = false

unfoldable pub activate_all :
    Session → String → String → List ArtifactMetadata → Tables → Result StoreError Tables
unfolding upsert_active_artifact
activate_all s instance_id client_id [] t = ok t
activate_all s instance_id client_id (a ∷ as') t = do
  refuse_if
      (not (is_active_artifact a.status)
        || foreign_owner instance_id client_id a.owner_kind a.owner_id)
      artifact_owner
  t' ← upsert_active_artifact s instance_id a t
  activate_all s instance_id client_id as' t'

-- clearLeaseAndApplyArtifacts
unfoldable pub clear_lease_and_apply_artifacts :
    Session
    → String
    → String
    → List ArtifactMetadata
    → List ArtifactDeletion
    → Tables
    → Result StoreError Tables
unfolding retire_all activate_all clear_leases
clear_lease_and_apply_artifacts s instance_id client_id active deleted t = do
  t' ← retire_all s instance_id client_id deleted (clear_leases client_id t)
  activate_all s instance_id client_id active t'

-- validateLifecycleInput
unfoldable pub validate_lifecycle_input :
    Session → String → String → String → String → String → ℕ → Result StoreError (Unit {0})
validate_lifecycle_input s operation_id instance_id client_id name payload at =
    refuse_if
      (not (valid_uuid operation_id)
        || (not (valid_uuid instance_id)
            || (not (valid_uuid client_id)
                || (not (valid_client_name name) || (not (s.json_valid payload) || at == 0)))))
      invalid_request
