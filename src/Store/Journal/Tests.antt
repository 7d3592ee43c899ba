-- ===== src/Store/Journal/Tests.antt =====
-- A journal with one operation that is advanced, and the theorems at it.
use openvpn_docker.Prelude.{
  ◌+◌, String, ◌≡◌, refl, true, not, some, List, [], ◌∷◌, if◌then◌else◌, str_eq, length, ok,
}
use openvpn_docker.Domain.Ids.{valid_uuid}
use openvpn_docker.Examples.{some_uuid, other_uuid}
use openvpn_docker.Store.Journal.{
  Env, Database, Operation, Request, is_failed, OperationState, find_operation, advance_operation,
  serve, allowed_transition, kept_failure, prepare, advance, append_audit,
}
use openvpn_docker.Store.Journal.Terminal.{written, advance_operation-ok, serve_terminal}

abbrev env : Env
env = record {
  accepted = true;
  event_id = some other_uuid;
  now = 9;
  payload = "{}";
  json_valid = λ s. true;
}

abbrev operation : OperationState → Operation
operation state = record {
  id = some_uuid;
  instance_id = other_uuid;
  kind = "client.create";
  state = state;
  payload_version = 1;
  recovery_payload = "{}";
  created_at = 5;
  updated_at = 5;
  failure = "";
}

abbrev holding : OperationState → Database
holding state = record { operations = operation state ∷ []; audit = []; next_sequence = 1 }

abbrev advanced : Database
advanced = record {
  operations =
      written OperationState.files_installed "{}" "" 6 (operation OperationState.prepared) ∷ [];
  audit =
      record {
        sequence = 1;
        event_id = other_uuid;
        instance_id = other_uuid;
        operation_id = some_uuid;
        event_type = "operation.files-installed";
        payload_version = 1;
        payload = "{}";
        created_at = 9;
      }
      ∷ [];
  next_sequence = 2;
}

is_advanced :
    advance_operation env some_uuid OperationState.files_installed "{}" "x" 6
      (holding OperationState.prepared)
    ≡ ok advanced
unfolding advance_operation valid_uuid allowed_transition append_audit find_operation
is_advanced = refl

advance_operation-ok_example :
    (o : Operation) × (find_operation some_uuid (holding OperationState.prepared).operations
      ≡ some o)
    × (allowed_transition o.state OperationState.files_installed ≡ true)
    × (str_eq (kept_failure OperationState.files_installed "x") ""
        ≡ not (is_failed OperationState.files_installed))
    × ((j : String)
        → find_operation j advanced.operations ≡ (
            if str_eq some_uuid j
            then some (written OperationState.files_installed "{}" "x" 6 o)
            else find_operation j (holding OperationState.prepared).operations))
    × (length advanced.audit ≡ length (holding OperationState.prepared).audit + 1)
advance_operation-ok_example =
    advance_operation-ok env some_uuid OperationState.files_installed "{}" "x" 6
      (holding OperationState.prepared) {db' = advanced} is_advanced

abbrev calls : List (Env × Request)
calls =
    (env, advance some_uuid OperationState.rolled_back "{}" "" 7)
    ∷ (env, prepare (operation OperationState.prepared))
    ∷ []

committed_found :
    find_operation some_uuid (holding OperationState.committed).operations
    ≡ some (operation OperationState.committed)
unfolding find_operation
committed_found = refl

serve_terminal_example :
    find_operation some_uuid (serve calls (holding OperationState.committed)).operations
    ≡ some (operation OperationState.committed)
serve_terminal_example =
    serve_terminal calls (holding OperationState.committed) some_uuid
      (operation OperationState.committed) committed_found refl
