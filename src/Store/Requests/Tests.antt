-- ===== src/Store/Requests/Tests.antt =====
-- A client that is created and deleted in empty tables, and the theorems at these calls.
use openvpn_docker.Prelude.{String, ◌≡◌, refl, true, some, List, [], ◌∷◌, ok, arith}
use openvpn_docker.Domain.Config.{ClientStatus}
use openvpn_docker.Domain.Ids.{valid_uuid, new_client, valid_client_name}
use openvpn_docker.Examples.{some_uuid, other_uuid, sample_network, static_client}
use openvpn_docker.Ipam.{new_ipv4_layout, client_capacity, layout_at, validate_static, contains}
use openvpn_docker.Store.{ClientState}
use openvpn_docker.Store.Journal.{Env, Operation, OperationState, append_audit, find_operation}
use openvpn_docker.Store.Rows.{count_where, update_where, find_where, delete_where}
use openvpn_docker.Store.Tables.{
  Tables, has_id, has_name, is_source, holds, holds_in, holds_address, is_assignment, is_network,
  leases_of, insert_client, insert_assignment, ensure_network_instance, update_client, change_held,
  clear_leases,
}
use openvpn_docker.Store.Commits.{
  Session, require_files_installed, finish, validate_lifecycle_input,
  clear_lease_and_apply_artifacts,
}
use openvpn_docker.Store.Clients.{commit_create, commit_delete}
use openvpn_docker.Store.Consistent.{IsConsistent, core}
use openvpn_docker.Store.Requests.{Request, create, delete, attempt, serve, settle}
use openvpn_docker.Store.Requests.Lives.{life, may, after}
use openvpn_docker.Store.Requests.Refined.{attempt_refines, serve_tombstone}
use openvpn_docker.Store.Requests.Safe.{AreFit, serve-IsConsistent}
use openvpn_docker.Store.Validate.{validate_client_state}

abbrev env : Env
env = record {
  accepted = true;
  event_id = some other_uuid;
  now = 9;
  payload = "{}";
  json_valid = λ s. true;
}

abbrev session : Session
session = record {
  events = λ k. env;
  json_valid = λ s. true;
  clean = λ s. s;
  size = λ s. 0;
  accepted = true;
}

abbrev third_uuid : String
third_uuid = "33333333-3333-4333-8333-333333333333"

abbrev operation : String → Operation
operation id = record {
  id = id;
  instance_id = other_uuid;
  kind = "client.create";
  state = OperationState.files_installed;
  payload_version = 1;
  recovery_payload = "{}";
  created_at = 5;
  updated_at = 5;
  failure = "";
}

-- The operation that the creation commits, and the one of the deletion.
abbrev empty : Tables
empty = record {
  journal = record {
    operations = operation some_uuid ∷ operation third_uuid ∷ [];
    audit = [];
    next_sequence = 1;
  };
  clients = [];
  assignments = [];
  leases = [];
  artifacts = [];
  networks =
      record {
        id = other_uuid;
        instance_id = other_uuid;
        network = sample_network;
        dynamic = some (0x0a2a0005, 0x0a2a0006);
      }
      ∷ [];
}

abbrev alice : ClientState
alice = static_client some_uuid "alice" 0x0a2a0002

abbrev creation : Request
creation = create some_uuid other_uuid alice "{}" 6

abbrev deletion : Request
deletion =
    delete
      (record {
        operation_id = third_uuid;
        instance_id = other_uuid;
        client_id = some_uuid;
        name = "alice";
        active = [];
        removed = [];
        payload = "{}";
        at = 7;
      })
      ClientStatus.active

abbrev created : Tables
unfolding attempt commit_create
created = settle (attempt session creation empty) empty

is_created : attempt session creation empty ≡ ok created
unfolding attempt commit_create validate_client_state require_files_installed finish insert_client
    insert_assignment ensure_network_instance append_audit find_operation count_where update_where
    find_where has_id has_name holds_in holds_address is_assignment is_network new_client valid_uuid
    valid_client_name new_ipv4_layout client_capacity layout_at validate_static contains
is_created = refl

empty-IsConsistent : IsConsistent (core empty)
unfolding count_where
empty-IsConsistent = record {
  ids = λ j. omega arith;
  names = λ i n. omega arith;
  times = refl;
  rows = λ j. omega arith;
  single = λ j. omega arith;
  owned = λ j. omega arith;
  addresses = λ n x. omega arith;
  carried = λ i n. omega arith;
}

abbrev calls : List (Session × Request)
calls = (session, creation) ∷ (session, deletion) ∷ []

are_fit : AreFit calls
are_fit = ((λ a there held. refl), (tt, tt))

serve-IsConsistent_example : IsConsistent (core (serve calls empty))
serve-IsConsistent_example = serve-IsConsistent calls empty are_fit empty-IsConsistent

attempt_refines_example :
    (may creation some_uuid (life some_uuid empty.clients) ≡ true)
    × (life some_uuid created.clients ≡ after creation some_uuid (life some_uuid empty.clients))
attempt_refines_example =
    attempt_refines session creation empty some_uuid {t' = created} empty-IsConsistent is_created

is_deleted : life some_uuid (serve calls empty).clients ≡ some ClientStatus.deleted
unfolding serve attempt commit_create commit_delete validate_client_state require_files_installed
    finish insert_client insert_assignment ensure_network_instance append_audit find_operation
    count_where update_where find_where delete_where has_id has_name is_source holds holds_in
    holds_address is_assignment is_network leases_of new_client valid_uuid valid_client_name
    new_ipv4_layout client_capacity layout_at validate_static contains update_client change_held
    clear_leases validate_lifecycle_input clear_lease_and_apply_artifacts life
is_deleted = refl

serve_tombstone_example :
    life some_uuid (serve calls (serve calls empty)).clients ≡ some ClientStatus.deleted
serve_tombstone_example =
    serve_tombstone calls (serve calls empty) some_uuid are_fit serve-IsConsistent_example
      is_deleted
