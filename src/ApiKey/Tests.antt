-- ===== src/ApiKey/Tests.antt =====
-- A key that is created and deleted in an empty table, with the theorems at these calls.
use openvpn_docker.ApiKey.Access.{create_authenticates, delete_revokes, names}
use openvpn_docker.ApiKey.Calls.{create_key, delete_key, answer_all, answer_all-IsUnique}
use openvpn_docker.ApiKey.Service.{
  CreateResult, DeleteResult, Draws, authenticate, create, delete, select,
}
use openvpn_docker.ApiKey.Token.{Codec, token_of}
use openvpn_docker.ApiKey.Unique.{IsUnique}
use openvpn_docker.ApiKey.{
  Key, KeyTables, KeyError, unauthenticated, create_api_key, delete_api_key, insert_key,
  list_api_keys, keys_of, scan_keys, scan_key,
}
use openvpn_docker.Domain.Ids.{valid_client_name, valid_uuid}
use openvpn_docker.Domain.Sets.{sort_by}
use openvpn_docker.Examples.{some_uuid, other_uuid}
use openvpn_docker.Prelude.{
  ℕ, zero, suc, String, ◌≡◌, refl, true, some, List, [], ◌∷◌, if◌then◌else◌, Result, ok, err, arith,
}
use openvpn_docker.Selection.{Selector}
use openvpn_docker.Store.Journal.{append_audit}
use openvpn_docker.Store.Rows.{count_where, delete_where, find_where}

abbrev zeros : ℕ → List ℕ
zeros zero = []
zeros (suc n) = 0 ∷ zeros n

abbrev codec : Codec
codec = record {
  sum256 = λ text. zeros 32;
  encode_to_string = λ bytes. "secret";
  decode_string = λ text. some (zeros 32);
  to_lower = λ text. text;
}

abbrev draws : Draws
draws = record {
  id = some some_uuid;
  operation_id = some other_uuid;
  secret = some (zeros 32);
  now = 7;
  env = record {
    accepted = true;
    event_id = some some_uuid;
    now = 7;
    payload = "{}";
    json_valid = λ s. true;
  };
}

abbrev empty_tables : KeyTables
empty_tables = record {
  keys = [];
  instances = other_uuid ∷ [];
  journal = record { operations = []; audit = []; next_sequence = 1 };
}

abbrev by_name : Selector
by_name = record { name = "ci"; id_prefix = "" }

abbrev result_and_tables {ℓ} : {A : Type ℓ} → Result KeyError (A × KeyTables) → A → A × KeyTables
result_and_tables (ok x) a = x
result_and_tables (err e) a = (a, empty_tables)

abbrev ci_key : Key
ci_key = record { id = some_uuid; name = "ci"; created_at = 7 }

abbrev created_result : CreateResult
created_result = record {
  operation_id = other_uuid;
  key = ci_key;
  secret = token_of some_uuid "secret";
}

abbrev deleted_result : DeleteResult
deleted_result = record { operation_id = other_uuid; key = ci_key; deleted_at = 7 }

abbrev one_key : KeyTables
unfolding create create_api_key insert_key append_audit valid_client_name valid_uuid count_where
one_key = (result_and_tables (create codec other_uuid draws "ci" empty_tables) created_result).1

abbrev no_key : KeyTables
unfolding delete select delete_api_key list_api_keys keys_of scan_keys scan_key sort_by append_audit
    valid_client_name valid_uuid find_where delete_where
no_key = (result_and_tables (delete codec other_uuid draws by_name one_key) deleted_result).1

ci_created : create codec other_uuid draws "ci" empty_tables ≡ ok (created_result, one_key)
unfolding create create_api_key insert_key append_audit valid_client_name valid_uuid count_where
ci_created = refl

ci_deleted : delete codec other_uuid draws by_name one_key ≡ ok (deleted_result, no_key)
unfolding delete select delete_api_key list_api_keys keys_of scan_keys scan_key sort_by append_audit
    valid_client_name valid_uuid find_where delete_where one_key
ci_deleted = refl

create_authenticates_example :
    (authenticate codec other_uuid created_result.secret one_key ≡ ok ci_key)
    × ((other token : String) (k : Key)
        → authenticate codec other token empty_tables ≡ ok k
        → authenticate codec other token one_key ≡ ok k)
create_authenticates_example =
    create_authenticates codec other_uuid draws "ci" empty_tables (zeros 32) refl refl refl refl
      ci_created

delete_revokes_example : authenticate codec other_uuid created_result.secret no_key ≡ (
    if names codec some_uuid created_result.secret
    then err unauthenticated
    else authenticate codec other_uuid created_result.secret one_key)
delete_revokes_example =
    delete_revokes codec other_uuid draws by_name one_key ci_deleted created_result.secret

empty-IsUnique : IsUnique empty_tables
unfolding count_where
empty-IsUnique = (λ id. omega arith, λ other name. omega arith, λ digest. omega arith)

answer_all-IsUnique_example : IsUnique (
    answer_all codec other_uuid
      (create_key draws "ci" ∷ delete_key draws by_name ∷ [])
      empty_tables)
answer_all-IsUnique_example =
    answer_all-IsUnique codec other_uuid (create_key draws "ci" ∷ delete_key draws by_name ∷ [])
      empty_tables empty-IsUnique
