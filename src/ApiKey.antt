-- ===== src/ApiKey.antt =====
-- internal/store/sqlite/api_key.go: the table of API keys and its four calls. A digest is the list of
-- its bytes; a transaction that does not commit leaves the tables as they were.
pub mod Token
pub mod Service
pub mod Unique
pub mod Access
pub mod Calls
mod Tests
use openvpn_docker.Domain.Ids.{valid_client_name, valid_uuid}
use openvpn_docker.Domain.Sets.{sort_by, str_lt}
use openvpn_docker.Prelude.{
  ℕ, String, Bool, true, false, not, ◌&&◌, ◌||◌, Option, none, some, List, [], ◌∷◌, ◌++◌, ltb, ◌==◌,
  if◌then◌else◌, str_eq, length, Result, ok, err, ◌>>=◌, ◌>>◌, refuse_if,
}
use openvpn_docker.Store.Journal.{Database, Env, JournalError, append_audit}
use openvpn_docker.Store.Rows.{count_where, delete_where, find_where}

pub record Key : Type 0 where
  pub id : String
  pub name : String
  pub created_at : ℕ

-- apikey.Record
pub record KeyRecord : Type 0 where
  pub key : Key
  pub digest : List ℕ

pub record KeyRow : Type 0 where
  pub instance_id : String
  pub value : KeyRecord

-- The keys, the instances that they refer to, and the audit trail.
pub record KeyTables : Type 0 where
  pub keys : List KeyRow
  pub instances : List String
  pub journal : Database

pub data KeyError : Type 0 where
  not_found conflict unauthenticated invalid ambiguous schema random_failed sqlite_failed : KeyError
  audit_failed : JournalError → KeyError

abbrev pub bytes_eq : List ℕ → List ℕ → Bool
bytes_eq [] [] = true
bytes_eq [] (b ∷ bs) = false
bytes_eq (a ∷ as') [] = false
bytes_eq (a ∷ as') (b ∷ bs) = a == b && bytes_eq as' bs

-- validateAPIKeyRecord
abbrev pub valid_key : KeyRecord → Bool
valid_key r = valid_uuid r.key.id && (valid_client_name r.key.name && not (r.key.created_at == 0))

-- scanAPIKey
unfoldable pub scan_key : KeyRow → Result KeyError KeyRecord
scan_key row = do
  refuse_if (not (length row.value.digest == 32)) schema
  refuse_if (not (valid_key row.value)) schema
  ok row.value

-- WHERE instance_id = ? AND id = ?
abbrev pub is_key : String → String → KeyRow → Bool
is_key instance' id row = str_eq row.instance_id instance' && str_eq row.value.key.id id

-- The primary key and the unique indexes on names and digests.
abbrev pub has_key_id : String → KeyRow → Bool
has_key_id id row = str_eq row.value.key.id id

abbrev pub has_key_name : String → String → KeyRow → Bool
has_key_name instance' name row = str_eq row.instance_id instance' && str_eq row.value.key.name name

abbrev pub has_digest : List ℕ → KeyRow → Bool
has_digest digest row = bytes_eq row.value.digest digest

abbrev pub lists : String → List String → Bool
lists id [] = false
lists id (x ∷ xs) = str_eq x id || lists id xs

-- INSERT INTO api_keys, refused on a key, an index, the reference or the check on the digest.
unfoldable pub insert_key : String → KeyRecord → KeyTables → Result KeyError KeyTables
insert_key instance' r t = do
  refuse_if (ltb 0 (count_where (has_key_id r.key.id) t.keys)) conflict
  refuse_if (ltb 0 (count_where (has_key_name instance' r.key.name) t.keys)) conflict
  refuse_if (ltb 0 (count_where (has_digest r.digest) t.keys)) conflict
  refuse_if (not (lists instance' t.instances)) conflict
  refuse_if (not (length r.digest == 32)) conflict
  ok (record t { keys = t.keys ++ record { instance_id = instance'; value = r } ∷ [] })

abbrev pub of_journal : Result JournalError Database → Result KeyError Database
of_journal (ok db) = ok db
of_journal (err e) = err (audit_failed e)

abbrev audited : Env → String → String → String → KeyTables → Result KeyError KeyTables
audited env instance' operation_id event t = do
  journal' ← of_journal (append_audit env instance' operation_id event t.journal)
  ok (record t { journal = journal' })

-- CreateAPIKey
unfoldable pub create_api_key :
    Env → String → KeyRecord → String → KeyTables → Result KeyError KeyTables
unfolding insert_key append_audit
create_api_key env instance' r operation_id t = do
  refuse_if (not (valid_uuid instance') || (not (valid_key r) || not (valid_uuid operation_id)))
      invalid
  inserted ← insert_key instance' r t
  noted ← audited env instance' operation_id "api_key.created" inserted
  refuse_if (not env.accepted) sqlite_failed
  ok noted

abbrev created_before : KeyRow → KeyRow → Bool
created_before a b =
    if a.value.key.created_at == b.value.key.created_at
    then str_lt a.value.key.id b.value.key.id
    else ltb a.value.key.created_at b.value.key.created_at

-- Those of one instance.
unfoldable pub keys_of : String → List KeyRow → List KeyRow
keys_of instance' [] = []
keys_of instance' (row ∷ rows) =
    let rest = keys_of instance' rows in
    if str_eq row.instance_id instance' then row ∷ rest else rest

unfoldable pub scan_keys : List KeyRow → Result KeyError (List KeyRecord)
unfolding scan_key
scan_keys [] = ok []
scan_keys (row ∷ rows) = do value ← scan_key row; rest ← scan_keys rows; ok (value ∷ rest)

-- ListAPIKeys; a refused identifier is an error without a class.
unfoldable pub list_api_keys : String → KeyTables → Result KeyError (List KeyRecord)
unfolding scan_keys keys_of sort_by
list_api_keys instance' t = do
  refuse_if (not (valid_uuid instance')) invalid
  scan_keys (sort_by created_before (keys_of instance' t.keys))

abbrev pub or_not_found : Option KeyRow → Result KeyError KeyRecord
or_not_found none = err not_found
or_not_found (some row) = scan_key row

-- LoadAPIKey
unfoldable pub load_api_key : String → String → KeyTables → Result KeyError KeyRecord
unfolding scan_key find_where
load_api_key instance' id t = do
  refuse_if (not (valid_uuid instance') || not (valid_uuid id)) not_found
  or_not_found (find_where (is_key instance' id) t.keys)

-- DeleteAPIKey
unfoldable pub delete_api_key :
    Env → String → String → String → ℕ → KeyTables → Result KeyError (KeyRecord × KeyTables)
unfolding scan_key find_where append_audit delete_where
delete_api_key env instance' id operation_id at t = do
  refuse_if
      (not (valid_uuid instance')
        || (not (valid_uuid id) || (not (valid_uuid operation_id) || at == 0)))
      invalid
  value ← or_not_found (find_where (is_key instance' id) t.keys)
  noted ← audited env instance' operation_id "api_key.deleted" t
  refuse_if (not env.accepted) sqlite_failed
  ok (value, record noted { keys = delete_where (is_key instance' id) noted.keys })
