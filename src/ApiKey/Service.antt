-- ===== src/ApiKey/Service.antt =====
-- internal/apikey/service.go: the service of one instance over the table of keys.
use openvpn_docker.ApiKey.Token.{Codec, parse_token, token_of}
use openvpn_docker.ApiKey.{
  Key, KeyRecord, KeyTables, KeyError, not_found, unauthenticated, invalid, ambiguous,
  random_failed, bytes_eq, create_api_key, list_api_keys, load_api_key, delete_api_key,
}
use openvpn_docker.Domain.Ids.{codes, valid_client_name}
use openvpn_docker.Prelude.{
  ℕ, String, Bool, not, ◌&&◌, ◌||◌, Option, none, some, List, [], ◌∷◌, map, ltb, if◌then◌else◌,
  str_eq, length, Result, ok, err, ◌>>=◌, ◌>>◌, refuse_if,
}
use openvpn_docker.Selection.{Selector, all_hex, has_prefix, without_dashes}
use openvpn_docker.Store.Journal.{Env}

-- What one call draws: two identifiers, the bytes that io.ReadFull fills, the second of the clock, and
-- what its audit event and its commit meet.
pub record Draws : Type 0 where
  pub id : Option String
  pub operation_id : Option String
  pub secret : Option (List ℕ)
  pub now : ℕ
  pub env : Env

pub record CreateResult : Type 0 where
  pub operation_id : String
  pub key : Key
  pub secret : String

pub record DeleteResult : Type 0 where
  pub operation_id : String
  pub key : Key
  pub deleted_at : ℕ

abbrev pub or_random {ℓ} : {A : Type ℓ} → Option A → Result KeyError A
or_random none = err random_failed
or_random (some a) = ok a

-- Create
unfoldable pub create :
    Codec → String → Draws → String → KeyTables → Result KeyError (CreateResult × KeyTables)
unfolding create_api_key
create codec instance' d name t = do
  refuse_if (not (valid_client_name name)) invalid
  id ← or_random d.id
  operation_id ← or_random d.operation_id
  secret ← or_random d.secret
  let token = token_of id (codec.encode_to_string secret)
  let key : Key = record { id = id; name = name; created_at = d.now }
  created ←
      create_api_key d.env instance' (record { key = key; digest = codec.sum256 token })
        operation_id t
  ok (record { operation_id = operation_id; key = key; secret = token }, created)

-- List
unfoldable pub list : String → KeyTables → Result KeyError (List Key)
unfolding list_api_keys
list instance' t = do records ← list_api_keys instance' t; ok (map (λ r. r.key) records)

abbrev pub key_named : String → List KeyRecord → Result KeyError KeyRecord
key_named name [] = err not_found
key_named name (r ∷ rs) =
    let rest = key_named name rs in if str_eq r.key.name name then ok r else rest

abbrev pub key_has_prefix : List ℕ → KeyRecord → Bool
key_has_prefix prefix r = has_prefix (without_dashes (codes r.key.id)) prefix

-- The loop over the records, with the match so far.
abbrev pub match_prefix : List ℕ → Option KeyRecord → List KeyRecord → Result KeyError KeyRecord
match_prefix prefix none [] = err not_found
match_prefix prefix (some m) [] = ok m
match_prefix prefix none (r ∷ rs) =
    let kept = match_prefix prefix none rs in
    let matched = match_prefix prefix (some r) rs in
    if key_has_prefix prefix r then matched else kept
match_prefix prefix (some m) (r ∷ rs) =
    let kept = match_prefix prefix (some m) rs in
    if key_has_prefix prefix r then err ambiguous else kept

-- Select; a prefix that is not ASCII is refused either way, so its length is that of its code points.
unfoldable pub select : Codec → String → Selector → KeyTables → Result KeyError KeyRecord
unfolding list_api_keys
select codec instance' s t = do
  refuse_if (not (str_eq s.name "") && not (str_eq s.id_prefix "")) invalid
  if not (str_eq s.name "")
      then (do
        refuse_if (not (valid_client_name s.name)) invalid
        records ← list_api_keys instance' t
        key_named s.name records)
      else (do
        let prefix = without_dashes (codes (codec.to_lower s.id_prefix))
        refuse_if (ltb (length prefix) 8 || ltb 32 (length prefix)) invalid
        refuse_if (not (all_hex prefix)) invalid
        records ← list_api_keys instance' t
        match_prefix prefix none records)

-- Delete
unfoldable pub delete :
    Codec → String → Draws → Selector → KeyTables → Result KeyError (DeleteResult × KeyTables)
unfolding select delete_api_key
delete codec instance' d s t = do
  value ← select codec instance' s t
  operation_id ← or_random d.operation_id
  (deleted, after) ← delete_api_key d.env instance' value.key.id operation_id d.now t
  ok (record { operation_id = operation_id; key = deleted.key; deleted_at = d.now }, after)

-- `errors.Is(err, ErrNotFound)` becomes ErrUnauthenticated.
abbrev pub hide_not_found : Result KeyError KeyRecord → Result KeyError KeyRecord
hide_not_found (ok r) = ok r
hide_not_found (err not_found) = err unauthenticated
hide_not_found (err e) = err e

-- Authenticate, from what LoadAPIKey returns on.
abbrev pub admit : Codec → String → Result KeyError KeyRecord → Result KeyError Key
admit codec token loaded = do
  r ← hide_not_found loaded
  refuse_if (not (bytes_eq (codec.sum256 token) r.digest)) unauthenticated
  ok r.key

-- Authenticate
unfoldable pub authenticate : Codec → String → String → KeyTables → Result KeyError Key
unfolding parse_token load_api_key
authenticate codec instance' token t = elim (parse_token codec token) [
  | none ↦ err unauthenticated
  | some id ↦ admit codec token (load_api_key instance' id t)
]
