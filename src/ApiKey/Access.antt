-- ===== src/ApiKey/Access.antt =====
-- Who is let in by Authenticate of internal/apikey/service.go, after Create and after Delete.
use openvpn_docker.ApiKey.{
  Key, KeyRecord, KeyRow, KeyTables, KeyError, unauthenticated, not_found, invalid, bytes_eq,
  valid_key, scan_key, is_key, has_key_id, or_not_found, load_api_key, create_api_key,
  delete_api_key, schema,
}
use openvpn_docker.ApiKey.Service.{
  Draws, CreateResult, DeleteResult, create, delete, select, authenticate, hide_not_found, admit,
  or_random,
}
use openvpn_docker.ApiKey.Token.{Codec, HasNoDot, parse_token, parse-token_of, token_of}
use openvpn_docker.ApiKey.Unique.{IsCreated, create_api_key-IsCreated, delete_api_key-IsDeleted}
use openvpn_docker.Domain.Ids.{valid_uuid, valid_client_name}
use openvpn_docker.Prelude.{
  ℕ, String, ◌≡◌, refl, sym, ap, ◌∙◌, Bool, true, false, not, ◌||◌, Option, none, some, List, [],
  ◌∷◌, ◌++◌, arith, eq_iff, eq_refl, ◌==◌, if◌then◌else◌, str_eq, length, Result, ok, err, ◌>>◌,
  refuse_if, >>=-eq-ok, ok-injective, Bool-cases, inl, inr,
}
use openvpn_docker.Selection.{Selector}
use openvpn_docker.Store.Rows.{
  count_where, find_where, delete_where, count_mono, count-delete_none, find-append, find-none,
  find-delete, find_sound,
}

bytes_eq_refl : (bs : List ℕ) → bytes_eq bs bs ≡ true
bytes_eq_refl [] = refl
bytes_eq_refl (b ∷ bs) = ground (arith, bytes_eq_refl bs)

or_not_found-still :
    (mine : Bool) (row : KeyRow) (o : Option KeyRow) {r : KeyRecord}
    → or_not_found o ≡ ok r
    → or_not_found (elim o [ none ↦ if mine then some row else none | some x ↦ some x ]) ≡ ok r
or_not_found-still mine row none h = ground arith
or_not_found-still mine row (some x) h = h

-- A row found before a key is added is found after.
load-appended :
    (instance' id : String) (t t' : KeyTables) (row : KeyRow) (r : KeyRecord)
    → t'.keys ≡ t.keys ++ row ∷ []
    → load_api_key instance' id t ≡ ok r
    → load_api_key instance' id t' ≡ ok r
unfolding load_api_key
load-appended instance' id t t' row r e h =
    let (u, a, b) =
      >>=-eq-ok (refuse_if (not (valid_uuid instance') || not (valid_uuid id)) not_found) _ h in
    rw a (
      rw (e, find-append (is_key instance' id) t.keys row)
        (or_not_found-still (is_key instance' id row) row (find_where (is_key instance' id) t.keys)
          b))

load-created :
    (instance' : String) (r : KeyRecord) (t t' : KeyTables)
    → IsCreated instance' r t t'
    → load_api_key instance' r.key.id t' ≡ ok r
unfolding load_api_key scan_key
load-created instance' r t t' c =
    let row : KeyRow = record { instance_id = instance'; value = r } in
    let p = is_key instance' r.key.id in
    let none_before : count_where p t.keys ≡ 0 =
      omega (arith, count_mono p (has_key_id r.key.id) t.keys (λ x k. ground arith), c.no_id) in
    let valid_id : valid_uuid r.key.id ≡ true = ground (arith, c.valid) in
    rw (c.valid_instance, valid_id)
      (rw (c.appended, find-append p t.keys row, find-none p t.keys none_before)
        (rw (eq_refl instance', eq_refl r.key.id) (rw (c.whole, c.valid) refl)))

hide-ok : (l : Result KeyError KeyRecord) {r : KeyRecord} → hide_not_found l ≡ ok r → l ≡ ok r
hide-ok (ok r) h = h
hide-ok (err e) h = ground arith

admit-more :
    (codec : Codec) (token : String) (l l' : Result KeyError KeyRecord) {k : Key}
    → ((r : KeyRecord) → l ≡ ok r → l' ≡ ok r)
    → admit codec token l ≡ ok k
    → admit codec token l' ≡ ok k
admit-more codec token l l' f h =
    let (r, a, b) = >>=-eq-ok (hide_not_found l) _ h in rw (f r (hide-ok l a)) b

authenticate-appended :
    (codec : Codec) (instance' token : String) (t t' : KeyTables) (row : KeyRow) {k : Key}
    → t'.keys ≡ t.keys ++ row ∷ []
    → authenticate codec instance' token t ≡ ok k
    → authenticate codec instance' token t' ≡ ok k
unfolding authenticate
authenticate-appended codec instance' token t t' row {k} e h =
    from_parse (parse_token codec token) refl
  where
    from_parse :
        (o : Option String)
        → parse_token codec token ≡ o
        → authenticate codec instance' token t' ≡ ok k
    from_parse none p = absurd (ground arith)
    from_parse (some id) p =
        rw (authenticate, p)
          (admit-more codec token (load_api_key instance' id t) (load_api_key instance' id t')
            (λ r. load-appended instance' id t t' row r e) (rw (authenticate, p) at h))

or_random-some {ℓ} : {A : Type ℓ} (o : Option A) {a : A} → or_random o ≡ ok a → o ≡ some a
or_random-some none h = cc
or_random-some (some a) h = cc

-- The record and the result of a key under an identifier and a secret.
abbrev pub record_of : Codec → Draws → String → String → List ℕ → KeyRecord
record_of codec d name id bytes = record {
  key = record { id = id; name = name; created_at = d.now };
  digest = codec.sum256 (token_of id (codec.encode_to_string bytes));
}

abbrev pub result_of : Codec → Draws → String → String → String → List ℕ → CreateResult
result_of codec d name id operation_id bytes = record {
  operation_id = operation_id;
  key = record { id = id; name = name; created_at = d.now };
  secret = token_of id (codec.encode_to_string bytes);
}

pub record IsMade (codec : Codec) (instance' : String) (d : Draws) (name : String) (t : KeyTables)
    (result : CreateResult) (t' : KeyTables) : Type 0 where
  pub id : String
  pub operation_id : String
  pub bytes : List ℕ
  pub drawn : d.secret ≡ some bytes
  pub stored : IsCreated instance' (record_of codec d name id bytes) t t'
  pub returned : result ≡ result_of codec d name id operation_id bytes

pub create-IsMade :
    (codec : Codec) (instance' : String) (d : Draws) (name : String) (t : KeyTables)
    {result : CreateResult} {t' : KeyTables}
    → create codec instance' d name t ≡ ok (result, t')
    → IsMade codec instance' d name t result t'
unfolding create
create-IsMade codec instance' d name t {result} {t'} h =
    let (u, a, h) = >>=-eq-ok (refuse_if (not (valid_client_name name)) invalid) _ h in
    let (id, b, h) = >>=-eq-ok (or_random d.id) _ h in
    let (operation_id, c, h) = >>=-eq-ok (or_random d.operation_id) _ h in
    let (bytes, e, h) = >>=-eq-ok (or_random d.secret) _ h in
    let r = record_of codec d name id bytes in
    let (created, f, h) = >>=-eq-ok (create_api_key d.env instance' r operation_id t) _ h in
    let same = ok-injective h in
    record {
      id = id;
      operation_id = operation_id;
      bytes = bytes;
      drawn = or_random-some d.secret e;
      stored =
          create_api_key-IsCreated d.env instance' r operation_id t
            (f ∙ ap ok (ap (λ x. x.1) same));
      returned = ap (λ x. x.0) (sym same);
    }

created-admits :
    (codec : Codec) (instance' token : String) (t t' : KeyTables) (key : Key)
    → parse_token codec token ≡ some key.id
    → IsCreated instance' (record { key = key; digest = codec.sum256 token }) t t'
    → authenticate codec instance' token t' ≡ ok key
unfolding authenticate
created-admits codec instance' token t t' key p c =
    rw (authenticate, p, load-created instance' _ t t' c)
      (rw (bytes_eq_refl (codec.sum256 token)) refl)

some-injective {ℓ} : {A : Type ℓ} {a b : A} → ◌≡◌ {A = Option A} (some a) (some b) → a ≡ b
some-injective h = cc

-- The secret that Create returns authenticates as the new key, and every token that authenticated
-- before still does, as the same key, for every instance. Asked of the drawn secret: its 32 bytes,
-- that base64 decodes its text to it, and that the text has no dot.
pub create_authenticates :
    (codec : Codec) (instance' : String) (d : Draws) (name : String) (t : KeyTables)
    (secret : List ℕ) {result : CreateResult} {t' : KeyTables}
    → d.secret ≡ some secret
    → length secret ≡ 32
    → codec.decode_string (codec.encode_to_string secret) ≡ some secret
    → HasNoDot (codec.encode_to_string secret)
    → create codec instance' d name t ≡ ok (result, t')
    → (authenticate codec instance' result.secret t' ≡ ok result.key)
      × ((other token : String) (k : Key)
          → authenticate codec other token t ≡ ok k
          → authenticate codec other token t' ≡ ok k)
create_authenticates codec instance' d name t secret {result} {t'} drawn size back plain h =
    let m = create-IsMade codec instance' d name t h in
    let same : secret ≡ m.bytes = some-injective (sym drawn ∙ m.drawn) in
    let parsed =
      parse-token_of codec m.id m.bytes (ground (arith, m.stored.valid)) (rw same at size)
        (rw same at back) (rw same at plain) in
    (
      rw (m.returned) (
          created-admits codec instance' (token_of m.id (codec.encode_to_string m.bytes)) t t' _
            parsed m.stored),
      λ other token k. authenticate-appended codec other token t t' _ m.stored.appended,
    )

-- Whether a token names a key.
abbrev pub names : Codec → String → String → Bool
names codec id token = elim (parse_token codec token) [ none ↦ false | some x ↦ str_eq id x ]

scan_key-same : (row : KeyRow) {r : KeyRecord} → scan_key row ≡ ok r → row.value ≡ r
unfolding scan_key
scan_key-same row h =
    let (u, a, h) = >>=-eq-ok (refuse_if (not (length row.value.digest == 32)) schema) _ h in
    let (u2, b, h) = >>=-eq-ok (refuse_if (not (valid_key row.value)) schema) _ h in ok-injective h

refused-anyway {ℓ} :
    {A : Type ℓ} (b : Bool)
    → ◌≡◌ {A = Result KeyError A} (refuse_if b not_found >> err not_found) (err not_found)
refused-anyway true = refl
refused-anyway false = refl

found-id :
    (instance' id : String) (t : KeyTables) {r : KeyRecord}
    → or_not_found (find_where (is_key instance' id) t.keys) ≡ ok r
    → r.key.id ≡ id
found-id instance' id t {r} h = from_find (find_where (is_key instance' id) t.keys) refl
  where
    from_find : (o : Option KeyRow) → find_where (is_key instance' id) t.keys ≡ o → r.key.id ≡ id
    from_find none e = absurd (ground arith)
    from_find (some row) e =
        let same : row.value ≡ r = scan_key-same row (rw e at h) in
        let mine : is_key instance' id row ≡ true = find_sound (is_key instance' id) t.keys e in
        rw (← same) (grind (arith, eq_iff))

load-deleted :
    (instance' id other : String) (t t' : KeyTables)
    → t'.keys ≡ delete_where (is_key instance' id) t.keys
    → load_api_key instance' other t'
      ≡ (if str_eq id other then err not_found else load_api_key instance' other t)
unfolding load_api_key
load-deleted instance' id other t t' e = elim (Bool-cases (str_eq id other)) [
  | inl same ↦
      let gone = find-none (is_key instance' other) (delete_where (is_key instance' id) t.keys) (
        count-delete_none (is_key instance' other) (is_key instance' id) t.keys
          (λ x k. grind (arith, eq_iff))) in
      rw (same, e, gone) (refused-anyway _)
  | inr apart ↦
      let kept =
        find-delete (is_key instance' other) (is_key instance' id) t.keys
          (λ x k. grind (arith, eq_iff)) in
      rw (apart, e, kept) refl
]

-- After Delete no token of the deleted key is admitted, and every other token has the outcome that it
-- had before.
pub delete_revokes :
    (codec : Codec) (instance' : String) (d : Draws) (s : Selector) (t : KeyTables)
    {result : DeleteResult} {t' : KeyTables}
    → delete codec instance' d s t ≡ ok (result, t')
    → (token : String)
    → authenticate codec instance' token t' ≡ (
        if names codec result.key.id token
        then err unauthenticated
        else authenticate codec instance' token t)
unfolding delete authenticate
delete_revokes codec instance' d s t {result} {t'} h token =
    let (value, a, h) = >>=-eq-ok (select codec instance' s t) _ h in
    let (operation_id, b, h) = >>=-eq-ok (or_random d.operation_id) _ h in
    let ((deleted, after), c, h) =
      >>=-eq-ok (delete_api_key d.env instance' value.key.id operation_id d.now t) _ h in
    let same = ok-injective h in
    let gone = delete_api_key-IsDeleted d.env instance' value.key.id operation_id d.now t c in
    let mine : result.key.id ≡ value.key.id =
      ap (λ x. x.0.key.id) (sym same) ∙ found-id instance' value.key.id t gone.found in
    let removed : t'.keys ≡ delete_where (is_key instance' value.key.id) t.keys =
      ap (λ x. x.1.keys) (sym same) ∙ gone.removed in
    rw mine (from_parse value.key.id removed (parse_token codec token) refl)
  where
    from_parse :
        (id : String)
        → t'.keys ≡ delete_where (is_key instance' id) t.keys
        → (o : Option String) → parse_token codec token ≡ o
        → authenticate codec instance' token t' ≡ (
            if names codec id token
            then err unauthenticated
            else authenticate codec instance' token t)
    from_parse id e none p = rw (authenticate, names, p) refl
    from_parse id e (some other) p = elim (Bool-cases (str_eq id other)) [
      | inl k ↦ rw (authenticate, names, p, load-deleted instance' id other t t' e, k) refl
      | inr k ↦ rw (authenticate, names, p, load-deleted instance' id other t t' e, k) refl
    ]
