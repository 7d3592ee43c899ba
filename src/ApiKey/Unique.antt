-- ===== src/ApiKey/Unique.antt =====
-- What the calls of internal/store/sqlite/api_key.go do to the table, and what its indexes keep.
use openvpn_docker.ApiKey.{
  KeyRecord, KeyRow, KeyTables, invalid, conflict, sqlite_failed, valid_key, is_key, has_key_id,
  has_key_name, has_digest, lists, insert_key, of_journal, audited, create_api_key, or_not_found,
  delete_api_key,
}
use openvpn_docker.Domain.Ids.{valid_uuid}
use openvpn_docker.Prelude.{
  ℕ, ◌≤◌, String, ◌≡◌, sym, ap, ◌∙◌, Bool, true, false, not, ◌||◌, List, [], ◌∷◌, ◌++◌, arith, ltb,
  ◌==◌, length, ok, refuse_if, refuse_if-ok, >>=-eq-ok, ok-injective,
}
use openvpn_docker.Store.Journal.{Env, append_audit}
use openvpn_docker.Store.Rows.{count_where, find_where, delete_where}

-- The keys of a table have identifiers, names within an instance, and digests of their own.
abbrev pub IsUnique : KeyTables → Type 0
IsUnique t =
    ((id : String) → count_where (has_key_id id) t.keys ≤ 1)
    × ((instance' name : String) → count_where (has_key_name instance' name) t.keys ≤ 1)
    × ((digest : List ℕ) → count_where (has_digest digest) t.keys ≤ 1)

-- What a successful CreateAPIKey has checked and done.
pub record IsCreated (instance' : String) (r : KeyRecord) (t t' : KeyTables) : Type 0 where
  pub valid_instance : valid_uuid instance' ≡ true
  pub valid : valid_key r ≡ true
  pub no_id : count_where (has_key_id r.key.id) t.keys ≡ 0
  pub no_name : count_where (has_key_name instance' r.key.name) t.keys ≡ 0
  pub no_digest : count_where (has_digest r.digest) t.keys ≡ 0
  pub whole : (length r.digest == 32) ≡ true
  pub appended : t'.keys ≡ t.keys ++ record { instance_id = instance'; value = r } ∷ []

audited-keys :
    (env : Env) (instance' operation_id event : String) (t : KeyTables) {t' : KeyTables}
    → audited env instance' operation_id event t ≡ ok t'
    → t'.keys ≡ t.keys
audited-keys env instance' operation_id event t h =
    let (journal', a, b) =
      >>=-eq-ok (of_journal (append_audit env instance' operation_id event t.journal))
        (λ j. ok (record t { journal = j })) h in
    ap (λ x. x.keys) (sym (ok-injective b))

none_counted : (n : ℕ) → ltb 0 n ≡ false → n ≡ 0
none_counted n h = ground arith

first_valid : (a b c : Bool) → (not a || (not b || not c)) ≡ false → a ≡ true
first_valid a b c h = ground arith

second_valid : (a b c : Bool) → (not a || (not b || not c)) ≡ false → b ≡ true
second_valid a b c h = ground arith

insert_key-ok :
    (instance' : String) (r : KeyRecord) (t : KeyTables) {t' : KeyTables}
    → insert_key instance' r t ≡ ok t'
    → (count_where (has_key_id r.key.id) t.keys ≡ 0)
      × (count_where (has_key_name instance' r.key.name) t.keys ≡ 0)
      × (count_where (has_digest r.digest) t.keys ≡ 0)
      × ((length r.digest == 32) ≡ true)
      × (t'.keys ≡ t.keys ++ record { instance_id = instance'; value = r } ∷ [])
unfolding insert_key
insert_key-ok instance' r t h =
    let (u, a, h) =
      >>=-eq-ok (refuse_if (ltb 0 (count_where (has_key_id r.key.id) t.keys)) conflict) _ h in
    let (u2, b, h) =
      >>=-eq-ok
        (refuse_if (ltb 0 (count_where (has_key_name instance' r.key.name) t.keys)) conflict) _ h in
    let (u3, c, h) =
      >>=-eq-ok (refuse_if (ltb 0 (count_where (has_digest r.digest) t.keys)) conflict) _ h in
    let (u4, d, h) = >>=-eq-ok (refuse_if (not (lists instance' t.instances)) conflict) _ h in
    let (u5, e, h) = >>=-eq-ok (refuse_if (not (length r.digest == 32)) conflict) _ h in
    let size = refuse_if-ok (not (length r.digest == 32)) _ e in
    (
      none_counted _ (refuse_if-ok _ _ a),
      none_counted _ (refuse_if-ok _ _ b),
      none_counted _ (refuse_if-ok _ _ c),
      ground arith,
      ap (λ x. x.keys) (sym (ok-injective h)),
    )

pub create_api_key-IsCreated :
    (env : Env) (instance' : String) (r : KeyRecord) (operation_id : String) (t : KeyTables)
    {t' : KeyTables}
    → create_api_key env instance' r operation_id t ≡ ok t'
    → IsCreated instance' r t t'
unfolding create_api_key
create_api_key-IsCreated env instance' r operation_id t h =
    let row : KeyRow = record { instance_id = instance'; value = r } in
    let (u, a, h) =
      >>=-eq-ok
        (refuse_if
          (not (valid_uuid instance') || (not (valid_key r) || not (valid_uuid operation_id)))
          invalid)
        _ h in
    let (inserted, b, h) = >>=-eq-ok (insert_key instance' r t) _ h in
    let (noted, c, h) =
      >>=-eq-ok (audited env instance' operation_id "api_key.created" inserted) _ h in
    let (u2, d, h) = >>=-eq-ok (refuse_if (not env.accepted) sqlite_failed) _ h in
    let (no_id, no_name, no_digest, whole, kept) = insert_key-ok instance' r t b in
    record {
      valid_instance = first_valid _ _ _ (refuse_if-ok _ _ a);
      valid = second_valid _ _ _ (refuse_if-ok _ _ a);
      no_id = no_id;
      no_name = no_name;
      no_digest = no_digest;
      whole = whole;
      appended =
          ap (λ x. x.keys) (sym (ok-injective h))
          ∙ audited-keys env instance' operation_id "api_key.created" inserted c
          ∙ kept;
    }

-- What a successful DeleteAPIKey has found and removed.
pub record IsDeleted (instance' id : String) (t : KeyTables) (r : KeyRecord) (t' : KeyTables)
    : Type 0 where
  pub found : or_not_found (find_where (is_key instance' id) t.keys) ≡ ok r
  pub removed : t'.keys ≡ delete_where (is_key instance' id) t.keys

pub delete_api_key-IsDeleted :
    (env : Env) (instance' id operation_id : String) (at : ℕ) (t : KeyTables) {r : KeyRecord}
    {t' : KeyTables}
    → delete_api_key env instance' id operation_id at t ≡ ok (r, t')
    → IsDeleted instance' id t r t'
unfolding delete_api_key
delete_api_key-IsDeleted env instance' id operation_id at t h =
    let (u, a, h) =
      >>=-eq-ok
        (refuse_if
          (not (valid_uuid instance')
            || (not (valid_uuid id) || (not (valid_uuid operation_id) || at == 0)))
          invalid)
        _ h in
    let (value, b, h) = >>=-eq-ok (or_not_found (find_where (is_key instance' id) t.keys)) _ h in
    let (noted, c, h) = >>=-eq-ok (audited env instance' operation_id "api_key.deleted" t) _ h in
    let (u2, d, h) = >>=-eq-ok (refuse_if (not env.accepted) sqlite_failed) _ h in
    let same = ok-injective h in
    record {
      found = b ∙ ap ok (ap (λ x. x.0) same);
      removed =
          ap (λ x. x.1.keys) (sym same)
          ∙ ap (delete_where (is_key instance' id))
              (audited-keys env instance' operation_id "api_key.deleted" t c);
    }
