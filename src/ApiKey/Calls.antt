-- ===== src/ApiKey/Calls.antt =====
-- Runs of Create and Delete of internal/apikey/service.go, and what the table's indexes keep in them.
use openvpn_docker.ApiKey.{
  KeyRecord, KeyRow, KeyTables, KeyError, bytes_eq, is_key, has_key_id, has_key_name, has_digest,
  delete_api_key,
}
use openvpn_docker.ApiKey.Access.{create-IsMade}
use openvpn_docker.ApiKey.Service.{
  Draws, CreateResult, DeleteResult, create, delete, select, or_random,
}
use openvpn_docker.ApiKey.Token.{Codec}
use openvpn_docker.ApiKey.Unique.{IsUnique, IsCreated, delete_api_key-IsDeleted}
use openvpn_docker.Prelude.{
  ℕ, ◌≤◌, String, ◌≡◌, refl, sym, ap, ◌∙◌, Bool, true, List, [], ◌∷◌, ◌++◌, arith, eq_iff, ◌==◌,
  Result, ok, err, >>=-eq-ok, ok-injective, Bool-cases, inl, inr,
}
use openvpn_docker.Selection.{Selector}
use openvpn_docker.Store.Rows.{
  count_where, delete_where, count-append_one, count-delete-le, count_mono,
}

pub data KeyCall : Type 0 where
  create_key : Draws → String → KeyCall
  delete_key : Draws → Selector → KeyCall

abbrev pub or_before {ℓ} : {A : Type ℓ} → KeyTables → Result KeyError (A × KeyTables) → KeyTables
or_before t (ok (a, t')) = t'
or_before t (err e) = t

-- A call that fails leaves the tables as they were.
unfoldable pub answer : Codec → String → KeyCall → KeyTables → KeyTables
unfolding create delete
answer codec instance' (create_key d name) t = or_before t (create codec instance' d name t)
answer codec instance' (delete_key d s) t = or_before t (delete codec instance' d s t)

unfoldable pub answer_all : Codec → String → List KeyCall → KeyTables → KeyTables
unfolding answer
answer_all codec instance' [] t = t
answer_all codec instance' (c ∷ cs) t = answer_all codec instance' cs (answer codec instance' c t)

bytes_eq-same : (xs ys zs : List ℕ) → bytes_eq xs ys ≡ true → bytes_eq zs xs ≡ bytes_eq zs ys
bytes_eq-same [] [] zs h = refl
bytes_eq-same [] (y ∷ ys) zs h = ground arith
bytes_eq-same (x ∷ xs) [] zs h = ground arith
bytes_eq-same (x ∷ xs) (y ∷ ys) [] h = refl
bytes_eq-same (x ∷ xs) (y ∷ ys) (z ∷ zs) h =
    let heads : (x == y) ≡ true = ground arith in
    let tails : bytes_eq xs ys ≡ true = ground arith in ground (arith, bytes_eq-same xs ys zs tails)

-- A row that is added where none of its kind stands.
one_more :
    (p q : KeyRow → Bool) (rows : List KeyRow) (row : KeyRow)
    → count_where p rows ≤ 1
    → count_where q rows ≡ 0
    → (p row ≡ true → (x : KeyRow) → p x ≡ true → q x ≡ true)
    → count_where p (rows ++ row ∷ []) ≤ 1
one_more p q rows row h k f = elim (Bool-cases (p row)) [
  | inl e ↦
      let none_there = count_mono p q rows (f e) in
      rw (count-append_one p rows row) (rw e (omega (arith, none_there, k)))
  | inr e ↦ rw (count-append_one p rows row) (rw e (omega (arith, h)))
]

created-IsUnique :
    (instance' : String) (r : KeyRecord) (t t' : KeyTables)
    → IsCreated instance' r t t'
    → IsUnique t
    → IsUnique t'
created-IsUnique instance' r t t' c h =
    let row : KeyRow = record { instance_id = instance'; value = r } in
    (
      λ id. rw (c.appended) (
          one_more (has_key_id id) (has_key_id r.key.id) t.keys row (h.0 id) c.no_id
            (λ e x k. grind (arith, eq_iff))),
      λ other name. rw (c.appended) (
          one_more (has_key_name other name) (has_key_name instance' r.key.name) t.keys row
            (h.1 other name) c.no_name (λ e x k. grind (arith, eq_iff))),
      λ digest. rw (c.appended) (
          one_more (has_digest digest) (has_digest r.digest) t.keys row (h.2 digest) c.no_digest
            (λ e x k. bytes_eq-same r.digest digest x.value.digest e ∙ k)),
    )

deleted-IsUnique :
    (instance' id : String) (t t' : KeyTables)
    → t'.keys ≡ delete_where (is_key instance' id) t.keys
    → IsUnique t
    → IsUnique t'
deleted-IsUnique instance' id t t' e h =
    let w = is_key instance' id in
    (
      λ other. rw e (omega (arith, count-delete-le (has_key_id other) w t.keys, h.0 other)),
      λ other name.
          rw e (omega (arith, count-delete-le (has_key_name other name) w t.keys, h.1 other name)),
      λ digest. rw e (omega (arith, count-delete-le (has_digest digest) w t.keys, h.2 digest)),
    )

delete-removed :
    (codec : Codec) (instance' : String) (d : Draws) (s : Selector) (t : KeyTables)
    {result : DeleteResult} {t' : KeyTables}
    → delete codec instance' d s t ≡ ok (result, t')
    → (id : String) × (t'.keys ≡ delete_where (is_key instance' id) t.keys)
unfolding delete
delete-removed codec instance' d s t h =
    let (value, a, h) = >>=-eq-ok (select codec instance' s t) _ h in
    let (operation_id, b, h) = >>=-eq-ok (or_random d.operation_id) _ h in
    let ((deleted, after), c, h) =
      >>=-eq-ok (delete_api_key d.env instance' value.key.id operation_id d.now t) _ h in
    let gone = delete_api_key-IsDeleted d.env instance' value.key.id operation_id d.now t c in
    (value.key.id, ap (λ x. x.1.keys) (sym (ok-injective h)) ∙ gone.removed)

answer-IsUnique :
    (codec : Codec) (instance' : String) (c : KeyCall) (t : KeyTables)
    → IsUnique t
    → IsUnique (answer codec instance' c t)
unfolding answer
answer-IsUnique codec instance' (create_key d name) t h =
    from_create (create codec instance' d name t) refl
  where
    from_create :
        (o : Result KeyError (CreateResult × KeyTables))
        → create codec instance' d name t ≡ o
        → IsUnique (or_before t (create codec instance' d name t))
    from_create (err e) k = rw k h
    from_create (ok (result, t')) k =
        let m = create-IsMade codec instance' d name t k in
        rw k (created-IsUnique instance' _ t t' m.stored h)
answer-IsUnique codec instance' (delete_key d s) t h =
    from_delete (delete codec instance' d s t) refl
  where
    from_delete :
        (o : Result KeyError (DeleteResult × KeyTables))
        → delete codec instance' d s t ≡ o
        → IsUnique (or_before t (delete codec instance' d s t))
    from_delete (err e) k = rw k h
    from_delete (ok (result, t')) k =
        let (id, removed) = delete-removed codec instance' d s t k in
        rw k (deleted-IsUnique instance' id t t' removed h)

-- In every run of Create and Delete on a table without two keys of one identifier, of one name in an
-- instance, or of one digest, the table stays so.
pub answer_all-IsUnique :
    (codec : Codec) (instance' : String) (cs : List KeyCall) (t : KeyTables)
    → IsUnique t
    → IsUnique (answer_all codec instance' cs t)
unfolding answer_all
answer_all-IsUnique codec instance' [] t h = h
answer_all-IsUnique codec instance' (c ∷ cs) t h =
    answer_all-IsUnique codec instance' cs (answer codec instance' c t)
      (answer-IsUnique codec instance' c t h)
