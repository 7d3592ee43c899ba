-- ===== src/Store/Journal/Terminal.antt =====
-- The journal over any sequence of calls: what a terminal operation is, and the failure texts.
use openvpn_docker.Domain.Ids.{valid_uuid}
use openvpn_docker.Store.Journal.{
  OperationState, find_operation, append_audit, allowed_transition, Operation, prepared, Env,
  update, files_installed, Database, kept_failure, advance_operation, is_failed, valid_uuid,
  invalid_audit, invalid_transition, not_allowed, failure_required, event_name, sqlite_failed,
  serve, attempt, prepare_operation, insert, committed, validate_operation, Request, rolled_back,
  is_prepared, prepare, failed, advance, not_prepared, settle,
}
use mathlib.Core.Path.{subst}
use openvpn_docker.Prelude.{
  ℕ, String, ◌≡◌, refl, inl, inr, Bool, true, false, none, some, List, [], ◌∷◌, ◌++◌, arith, eq_iff,
  if◌then◌else◌, Bool-cases, str_eq, ok, length, not, ◌+◌, >>=-eq-ok, refuse_if, ◌||◌, ◌==◌,
  Option-cases, ap, ok-injective, ◌&&◌, sym, ◌∙◌, length-append, Option, refuse_if-ok, Result-cases,
}

abbrev pub is_terminal : OperationState → Bool
is_terminal prepared = false
is_terminal files_installed = false
is_terminal _ = true

allowed-is_terminal : (s t : OperationState) → allowed_transition s t ≡ true → is_terminal s ≡ false
unfolding allowed_transition
allowed-is_terminal s t h = ground arith

find_operation-append :
    (id : String) (os : List Operation) (p : Operation) {o : Operation}
    → find_operation id os ≡ some o
    → find_operation id (os ++ p ∷ []) ≡ some o
unfolding find_operation
find_operation-append id [] p h = cc
find_operation-append id (q ∷ os) p h = elim (Bool-cases (str_eq q.id id)) [
  | inl e ↦ rw e (rw e at h)
  | inr e ↦ rw e (find_operation-append id os p (rw e at h))
]

find_operation-update :
    (id j : String) (next : OperationState) (payload failure : String) (at : ℕ)
    (os : List Operation)
    → find_operation id (update j next payload failure at os) ≡ (elim (find_operation id os) [
      | none ↦ none
      | some o ↦
          if str_eq j id
          then some (record o {
            state = next;
            recovery_payload = payload;
            failure = failure;
            updated_at = at;
          })
          else some o
    ])
unfolding find_operation update
find_operation-update id j next payload failure at [] = refl
find_operation-update id j next payload failure at (o ∷ os) = ground (
  arith,
  find_operation-update id j next payload failure at os,
  eq_iff o.id id,
  eq_iff o.id j,
  eq_iff j id,
)

operations-append_audit :
    (env : Env) (i k t : String) (db : Database) {db' : Database}
    → append_audit env i k t db ≡ ok db'
    → db'.operations ≡ db.operations
unfolding append_audit
operations-append_audit env i k t db h = ground arith

-- The row that an accepted transition writes.
abbrev pub written : OperationState → String → String → ℕ → Operation → Operation
written next payload failure at o = record o {
  state = next;
  recovery_payload = payload;
  failure = kept_failure next failure;
  updated_at = at;
}

length-append_audit :
    (env : Env) (i k t : String) (db : Database) {db' : Database}
    → append_audit env i k t db ≡ ok db'
    → length db'.audit ≡ length db.audit + 1
unfolding append_audit
length-append_audit env i k t db {db'} h =
    let (_, _, rest) =
      >>=-eq-ok
        (refuse_if (not (valid_uuid i) || (not (valid_uuid k) || str_eq t "")) invalid_audit) _ h in
    elim (Option-cases env.event_id) [
      | inl dry ↦ cc (rw dry at rest)
      | inr (id, drawn) ↦
          let q = ap (λ (d : Database). length d.audit) (ok-injective (rw drawn at rest)) in
          sym q ∙ length-append db.audit _
    ]

not-false : (b : Bool) → not b ≡ false → b ≡ true
not-false b h = ground arith

kept_failure_described :
    (next : OperationState) (failure : String)
    → (is_failed next && str_eq failure "") ≡ false
    → str_eq (kept_failure next failure) "" ≡ not (is_failed next)
kept_failure_described prepared failure h = refl
kept_failure_described files_installed failure h = refl
kept_failure_described committed failure h = refl
kept_failure_described rolled_back failure h = refl
kept_failure_described failed failure h = h

find_written :
    (id j : String) (next : OperationState) (payload failure : String) (at : ℕ)
    (os : List Operation) {o : Operation}
    → find_operation id os ≡ some o
    → find_operation j (update id next payload (kept_failure next failure) at os)
      ≡ (if str_eq id j then some (written next payload failure at o) else find_operation j os)
find_written id j next payload failure at os {o} found =
    find_operation-update j id next payload (kept_failure next failure) at os
    ∙ elim (Bool-cases (str_eq id j)) [
      | inl e ↦
          let there : find_operation j os ≡ some o = rw (← (eq_iff id j).0 e) found in
          rw (there, e) refl
      | inr e ↦ ground arith
    ]

-- An accepted transition is one of the allowed ones; a failed operation has a description of its
-- failure and no other has one; only the row with the id changes; and one audit event is added.
pub advance_operation-ok :
    (env : Env) (id : String) (next : OperationState) (payload failure : String) (at : ℕ)
    (db : Database) {db' : Database}
    → advance_operation env id next payload failure at db ≡ ok db'
    → (o : Operation) × (find_operation id db.operations ≡ some o)
      × (allowed_transition o.state next ≡ true)
      × (str_eq (kept_failure next failure) "" ≡ not (is_failed next))
      × ((j : String)
          → find_operation j db'.operations ≡ (
              if str_eq id j
              then some (written next payload failure at o)
              else find_operation j db.operations))
      × (length db'.audit ≡ length db.audit + 1)
unfolding advance_operation
advance_operation-ok env id next payload failure at db {db'} h =
    let (_, _, r1) =
      >>=-eq-ok
        (refuse_if (not (valid_uuid id) || (not (env.json_valid payload) || at == 0))
          invalid_transition)
        _ h in
    elim (Option-cases (find_operation id db.operations)) [
      | inl missing ↦ cc (rw missing at r1)
      | inr (o, found) ↦
          let (_, allowed, r2) =
            >>=-eq-ok (refuse_if (not (allowed_transition o.state next)) not_allowed) _
              (rw found at r1) in
          let (_, described, r3) =
            >>=-eq-ok (refuse_if (is_failed next && str_eq failure "") failure_required) _ r2 in
          let (audited, logged, r4) =
            >>=-eq-ok
              (append_audit env o.instance_id id (event_name next) (record db {
                operations = update id next payload (kept_failure next failure) at db.operations;
              }))
              _ r3 in
          let (_, _, r5) = >>=-eq-ok (refuse_if (not env.accepted) sqlite_failed) _ r4 in
          let q : audited ≡ db' = ok-injective r5 in
          let rows =
            operations-append_audit env o.instance_id id (event_name next) _ {db' = audited}
              logged in
          let events =
            length-append_audit env o.instance_id id (event_name next) _ {db' = audited} logged in
          (
            o,
            found,
            not-false _ (refuse_if-ok _ _ allowed),
            kept_failure_described next failure (refuse_if-ok _ _ described),
            λ j.
                ap (λ (d : Database). find_operation j d.operations) (sym q)
                ∙ ap (find_operation j) rows
                ∙ find_written id j next payload failure at db.operations found,
            ap (λ (d : Database). length d.audit) (sym q) ∙ events,
          )
    ]

insert-keeps :
    (p : Operation) (db : Database) (id : String) {o : Operation} {db' : Database}
    → find_operation id db.operations ≡ some o
    → insert p db ≡ ok db'
    → find_operation id db'.operations ≡ some o
unfolding insert
insert-keeps p db id {o} {db'} found h = elim (Option-cases (find_operation p.id db.operations)) [
  | inr (q, there) ↦ cc (rw (there, insert) at h)
  | inl new ↦
      ap (λ (d : Database). find_operation id d.operations)
        (sym (ok-injective (rw (new, insert) at h)))
      ∙ find_operation-append id db.operations (record p { failure = "" }) found
]

-- The rows that a new operation leaves.
prepare-keeps :
    (env : Env) (p : Operation) (db : Database) (id : String) {o : Operation} {db' : Database}
    → find_operation id db.operations ≡ some o
    → prepare_operation env p db ≡ ok db'
    → find_operation id db'.operations ≡ some o
unfolding prepare_operation
prepare-keeps env p db id {o} {db'} found h =
    let (_, _, r1) = >>=-eq-ok (validate_operation env p) _ h in
    let (_, _, r2) =
      >>=-eq-ok
        (refuse_if (not (is_prepared p.state) || not (p.created_at == p.updated_at)) not_prepared) _
        r1 in
    let (inserted, added, r3) = >>=-eq-ok (insert p db) _ r2 in
    let (audited, logged, r4) =
      >>=-eq-ok (append_audit env p.instance_id p.id "operation.prepared" inserted) _ r3 in
    let (_, _, r5) = >>=-eq-ok (refuse_if (not env.accepted) sqlite_failed) _ r4 in
    let rows =
      operations-append_audit env p.instance_id p.id "operation.prepared" inserted {db' = audited}
        logged in
    ap (λ (d : Database). find_operation id d.operations) (sym (ok-injective r5))
    ∙ ap (find_operation id) rows
    ∙ insert-keeps p db id found added

absurd_of_terminal {ℓ} :
    {A : Type ℓ} (p o : Operation)
    → some p ≡ some o
    → is_terminal p.state ≡ false
    → is_terminal o.state ≡ true
    → A
absurd_of_terminal p o e h k = cc (
    ap {B = Bool} (λ (x : Option Operation). elim x [ none ↦ true | some y ↦ is_terminal y.state ])
      e)

advance-keeps :
    (env : Env) (j : String) (next : OperationState) (payload failure : String) (at : ℕ)
    (db : Database) (id : String) {o : Operation} {db' : Database}
    → find_operation id db.operations ≡ some o
    → is_terminal o.state ≡ true
    → advance_operation env j next payload failure at db ≡ ok db'
    → find_operation id db'.operations ≡ some o
advance-keeps env j next payload failure at db id {o} {db'} found done h =
    let (p, there, allowed, _, rows, _) =
      advance_operation-ok env j next payload failure at db {db' = db'} h in
    elim (Bool-cases (str_eq j id)) [
      | inl e ↦
          let live = allowed-is_terminal p.state next allowed in
          let same : some p ≡ some o = sym there ∙ (rw ((eq_iff j id).0 e) found) in
          absurd_of_terminal p o same live done
      | inr e ↦ rows id ∙ (rw e found)
    ]

attempt-keeps :
    (env : Env) (r : Request) (db : Database) (id : String) {o : Operation} {db' : Database}
    → find_operation id db.operations ≡ some o
    → is_terminal o.state ≡ true
    → attempt env r db ≡ ok db'
    → find_operation id db'.operations ≡ some o
unfolding attempt
attempt-keeps env (prepare p) db id found done h = prepare-keeps env p db id found h
attempt-keeps env (advance j next payload failure at) db id found done h =
    advance-keeps env j next payload failure at db id found done h

-- An operation that is committed, rolled back or failed stays as it is under any sequence of
-- prepare and advance calls, whether they succeed or fail.
pub serve_terminal :
    (calls : List (Env × Request)) (db : Database) (id : String) (o : Operation)
    → find_operation id db.operations ≡ some o
    → is_terminal o.state ≡ true
    → find_operation id (serve calls db).operations ≡ some o
unfolding serve
serve_terminal [] db id o found done = found
serve_terminal ((env, r) ∷ calls) db id o found done = elim (Result-cases (attempt env r db)) [
  | inl (db', e) ↦
      subst (λ x. find_operation id (serve calls (settle x db)).operations ≡ some o) (sym e)
        (serve_terminal calls db' id o (attempt-keeps env r db id found done e) done)
  | inr (_, e) ↦
      subst (λ x. find_operation id (serve calls (settle x db)).operations ≡ some o) (sym e)
        (serve_terminal calls db id o found done)
]
