-- ===== src/Store/Journal.antt =====
-- internal/store/sqlite/journal.go: durable operations and their audit events. A transaction that
-- does not commit leaves the database as it was, so a call returns the new database or an error.
use openvpn_docker.Domain.Sets.{str_lt, sort_by}
use Prim.Native.Char.{code}
pub mod Terminal
mod Tests
use openvpn_docker.Prelude.{
  ℕ, zero, suc, ◌+◌, ◌-◌, ◌*◌, ◌/◌, ◌%◌, ◌^◌, ◌≤◌, ◌<◌, String, ◌≡◌, refl, sym, ap, ◌∙◌, ◌≢◌, ◌↔◌,
  ◌⊎◌, inl, inr, Bool, true, false, not, ◌&&◌, ◌||◌, Option, none, some, List, [], ◌∷◌, ◌++◌, map,
  arith, eq_iff, eq_refl, ltb, leb, ◌==◌, if◌then◌else◌, Bool-cases, Option-cases, str_eq, length,
  length-append, All, All-append, has, IsDistinct, has-append, ==_iff, ltb→lt, leb→le, Result, ok,
  err, ◌>>=◌, ◌>>◌, refuse_if, Result-cases, >>=-eq-ok, refuse_if-ok, ok-injective,
}
use openvpn_docker.Domain.Ids.{valid_uuid}

pub data OperationState : Type 0 where
  prepared files_installed committed rolled_back failed : OperationState

pub data JournalError : Type 0 where
  invalid_operation not_prepared invalid_transition not_found not_allowed : JournalError
  failure_required invalid_audit id_failed sqlite_failed : JournalError

pub record Operation : Type 0 where
  pub id : String
  pub instance_id : String
  pub kind : String
  pub state : OperationState
  pub payload_version : ℕ
  pub recovery_payload : String
  pub created_at : ℕ
  pub updated_at : ℕ
  pub failure : String

pub record AuditEvent : Type 0 where
  pub sequence : ℕ
  pub event_id : String
  pub instance_id : String
  pub operation_id : String
  pub event_type : String
  pub payload_version : ℕ
  pub payload : String
  pub created_at : ℕ

-- The two tables, and the next value of the sequence column.
pub record Database : Type 0 where
  pub operations : List Operation
  pub audit : List AuditEvent
  pub next_sequence : ℕ

-- What a call meets outside this file: whether SQLite accepts the transaction (its constraints on
-- other tables, the disk), the identifier drawn for the event, the clock, and json.Valid.
pub record Env : Type 0 where
  pub accepted : Bool
  pub event_id : Option String
  pub now : ℕ
  pub payload : String
  pub json_valid : String → Bool

abbrev pub state_name : OperationState → String
state_name prepared = "prepared"
state_name files_installed = "files-installed"
state_name committed = "committed"
state_name rolled_back = "rolled-back"
state_name failed = "failed"

-- The event type "operation." followed by the state.
abbrev pub event_name : OperationState → String
event_name prepared = "operation.prepared"
event_name files_installed = "operation.files-installed"
event_name committed = "operation.committed"
event_name rolled_back = "operation.rolled-back"
event_name failed = "operation.failed"

unfoldable pub allowed_transition : OperationState → OperationState → Bool
allowed_transition prepared files_installed = true
allowed_transition prepared rolled_back = true
allowed_transition prepared failed = true
allowed_transition files_installed committed = true
allowed_transition files_installed rolled_back = true
allowed_transition files_installed failed = true
allowed_transition _ _ = false

abbrev pub is_failed : OperationState → Bool
is_failed failed = true
is_failed _ = false

abbrev pub is_prepared : OperationState → Bool
is_prepared prepared = true
is_prepared _ = false

has_line_break : String → Bool
has_line_break String.[] = false
has_line_break (String.◌∷◌ c s) = code c == 10 || (code c == 13 || has_line_break s)

unfoldable pub validate_operation : Env → Operation → Result JournalError (Unit {0})
unfolding has_line_break
validate_operation env o =
    refuse_if
      (not (valid_uuid o.id)
        || (not (valid_uuid o.instance_id)
            || (str_eq o.kind ""
                || (has_line_break o.kind
                    || (ltb o.payload_version 1
                        || (not (env.json_valid o.recovery_payload)
                            || (o.created_at == 0 || o.updated_at == 0)))))))
      invalid_operation

unfoldable pub append_audit :
    Env → String → String → String → Database → Result JournalError Database
append_audit env instance_id operation_id event_type db = do
  refuse_if
      (not (valid_uuid instance_id) || (not (valid_uuid operation_id) || str_eq event_type ""))
      invalid_audit
  elim env.event_id [
    | none ↦ err id_failed
    | some event_id ↦ ok (record db {
      audit =
          db.audit
          ++ record {
            sequence = db.next_sequence;
            event_id = event_id;
            instance_id = instance_id;
            operation_id = operation_id;
            event_type = event_type;
            payload_version = 1;
            payload = env.payload;
            created_at = env.now;
          }
            ∷ [];
      next_sequence = db.next_sequence + 1;
    })
  ]

unfoldable pub find_operation : String → List Operation → Option Operation
find_operation id [] = none
find_operation id (o ∷ os) = if str_eq o.id id then some o else find_operation id os

-- INSERT, which the primary key refuses if the id is there.
insert : Operation → Database → Result JournalError Database
unfolding find_operation
insert o db = elim (find_operation o.id db.operations) [
  | some _ ↦ err sqlite_failed
  | none ↦ ok (record db { operations = db.operations ++ record o { failure = "" } ∷ [] })
]

unfoldable pub prepare_operation : Env → Operation → Database → Result JournalError Database
unfolding insert validate_operation append_audit
prepare_operation env o db = do
  validate_operation env o
  refuse_if (not (is_prepared o.state) || not (o.created_at == o.updated_at)) not_prepared
  inserted ← insert o db
  audited ← append_audit env o.instance_id o.id "operation.prepared" inserted
  refuse_if (not env.accepted) sqlite_failed
  ok audited

-- UPDATE of the row with the id.
update : String → OperationState → String → String → ℕ → List Operation → List Operation
update id next payload failure at [] = []
update id next payload failure at (o ∷ os) =
    let rest = update id next payload failure at os in
    (if str_eq o.id id
      then record o { state = next; recovery_payload = payload; failure = failure; updated_at = at }
      else o)
    ∷ rest

-- `if next != OperationFailed { failure = "" }`
abbrev pub kept_failure : OperationState → String → String
kept_failure next failure = if is_failed next then failure else ""

unfoldable pub advance_operation :
    Env → String → OperationState → String → String → ℕ → Database → Result JournalError Database
unfolding find_operation update append_audit
advance_operation env id next payload failure at db = do
  refuse_if (not (valid_uuid id) || (not (env.json_valid payload) || at == 0)) invalid_transition
  elim (find_operation id db.operations) [
    | none ↦ err not_found
    | some o ↦ do
      refuse_if (not (allowed_transition o.state next)) not_allowed
      refuse_if (is_failed next && str_eq failure "") failure_required
      audited ← append_audit env o.instance_id id (event_name next) (record db {
        operations = update id next payload (kept_failure next failure) at db.operations;
      })
      refuse_if (not env.accepted) sqlite_failed
      ok audited
  ]

abbrev is_pending : OperationState → Bool
is_pending prepared = true
is_pending files_installed = true
is_pending _ = false

abbrev older : Operation → Operation → Bool
older a b = if a.created_at == b.created_at then str_lt a.id b.id else ltb a.created_at b.created_at

select_pending : String → List Operation → List Operation
select_pending instance_id [] = []
select_pending instance_id (o ∷ os) =
    let rest = select_pending instance_id os in
    if str_eq o.instance_id instance_id && is_pending o.state then o ∷ rest else rest

-- ORDER BY created_at, id
unfoldable pub pending_operations : String → Database → Result JournalError (List Operation)
unfolding select_pending
pending_operations instance_id db =
    if valid_uuid instance_id
    then ok (sort_by older (select_pending instance_id db.operations))
    else err invalid_operation

unfoldable pub load_operation : String → Database → Result JournalError Operation
unfolding find_operation
load_operation id db =
    if valid_uuid id
    then (elim (find_operation id db.operations) [ none ↦ err not_found | some o ↦ ok o ])
    else err invalid_operation

-- A caller's request, and what it leaves when it fails: the database as it was.
pub data Request : Type 0 where
  prepare : Operation → Request
  advance : String → OperationState → String → String → ℕ → Request

unfoldable pub attempt : Env → Request → Database → Result JournalError Database
unfolding prepare_operation advance_operation
attempt env (prepare o) db = prepare_operation env o db
attempt env (advance id next payload failure at) db =
    advance_operation env id next payload failure at db

abbrev pub settle : Result JournalError Database → Database → Database
settle (ok db') db = db'
settle (err _) db = db

unfoldable pub serve : List (Env × Request) → Database → Database
serve [] db = db
serve ((env, r) ∷ rest) db = serve rest (settle (attempt env r db) db)
