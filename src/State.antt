-- ===== src/State.antt =====
-- internal/state/state.go: the report of a scan, its issues and what they make of the state. The text
-- of an issue's detail and the time of the scan are left out.
pub mod Scan
pub mod Reported
pub mod Healthy
mod Tests
use openvpn_docker.Prelude.{
  ℕ, String, Bool, true, false, not, ◌||◌, List, [], ◌∷◌, ltb, ◌==◌, if◌then◌else◌, str_eq, length,
  Result, ok, err,
}
use openvpn_docker.Domain.Sets.{str_lt}

pub data Classification : Type 0 where
  empty healthy degraded_repairable degraded_recoverable degraded_reissuable critical :
      Classification
  unrecoverable : Classification

pub data Severity : Type 0 where
  repairable recoverable reissuable critical fatal : Severity

pub record Issue : Type 0 where
  pub id : String
  pub severity : Severity
  pub action : String
  pub target : String
  pub owner_id : String
  pub artifact_kind : String

pub record Report : Type 0 where
  pub state : Classification
  pub instance_id : String
  pub revision : ℕ
  pub issue_count : ℕ
  pub pending_count : ℕ
  pub issues : List Issue

abbrev pub rank : Classification → ℕ
rank Classification.empty = 0
rank Classification.healthy = 0
rank Classification.degraded_repairable = 10
rank Classification.degraded_recoverable = 20
rank Classification.degraded_reissuable = 30
rank Classification.critical = 40
rank Classification.unrecoverable = 50

abbrev pub state_for_severity : Severity → Classification
state_for_severity Severity.repairable = Classification.degraded_repairable
state_for_severity Severity.recoverable = Classification.degraded_recoverable
state_for_severity Severity.reissuable = Classification.degraded_reissuable
state_for_severity Severity.critical = Classification.critical
state_for_severity Severity.fatal = Classification.unrecoverable

abbrev pub classification_for : Severity → ℕ
classification_for s = rank (state_for_severity s)

-- The order of sort.SliceStable in finish.
unfoldable pub precedes : Issue → Issue → Bool
precedes a b =
    if not (classification_for a.severity == classification_for b.severity)
    then ltb (classification_for b.severity) (classification_for a.severity)
    else if not (str_eq a.id b.id)
    then str_lt a.id b.id
    else if not (str_eq a.owner_id b.owner_id)
    then str_lt a.owner_id b.owner_id
    else str_lt a.target b.target

-- Stable: an issue goes before the equal ones that stood after it.
unfoldable pub insert_issue : Issue → List Issue → List Issue
insert_issue x [] = x ∷ []
insert_issue x (y ∷ ys) =
    let later = insert_issue x ys in if precedes y x then y ∷ later else x ∷ y ∷ ys

unfoldable pub sort_issues : List Issue → List Issue
unfolding insert_issue
sort_issues [] = []
sort_issues (x ∷ xs) = insert_issue x (sort_issues xs)

-- The loop over the issues, from the state that it has reached.
unfoldable pub worst : Classification → List Issue → Classification
worst state [] = state
worst state (i ∷ is') =
    worst
      (if ltb (rank state) (classification_for i.severity)
        then state_for_severity i.severity
        else state)
      is'

unfoldable pub finish : Report → Report
unfolding sort_issues worst
finish r =
    let sorted = sort_issues r.issues in
    record r {
      issues = sorted;
      issue_count = length sorted;
      state = worst Classification.healthy sorted;
    }

abbrev pub severity_for_artifact : String → Severity
severity_for_artifact kind =
    if str_eq kind "ca-key"
    then Severity.fatal
    else if str_eq kind "server-cert" || str_eq kind "server-key"
    then Severity.reissuable
    else if str_eq kind "ca-cert"
        || (str_eq kind "tls-crypt" || (str_eq kind "client-cert" || str_eq kind "client-key"))
    then Severity.recoverable
    else Severity.repairable

abbrev pub action_for_artifact : String → String
action_for_artifact kind =
    if str_eq kind "ca-key"
    then "RESTORE_CA_PRIVATE_KEY"
    else if str_eq kind "server-cert" || str_eq kind "server-key"
    then "REISSUE_SERVER"
    else if str_eq kind "ca-cert"
    then "RECOVER_CA_CERT"
    else if str_eq kind "tls-crypt"
    then "RECOVER_TLS_CRYPT"
    else if str_eq kind "client-cert" || str_eq kind "client-key"
    then "RECOVER_CLIENT_IDENTITY"
    else if str_eq kind "crl"
    then "REBUILD_CRL"
    else if str_eq kind "server-config"
    then "REFRESH_SERVER_ARTIFACTS"
    else "REFRESH_CLIENT_ARTIFACTS"

abbrev pub verifiable_artifact : String → Bool
verifiable_artifact kind =
    str_eq kind "ca-cert"
    || (str_eq kind "ca-key"
        || (str_eq kind "server-cert"
            || (str_eq kind "server-key"
                || (str_eq kind "crl"
                    || (str_eq kind "tls-crypt"
                        || (str_eq kind "client-cert" || str_eq kind "client-key"))))))

abbrev pub repair_action : String → String
repair_action id =
    if str_eq id "SERVER_CONFIG_DRIFT"
    then "REFRESH_SERVER_ARTIFACTS"
    else "REFRESH_CLIENT_ARTIFACTS"

-- Why sqlite.Open fails.
pub data OpenError : Type 0 where
  missing corrupt permission unsupported_schema unsupported_revision other : OpenError

abbrev pub database_issue_id : OpenError → String
database_issue_id missing = "SQLITE_MISSING"
database_issue_id corrupt = "SQLITE_CORRUPT"
database_issue_id permission = "SQLITE_PERMISSION_INVALID"
database_issue_id unsupported_schema = "SQLITE_VERSION_UNSUPPORTED"
database_issue_id unsupported_revision = "SQLITE_VERSION_UNSUPPORTED"
database_issue_id other = "SQLITE_SCHEMA_INVALID"

-- What os.ReadDir finds of the data directory.
pub data Listing : Type 0 where
  no_directory unreadable : Listing
  entries : List String → Listing

abbrev only_locks : List String → Bool
only_locks [] = true
only_locks (n ∷ ns) =
    let rest = only_locks ns in
    if not (str_eq n ".ovpn-data.lock")
    then (if str_eq n ".ovpn-runtime.lock" then rest else false)
    else rest

abbrev pub directory_empty : Listing → Bool
directory_empty no_directory = true
directory_empty unreadable = false
directory_empty (entries names) = only_locks names

-- What os.Lstat finds at a path: whether it is a regular file (and so no symbolic link), its
-- permissions and its size.
pub data Look : Type 0 where
  absent failing : Look
  file : Bool → ℕ → ℕ → Look

pub data PathError : Type 0 where
  not_exist unfit : PathError

abbrev pub require_regular : Look → Result PathError (Unit {0})
require_regular absent = err not_exist
require_regular failing = err unfit
require_regular (file regular mode size) = if not regular || size == 0 then err unfit else ok tt

abbrev pub require_regular_mode : ℕ → Look → Result PathError (Unit {0})
require_regular_mode expected absent = err not_exist
require_regular_mode expected failing = err unfit
require_regular_mode expected (file regular mode size) =
    if not regular || (not (mode == expected) || size == 0) then err unfit else ok tt
