-- ===== src/Artifact.antt =====
-- internal/artifact/local.go: the files of one artifact store, and an operation that installs a set of
-- them or puts the originals back. `digest` is the hexadecimal SHA-256 of a content. A call of the
-- operating system may fail, as `faults` says, and changes nothing then; a rename and the atomic write
-- of the manifest are one step. Lstat tells a missing file from one that is there.
pub mod Calls
pub mod Safe
pub mod Open
pub mod Keys
pub mod Holding
pub mod Entries
pub mod Install
pub mod Found
pub mod Undo
pub mod Rollback
pub mod Stage
pub mod Attempts
pub mod Recovery
pub mod Commit
pub mod Adding
pub mod Prepare
pub mod Checks
pub mod Sample
mod Tests
use openvpn_docker.Prelude.{
  ℕ, ◌+◌, ◌-◌, ◌*◌, ◌^◌, String, ◌≡◌, Bool, true, false, not, ◌&&◌, ◌||◌, Option, none, some, List,
  [], ◌∷◌, ◌++◌, ltb, ◌==◌, if◌then◌else◌, str_eq, length, Result, ok, err,
}
use openvpn_docker.Actions.{Act, pure, fail, lift, gets, modify, ◌>>=◌, ◌>>◌}
use openvpn_docker.Domain.Ids.{valid_uuid, codes}

pub data StoreError : Type 0 where
  unsafe_path operation_exists operation_state invalid_artifact io_failed : StoreError

-- A regular file: its bytes and its permission bits.
pub record File : Type 0 where
  pub content : List ℕ
  pub mode : ℕ

-- What stands at a path: a regular file, or a directory, a symbolic link and the like.
pub data Node : Type 0 where
  regular : File → Node
  special : Node

-- What stands at a key: in the store, in the operation's folder `staged`, and in its `backup`.
pub record Cell : Type 0 where
  pub target : Option Node
  pub staged : Option Node
  pub backup : Option Node

pub data OperationState : Type 0 where
  prepared files_installed committed rolled_back : OperationState

pub data Action : Type 0 where
  write delete : Action

-- operationEntry is in two parts: what Stage and Remove write down,
pub record Entry : Type 0 where
  pub action : Action
  pub key : String
  pub mode : ℕ
  pub digest : String

-- and what Install finds and does. No two entries have one key.
pub record Progress : Type 0 where
  pub had_original : Bool
  pub original_mode : ℕ
  pub original_digest : String
  pub backup_ready : Bool
  pub installed : Bool

abbrev pub no_progress : Progress
no_progress = record {
  had_original = false;
  original_mode = 0;
  original_digest = "";
  backup_ready = false;
  installed = false;
}

pub record Manifest : Type 0 where
  pub id : String
  pub state : OperationState
  pub entries : List Entry
  pub progress : String → Progress

-- The disk, with the manifest that is saved there if the operation's folder is present; the manifest in
-- memory; and which of the next calls fail.
pub record World : Type 0 where
  pub cell : String → Cell
  pub present : Bool
  pub saved : Manifest
  pub memory : Manifest
  pub faults : List Bool

abbrev pub Run : Type 0 → Type 0
Run A = Act World StoreError A

abbrev pub put {ℓ} : {A : Type ℓ} → String → A → (String → A) → String → A
put k a f j = if str_eq k j then a else f j

abbrev pub strike : List Bool → World → Result StoreError (Unit {0}) × World
strike [] w = (ok tt, w)
strike (false ∷ fs) w = (ok tt, record w { faults = fs })
strike (true ∷ fs) w = (err io_failed, record w { faults = fs })

-- One call that may fail.
unfoldable pub tick : Run (Unit {0})
tick w = strike w.faults w

abbrev pub set_cell : String → Cell → World → World
set_cell k c w = record w { cell = put k c w.cell }

abbrev pub set_progress : String → Progress → World → World
set_progress k p w = record w { memory = record w.memory { progress = put k p w.memory.progress } }

abbrev pub set_state : OperationState → World → World
set_state s w = record w { memory = record w.memory { state = s } }

-- saveManifest: the manifest is in place when the last sync fails.
unfoldable pub save_manifest : Run (Unit {0})
save_manifest = tick >> (modify (λ w. record w { saved = w.memory }) >> tick)

abbrev pub max_artifact_size : ℕ
max_artifact_size = 16 * 2 ^ 20

-- 0o600 or 0o644
abbrev pub is_safe_mode : ℕ → Bool
is_safe_mode mode = mode == 384 || mode == 420

abbrev pub is_committed : OperationState → Bool
is_committed committed = true
is_committed _ = false

-- The files are installed, whether the manifest already says that they are committed.
abbrev pub is_installed : OperationState → Bool
is_installed files_installed = true
is_installed committed = true
is_installed _ = false
