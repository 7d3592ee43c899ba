-- ===== src/Artifact/Stage.antt =====
-- BeginOperation, Stage, Remove and OpenOperation of internal/artifact/local.go. `clean` is path.Clean.
use openvpn_docker.Prelude.{
  ℕ, String, Bool, true, false, not, ◌&&◌, ◌||◌, some, List, [], ◌∷◌, ◌++◌, Result, ok, err, str_eq,
  ltb, ◌==◌, if◌then◌else◌, length,
}
use openvpn_docker.Actions.{pure, fail, lift, gets, modify, ◌>>=◌, ◌>>◌}
use openvpn_docker.Domain.Ids.{valid_uuid, codes}
use openvpn_docker.Artifact.{
  regular, File, Entry, write, delete, World, Manifest, OperationState, StoreError, unsafe_path,
  operation_exists, operation_state, invalid_artifact, io_failed, Run, tick, set_cell,
  save_manifest, no_progress, is_safe_mode, max_artifact_size,
}
use openvpn_docker.Artifact.Calls.{preflight_target, is_prepared, install, rollback, commit}

abbrev starts_with : List ℕ → List ℕ → Bool
starts_with cs [] = true
starts_with [] (p ∷ ps) = false
starts_with (c ∷ cs) (p ∷ ps) = c == p && starts_with cs ps

abbrev contains : List ℕ → ℕ → Bool
contains [] c = false
contains (d ∷ ds) c = d == c || contains ds c

abbrev begins : String → String → Bool
begins prefix key = starts_with (codes key) (codes prefix)

-- ValidateKey: a clean relative path outside the folder of the operations.
unfoldable pub validate_key : (String → String) → String → Result StoreError (Unit {0})
validate_key clean key =
    if str_eq key ""
      || (str_eq key "."
          || (str_eq key ".."
              || (contains (codes key) 0
                  || (contains (codes key) 92
                      || (begins "/" key
                          || (not (str_eq (clean key) key)
                              || (begins "../" key
                                  || (str_eq key ".operations" || begins ".operations/" key))))))))
    then err unsafe_path
    else ok tt

abbrev pub new_manifest : String → Manifest
new_manifest id = record {
  id = id;
  state = OperationState.prepared;
  entries = [];
  progress = λ k. no_progress;
}

abbrev pub or_remove : Result StoreError (Unit {0}) × World → Result StoreError (Unit {0}) × World
or_remove (ok u, w) = (ok u, w)
or_remove (err e, w) = (err e, record w { present = false })

-- The manifest of a new operation is saved, or its folder goes again.
unfoldable pub save_or_remove : Run (Unit {0})
save_or_remove w = or_remove (save_manifest w)

unfoldable pub begin_operation : String → Run (Unit {0})
unfolding save_or_remove
begin_operation id = do
  if valid_uuid id then pure tt else fail invalid_artifact
  tick
  present ← gets (λ w. w.present)
  if present then fail operation_exists else pure tt
  tick
  modify (λ w. record w { present = true; memory = new_manifest id })
  save_or_remove

unfoldable pub open_operation : String → Run (Unit {0})
open_operation id = do
  if valid_uuid id then pure tt else fail invalid_artifact
  tick
  present ← gets (λ w. w.present)
  if present then pure tt else fail io_failed
  tick
  saved ← gets (λ w. w.saved)
  if str_eq saved.id id then pure tt else fail operation_state
  modify (λ w. record w { memory = saved })

abbrev pub is_staged : List Entry → String → Bool
is_staged [] key = false
is_staged (e ∷ es) key = str_eq e.key key || is_staged es key

abbrev pub append_entry : Entry → World → World
append_entry e w = record w { memory = record w.memory { entries = w.memory.entries ++ e ∷ [] } }

module _ (digest : List ℕ → String) (clean : String → String) where
  -- The checks that Stage and Remove begin with; only Stage is given a mode.
  unfoldable pub check_stage : Bool → String → Run (Unit {0})
  unfolding validate_key
  check_stage is_allowed key = do
    m ← gets (λ w. w.memory)
    if is_prepared digest m.state then pure tt else fail operation_state
    if is_allowed then pure tt else fail invalid_artifact
    lift (validate_key clean key)
    if is_staged m.entries key then fail invalid_artifact else pure tt

  abbrev pub write_entry : String → File → Entry
  write_entry key f = record { action = write; key = key; mode = f.mode; digest = digest f.content }

  abbrev pub delete_entry : String → Entry
  delete_entry key = record { action = delete; key = key; mode = 0; digest = "" }

  -- The copy is written beside its place, synced and renamed.
  unfoldable pub write_staged : String → File → Run (Unit {0})
  write_staged key f = do
    tick
    if ltb max_artifact_size (length f.content) then fail io_failed else pure tt
    tick
    c ← gets (λ w. w.cell key)
    modify (set_cell key (record c { staged = some (regular f) }))
    tick

  unfoldable pub stage : String → File → Run (Unit {0})
  unfolding check_stage write_staged
  stage key f = do
    check_stage (is_safe_mode f.mode) key
    tick
    write_staged key f
    modify (append_entry (write_entry key f))
    save_manifest

  unfoldable pub remove : String → Run (Unit {0})
  unfolding check_stage
  remove key = do
    check_stage true key
    tick
    c ← gets (λ w. w.cell key)
    lift (preflight_target digest c.target)
    modify (append_entry (delete_entry key))
    save_manifest

-- What one call adds to an operation.
pub data Change : Type 0 where
  writing : String → File → Change
  deleting : String → Change

module _ (digest : List ℕ → String) (clean : String → String) where
  abbrev pub change_entry : Change → Entry
  change_entry (writing key f) = write_entry digest clean key f
  change_entry (deleting key) = delete_entry digest clean key

  unfoldable pub make_change : Change → Run (Unit {0})
  unfolding stage remove
  make_change (writing key f) = stage digest clean key f
  make_change (deleting key) = remove digest clean key

  unfoldable pub make_changes : List Change → Run (Unit {0})
  make_changes [] = pure tt
  make_changes (c ∷ cs) = make_change c >> make_changes cs

  -- BeginOperation and then one Stage or Remove for each change.
  unfoldable pub prepare : String → List Change → Run (Unit {0})
  unfolding make_changes
  prepare id cs = begin_operation id >> make_changes cs

-- A call on an operation, in the process that has it or after a crash.
pub data Attempt : Type 0 where
  installing rolling_back committing reopening : Attempt

module _ (digest : List ℕ → String) where
  unfoldable pub attempt : Attempt → Run (Unit {0})
  attempt installing = install digest
  attempt rolling_back = rollback digest
  attempt committing = commit digest
  attempt reopening = gets (λ w. w.memory) >>= λ m. open_operation m.id

  -- One call after the other, each with the faults that it meets.
  unfoldable pub attempts : List (Attempt × List Bool) → World → World
  unfolding attempt
  attempts [] w = w
  attempts ((a, fs) ∷ rest) w = attempts rest (attempt a (record w { faults = fs })).1
