-- ===== src/Artifact/Calls.antt =====
-- verifyStaged, preflightTarget, Install, Commit and Rollback of internal/artifact/local.go. A call of
-- the operating system, of a context or of a fault injector is a tick.
use openvpn_docker.Prelude.{
  ℕ, String, Bool, true, false, not, ◌&&◌, ◌||◌, Option, none, some, List, [], ◌∷◌, ltb, ◌==◌,
  if◌then◌else◌, str_eq, length, Result, ok, err,
}
use openvpn_docker.Actions.{pure, fail, lift, gets, modify, ◌>>=◌, ◌>>◌}
use openvpn_docker.Artifact.{
  Action, Cell, Entry, File, Node, OperationState, Progress, Run, StoreError, delete, io_failed,
  is_safe_mode, max_artifact_size, operation_state, regular, save_manifest, set_cell, set_progress,
  set_state, special, tick, unsafe_path, write, rolled_back, files_installed, prepared, committed,
}

module _ (digest : List ℕ → String) where
  -- digestFile, of what Lstat finds.
  unfoldable pub digest_file : Option Node → Result StoreError String
  digest_file (some (regular f)) =
      if ltb max_artifact_size (length f.content) then err io_failed else ok (digest f.content)
  digest_file _ = err unsafe_path

  abbrev matches_entry : Entry → File → Bool
  matches_entry e f =
      f.mode == e.mode
      && (not (ltb max_artifact_size (length f.content)) && str_eq (digest f.content) e.digest)

  -- verifyStaged
  unfoldable pub verify_staged : Entry → Option Node → Result StoreError (Unit {0})
  verify_staged e (some (regular f)) = if matches_entry e f then ok tt else err operation_state
  verify_staged e _ = err operation_state

  -- preflightTarget at the target itself; the call stands for the checks of its parents.
  unfoldable pub preflight_target : Option Node → Result StoreError (Unit {0})
  preflight_target none = ok tt
  preflight_target (some (regular f)) = if is_safe_mode f.mode then ok tt else err unsafe_path
  preflight_target (some special) = err unsafe_path

  abbrev pub verify_write : Action → Entry → Option Node → Result StoreError (Unit {0})
  verify_write write e staged = verify_staged e staged
  verify_write delete e staged = ok tt

  unfoldable pub verify_entry : Entry → Run (Unit {0})
  unfolding verify_staged preflight_target
  verify_entry e = do
    tick
    c ← gets (λ w. w.cell e.key)
    lift (verify_write e.action e c.staged)
    tick
    lift (preflight_target c.target)

  -- The first loop of Install.
  unfoldable pub verify_entries : List Entry → Run (Unit {0})
  unfolding verify_entry
  verify_entries [] = pure tt
  verify_entries (e ∷ es) = verify_entry e >> verify_entries es

  -- os.Rename of the target to the backup.
  abbrev pub move_to_backup : String → Run (Unit {0})
  move_to_backup k = do
    tick
    c ← gets (λ w. w.cell k)
    modify (set_cell k (record c { target = none; backup = c.target }))

  abbrev pub move_staged : String → Option Node → Run (Unit {0})
  move_staged k none = fail io_failed
  move_staged k (some n) = do
    c ← gets (λ w. w.cell k)
    modify (set_cell k (record c { target = some n; staged = none }))

  -- os.Rename of the staged file to the target, which fails if there is no staged file.
  abbrev pub install_staged : String → Run (Unit {0})
  install_staged k = tick >> (gets (λ w. w.cell k) >>= λ c. move_staged k c.staged)

  abbrev pub found_original : File → String → Progress → Progress
  found_original f original_digest p = record p {
    had_original = true;
    original_mode = f.mode;
    original_digest = original_digest;
  }

  abbrev pub change_progress : String → (Progress → Progress) → Run (Unit {0})
  change_progress k f = modify (λ w. set_progress k (f (w.memory.progress k)) w)

  -- A call of a closed fault injector, MkdirAll, an open or a sync is a tick.
  unfoldable pub backup_original : String → File → Run (Unit {0})
  unfolding digest_file
  backup_original k f = do
    original_digest ← lift (digest_file (some (regular f)))
    tick
    change_progress k (found_original f original_digest)
    save_manifest
    tick
    move_to_backup k
    tick
    tick
    change_progress k (λ p. record p { backup_ready = true })
    save_manifest
    tick

  abbrev pub backup_target : String → Option Node → Run (Unit {0})
  backup_target k none = pure tt
  backup_target k (some special) = fail unsafe_path
  backup_target k (some (regular f)) =
      if is_safe_mode f.mode then backup_original k f else fail unsafe_path

  abbrev pub install_action : Action → String → Run (Unit {0})
  install_action write k = install_staged k
  install_action delete k = pure tt

  -- One round of the second loop of Install.
  unfoldable pub install_entry : Entry → Run (Unit {0})
  unfolding backup_original
  install_entry e = do
    tick
    tick
    c ← gets (λ w. w.cell e.key)
    backup_target e.key c.target
    install_action e.action e.key
    change_progress e.key (λ p. record p { installed = true })
    tick
    save_manifest
    tick

  unfoldable pub install_entries : List Entry → Run (Unit {0})
  unfolding install_entry
  install_entries [] = pure tt
  install_entries (e ∷ es) = install_entry e >> install_entries es

  abbrev pub is_prepared : OperationState → Bool
  is_prepared prepared = true
  is_prepared _ = false

  unfoldable pub install : Run (Unit {0})
  unfolding verify_entries install_entries
  install = do
    m ← gets (λ w. w.memory)
    if is_prepared m.state then pure tt else fail operation_state
    verify_entries m.entries
    install_entries m.entries
    modify (set_state files_installed)
    save_manifest
    tick

  abbrev no_files : Cell → Cell
  no_files c = record c { staged = none; backup = none }

  -- The folder of the operation goes, and then the directory above it is synced.
  unfoldable pub cleanup : Run (Unit {0})
  cleanup = do
    tick
    modify (λ w. record w { present = false; cell = λ k. no_files (w.cell k) })
    tick

  unfoldable pub commit_from : OperationState → Run (Unit {0})
  unfolding cleanup
  commit_from committed = cleanup
  commit_from files_installed = do modify (set_state committed); save_manifest; tick; cleanup
  commit_from _ = fail operation_state

  unfoldable pub commit : Run (Unit {0})
  unfolding commit_from
  commit = gets (λ w. w.memory.state) >>= commit_from

  abbrev pub remove_regular : String → Option Node → Run (Unit {0})
  remove_regular k none = pure tt
  remove_regular k (some special) = fail unsafe_path
  remove_regular k (some (regular f)) = do
    tick
    c ← gets (λ w. w.cell k)
    modify (set_cell k (record c { target = none }))

  -- removeRegularIfPresent of the target.
  abbrev pub remove_regular_if_present : String → Run (Unit {0})
  remove_regular_if_present k = tick >> (gets (λ w. w.cell k) >>= λ c. remove_regular k c.target)

  -- os.Rename of the backup to the target.
  abbrev pub restore_backup : String → Run (Unit {0})
  restore_backup k = do
    tick
    c ← gets (λ w. w.cell k)
    modify (set_cell k (record c { target = c.backup; backup = none }))

  abbrev pub same_digest : Result StoreError String → String → Bool
  same_digest (ok d) e = str_eq d e
  same_digest (err _) e = false

  -- The original is still at the target.
  abbrev pub check_original : Progress → Option Node → Run (Unit {0})
  check_original p target =
      if not (str_eq p.original_digest "") && same_digest (digest_file target) p.original_digest
      then pure tt
      else fail operation_state

  abbrev pub check_new : Entry → Option Node → Run (Unit {0})
  check_new e none = pure tt
  check_new e (some n) =
      if same_digest (digest_file (some n)) e.digest then pure tt else fail operation_state

  abbrev pub is_missing : Option Node → Bool
  is_missing none = true
  is_missing (some n) = false

  abbrev pub undo_write : Action → Entry → Progress → Cell → Run (Unit {0})
  undo_write delete e p c = pure tt
  undo_write write e p c =
      if p.installed || is_missing c.staged
      then (check_new e c.target >> remove_regular_if_present e.key)
      else pure tt

  abbrev pub undo_entry : Entry → Progress → Cell → Option Node → Run (Unit {0})
  undo_entry e p c (some b) = remove_regular_if_present e.key >> restore_backup e.key
  undo_entry e p c none =
      if p.had_original then (tick >> check_original p c.target) else undo_write e.action e p c

  -- One round of the loop of Rollback.
  unfoldable pub rollback_entry : Entry → Run (Unit {0})
  rollback_entry e = do
    tick
    tick
    p ← gets (λ w. w.memory.progress e.key)
    c ← gets (λ w. w.cell e.key)
    undo_entry e p c c.backup
    tick

  -- The entries from the last to the first.
  unfoldable pub rollback_entries : List Entry → Run (Unit {0})
  unfolding rollback_entry
  rollback_entries [] = pure tt
  rollback_entries (e ∷ es) = rollback_entries es >> rollback_entry e

  unfoldable pub rollback_open : Run (Unit {0})
  unfolding rollback_entries cleanup
  rollback_open = do
    es ← gets (λ w. w.memory.entries)
    rollback_entries es
    modify (set_state rolled_back)
    save_manifest
    cleanup

  unfoldable pub rollback_from : OperationState → Run (Unit {0})
  unfolding rollback_open cleanup
  rollback_from rolled_back = cleanup
  rollback_from committed = fail operation_state
  rollback_from _ = rollback_open

  unfoldable pub rollback : Run (Unit {0})
  unfolding rollback_from
  rollback = gets (λ w. w.memory.state) >>= rollback_from
