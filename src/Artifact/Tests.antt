-- ===== src/Artifact/Tests.antt =====
-- An operation that writes one file and deletes another.
use openvpn_docker.Artifact.Keys.{In}
use openvpn_docker.Prelude.{◌≡◌, refl, Bool, true, false, none, List, [], ◌∷◌, String, map, inl}
use openvpn_docker.Actions.{pure, fail, lift, gets, modify, ◌>>=◌, ◌>>◌}
use openvpn_docker.Domain.Ids.{valid_uuid}
use openvpn_docker.Examples.{some_uuid}
use openvpn_docker.Artifact.{World, OperationState, tick, save_manifest, set_cell, Entry}
use openvpn_docker.Artifact.Calls.{
  install, verify_entries, verify_entry, verify_staged, install_entries, install_entry,
  backup_original, digest_file, preflight_target, commit, commit_from, cleanup, rollback,
}
use openvpn_docker.Artifact.Stage.{
  writing, change_entry, prepare, make_changes, make_change, stage, remove, check_stage,
  validate_key, write_staged, begin_operation, save_or_remove, Attempt, installing, rolling_back,
  reopening, attempts, attempt,
}
use openvpn_docker.Artifact.Install.{AreDone}
use openvpn_docker.Artifact.Open.{find_entry}
use openvpn_docker.Artifact.Attempts.{IsPrepared, targets}
use openvpn_docker.Artifact.Recovery.{IsOk, rollback_recovers}
use openvpn_docker.Artifact.Commit.{run_with, install_commits, attempts-IsCommitted, IsCommitted}
use openvpn_docker.Artifact.Checks.{IsRefused, IsUntouched, install_refuses}
use openvpn_docker.Artifact.Prepare.{prepare-IsPrepared}
use openvpn_docker.Artifact.Sample.{
  digest, clean, start, changes, prepared_world, prepare_sample, prepared_world-IsPrepared,
}

prepare-IsPrepared_example :
    IsPrepared (map (change_entry digest clean) changes) prepared_world
    × ((j : String) → targets prepared_world j ≡ targets start j)
prepare-IsPrepared_example =
    prepare-IsPrepared digest clean some_uuid changes start (λ j. refl) prepare_sample

-- An Install that crashes after the new file is in place, a Rollback that fails, and an Install that
-- fails.
abbrev tries : List (Attempt × List Bool)
tries =
    (installing, false ∷ false ∷ false ∷ false ∷ false ∷ false ∷ false ∷ true ∷ [])
    ∷ (reopening, [])
    ∷ (rolling_back, false ∷ false ∷ true ∷ [])
    ∷ (installing, true ∷ [])
    ∷ []

abbrev recovered : World
recovered = (rollback digest (record (attempts digest tries prepared_world) { faults = [] })).1

rollback_recovers_example :
    IsOk ((rollback digest (record (attempts digest tries prepared_world) { faults = [] })).0)
    × ((j : String) → targets recovered j ≡ targets prepared_world j)
    × (recovered.present ≡ false)
rollback_recovers_example =
    rollback_recovers digest (map (change_entry digest clean) changes) prepared_world tries
      (λ c. refl) prepared_world-IsPrepared (tt, (tt, (tt, (tt, tt))))

abbrev installed_world : World
installed_world =
    (run_with (install digest) [] (attempts digest ((installing, true ∷ []) ∷ []) prepared_world)).1

install_example : IsOk (
    (run_with
      (install digest)
      []
      (attempts digest ((installing, true ∷ []) ∷ []) prepared_world)).0)
unfolding prepare make_changes make_change stage remove check_stage validate_key write_staged
    begin_operation save_or_remove save_manifest preflight_target tick pure fail lift gets modify
    ◌>>=◌ ◌>>◌ valid_uuid attempts attempt install verify_entries verify_entry verify_staged
    install_entries install_entry backup_original digest_file
install_example = tt

abbrev committed : World
committed = (run_with (commit digest) [] installed_world).1

install_commits_example :
    AreDone digest (map (change_entry digest clean) changes) (installed_world.cell)
    × ((j : String)
        → find_entry j (map (change_entry digest clean) changes) ≡ none
        → targets installed_world j ≡ targets prepared_world j)
    × (installed_world.saved.state ≡ OperationState.files_installed)
    × IsOk ((run_with (commit digest) [] installed_world).0)
    × ((j : String) → targets committed j ≡ targets installed_world j)
    × (committed.present ≡ false)
install_commits_example =
    install_commits digest (map (change_entry digest clean) changes) prepared_world
      ((installing, true ∷ []) ∷ []) [] (λ c. refl) prepared_world-IsPrepared (tt, tt)
      install_example

-- A Commit that crashes when it has saved its state.
abbrev late : World
late = (run_with (commit digest) (false ∷ true ∷ []) installed_world).1

abbrev after : World
after = attempts digest tries late

late-IsCommitted : IsCommitted late
unfolding prepare make_changes make_change stage remove check_stage validate_key write_staged
    begin_operation save_or_remove save_manifest preflight_target tick pure fail lift gets modify
    ◌>>=◌ ◌>>◌ valid_uuid attempts attempt install verify_entries verify_entry verify_staged
    install_entries install_entry backup_original digest_file commit commit_from cleanup
late-IsCommitted = record { memory_state = refl; saved_state = refl }

attempts-IsCommitted_example :
    ((j : String) → targets after j ≡ targets late j)
    × IsCommitted after
    × IsOk ((run_with (commit digest) [] after).0)
    × ((j : String) → targets ((run_with (commit digest) [] after).1) j ≡ targets late j)
    × ((run_with (commit digest) [] after).1.present ≡ false)
attempts-IsCommitted_example = attempts-IsCommitted digest late tries late-IsCommitted

-- The staged file is gone when Install begins.
abbrev lost_world : World
lost_world = set_cell "new" (record { target = none; staged = none; backup = none }) prepared_world

abbrev new_entry : Entry
new_entry = change_entry digest clean (writing "new" (record { content = 1 ∷ 2 ∷ []; mode = 384 }))

new_entry-In : In new_entry lost_world.memory.entries
unfolding prepare make_changes make_change stage remove check_stage validate_key write_staged
    begin_operation save_or_remove save_manifest preflight_target tick pure fail lift gets modify
    ◌>>=◌ ◌>>◌ valid_uuid attempts attempt install verify_entries verify_entry verify_staged
    install_entries install_entry backup_original digest_file
new_entry-In = inl refl

new_entry-IsRefused : IsRefused digest new_entry (lost_world.cell "new")
new_entry-IsRefused = inl (refl, tt)

install_refuses_example :
    (IsOk ((install digest lost_world).0) → ⊥)
    × IsUntouched lost_world ((install digest lost_world).1)
install_refuses_example =
    install_refuses digest lost_world new_entry new_entry-In new_entry-IsRefused
