-- ===== src/Recovery/Tests.antt =====
-- The sample operation, after a crash in Install, with each state of its journal entry.
use openvpn_docker.Prelude.{◌≡◌, refl, Bool, true, false, some, List, [], ◌∷◌, String, map}
use openvpn_docker.Actions.{pure, fail, lift, gets, modify, ◌>>=◌, ◌>>◌}
use openvpn_docker.Domain.Ids.{valid_uuid}
use openvpn_docker.Store.Journal.{OperationState}
use openvpn_docker.Artifact.{World, tick, save_manifest, is_installed}
use openvpn_docker.Artifact.Calls.{
  install, verify_entries, verify_entry, verify_staged, install_entries, install_entry,
  backup_original, digest_file, preflight_target,
}
use openvpn_docker.Artifact.Stage.{
  Attempt, installing, reopening, attempts, attempt, change_entry, prepare, make_changes,
  make_change, stage, remove, check_stage, validate_key, write_staged, begin_operation,
  save_or_remove,
}
use openvpn_docker.Artifact.Attempts.{targets}
use openvpn_docker.Artifact.Recovery.{IsOk}
use openvpn_docker.Artifact.Sample.{
  digest, clean, changes, prepared_world, prepared_world-IsPrepared,
}
use openvpn_docker.Recovery.{finish_remaining}
use openvpn_docker.Recovery.Decided.{finish_remaining_undone, finish_remaining-committed}

abbrev tries : List (Attempt × List Bool)
tries =
    (installing, false ∷ false ∷ false ∷ false ∷ false ∷ false ∷ false ∷ true ∷ [])
    ∷ (reopening, [])
    ∷ []

abbrev crashed : World
crashed = record (attempts digest tries prepared_world) { faults = [] }

abbrev undone : World
undone = (finish_remaining digest (some OperationState.failed) crashed).1

finish_remaining_undone_example :
    IsOk ((finish_remaining digest (some OperationState.failed) crashed).0)
    × ((k : String) → targets undone k ≡ targets prepared_world k)
    × (undone.present ≡ false)
finish_remaining_undone_example =
    finish_remaining_undone digest (map (change_entry digest clean) changes) prepared_world tries
      (some OperationState.failed) (λ c. refl) prepared_world-IsPrepared (tt, (tt, tt)) tt

abbrev installed_world : World
installed_world = attempts digest ((installing, []) ∷ []) prepared_world

installed_world-is_installed : is_installed installed_world.memory.state ≡ true
unfolding prepare make_changes make_change stage remove check_stage validate_key write_staged
    begin_operation save_or_remove save_manifest preflight_target tick pure fail lift gets modify
    ◌>>=◌ ◌>>◌ valid_uuid attempts attempt install verify_entries verify_entry verify_staged
    install_entries install_entry backup_original digest_file
installed_world-is_installed = refl

abbrev finished : World
finished =
    (finish_remaining digest (some OperationState.committed)
      (record installed_world { faults = [] })).1

finish_remaining-committed_example :
    IsOk (
      (finish_remaining digest
        (some OperationState.committed)
        (record installed_world { faults = [] })).0)
    × ((k : String) → targets finished k ≡ targets installed_world k)
    × (finished.present ≡ false)
finish_remaining-committed_example =
    finish_remaining-committed digest installed_world installed_world-is_installed
