-- ===== src/Recovery.antt =====
-- internal/recovery/operations.go: what RecoverOperations does with an artifact operation that it has
-- opened and that the journal does not list as pending, by the state of its journal entry. A conflict
-- of the two is `operation_state`.
pub mod Decided
mod Tests
use openvpn_docker.Prelude.{Bool, true, false, Option, none, some, List, ℕ, String, if◌then◌else◌}
use openvpn_docker.Actions.{pure, fail, gets, ◌>>=◌, ◌>>◌}
use openvpn_docker.Store.Journal.{OperationState}
use openvpn_docker.Artifact.{Run, operation_state, is_committed, is_installed}
use openvpn_docker.Artifact.Calls.{rollback, commit}

pub data RecoveryAction : Type 0 where
  orphan_rolled_back commit_finished rollback_finished : RecoveryAction

module _ (digest : List ℕ → String) where
  unfoldable pub roll_back_open : RecoveryAction → Run RecoveryAction
  roll_back_open action = do
    m ← gets (λ w. w.memory)
    if is_committed m.state then fail operation_state else pure tt
    rollback digest
    pure action

  unfoldable pub finish_commit : Run RecoveryAction
  finish_commit = do
    m ← gets (λ w. w.memory)
    if is_installed m.state then pure tt else fail operation_state
    commit digest
    pure commit_finished

  -- `none`: the journal has no such operation.
  unfoldable pub finish_remaining : Option OperationState → Run RecoveryAction
  unfolding roll_back_open finish_commit
  finish_remaining none = roll_back_open orphan_rolled_back
  finish_remaining (some OperationState.committed) = finish_commit
  finish_remaining (some OperationState.rolled_back) = roll_back_open rollback_finished
  finish_remaining (some OperationState.failed) = roll_back_open rollback_finished
  finish_remaining (some _) = fail operation_state
