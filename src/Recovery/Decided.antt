-- ===== src/Recovery/Decided.antt =====
-- The journal decides what becomes of an artifact operation.
use openvpn_docker.Prelude.{
  ◌≡◌, refl, inl, inr, Bool, true, false, Option, none, some, List, [], ℕ, String, Result, ok, err,
}
use mathlib.Core.Path.{subst}
use openvpn_docker.Actions.Triples.{
  Ensures, Post, Ensures-pure, Ensures-seq, Ensures-weaken, Ensures-fact, Ensures-gets,
}
use openvpn_docker.Store.Journal.{OperationState}
use openvpn_docker.Artifact.{Node, Entry, World, Manifest, StoreError, is_committed, is_installed}
use openvpn_docker.Artifact.Calls.{rollback}
use openvpn_docker.Artifact.Stage.{Attempt, attempts}
use openvpn_docker.Artifact.Open.{IsOpen-is_committed}
use openvpn_docker.Artifact.Found.{IsNonempty}
use openvpn_docker.Artifact.Keys.{HasDistinctKeys}
use openvpn_docker.Artifact.Rollback.{Recoverable, Ended, Lost, rollback_rule}
use openvpn_docker.Artifact.Attempts.{
  IsPrepared, AreRecovery, targets, attempts-Kept, IsPrepared-Open,
}
use openvpn_docker.Artifact.Recovery.{IsOk, IsGone, calm, rollback-IsGone}
use openvpn_docker.Artifact.Commit.{Calm, Calm-commit, is_installed-IsCommittable}
use openvpn_docker.Recovery.{
  RecoveryAction, roll_back_open, finish_commit, finish_remaining, orphan_rolled_back,
  commit_finished, rollback_finished,
}

-- The journal has no such operation, or says that it is rolled back or has failed.
abbrev pub IsUndone : Option OperationState → Type 0
IsUndone none = Unit
IsUndone (some OperationState.rolled_back) = Unit
IsUndone (some OperationState.failed) = Unit
IsUndone (some _) = ⊥

sure :
    {A : Type 0} (Q : World → Type 0) (r : Result StoreError A × World)
    → Post (λ _. Q) (λ _. ⊥) r
    → IsOk (r.0) × Q (r.1)
sure Q (ok a, w) q = (tt, q)
sure Q (err e, w) q = absurd q

module _ (digest : List ℕ → String) (full : IsNonempty digest) (orig : String → Option Node)
    (es : List Entry) (distinct : HasDistinctKeys es) where
  abbrev Ready : World → Type 0
  Ready = Recoverable digest full orig es (Unit {0})

  not_committed : (w : World) → Ready w → is_committed w.memory.state ≡ false
  not_committed w (inl o) = IsOpen-is_committed w.memory.state o.memory_open
  not_committed w (inr (r, _)) = rw r.memory_state refl

  roll_back_rule :
      (a : RecoveryAction)
      → Ensures Ready
          (roll_back_open digest a)
          (λ _ w. Ended digest full orig es (Unit {0}) w × IsGone w)
          (λ _. ⊥)
  unfolding roll_back_open
  roll_back_rule a = Ensures-gets _ (λ m.
      Ensures-fact {F = is_committed m.state ≡ false}
        (λ w (k, same).
          subst (λ (x : Manifest). is_committed x.state ≡ false) same (not_committed w k))
        (λ fine.
          Ensures-weaken {P = Ready} (λ w (k, _). k)
            (Ensures-seq Ready (rw fine (Ensures-pure tt _ (λ w k. k))) (
              Ensures-seq (λ w. Ended digest full orig es (Unit {0}) w × IsGone w)
                (record {
                  at = λ w k.
                      both (rollback digest w)
                        ((rollback_rule digest full orig es (Unit {0}) distinct).at w k)
                        ((rollback-IsGone digest).at w tt);
                })
                (Ensures-pure a _ (λ w k. k))))))
    where
      both :
          (r : Result StoreError (Unit {0}) × World)
          → Post (λ _. Ended digest full orig es (Unit {0})) (Lost digest full orig es (Unit {0})) r
          → Post (λ _. IsGone) (λ _. Unit) r
          → Post (λ _ w. Ended digest full orig es (Unit {0}) w × IsGone w) (λ _. ⊥) r
      both (ok u, w) e g = (e, g)
      both (err x, w) (_, loud) g = loud tt

  undone_rule :
      (j : Option OperationState)
      → IsUndone j
      → Ensures Ready
          (finish_remaining digest j)
          (λ _ w. Ended digest full orig es (Unit {0}) w × IsGone w)
          (λ _. ⊥)
  unfolding finish_remaining
  undone_rule none i = roll_back_rule orphan_rolled_back
  undone_rule (some OperationState.rolled_back) i = roll_back_rule rollback_finished
  undone_rule (some OperationState.failed) i = roll_back_rule rollback_finished
  undone_rule (some OperationState.prepared) i = absurd i
  undone_rule (some OperationState.files_installed) i = absurd i
  undone_rule (some OperationState.committed) i = absurd i

module _ (digest : List ℕ → String) where
  -- Take an operation that is prepared, and then any calls of Install, Rollback and OpenOperation, each
  -- of which may stop at any system call. If the journal has no such operation, or says that it is
  -- rolled back or has failed, then the recovery, if no system call fails, succeeds: every target is
  -- what it was before, and the folder of the operation is gone. The hexadecimal SHA-256 of a content
  -- is assumed not to be the empty text.
  pub finish_remaining_undone :
      (es : List Entry) (w : World) (tries : List (Attempt × List Bool)) (j : Option OperationState)
      → IsNonempty digest
      → IsPrepared es w
      → AreRecovery tries
      → IsUndone j
      → let r = finish_remaining digest j (record (attempts digest tries w) { faults = [] }) in
        IsOk (r.0) × ((k : String) → targets (r.1) k ≡ targets w k) × (r.1.present ≡ false)
  finish_remaining_undone es w tries j full h recovery i =
      let kept =
        attempts-Kept digest full (targets w) es h.distinct tries w recovery
          (inl (IsPrepared-Open digest es ⊥ w (λ q. q) h)) in
      let (fine, ((r, _), gone)) =
        sure (λ v. Ended digest full (targets w) es (Unit {0}) v × IsGone v) _
          ((undone_rule digest full (targets w) es h.distinct j i).at _
            (calm digest full (targets w) es (attempts digest tries w) kept)) in
      (fine, r.original, gone)

  -- If the journal says that an operation is committed, and its manifest says that its files are
  -- installed or committed, then the recovery, if no system call fails, succeeds: it leaves every
  -- target as it is, and the folder of the operation is gone.
  pub finish_remaining-committed :
      (w : World)
      → is_installed w.memory.state ≡ true
      → let r =
          finish_remaining digest (some OperationState.committed) (record w { faults = [] }) in
        IsOk (r.0) × ((k : String) → targets (r.1) k ≡ targets w k) × (r.1.present ≡ false)
  unfolding finish_remaining finish_commit
  finish_remaining-committed w i =
      let (fine, ((f, _), gone)) =
        sure (λ v. Calm digest (targets w) v × IsGone v) _
          (commit_rule.at (record w { faults = [] }) (((λ k. refl), refl), i)) in
      (fine, f, gone)
    where
      commit_rule :
          Ensures
            (λ v. Calm digest (targets w) v × (is_installed v.memory.state ≡ true))
            (finish_commit digest)
            (λ _ v. Calm digest (targets w) v × IsGone v)
            (λ _. ⊥)
      commit_rule = Ensures-gets _ (λ m.
          Ensures-fact {F = is_installed m.state ≡ true}
            (λ v ((c, h), same). subst (λ (x : Manifest). is_installed x.state ≡ true) same h)
            (λ yes.
              Ensures-weaken
                {P = λ v. Calm digest (targets w) v × (is_installed v.memory.state ≡ true)}
                (λ v (k, _). k)
                (Ensures-seq (λ v. Calm digest (targets w) v × (is_installed v.memory.state ≡ true))
                  (rw yes (Ensures-pure tt _ (λ v k. k)))
                  (Ensures-seq (λ v. Calm digest (targets w) v × IsGone v)
                    (Ensures-weaken (λ v (c, h). (c, is_installed-IsCommittable v.memory.state h))
                      (Calm-commit digest (targets w)))
                    (Ensures-pure commit_finished _ (λ v k. k))))))
