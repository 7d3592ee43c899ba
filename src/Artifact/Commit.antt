-- ===== src/Artifact/Commit.antt =====
-- Commit, and an operation that is committed.
use openvpn_docker.Domain.Ids.{valid_uuid}
use openvpn_docker.Artifact.Rollback.{Recoverable}
use openvpn_docker.Artifact.Install.{Installed, AreDone, install_rule}
use openvpn_docker.Artifact.Keys.{HasDistinctKeys}
use openvpn_docker.Artifact.Stage.{
  Attempt, attempts, attempt, open_operation, installing, rolling_back, committing, reopening,
}
use openvpn_docker.Artifact.Found.{IsNonempty}
use openvpn_docker.Prelude.{
  ◌≡◌, refl, Bool, Option, List, [], ℕ, String, Result, none, inl, false, inr, sym, ◌∙◌, ap, ◌∷◌,
  ok, err, str_eq, true,
}
use mathlib.Core.Path.{subst}
use openvpn_docker.Actions.{gets, ◌>>=◌}
use openvpn_docker.Actions.Triples.{
  Ensures, Ensures-seq, Ensures-weaken, Ensures-fact, Ensures-gets, Ensures-modify, Post,
  Ensures-fail, Ensures-if, Ensures-pure,
}
use openvpn_docker.Artifact.{
  is_installed, Node, World, OperationState, tick, save_manifest, Entry, StoreError, Manifest, true,
}
use openvpn_docker.Artifact.Calls.{commit, commit_from, cleanup, install, rollback, rollback_from}
use openvpn_docker.Artifact.Open.{tick-Ensures, SafeAt, Open, find_entry}
use openvpn_docker.Artifact.Attempts.{
  targets, IsPrepared, AreRecovery, refused, attempts-Kept, IsPrepared-Open, Kept-faults,
}
use openvpn_docker.Artifact.Recovery.{IsGone, IsOk, ok-Post}

abbrev pub Fixed : (String → Option Node) → World → Type 0
Fixed t w = (j : String) → targets w j ≡ t j

abbrev pub IsCommittable : OperationState → Type 0
IsCommittable OperationState.files_installed = Unit
IsCommittable OperationState.committed = Unit
IsCommittable _ = ⊥

pub is_installed-IsCommittable : (s : OperationState) → is_installed s ≡ true → IsCommittable s
is_installed-IsCommittable OperationState.files_installed h = tt
is_installed-IsCommittable OperationState.committed h = tt
is_installed-IsCommittable OperationState.prepared h = absurd (cc)
is_installed-IsCommittable OperationState.rolled_back h = absurd (cc)

module _ (digest : List ℕ → String) (t : String → Option Node) where
  -- No call fails any more.
  abbrev pub Calm : World → Type 0
  Calm w = Fixed t w × (w.faults ≡ [])

  Calm-tick :
      (R : World → Type 0)
      → ((w : World) (fs : List Bool) → R w → R (record w { faults = fs }))
      → Ensures (λ w. Calm w × R w) tick (λ _ w. Calm w × R w) (λ _. ⊥)
  Calm-tick R keep =
      tick-Ensures (λ w. Calm w × R w) (λ _. ⊥) (λ w b fs ((f, s), g) h. absurd (cc))
        (λ w fs ((f, s), g) h. cc)

  Calm-cleanup : Ensures Calm (cleanup digest) (λ _ w. Calm w × IsGone w) (λ _. ⊥)
  unfolding cleanup
  Calm-cleanup =
      Ensures-seq (λ w. Calm w × Unit {0})
        (Ensures-weaken (λ w c. (c, tt)) (Calm-tick (λ w. Unit) (λ w fs g. g)))
        (Ensures-seq (λ w. Calm w × IsGone w) (Ensures-modify _ _ (λ w (c, _). (c, refl)))
          (Calm-tick IsGone (λ w fs g. g)))

  Calm-commit_from :
      (s : OperationState)
      → IsCommittable s
      → Ensures Calm (commit_from digest s) (λ _ w. Calm w × IsGone w) (λ _. ⊥)
  unfolding commit_from save_manifest
  Calm-commit_from OperationState.committed c = Calm-cleanup
  Calm-commit_from OperationState.files_installed c =
      Ensures-seq (λ w. Calm w × Unit {0}) (Ensures-modify _ _ (λ w k. (k, tt)))
        (Ensures-seq (λ w. Calm w × Unit {0})
          (Ensures-seq (λ w. Calm w × Unit {0}) (Calm-tick (λ w. Unit) (λ w fs g. g))
            (Ensures-seq (λ w. Calm w × Unit {0}) (Ensures-modify _ _ (λ w k. k))
              (Calm-tick (λ w. Unit) (λ w fs g. g))))
          (Ensures-seq (λ w. Calm w × Unit {0}) (Calm-tick (λ w. Unit) (λ w fs g. g))
            (Ensures-weaken (λ w (k, _). k) Calm-cleanup)))
  Calm-commit_from OperationState.prepared c = absurd c
  Calm-commit_from OperationState.rolled_back c = absurd c

  pub Calm-commit :
      Ensures
        (λ w. Calm w × IsCommittable w.memory.state)
        (commit digest)
        (λ _ w. Calm w × IsGone w)
        (λ _. ⊥)
  unfolding commit
  Calm-commit = Ensures-gets _ (λ s.
      Ensures-fact {F = IsCommittable s} (λ w ((c, i), same). subst IsCommittable same i)
        (λ i. Ensures-weaken (λ w ((c, _), _). c) (Calm-commit_from s i)))

abbrev pub run_with :
    {A : Type 0}
    → (World → Result StoreError A × World)
    → List Bool
    → World
    → Result StoreError A × World
run_with m fs w = m (record w { faults = fs })

pub sure-Post :
    (Q : World → Type 0) (r : Result StoreError (Unit {0}) × World)
    → Post (λ _. Q) (λ _. ⊥) r
    → IsOk (r.0) × Q (r.1)
sure-Post Q (ok u, w) q = (tt, q)
sure-Post Q (err e, w) q = absurd q

module _ (digest : List ℕ → String) where
  others_kept :
      (orig : String → Option Node) (es : List Entry) (w : World)
      → Open digest orig es ⊥ w
      → (j : String) → find_entry j es ≡ none
      → targets w j ≡ orig j
  unfolding SafeAt
  others_kept orig es w o j absent =
      subst (λ f. SafeAt digest orig f (orig j) (w.memory.progress j) (w.cell j)) absent
        (o.memory_safe j)

  install_ok :
      (full : IsNonempty digest) (orig : String → Option Node) (es : List Entry) (w : World)
      → HasDistinctKeys es
      → Recoverable digest full orig es ⊥ w
      → IsOk ((install digest w).0)
      → Installed digest orig es ⊥ (λ q. q) ((install digest w).1)
  install_ok full orig es w d (inl o) i =
      ok-Post (Installed digest orig es ⊥ (λ q. q)) _ (install digest w)
        ((install_rule digest orig es ⊥ (λ q. q) d).at w o) i
  install_ok full orig es w d (inr e) i =
      absurd (ok-Post (λ _. ⊥) _ (install digest w) ((refused digest full orig es d).at w e) i)

  -- Take an operation that is prepared, and then any calls of Install, Rollback and OpenOperation, each
  -- of which may stop at any system call. If an Install succeeds after them, then every target of an
  -- entry that writes is a regular file with the mode and the digest of the entry, every target of an entry that
  -- deletes is missing, and every other target is what it was before; the saved manifest says so; and a
  -- Commit in which no system call fails succeeds, leaves the targets, and the folder of the
  -- operation is gone. The hexadecimal SHA-256 of a content is assumed not to be the empty text.
  pub install_commits :
      (es : List Entry) (w : World) (tries : List (Attempt × List Bool)) (fs : List Bool)
      → IsNonempty digest
      → IsPrepared es w
      → AreRecovery tries
      → IsOk ((run_with (install digest) fs (attempts digest tries w)).0)
      → let v = (run_with (install digest) fs (attempts digest tries w)).1 in
        let r = run_with (commit digest) [] v in
        AreDone digest es v.cell
        × ((j : String) → find_entry j es ≡ none → targets v j ≡ targets w j)
        × (v.saved.state ≡ OperationState.files_installed)
        × IsOk (r.0)
        × ((j : String) → targets (r.1) j ≡ targets v j)
        × (r.1.present ≡ false)
  install_commits es w tries fs full h recovery i =
      let before = attempts digest tries w in
      let kept =
        attempts-Kept digest full (targets w) es h.distinct tries w recovery
          (inl (IsPrepared-Open digest es ⊥ w (λ q. q) h)) in
      let ((o, d, s), saved) =
        install_ok full (targets w) es (record before { faults = fs }) h.distinct
          (Kept-faults digest full (targets w) es h.distinct before fs kept) i in
      let v = (run_with (install digest) fs before).1 in
      let (fine, ((f, _), gone)) =
        sure-Post (λ w. Calm digest (targets v) w × IsGone w) (run_with (commit digest) [] v)
          ((Calm-commit digest (targets v)).at (record v { faults = [] })
            (((λ j. refl), refl), rw s tt)) in
      (d, others_kept (targets w) es v o, saved, fine, f, gone)

-- The manifest says that the operation is committed, in memory and on the disk.
pub record IsCommitted (w : World) : Type 0 where
  pub memory_state : w.memory.state ≡ OperationState.committed
  pub saved_state : w.saved.state ≡ OperationState.committed

module _ (digest : List ℕ → String) (t : String → Option Node) where
  abbrev Done : World → Type 0
  Done w = Fixed t w × IsCommitted w

  Done-tick : Ensures Done tick (λ _. Done) Done
  Done-tick =
      tick-Ensures Done Done (λ w b fs (f, d) h. (f, later w fs d))
        (λ w fs (f, d) h. (f, later w fs d))
    where
      later : (w : World) (fs : List Bool) → IsCommitted w → IsCommitted (record w { faults = fs })
      later w fs d = record { memory_state = d.memory_state; saved_state = d.saved_state }

  Done-cleanup : Ensures Done (cleanup digest) (λ _. Done) Done
  unfolding cleanup
  Done-cleanup = Ensures-seq Done Done-tick (
      Ensures-seq Done
        (Ensures-modify _ _
          (λ w (f, d). (f, record { memory_state = d.memory_state; saved_state = d.saved_state })))
        Done-tick)

  -- The state of the manifest in memory is known.
  by_state :
      (f : OperationState → World → Result StoreError (Unit {0}) × World)
      → Ensures Done (f OperationState.committed) (λ _. Done) Done
      → Ensures Done (gets (λ w. w.memory.state) >>= f) (λ _. Done) Done
  by_state f k = Ensures-gets _ (λ s.
      Ensures-fact {F = s ≡ OperationState.committed}
        (λ w ((_, d), same). sym same ∙ d.memory_state)
        (λ committed. rw committed (Ensures-weaken (λ w (d, _). d) k)))

  Done-attempt : (a : Attempt) → Ensures Done (attempt digest a) (λ _. Done) Done
  unfolding attempt install rollback rollback_from commit commit_from open_operation
  Done-attempt installing = Ensures-gets _ (λ m.
      Ensures-fact {F = m.state ≡ OperationState.committed}
        (λ w ((_, d), same). sym (ap (λ (x : Manifest). x.state) same) ∙ d.memory_state)
        (λ committed.
          Ensures-seq (λ _. ⊥) (rw committed (Ensures-fail _ _ (λ w (d, _). d)))
            (record { at = λ w none_here. absurd none_here })))
  Done-attempt rolling_back = by_state (rollback_from digest) (Ensures-fail _ _ (λ w d. d))
  Done-attempt committing = by_state (commit_from digest) Done-cleanup
  Done-attempt reopening = Ensures-gets _ (λ m.
      Ensures-weaken {P = Done} (λ w (d, _). d)
        (Ensures-seq Done
          (Ensures-if (valid_uuid m.id) (λ _. Ensures-pure tt _ (λ w d. d))
            (λ _. Ensures-fail _ _ (λ w d. d)))
          (Ensures-seq Done Done-tick (
            Ensures-gets _ (λ present.
              Ensures-seq Done
                (Ensures-if present (λ _. Ensures-pure tt _ (λ w (d, _). d))
                  (λ _. Ensures-fail _ _ (λ w (d, _). d)))
                (Ensures-seq Done Done-tick (
                  Ensures-gets _ (λ saved.
                    Ensures-seq (λ w. Done w × (w.saved ≡ saved))
                      (Ensures-if (str_eq saved.id m.id) (λ _. Ensures-pure tt _ (λ w d. d))
                        (λ _. Ensures-fail _ _ (λ w (d, _). d)))
                      (Ensures-modify _ _ (λ w ((f, d), same). (
                        f,
                        record {
                          memory_state = ap (λ (x : Manifest). x.state) (sym same) ∙ d.saved_state;
                          saved_state = d.saved_state;
                        },
                      )))))))))))

  either : (r : Result StoreError (Unit {0}) × World) → Post (λ _. Done) Done r → Done (r.1)
  either (ok u, w) d = d
  either (err e, w) d = d

  Done-attempts :
      (tries : List (Attempt × List Bool)) (w : World) → Done w → Done (attempts digest tries w)
  unfolding attempts
  Done-attempts [] w d = d
  Done-attempts ((a, fs) ∷ rest) w (f, d) = Done-attempts rest _ (
      either (attempt digest a (record w { faults = fs })) (
        (Done-attempt a).at _
          (f, record { memory_state = d.memory_state; saved_state = d.saved_state })))

module _ (digest : List ℕ → String) where
  -- Once the manifest says that an operation is committed, in memory and on the disk, no calls of
  -- Install, Rollback, Commit and OpenOperation, wherever each of them stops, change a target; and a
  -- Commit after them in which no system call fails succeeds, leaves the targets, and the folder of
  -- the operation is gone.
  pub attempts-IsCommitted :
      (w : World) (tries : List (Attempt × List Bool))
      → IsCommitted w
      → let v = attempts digest tries w in
        let r = run_with (commit digest) [] v in
        ((j : String) → targets v j ≡ targets w j)
        × IsCommitted v
        × IsOk (r.0)
        × ((j : String) → targets (r.1) j ≡ targets w j)
        × (r.1.present ≡ false)
  attempts-IsCommitted w tries d =
      let (f, c) = Done-attempts digest (targets w) tries w ((λ j. refl), d) in
      let v = attempts digest tries w in
      let (fine, ((f', _), gone)) =
        sure-Post (λ u. Calm digest (targets w) u × IsGone u) (run_with (commit digest) [] v)
          ((Calm-commit digest (targets w)).at (record v { faults = [] })
            ((f, refl), rw c.memory_state tt)) in
      (f, c, fine, f', gone)
