-- ===== src/Artifact/Recovery.antt =====
-- What the calls on an operation promise to their caller, whatever failed before.
use openvpn_docker.Prelude.{
  ◌≡◌, refl, inl, inr, Bool, false, Option, List, [], ℕ, Result, String, ok, err,
}
use openvpn_docker.Actions.{Act}
use openvpn_docker.Actions.Triples.{
  Ensures, Post, Ensures-fail, Ensures-seq, Ensures-gets, Ensures-modify,
}
use openvpn_docker.Artifact.{Node, Entry, World, OperationState, StoreError, tick}
use openvpn_docker.Artifact.Calls.{rollback, rollback_from, rollback_open, cleanup}
use openvpn_docker.Artifact.Stage.{Attempt, attempts}
use openvpn_docker.Artifact.Open.{tick-Ensures}
use openvpn_docker.Artifact.Found.{IsNonempty}
use openvpn_docker.Artifact.Rollback.{Recoverable, Ended, Lost, rollback_rule}
use openvpn_docker.Artifact.Attempts.{
  IsPrepared, targets, AreRecovery, attempts-Kept, IsPrepared-Open,
}

abbrev pub IsOk : {A : Type 0} → Result StoreError A → Type 0
IsOk (ok a) = Unit
IsOk (err e) = ⊥

pub ok-Post :
    (Q : World → Type 0) (X : World → Type 0) (r : Result StoreError (Unit {0}) × World)
    → Post (λ _. Q) X r
    → IsOk (r.0)
    → Q (r.1)
ok-Post Q X (ok u, w) q i = q
ok-Post Q X (err e, w) q i = absurd i

pub any :
    {A : Type 0} {P : World → Type 0} {m : Act World StoreError A}
    → Ensures P m (λ _ _. Unit) (λ _. Unit)
any {m} = record { at = λ s p. anything (m s) }
  where
    anything : {A : Type 0} (r : Result StoreError A × World) → Post (λ _ _. Unit) (λ _. Unit) r
    anything (ok a, w) = tt
    anything (err e, w) = tt

abbrev pub IsGone : World → Type 0
IsGone w = w.present ≡ false

module _ (digest : List ℕ → String) where
  pub Gone_tick : Ensures IsGone tick (λ _. IsGone) (λ _. Unit)
  Gone_tick = tick-Ensures IsGone (λ _. Unit) (λ w b fs g h. g) (λ w fs g h. tt)

  pub cleanup-IsGone : {P : World → Type 0} → Ensures P (cleanup digest) (λ _. IsGone) (λ _. Unit)
  unfolding cleanup
  cleanup-IsGone =
      Ensures-seq (λ _. Unit) any (Ensures-seq IsGone (Ensures-modify _ _ (λ w _. refl)) Gone_tick)

  rollback_open-IsGone :
      {P : World → Type 0} → Ensures P (rollback_open digest) (λ _. IsGone) (λ _. Unit)
  unfolding rollback_open
  rollback_open-IsGone = Ensures-gets _ (λ es.
      Ensures-seq (λ _. Unit) any
        (Ensures-seq (λ _. Unit) any (Ensures-seq (λ _. Unit) any cleanup-IsGone)))

  rollback_from-IsGone :
      {P : World → Type 0} (s : OperationState)
      → Ensures P (rollback_from digest s) (λ _. IsGone) (λ _. Unit)
  unfolding rollback_from
  rollback_from-IsGone OperationState.rolled_back = cleanup-IsGone
  rollback_from-IsGone OperationState.committed = Ensures-fail _ _ (λ w _. tt)
  rollback_from-IsGone OperationState.prepared = rollback_open-IsGone
  rollback_from-IsGone OperationState.files_installed = rollback_open-IsGone

  pub rollback-IsGone : Ensures (λ _. Unit) (rollback digest) (λ _. IsGone) (λ _. Unit)
  unfolding rollback
  rollback-IsGone = Ensures-gets _ (λ s. rollback_from-IsGone s)

  pub calm :
      (full : IsNonempty digest) (orig : String → Option Node) (es : List Entry) (w : World)
      → Recoverable digest full orig es ⊥ w
      → Recoverable digest full orig es (Unit {0}) (record w { faults = [] })
  calm full orig es w (inl o) = inl (record {
    memory_entries = o.memory_entries;
    saved_entries = o.saved_entries;
    memory_open = o.memory_open;
    saved_open = o.saved_open;
    silent = λ q. refl;
    memory_safe = o.memory_safe;
    saved_safe = o.saved_safe;
  })
  calm full orig es w (inr (r, k)) = inr (
    record { memory_state = r.memory_state; silent = λ q. refl; original = r.original },
    λ p. elim (k p) [
      | inl done ↦ inl done
      | inr h ↦ inr (record {
        saved_entries = h.saved_entries;
        saved_open = h.saved_open;
        saved_safe = h.saved_safe;
      })
    ],
  )

  succeeds :
      (full : IsNonempty digest) (orig : String → Option Node) (es : List Entry)
      (r : Result StoreError (Unit {0}) × World)
      → Post (λ _. Ended digest full orig es (Unit {0})) (Lost digest full orig es (Unit {0})) r
      → IsOk (r.0) × ((j : String) → targets (r.1) j ≡ orig j)
  succeeds full orig es (ok u, w) (h, _) = (tt, h.original)
  succeeds full orig es (err e, w) (_, loud) = absurd (loud tt)

  -- Take an operation that is prepared, and then any calls of Install, Rollback and OpenOperation in
  -- any order, each of which may stop at any system call, in memory or with a crash. A Rollback in which
  -- no system call fails succeeds then: every target is what it was before, and the folder of the
  -- operation is gone. The hexadecimal SHA-256 of a content is assumed not to be the empty text.
  pub rollback_recovers :
      (es : List Entry) (w : World) (tries : List (Attempt × List Bool))
      → IsNonempty digest
      → IsPrepared es w
      → AreRecovery tries
      → let r = rollback digest (record (attempts digest tries w) { faults = [] }) in
        IsOk (r.0) × ((j : String) → targets (r.1) j ≡ targets w j) × (r.1.present ≡ false)
  rollback_recovers es w tries full h recovery =
      let kept =
        attempts-Kept digest full (targets w) es h.distinct tries w recovery
          (inl (IsPrepared-Open digest es ⊥ w (λ q. q) h)) in
      let post =
        (rollback_rule digest full (targets w) es (Unit {0}) h.distinct).at _
          (calm full (targets w) es (attempts digest tries w) kept) in
      let (fine, same) = succeeds full (targets w) es _ post in
      (fine, same, ok-Post IsGone (λ _. Unit) _ (rollback-IsGone.at _ tt) fine)
