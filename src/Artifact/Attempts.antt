-- ===== src/Artifact/Attempts.antt =====
-- Any calls of Install and Rollback on an operation, with any failures and crashes between them.
use openvpn_docker.Domain.Ids.{valid_uuid}
use mathlib.Core.Path.{subst}
use openvpn_docker.Actions.Triples.{
  Ensures, Ensures-relax, Ensures-gets, Ensures-conclude, Ensures-fact, Ensures-seq, Ensures-fail,
  Ensures-weaken, Ensures-if, Post, Ensures-pure, Ensures-modify,
}
use openvpn_docker.Artifact.Found.{IsNonempty}
use openvpn_docker.Prelude.{
  ◌≡◌, refl, sym, inl, inr, Bool, true, Option, none, some, List, [], ◌∷◌, ℕ, String, Option-cases,
  ap, ◌∙◌, Result,
}
use openvpn_docker.Artifact.{
  Node, Entry, World, OperationState, write, no_progress, tick, Manifest, Result, StoreError,
  valid_uuid, ok, str_eq, err,
}
use openvpn_docker.Artifact.Calls.{install, rollback}
use openvpn_docker.Artifact.Safe.{still}
use openvpn_docker.Artifact.Stage.{
  Attempt, committing, attempt, open_operation, attempts, installing, rolling_back, reopening,
}
use openvpn_docker.Artifact.Open.{Open, find_entry, SafeAt, Open-later, tick-Ensures}
use openvpn_docker.Artifact.Install.{install_rule}
use openvpn_docker.Artifact.Keys.{In, HasDistinctKeys}
use openvpn_docker.Artifact.Rollback.{Recoverable, Ended-later, Ended, rollback_rule}
use openvpn_docker.Artifact.Keys.{In-find_entry}

-- What Stage and Remove leave for Install: the manifest on the disk is the one in memory, nothing is
-- done of it, and a file is staged for each entry that writes one.
pub record IsPrepared (es : List Entry) (w : World) : Type 0 where
  pub state : w.memory.state ≡ OperationState.prepared
  pub entries : w.memory.entries ≡ es
  pub saved : w.saved ≡ w.memory
  pub present : w.present ≡ true
  pub untouched : (j : String) → w.memory.progress j ≡ no_progress
  pub no_backup : (j : String) → (w.cell j).backup ≡ none
  pub staged :
      (x : Entry) → In x es → x.action ≡ write → (n : Node) × ((w.cell x.key).staged ≡ some n)
  pub distinct : HasDistinctKeys es

abbrev pub targets : World → String → Option Node
targets w j = (w.cell j).target

abbrev pub IsRecovery : Attempt → Type 0
IsRecovery committing = ⊥
IsRecovery _ = Unit

abbrev pub AreRecovery : List (Attempt × List Bool) → Type 0
AreRecovery [] = Unit
AreRecovery ((a, fs) ∷ rest) = IsRecovery a × AreRecovery rest

module _ (digest : List ℕ → String) where
  IsPrepared-SafeAt :
      (es : List Entry) (w : World) (j : String)
      → IsPrepared es w
      → SafeAt digest (targets w) (find_entry j es) (targets w j) (w.memory.progress j) (w.cell j)
  unfolding SafeAt
  IsPrepared-SafeAt es w j h = elim (Option-cases (find_entry j es)) [
    | inl absent ↦ rw absent refl
    | inr (e, there) ↦
        let (i, q) = In-find_entry j es e there in
        rw (there, h.untouched j)
          (still (h.no_backup j) refl (λ had. absurd (cc))
            (λ _ writes. let (n, s) = h.staged e i writes in (n, refl, rw (sym q) s)))
  ]

  pub IsPrepared-Open :
      (es : List Entry) (quiet : Type 0) (w : World)
      → (quiet → ⊥)
      → IsPrepared es w
      → Open digest (targets w) es quiet w
  IsPrepared-Open es quiet w loud h = record {
    memory_entries = h.entries;
    saved_entries = rw h.saved h.entries;
    memory_open = rw h.state tt;
    saved_open = rw (h.saved, h.state) tt;
    silent = λ q. absurd (loud q);
    memory_safe = λ j. IsPrepared-SafeAt es w j h;
    saved_safe = λ j. rw h.saved (IsPrepared-SafeAt es w j h);
  }

module _ (digest : List ℕ → String) (full : IsNonempty digest) (orig : String → Option Node)
    (es : List Entry) (distinct : HasDistinctKeys es) where
  -- Calls may fail.
  abbrev Kept : World → Type 0
  Kept = Recoverable digest full orig es ⊥

  Kept-later :
      (w : World) (b : Bool) (fs : List Bool)
      → Kept w
      → w.faults ≡ b ∷ fs
      → Kept (record w { faults = fs })
  Kept-later w b fs (inl o) h = inl (Open-later digest orig es ⊥ w b fs o h)
  Kept-later w b fs (inr e) h = inr (Ended-later digest full orig es ⊥ w b fs e h)

  pub refused : Ensures (Ended digest full orig es ⊥) (install digest) (λ _ _. ⊥) Kept
  unfolding install
  refused = Ensures-gets _ (λ m.
      Ensures-fact {F = m.state ≡ OperationState.rolled_back}
        (λ w ((r, _), same). sym (ap (λ (x : Manifest). x.state) same) ∙ r.memory_state)
        (λ ended.
          Ensures-seq (λ _. ⊥) (rw ended (Ensures-fail _ _ (λ w (e, _). inr e)))
            (record { at = λ w none_here. absurd none_here })))

  install-Kept : Ensures Kept (install digest) (λ _. Kept) Kept
  install-Kept = record {
    at = λ w k. elim k [
      | inl o ↦
          (Ensures-relax (λ v (h, _). inl h)
              (Ensures-conclude (install_rule digest orig es ⊥ (λ q. q) distinct)
                (λ _ v ((h, _, _), _). inl h))).at
            w o
      | inr e ↦ (Ensures-conclude refused (λ _ v none_here. absurd none_here)).at w e
    ];
  }

  rollback-Kept : Ensures Kept (rollback digest) (λ _. Kept) Kept
  rollback-Kept =
      Ensures-relax (λ w (k, _). k)
        (Ensures-conclude (rollback_rule digest full orig es ⊥ distinct) (λ _ w e. inr e))

  abbrev There : World → Type 0
  There w = Kept w × (w.present ≡ true)

  There-tick : Ensures There tick (λ _. There) Kept
  There-tick =
      tick-Ensures There Kept (λ w b fs (k, p) h. (Kept-later w b fs k h, p))
        (λ w fs (k, p) h. Kept-later w true fs k h)

  Kept-reopened : (w : World) → There w → Kept (record w { memory = w.saved })
  Kept-reopened w (inl o, p) = inl (record {
    memory_entries = o.saved_entries;
    saved_entries = o.saved_entries;
    memory_open = o.saved_open;
    saved_open = o.saved_open;
    silent = λ q. absurd q;
    memory_safe = o.saved_safe;
    saved_safe = o.saved_safe;
  })
  Kept-reopened w (inr (r, k), p) = elim (k p) [
    | inl done ↦ inr (
      record { memory_state = done; silent = λ q. absurd q; original = r.original },
      λ _. inl done,
    )
    | inr o ↦ inl (record {
      memory_entries = o.saved_entries;
      saved_entries = o.saved_entries;
      memory_open = o.saved_open;
      saved_open = o.saved_open;
      silent = λ q. absurd q;
      memory_safe = o.saved_safe;
      saved_safe = o.saved_safe;
    })
  ]

  no_run :
      {A : Type 0} {m : World → Result StoreError A × World} {Q : A → World → Type 0}
      → Ensures (λ _. ⊥) m Q Kept
  no_run = record { at = λ w none_here. absurd none_here }

  open_operation-Kept : (id : String) → Ensures Kept (open_operation id) (λ _. Kept) Kept
  unfolding open_operation
  open_operation-Kept id =
      Ensures-seq Kept
        (Ensures-if (valid_uuid id) (λ _. Ensures-pure tt _ (λ w k. k))
          (λ _. Ensures-fail _ _ (λ w k. k)))
        (Ensures-seq Kept (tick-Ensures Kept Kept Kept-later (λ w fs k h. Kept-later w true fs k h))
          (Ensures-gets _ (λ present.
            Ensures-seq There
              (Ensures-if present (λ yes. Ensures-pure tt _ (λ w (k, same). (k, same ∙ yes)))
                (λ _. Ensures-fail _ _ (λ w (k, _). k)))
              (Ensures-seq There There-tick (
                Ensures-gets _ (λ saved.
                  Ensures-seq (λ w. There w × (w.saved ≡ saved))
                    (Ensures-if (str_eq saved.id id) (λ _. Ensures-pure tt _ (λ w k. k))
                      (λ _. Ensures-fail _ _ (λ w ((k, _), _). k)))
                    (Ensures-modify _ _ (λ w (there, same).
                      subst (λ m. Kept (record w { memory = m })) same
                        (Kept-reopened w there)))))))))

  attempt-Kept : (a : Attempt) → IsRecovery a → Ensures Kept (attempt digest a) (λ _. Kept) Kept
  unfolding attempt
  attempt-Kept installing r = install-Kept
  attempt-Kept rolling_back r = rollback-Kept
  attempt-Kept committing r = absurd r
  attempt-Kept reopening r =
      Ensures-gets _ (λ m. Ensures-weaken (λ w (k, _). k) (open_operation-Kept m.id))

  pub Kept-faults : (w : World) (fs : List Bool) → Kept w → Kept (record w { faults = fs })
  Kept-faults w fs (inl o) = inl (record {
    memory_entries = o.memory_entries;
    saved_entries = o.saved_entries;
    memory_open = o.memory_open;
    saved_open = o.saved_open;
    silent = λ q. absurd q;
    memory_safe = o.memory_safe;
    saved_safe = o.saved_safe;
  })
  Kept-faults w fs (inr (r, k)) = inr (
    record { memory_state = r.memory_state; silent = λ q. absurd q; original = r.original },
    λ p. elim (k p) [
      | inl done ↦ inl done
      | inr h ↦ inr (record {
        saved_entries = h.saved_entries;
        saved_open = h.saved_open;
        saved_safe = h.saved_safe;
      })
    ],
  )

  either : (r : Result StoreError (Unit {0}) × World) → Post (λ _. Kept) Kept r → Kept (r.1)
  either (ok u, w) k = k
  either (err e, w) k = k

  pub attempts-Kept :
      (tries : List (Attempt × List Bool)) (w : World)
      → AreRecovery tries
      → Kept w
      → Kept (attempts digest tries w)
  unfolding attempts
  attempts-Kept [] w r k = k
  attempts-Kept ((a, fs) ∷ rest) w (r, rs) k = attempts-Kept rest _ rs (
      either (attempt digest a (record w { faults = fs }))
        ((attempt-Kept a r).at _ (Kept-faults w fs k)))
