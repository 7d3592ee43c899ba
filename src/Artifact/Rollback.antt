-- ===== src/Artifact/Rollback.antt =====
-- Rollback of an operation, whatever was done of Install or of an earlier Rollback, and by the manifest
-- in memory or by the saved one.
use openvpn_docker.Artifact.Keys.{In-find_entry}
use mathlib.Core.Path.{subst}
use openvpn_docker.Prelude.{
  ◌≡◌, refl, sym, ap, ◌∙◌, ◌⊎◌, inl, inr, Bool, true, Option, some, List, [], ◌∷◌, ℕ, String,
  str_eq, eq_iff, Bool-cases, Option-cases, ◌≢◌,
}
use openvpn_docker.Actions.Triples.{
  Ensures, Ensures-pure, Ensures-seq, Ensures-weaken, Ensures-relax, Ensures-fact, Ensures-gets,
  Ensures-modify, Ensures-conclude,
}
use openvpn_docker.Artifact.{Node, Cell, Entry, World, OperationState, tick, save_manifest}
use openvpn_docker.Artifact.Calls.{
  rollback_entry, rollback_entries, rollback_open, rollback_from, rollback, cleanup,
}
use openvpn_docker.Artifact.Holding.{Open-Holding, Holding-Open}
use openvpn_docker.Artifact.Open.{Open, Failed, IsOpen, find_entry, tick-Ensures, SafeAt}
use openvpn_docker.Artifact.Keys.{In, HasDistinctKeys, find_entry-In}
use openvpn_docker.Artifact.Undo.{rollback_entry_rule}
use openvpn_docker.Artifact.Found.{IsNonempty}

committed_open : OperationState.committed ≡ OperationState.rolled_back → ⊥
committed_open h = cc

module _ (digest : List ℕ → String) (full : IsNonempty digest) (orig : String → Option Node)
    (es : List Entry) (quiet : Type 0) where
  abbrev pub AllOriginal : World → Type 0
  AllOriginal w = (j : String) → (w.cell j).target ≡ orig j

  -- The operation is rolled back, in memory at least.
  pub record Restored (w : World) : Type 0 where
    pub memory_state : w.memory.state ≡ OperationState.rolled_back
    pub silent : quiet → w.faults ≡ []
    pub original : AllOriginal w

  -- The saved manifest still allows a rollback, or says that it is done.
  pub record StillOpen (w : World) : Type 0 where
    pub saved_entries : w.saved.entries ≡ es
    pub saved_open : IsOpen w.saved.state
    pub saved_safe :
        (j : String) → SafeAt digest orig (find_entry j es) (orig j) (w.saved.progress j) (w.cell j)

  abbrev pub SavedOk : World → Type 0
  SavedOk w = w.present ≡ true → (w.saved.state ≡ OperationState.rolled_back) ⊎ StillOpen w

  abbrev pub Recoverable : World → Type 0
  Recoverable w = Open digest orig es quiet w ⊎ (Restored w × SavedOk w)

  abbrev pub Lost : World → Type 0
  Lost w = Recoverable w × (quiet → ⊥)

  abbrev OpenLost : World → Type 0
  OpenLost = Failed digest orig es quiet

  -- The targets at some keys are the originals.
  abbrev Reached : (String → Type 0) → World → Type 0
  Reached S w = Open digest orig es quiet w × ((j : String) → S j → (w.cell j).target ≡ orig j)

  Frame : (String → Type 0) → String → Cell → Type 0
  Frame S j c = S j → c.target ≡ orig j

  entry_rule :
      (S : String → Type 0) (e : Entry)
      → find_entry e.key es ≡ some e
      → Ensures
          (Reached S)
          (rollback_entry digest e)
          (λ _. Reached (λ j. S j ⊎ (e.key ≡ j)))
          OpenLost
  unfolding Frame SafeAt
  entry_rule S e found =
      Ensures-weaken
        (λ w (o, r).
          Open-Holding digest orig es quiet e.key (Frame S) _ w o (λ j _. r j)
            (
              subst
                  (λ f. SafeAt digest orig f (orig e.key) (w.memory.progress e.key) (w.cell e.key))
                  found (o.memory_safe e.key),
              subst (λ f. SafeAt digest orig f (orig e.key) (w.saved.progress e.key) (w.cell e.key))
                  found (o.saved_safe e.key),
            ))
        (Ensures-conclude (rollback_entry_rule digest full orig es quiet (Frame S) e found)
          (λ _ w h. (
            Holding-Open digest orig es quiet e.key (Frame S) _ (λ p q c (s, _). rw found s) w h,
            λ j. elim (Bool-cases (str_eq e.key j)) [
              | inl p ↦ λ _. subst (λ k. (w.cell k).target ≡ orig k) ((eq_iff e.key j).0 p) h.here.1
              | inr p ↦ λ s. elim s [
                | inl t ↦ h.frame j p t
                | inr q ↦ subst (λ k. (w.cell k).target ≡ orig k) q h.here.1
              ]
            ],
          )))

  abbrev Listed : List Entry → String → Type 0
  Listed rest j = (x : Entry) × In x rest × (x.key ≡ j)

  entries_rule :
      (rest : List Entry)
      → ((x : Entry) → In x rest → find_entry x.key es ≡ some x)
      → Ensures
          (Open digest orig es quiet)
          (rollback_entries digest rest)
          (λ _. Reached (Listed rest))
          OpenLost
  unfolding rollback_entries
  entries_rule [] f = Ensures-pure tt _ (λ w o. (o, λ j (x, i, _). elim i [ ]))
  entries_rule (e ∷ rest) f =
      Ensures-seq (Reached (Listed rest)) (entries_rule rest (λ x i. f x (inr i))) (
        Ensures-conclude (entry_rule (Listed rest) e (f e (inl refl))) (λ _ w (o, r). (
          o,
          λ j (x, i, q). elim i [
            | inl p ↦ r j (inr (ap (λ (y : Entry). y.key) (sym p) ∙ q))
            | inr i' ↦ r j (inl (x, i', q))
          ],
        )))

  Reached-AllOriginal : (w : World) → Reached (Listed es) w → AllOriginal w
  unfolding SafeAt
  Reached-AllOriginal w (o, r) j = elim (Option-cases (find_entry j es)) [
    | inl absent ↦
        subst (λ f. SafeAt digest orig f (orig j) (w.memory.progress j) (w.cell j)) absent
          (o.memory_safe j)
    | inr (e, there) ↦ let (i, q) = In-find_entry j es e there in r j (e, i, q)
  ]

  abbrev pub Ended : World → Type 0
  Ended w = Restored w × SavedOk w

  pub Ended-later :
      (w : World) (b : Bool) (fs : List Bool)
      → Ended w
      → w.faults ≡ b ∷ fs
      → Ended (record w { faults = fs })
  Ended-later w b fs (r, s) e = (
    record {
      memory_state = r.memory_state;
      silent = λ q. let none_left = r.silent q in absurd (cc);
      original = r.original;
    },
    λ p. elim (s p) [
      | inl done ↦ inl done
      | inr h ↦ inr (record {
        saved_entries = h.saved_entries;
        saved_open = h.saved_open;
        saved_safe = h.saved_safe;
      })
    ],
  )

  Ended-tick : Ensures Ended tick (λ _. Ended) Lost
  Ended-tick = tick-Ensures Ended Lost Ended-later (λ w fs (r, s) e.
      (inr (Ended-later w true fs (r, s) e), λ q. let none_left = r.silent q in cc))

  cleanup_rule : Ensures Ended (cleanup digest) (λ _. Ended) Lost
  unfolding cleanup
  cleanup_rule = Ensures-seq Ended Ended-tick (
      Ensures-seq Ended
        (Ensures-modify _ _ (λ w (r, s). (
          record { memory_state = r.memory_state; silent = r.silent; original = r.original },
          λ gone. absurd (cc),
        )))
        Ended-tick)

  save_manifest-Ended : Ensures Ended save_manifest (λ _. Ended) Lost
  unfolding save_manifest
  save_manifest-Ended = Ensures-seq Ended Ended-tick (
      Ensures-seq Ended
        (Ensures-modify _ _ (λ w (r, s). (
          record { memory_state = r.memory_state; silent = r.silent; original = r.original },
          λ _. inl r.memory_state,
        )))
        Ended-tick)

  rollback_open_rule :
      HasDistinctKeys es
      → Ensures (Open digest orig es quiet) (rollback_open digest) (λ _. Ended) Lost
  unfolding rollback_open
  rollback_open_rule d = Ensures-gets _ (λ listed.
      Ensures-fact {F = listed ≡ es} (λ w (o, same). sym same ∙ o.memory_entries)
        (λ same.
          Ensures-seq (Reached (Listed es))
            (Ensures-weaken {P = Open digest orig es quiet} (λ w (o, _). o)
              (Ensures-relax (λ w (o, loud). (inl o, loud))
                (subst
                  (λ l.
                    Ensures (Open digest orig es quiet) (rollback_entries digest l)
                      (λ _. Reached (Listed es)) OpenLost)
                  (sym same) (entries_rule es (find_entry-In es d)))))
            (Ensures-seq Ended
              (Ensures-modify _ _ (λ w (o, r). (
                record {
                  memory_state = refl;
                  silent = o.silent;
                  original = Reached-AllOriginal w (o, r);
                },
                λ _. inr (record {
                  saved_entries = o.saved_entries;
                  saved_open = o.saved_open;
                  saved_safe = o.saved_safe;
                }),
              )))
              (Ensures-seq Ended save_manifest-Ended cleanup_rule))))

  -- What the state of the manifest in memory says.
  Open-or_Ended :
      (w : World) (s : OperationState)
      → Recoverable w
      → w.memory.state ≡ s
      → (Open digest orig es quiet w × IsOpen s) ⊎ (Ended w × (s ≡ OperationState.rolled_back))
  Open-or_Ended w s (inl o) e = inl (o, subst IsOpen e o.memory_open)
  Open-or_Ended w s (inr (r, k)) e = inr ((r, k), sym e ∙ r.memory_state)

  while_open :
      (s : OperationState)
      → s ≢ OperationState.rolled_back
      → HasDistinctKeys es
      → Ensures (λ w. Recoverable w × (w.memory.state ≡ s)) (rollback_open digest) (λ _. Ended) Lost
  while_open s other d =
      Ensures-weaken
        (λ w (r, e). elim (Open-or_Ended w s r e) [
          | inl (o, _) ↦ o
          | inr (_, ended) ↦ absurd (other ended)
        ])
        (rollback_open_rule d)

  from_rule :
      (s : OperationState)
      → HasDistinctKeys es
      → Ensures
          (λ w. Recoverable w × (w.memory.state ≡ s))
          (rollback_from digest s)
          (λ _. Ended)
          Lost
  unfolding rollback_from
  from_rule OperationState.rolled_back d =
      Ensures-weaken
        (λ w (r, e). elim (Open-or_Ended w _ r e) [
          | inl (_, shut) ↦ absurd shut
          | inr (ended, _) ↦ ended
        ])
        cleanup_rule
  from_rule OperationState.committed d =
      Ensures-fact
        (λ w (r, e). elim (Open-or_Ended w _ r e) [
          | inl (_, shut) ↦ shut
          | inr (_, ended) ↦ committed_open ended
        ])
        (λ bad. absurd bad)
  from_rule OperationState.prepared d = while_open OperationState.prepared (λ h. cc) d
  from_rule OperationState.files_installed d = while_open OperationState.files_installed (λ h. cc) d

  -- A rollback from an operation that can be rolled back: if it succeeds, every target is the original,
  -- and if it fails, the operation can still be rolled back.
  pub rollback_rule : HasDistinctKeys es → Ensures Recoverable (rollback digest) (λ _. Ended) Lost
  unfolding rollback
  rollback_rule d = Ensures-gets _ (λ s. from_rule s d)
