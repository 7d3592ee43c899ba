-- ===== src/Artifact/Adding.antt =====
-- Stage and Remove add an entry to an operation that is prepared.
use openvpn_docker.Artifact.Keys.{In-snoc, snoc-HasDistinctKeys}
use openvpn_docker.Prelude.{
  ◌≡◌, refl, inl, inr, Bool, false, Option, none, some, List, [], ◌∷◌, ◌++◌, ℕ, String, sym, ◌∙◌,
  ap, str_eq, Bool-cases, ltb, length, eq_iff, true,
}
use mathlib.Core.Path.{subst}
use openvpn_docker.Actions.{modify, ◌>>◌}
use openvpn_docker.Actions.Triples.{
  Ensures, Ensures-pure, Ensures-fail, Ensures-seq, Ensures-weaken, Ensures-fact, Ensures-gets,
  Ensures-modify, Ensures-if, Ensures-return,
}
use openvpn_docker.Artifact.{
  Node, Cell, Entry, World, File, regular, Manifest, tick, write, save_manifest, set_cell, put,
  max_artifact_size, is_safe_mode, true,
}
use openvpn_docker.Artifact.Calls.{is_prepared, preflight_target}
use openvpn_docker.Artifact.Stage.{
  check_stage, write_staged, is_staged, append_entry, validate_key, stage, remove, delete_entry,
  write_entry,
}
use openvpn_docker.Artifact.Open.{tick-Ensures, put_self}
use openvpn_docker.Artifact.Attempts.{IsPrepared}
use openvpn_docker.Artifact.Commit.{Fixed}

module _ (t : String → Option Node) where
  abbrev pub Ready : List Entry → World → Type 0
  Ready es w = IsPrepared es w × Fixed t w

  Ready-later :
      (es : List Entry) (w : World) (fs : List Bool)
      → Ready es w
      → Ready es (record w { faults = fs })
  Ready-later es w fs (h, f) = (
    record {
      state = h.state;
      entries = h.entries;
      saved = h.saved;
      present = h.present;
      untouched = h.untouched;
      no_backup = h.no_backup;
      staged = h.staged;
      distinct = h.distinct;
    },
    f,
  )

  pub Ready-tick : (es : List Entry) → Ensures (Ready es) tick (λ _. Ready es) (λ _. Unit)
  Ready-tick es =
      tick-Ensures (Ready es) (λ _. Unit) (λ w b fs r h. Ready-later es w fs r) (λ w fs r h. tt)

  -- A new entry is in memory, and the manifest is not saved yet.
  abbrev pub Appended : List Entry → World → Type 0
  Appended es w = Ready es (record w { saved = w.memory })

  pub save_manifest-Ready :
      (es : List Entry) → Ensures (Appended es) save_manifest (λ _. Ready es) (λ _. Unit)
  unfolding save_manifest
  save_manifest-Ready es =
      Ensures-seq (Appended es)
        (tick-Ensures (Appended es) (λ _. Unit)
          (λ w b fs r h. Ready-later es (record w { saved = w.memory }) fs r) (λ w fs r h. tt))
        (Ensures-seq (Ready es) (Ensures-modify _ _ (λ w r. r)) (Ready-tick es))

  abbrev CanWrite : Entry → World → Type 0
  CanWrite e w = e.action ≡ write → (n : Node) × ((w.cell e.key).staged ≡ some n)

  append_entry-Ready :
      (es : List Entry) (e : Entry)
      → is_staged es e.key ≡ false
      → Ensures
          (λ w. Ready es w × CanWrite e w)
          (modify (append_entry e) >> save_manifest)
          (λ _. Ready (es ++ e ∷ []))
          (λ _. Unit)
  append_entry-Ready es e new =
      Ensures-seq (Appended (es ++ e ∷ []))
        (Ensures-modify _ _ (λ w ((h, f), s). (
          record {
            state = h.state;
            entries = ap (λ (l : List Entry). l ++ e ∷ []) h.entries;
            saved = refl;
            present = h.present;
            untouched = h.untouched;
            no_backup = h.no_backup;
            staged = λ x i writes. elim (In-snoc es e x i) [
              | inl j ↦ h.staged x j writes
              | inr p ↦ rw p (s (rw p at writes))
            ];
            distinct = snoc-HasDistinctKeys es e h.distinct new;
          },
          f,
        )))
        (save_manifest-Ready (es ++ e ∷ []))

  module _ (digest : List ℕ → String) (clean : String → String) (es : List Entry)
      (key : String) where
    check_rule :
        (is_allowed : Bool)
        → Ensures
            (Ready es)
            (check_stage digest clean is_allowed key)
            (λ _ w. Ready es w × (is_staged es key ≡ false))
            (λ _. Unit)
    unfolding check_stage
    check_rule is_allowed = Ensures-gets _ (λ m.
        Ensures-fact {F = m.entries ≡ es}
          (λ w ((h, _), same). sym (ap (λ (x : Manifest). x.entries) same) ∙ h.entries)
          (λ listed.
            Ensures-weaken {P = Ready es} (λ w (r, _). r)
              (Ensures-seq (Ready es)
                (Ensures-if (is_prepared digest m.state) (λ _. Ensures-pure tt _ (λ w r. r))
                  (λ _. Ensures-fail _ _ (λ w r. tt)))
                (Ensures-seq (Ready es)
                  (Ensures-if is_allowed (λ _. Ensures-pure tt _ (λ w r. r))
                    (λ _. Ensures-fail _ _ (λ w r. tt)))
                  (Ensures-seq (Ready es)
                    (Ensures-return (validate_key clean key) (λ a _ w r. r) (λ w r. tt))
                    (Ensures-if (is_staged m.entries key) (λ _. Ensures-fail _ _ (λ w r. tt))
                      (λ new. Ensures-pure tt _ (λ w r. (r, rw (← listed) new)))))))))

    write_rule :
        (f : File)
        → Ensures
            (Ready es)
            (write_staged digest clean key f)
            (λ _ w. Ready es w × ((w.cell key).staged ≡ some (regular f)))
            (λ _. Unit)
    unfolding write_staged
    write_rule f = Ensures-seq (Ready es) (Ready-tick es) (
        Ensures-seq (Ready es)
          (Ensures-if (ltb max_artifact_size (length f.content)) (λ _. Ensures-fail _ _ (λ w r. tt))
            (λ _. Ensures-pure tt _ (λ w r. r)))
          (Ensures-seq (Ready es) (Ready-tick es) (
            Ensures-gets _ (λ c.
              Ensures-seq (λ w. Ready es w × ((w.cell key).staged ≡ some (regular f)))
                (Ensures-modify _ _ (λ w (r, same). placed w c r same))
                (tick-Ensures (λ w. Ready es w × ((w.cell key).staged ≡ some (regular f)))
                  (λ _. Unit) (λ w b fs (r, s) h. (Ready-later es w fs r, s)) (λ w fs r h. tt))))))
      where
        -- A fact about each cell that the new copy does not spoil.
        spread :
            (w : World) (c : Cell) (P : String → Cell → Type 0)
            → P key (record c { staged = some (regular f) })
            → ((j : String) → P j (w.cell j))
            → (j : String) → P j (put key (record c { staged = some (regular f) }) w.cell j)
        spread w c P here all j = elim (Bool-cases (str_eq key j)) [
          | inl p ↦
              rw p (
                subst (λ k. P k (record c { staged = some (regular f) })) ((eq_iff key j).0 p) here)
          | inr p ↦ rw p (all j)
        ]

        placed :
            (w : World) (c : Cell)
            → Ready es w
            → w.cell key ≡ c
            → let v = set_cell key (record c { staged = some (regular f) }) w in
              Ready es v × ((v.cell key).staged ≡ some (regular f))
        placed w c (h, fixed) same = (
          (
            record {
              state = h.state;
              entries = h.entries;
              saved = h.saved;
              present = h.present;
              untouched = h.untouched;
              no_backup =
                  spread w c (λ j x. x.backup ≡ none) (rw (← same) (h.no_backup key)) h.no_backup;
              staged = λ x i writes.
                  spread w c (λ j y. (j ≡ x.key) → (n : Node) × (y.staged ≡ some n))
                    (λ _. (regular f, refl)) (λ j q. rw q (h.staged x i writes)) x.key refl;
              distinct = h.distinct;
            },
            spread w c (λ j x. x.target ≡ t j) (rw (← same) (fixed key)) fixed,
          ),
          rw (put_self key (record c { staged = some (regular f) }) w.cell) refl,
        )

    pub stage_rule :
        (f : File)
        → Ensures
            (Ready es)
            (stage digest clean key f)
            (λ _. Ready (es ++ write_entry digest clean key f ∷ []))
            (λ _. Unit)
    unfolding stage
    stage_rule f =
        Ensures-seq (λ w. Ready es w × (is_staged es key ≡ false))
          (check_rule (is_safe_mode f.mode))
          (Ensures-fact {F = is_staged es key ≡ false} (λ w (r, n). n)
            (λ n.
              Ensures-weaken {P = Ready es} (λ w (r, _). r)
                (Ensures-seq (Ready es) (Ready-tick es) (
                  Ensures-seq (λ w. Ready es w × ((w.cell key).staged ≡ some (regular f)))
                    (write_rule f)
                    (Ensures-weaken (λ w (r, s). (r, λ _. (regular f, s)))
                      (append_entry-Ready es (write_entry digest clean key f) n))))))

    pub remove_rule :
        Ensures
          (Ready es)
          (remove digest clean key)
          (λ _. Ready (es ++ delete_entry digest clean key ∷ []))
          (λ _. Unit)
    unfolding remove
    remove_rule =
        Ensures-seq (λ w. Ready es w × (is_staged es key ≡ false)) (check_rule true)
          (Ensures-fact {F = is_staged es key ≡ false} (λ w (r, n). n)
            (λ n.
              Ensures-weaken {P = Ready es} (λ w (r, _). r)
                (Ensures-seq (Ready es) (Ready-tick es) (
                  Ensures-gets _ (λ c.
                    Ensures-weaken {P = Ready es} (λ w (r, _). r)
                      (Ensures-seq (Ready es)
                        (Ensures-return (preflight_target digest c.target) (λ a _ w r. r)
                          (λ w r. tt))
                        (Ensures-weaken (λ w r. (r, λ writes. absurd (cc)))
                          (append_entry-Ready es (delete_entry digest clean key) n))))))))
