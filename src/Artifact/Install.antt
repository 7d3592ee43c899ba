-- ===== src/Artifact/Install.antt =====
-- Install: wherever it stops, the operation can be rolled back; and where it succeeds, every entry is
-- installed.
use openvpn_docker.Artifact.Keys.{In, HasDistinctKeys, find_entry-In, str_eq_sym}
use openvpn_docker.Actions.{◌>>◌}
use openvpn_docker.Prelude.{
  ◌≡◌, refl, ap, inl, inr, false, Option, none, some, List, [], ◌∷◌, ℕ, String, ok, str_eq, eq_iff,
  arith, sym, ◌∙◌, ==_iff,
}
use mathlib.Core.Path.{subst, sym}
use openvpn_docker.Actions.Triples.{
  Ensures, Ensures-pure, Ensures-seq, Ensures-weaken, Ensures-gets, Ensures-conclude,
  Ensures-return, Ensures-fact, Ensures-modify, Ensures-if, Ensures-fail,
}
use openvpn_docker.Artifact.{
  Node, regular, File, Cell, Entry, Action, write, delete, World, tick, special, OperationState,
  save_manifest, modify, set_state, Manifest,
}
use openvpn_docker.Artifact.Calls.{
  digest_file, verify_staged, verify_write, verify_entry, verify_entries, preflight_target,
  install_entry, install_entries, install, is_prepared,
}
use openvpn_docker.Artifact.Safe.{IsReady}
use openvpn_docker.Artifact.Holding.{Open-Holding, Holding-Open}
use openvpn_docker.Artifact.Open.{Open, Failed, find_entry, tick-Open, SafeAt}
use openvpn_docker.Artifact.Entries.{IsDone, install_entry_rule}

module _ (digest : List ℕ → String) where
  -- Each of the entries is ready, or done.
  abbrev pub AreReady : List Entry → (String → Cell) → Type 0
  AreReady es cell = (x : Entry) → In x es → IsReady digest x (cell x.key)

  abbrev pub AreDone : List Entry → (String → Cell) → Type 0
  AreDone es cell = (x : Entry) → In x es → IsDone digest x.action x (cell x.key)

  verify_staged-ok :
      (e : Entry) (staged : Option Node) {u : Unit {0}}
      → verify_staged digest e staged ≡ ok u
      → (g : File) × (staged ≡ some (regular g))
        × (digest_file digest staged ≡ ok e.digest)
        × (g.mode ≡ e.mode)
  unfolding verify_staged digest_file
  verify_staged-ok e none h = absurd (cc)
  verify_staged-ok e (some special) h = absurd (cc)
  verify_staged-ok e (some (regular g)) h = (
    g,
    refl,
    ground (arith, eq_iff (digest g.content) e.digest),
    ground (arith, ==_iff g.mode e.mode, eq_iff (digest g.content) e.digest),
  )

  verify_write-IsReady :
      (e : Entry) (action : Action) (c : Cell) {u : Unit {0}}
      → e.action ≡ action
      → verify_write digest action e c.staged ≡ ok u
      → IsReady digest e c
  verify_write-IsReady e write c a h _ = verify_staged-ok e c.staged h
  verify_write-IsReady e delete c a h writes = absurd (cc)

  module _ (orig : String → Option Node) (es : List Entry) (quiet : Type 0) (loud : quiet → ⊥) where
    abbrev Lost : World → Type 0
    Lost = Failed digest orig es quiet

    -- The operation can be rolled back, and its files satisfy `R`.
    abbrev pub OpenWith : ((String → Cell) → Type 0) → World → Type 0
    OpenWith R w = Open digest orig es quiet w × R w.cell

    ticks : (R : (String → Cell) → Type 0) → Ensures (OpenWith R) tick (λ _. OpenWith R) Lost
    ticks R = tick-Open digest orig es quiet (λ w. R w.cell) (λ w fs r. r)

    verify_entry_rule :
        (seen : List Entry) (e : Entry)
        → Ensures
            (OpenWith (AreReady seen))
            (verify_entry digest e)
            (λ _. OpenWith (AreReady (e ∷ seen)))
            Lost
    unfolding verify_entry
    verify_entry_rule seen e = Ensures-seq (OpenWith (AreReady seen)) (ticks (AreReady seen)) (
        Ensures-gets _ (λ c.
          let R = λ (cell : String → Cell). AreReady seen cell × (cell e.key ≡ c) in
          let V = λ (cell : String → Cell). R cell × IsReady digest e c in
          Ensures-weaken {P = OpenWith R} (λ w ((o, r), same). (o, (r, same)))
            (Ensures-seq (OpenWith V)
              (Ensures-return (verify_write digest e.action e c.staged)
                (λ _ h w (o, r). (o, (r, verify_write-IsReady e e.action c refl h)))
                (λ w (o, r). (o, loud)))
              (Ensures-seq (OpenWith V) (ticks V) (
                Ensures-return (preflight_target digest c.target)
                  (λ _ _ w (o, ((r, same), ready)).
                    (o, λ x i. elim i [ inl p ↦ rw p (rw same ready) | inr i' ↦ r x i' ]))
                  (λ w (o, r). (o, loud)))))))

    verify_entries_rule :
        (seen rest : List Entry)
        → Ensures
            (OpenWith (AreReady seen))
            (verify_entries digest rest)
            (λ _ w. Open digest orig es quiet w × AreReady seen w.cell × AreReady rest w.cell)
            Lost
    unfolding verify_entries
    verify_entries_rule seen [] = Ensures-pure _ _ (λ w (o, r). (o, r, λ x i. elim i [ ]))
    verify_entries_rule seen (e ∷ rest) =
        Ensures-seq (OpenWith (AreReady (e ∷ seen))) (verify_entry_rule seen e) (
          Ensures-conclude (verify_entries_rule (e ∷ seen) rest) (λ _ w (o, r, s).
            (o, (λ x i. r x (inr i)), (λ x i. elim i [ inl p ↦ r x (inl p) | inr i' ↦ s x i' ]))))

    -- What the loop keeps at the other keys.
    Others : List Entry → List Entry → String → Cell → Type 0
    Others rest done j c =
        ((x : Entry) → In x rest → x.key ≡ j → IsReady digest x c)
        × ((x : Entry) → In x done → x.key ≡ j → IsDone digest x.action x c)

    abbrev Progressed : List Entry → List Entry → World → Type 0
    Progressed rest done w =
        Open digest orig es quiet w × AreReady rest w.cell × AreDone done w.cell

    entry_rule :
        (e : Entry) (rest done : List Entry)
        → find_entry e.key es ≡ some e
        → ((x : Entry) → In x rest → str_eq e.key x.key ≡ false)
        → ((x : Entry) → In x done → str_eq e.key x.key ≡ false)
        → Ensures
            (Progressed (e ∷ rest) done)
            (install_entry digest e)
            (λ _. Progressed rest (e ∷ done))
            Lost
    unfolding Others SafeAt
    entry_rule e rest done found new old =
        Ensures-weaken
          (λ w (o, r, d).
            Open-Holding digest orig es quiet e.key (Others rest done) _ w o
              (λ j other. (
                (λ x i p. subst (λ k. IsReady digest x (w.cell k)) p (r x (inr i))),
                (λ x i p. subst (λ k. IsDone digest x.action x (w.cell k)) p (d x i)),
              ))
              (
                subst
                    (λ f.
                      SafeAt digest orig f (orig e.key) (w.memory.progress e.key) (w.cell e.key))
                    found (o.memory_safe e.key),
                subst
                    (λ f. SafeAt digest orig f (orig e.key) (w.saved.progress e.key) (w.cell e.key))
                    found (o.saved_safe e.key),
                r e (inl refl),
              ))
          (Ensures-conclude
            (install_entry_rule digest orig es quiet loud (Others rest done) e found)
            (λ _ w h.
              let (s, t, n, d) = h.here in
              (
                Holding-Open digest orig es quiet e.key (Others rest done) _
                    (λ p q c (s', t', _, _). rw found (s', t')) w h,
                (λ x i. (h.frame x.key (new x i)).0 x i refl),
                (λ x i. elim i [
                  | inl p ↦ rw p d
                  | inr i' ↦ (h.frame x.key (old x i')).1 x i' refl
                ]),
              )))

    install_entries_rule :
        (rest done : List Entry)
        → HasDistinctKeys rest
        → ((x : Entry) → In x rest → find_entry x.key es ≡ some x)
        → ((x y : Entry) → In x rest → In y done → str_eq x.key y.key ≡ false)
        → Ensures
            (Progressed rest done)
            (install_entries digest rest)
            (λ _ w. Open digest orig es quiet w × AreDone rest w.cell × AreDone done w.cell)
            Lost
    unfolding install_entries
    install_entries_rule [] done d f a =
        Ensures-pure _ _ (λ w (o, r, s). (o, (λ x i. elim i [ ]), s))
    install_entries_rule (e ∷ rest) done (new, d) f apart =
        Ensures-seq (Progressed rest (e ∷ done))
          (entry_rule e rest done (f e (inl refl)) new (λ x i. apart e x (inl refl) i))
          (Ensures-conclude
            (install_entries_rule rest (e ∷ done) d (λ x i. f x (inr i))
              (λ x y i j. elim j [
                | inl p ↦ str_eq_sym e.key x.key y.key (ap (λ (z : Entry). z.key) p) (new x i)
                | inr j' ↦ apart x y (inr i) j'
              ]))
            (λ _ w (o, r, s).
              (o, (λ x i. elim i [ inl p ↦ s x (inl p) | inr i' ↦ r x i' ]), (λ x i. s x (inr i)))))

    abbrev Installing : World → Type 0
    Installing w =
        Open digest orig es quiet w
        × AreDone es w.cell
        × (w.memory.state ≡ OperationState.files_installed)

    abbrev pub Installed : World → Type 0
    Installed w = Installing w × (w.saved.state ≡ OperationState.files_installed)

    finish_rule :
        Ensures
          (λ w. Open digest orig es quiet w × AreDone es w.cell)
          (modify (set_state OperationState.files_installed) >> (save_manifest >> tick))
          (λ _. Installed)
          Lost
    unfolding save_manifest
    finish_rule =
        Ensures-seq Installing
          (Ensures-modify _ _ (λ w (o, d). (
            record {
              memory_entries = o.memory_entries;
              saved_entries = o.saved_entries;
              memory_open = tt;
              saved_open = o.saved_open;
              silent = o.silent;
              memory_safe = o.memory_safe;
              saved_safe = o.saved_safe;
            },
            d,
            refl,
          )))
          (Ensures-seq Installed
            (Ensures-seq Installing Installing-tick (
              Ensures-seq Installed
                (Ensures-modify _ _ (λ w (o, d, s). (
                  (
                    record {
                      memory_entries = o.memory_entries;
                      saved_entries = o.memory_entries;
                      memory_open = o.memory_open;
                      saved_open = o.memory_open;
                      silent = o.silent;
                      memory_safe = o.memory_safe;
                      saved_safe = o.memory_safe;
                    },
                    d,
                    s,
                  ),
                  s,
                )))
                Installed-tick))
            Installed-tick)
      where
        Installing-tick : Ensures Installing tick (λ _. Installing) Lost
        Installing-tick =
            Ensures-weaken
              {P = λ w.
                Open digest orig es quiet w
                × (AreDone es w.cell × (w.memory.state ≡ OperationState.files_installed))}
              (λ w (o, d, s). (o, (d, s)))
              (Ensures-conclude
                (tick-Open digest orig es quiet
                  (λ w. AreDone es w.cell × (w.memory.state ≡ OperationState.files_installed))
                  (λ w fs r. r))
                (λ _ w (o, (d, s)). (o, d, s)))

        Installed-tick : Ensures Installed tick (λ _. Installed) Lost
        Installed-tick =
            Ensures-weaken
              {P = λ w.
                Open digest orig es quiet w
                × (AreDone es w.cell
                    × (w.memory.state ≡ OperationState.files_installed)
                    × (w.saved.state ≡ OperationState.files_installed))}
              (λ w ((o, d, s), t). (o, (d, s, t)))
              (Ensures-conclude
                (tick-Open digest orig es quiet
                  (λ w.
                    AreDone es w.cell
                    × (w.memory.state ≡ OperationState.files_installed)
                    × (w.saved.state ≡ OperationState.files_installed))
                  (λ w fs r. r))
                (λ _ w (o, (d, s, t)). ((o, d, s), t)))

    -- Install from an operation that can be rolled back: if it succeeds, every entry is installed, and
    -- either way the operation can be rolled back.
    pub install_rule :
        HasDistinctKeys es
        → Ensures (Open digest orig es quiet) (install digest) (λ _. Installed) Lost
    unfolding install
    install_rule d = Ensures-gets _ (λ m.
        Ensures-fact {F = m.entries ≡ es}
          (λ w (o, same). sym (ap (λ (x : Manifest). x.entries) same) ∙ o.memory_entries)
          (λ listed.
            Ensures-seq (OpenWith (λ c. Unit))
              (Ensures-if (is_prepared digest m.state)
                (λ _. Ensures-pure tt _ (λ w (o, _). (o, tt)))
                (λ _. Ensures-fail _ _ (λ w (o, _). (o, loud))))
              (Ensures-seq (Progressed es [])
                (subst
                  (λ l.
                    Ensures (OpenWith (λ c. Unit)) (verify_entries digest l) (λ _. Progressed es [])
                      Lost)
                  (sym listed)
                  (Ensures-weaken {P = OpenWith (AreReady [])} (λ w (o, _). (o, λ x i. elim i [ ]))
                    (Ensures-conclude (verify_entries_rule [] es)
                      (λ _ w (o, r, s). (o, s, λ x i. elim i [ ])))))
                (Ensures-seq (λ w. Open digest orig es quiet w × AreDone es w.cell)
                  (subst
                    (λ l.
                      Ensures (Progressed es []) (install_entries digest l)
                        (λ _ w. Open digest orig es quiet w × AreDone es w.cell) Lost)
                    (sym listed)
                    (Ensures-conclude
                      (install_entries_rule es [] d (find_entry-In es d) (λ x y i j. elim j [ ]))
                      (λ _ w (o, r, s). (o, r))))
                  finish_rule))))
