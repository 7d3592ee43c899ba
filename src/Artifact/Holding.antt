-- ===== src/Artifact/Holding.antt =====
-- An open operation while one entry of it is worked on, and a rule for each of its steps. `F` says more
-- of the files at the other keys.
use openvpn_docker.Prelude.{
  ◌≡◌, inl, inr, Bool, true, false, Option, List, [], ◌∷◌, ℕ, String, str_eq, eq_iff, Bool-cases,
}
use openvpn_docker.Actions.{gets, modify, ◌>>=◌}
use openvpn_docker.Actions.Triples.{
  Ensures, Ensures-gets, Ensures-modify, Ensures-seq, Ensures-weaken,
}
use openvpn_docker.Artifact.{
  Node, Cell, Entry, Progress, World, StoreError, Run, tick, set_cell, save_manifest,
}
use openvpn_docker.Artifact.Calls.{change_progress}
use mathlib.Core.Path.{subst}
use openvpn_docker.Artifact.Open.{
  find_entry, IsOpen, put_self, put_other, tick-Ensures, SafeAt, Open, Failed,
}

module _ (digest : List ℕ → String) (orig : String → Option Node) (es : List Entry) (quiet : Type 0)
    (k : String) (F : String → Cell → Type 0) where
  -- The same with one key set apart, of which `L` holds.
  pub record Holding (L : Progress → Progress → Cell → Type 0) (w : World) : Type 0 where
    pub memory_entries : w.memory.entries ≡ es
    pub saved_entries : w.saved.entries ≡ es
    pub memory_open : IsOpen w.memory.state
    pub saved_open : IsOpen w.saved.state
    pub silent : quiet → w.faults ≡ []
    pub memory_safe :
        (j : String)
        → str_eq k j ≡ false
        → SafeAt digest orig (find_entry j es) (orig j) (w.memory.progress j) (w.cell j)
    pub saved_safe :
        (j : String)
        → str_eq k j ≡ false
        → SafeAt digest orig (find_entry j es) (orig j) (w.saved.progress j) (w.cell j)
    pub frame : (j : String) → str_eq k j ≡ false → F j (w.cell j)
    pub here : L (w.memory.progress k) (w.saved.progress k) (w.cell k)

  abbrev pub BothSafe : Progress → Progress → Cell → Type 0
  BothSafe p q c =
      SafeAt digest orig (find_entry k es) (orig k) p c
      × SafeAt digest orig (find_entry k es) (orig k) q c

  abbrev pub IsGood : (Progress → Progress → Cell → Type 0) → Type 0
  IsGood L = (p q : Progress) (c : Cell) → L p q c → BothSafe p q c

  everywhere :
      (P : String → Type 0) → P k → ((j : String) → str_eq k j ≡ false → P j) → (j : String) → P j
  everywhere P here other j = elim (Bool-cases (str_eq k j)) [
    | inl e ↦ subst P ((eq_iff k j).0 e) here
    | inr e ↦ other j e
  ]

  pub Holding-Open :
      (L : Progress → Progress → Cell → Type 0)
      → IsGood L
      → (w : World) → Holding L w
      → Open digest orig es quiet w
  Holding-Open L good w h = record {
    memory_entries = h.memory_entries;
    saved_entries = h.saved_entries;
    memory_open = h.memory_open;
    saved_open = h.saved_open;
    silent = h.silent;
    memory_safe =
        everywhere
          (λ j. SafeAt digest orig (find_entry j es) (orig j) (w.memory.progress j) (w.cell j))
          (good _ _ _ h.here).0 h.memory_safe;
    saved_safe =
        everywhere
          (λ j. SafeAt digest orig (find_entry j es) (orig j) (w.saved.progress j) (w.cell j))
          (good _ _ _ h.here).1 h.saved_safe;
  }

  pub Open-Holding :
      (L : Progress → Progress → Cell → Type 0) (w : World)
      → Open digest orig es quiet w
      → ((j : String) → str_eq k j ≡ false → F j (w.cell j))
      → L (w.memory.progress k) (w.saved.progress k) (w.cell k)
      → Holding L w
  Open-Holding L w h frame here = record {
    memory_entries = h.memory_entries;
    saved_entries = h.saved_entries;
    memory_open = h.memory_open;
    saved_open = h.saved_open;
    silent = h.silent;
    memory_safe = λ j _. h.memory_safe j;
    saved_safe = λ j _. h.saved_safe j;
    frame = frame;
    here = here;
  }

  pub Holding-map :
      (L L' : Progress → Progress → Cell → Type 0)
      → ((p q : Progress) (c : Cell) → L p q c → L' p q c)
      → (w : World) → Holding L w
      → Holding L' w
  Holding-map L L' f w h = record {
    memory_entries = h.memory_entries;
    saved_entries = h.saved_entries;
    memory_open = h.memory_open;
    saved_open = h.saved_open;
    silent = h.silent;
    memory_safe = h.memory_safe;
    saved_safe = h.saved_safe;
    frame = h.frame;
    here = f _ _ _ h.here;
  }

  module _ (L : Progress → Progress → Cell → Type 0) where
    pub Holding-Failed :
        IsGood L → (quiet → ⊥) → (w : World) → Holding L w → Failed digest orig es quiet w
    Holding-Failed good loud w h = (Holding-Open L good w h, loud)

    pub tick_rule :
        IsGood L → Ensures (Holding L) tick (λ _. Holding L) (Failed digest orig es quiet)
    tick_rule good =
        tick-Ensures (Holding L) (Failed digest orig es quiet) (λ w b fs h e. later w b fs h e)
          (λ w fs h e.
            (Holding-Open L good _ (later w true fs h e), λ q. let none_left = h.silent q in cc))
      where
        later :
            (w : World) (b : Bool) (fs : List Bool)
            → Holding L w
            → w.faults ≡ b ∷ fs
            → Holding L (record w { faults = fs })
        later w b fs h e = record {
          memory_entries = h.memory_entries;
          saved_entries = h.saved_entries;
          memory_open = h.memory_open;
          saved_open = h.saved_open;
          silent = λ q. let none_left = h.silent q in absurd (cc);
          memory_safe = h.memory_safe;
          saved_safe = h.saved_safe;
          frame = h.frame;
          here = h.here;
        }

    pub cell_rule :
        {A : Type 0} {f : Cell → Run A} {Q : A → World → Type 0}
        → ((a : Cell)
            → Ensures (Holding (λ p q c. L p q c × (c ≡ a))) (f a) Q (Failed digest orig es quiet))
        → Ensures (Holding L) (gets (λ w. w.cell k) >>= f) Q (Failed digest orig es quiet)
    cell_rule rule =
        Ensures-gets _ (λ a. Ensures-weaken (λ w (h, e). Holding-with w a h e) (rule a))
      where
        Holding-with :
            (w : World) (a : Cell)
            → Holding L w
            → w.cell k ≡ a
            → Holding (λ p q c. L p q c × (c ≡ a)) w
        Holding-with w a h e = record {
          memory_entries = h.memory_entries;
          saved_entries = h.saved_entries;
          memory_open = h.memory_open;
          saved_open = h.saved_open;
          silent = h.silent;
          memory_safe = h.memory_safe;
          saved_safe = h.saved_safe;
          frame = h.frame;
          here = (h.here, e);
        }

    pub progress_rule :
        {A : Type 0} {f : Progress → Run A} {Q : A → World → Type 0}
        → ((a : Progress)
            → Ensures (Holding (λ p q c. L p q c × (p ≡ a))) (f a) Q (Failed digest orig es quiet))
        → Ensures
            (Holding L)
            (gets (λ w. w.memory.progress k) >>= f)
            Q
            (Failed digest orig es quiet)
    progress_rule rule =
        Ensures-gets _ (λ a. Ensures-weaken (λ w (h, e). Holding-with w a h e) (rule a))
      where
        Holding-with :
            (w : World) (a : Progress)
            → Holding L w
            → w.memory.progress k ≡ a
            → Holding (λ p q c. L p q c × (p ≡ a)) w
        Holding-with w a h e = record {
          memory_entries = h.memory_entries;
          saved_entries = h.saved_entries;
          memory_open = h.memory_open;
          saved_open = h.saved_open;
          silent = h.silent;
          memory_safe = h.memory_safe;
          saved_safe = h.saved_safe;
          frame = h.frame;
          here = (h.here, e);
        }

    pub change_progress_rule :
        (L' : Progress → Progress → Cell → Type 0) (f : Progress → Progress)
        → ((p q : Progress) (c : Cell) → L p q c → L' (f p) q c)
        → Ensures
            (Holding L)
            (change_progress digest k f)
            (λ _. Holding L')
            (Failed digest orig es quiet)
    change_progress_rule L' f step = Ensures-modify _ _ (λ w h. record {
      memory_entries = h.memory_entries;
      saved_entries = h.saved_entries;
      memory_open = h.memory_open;
      saved_open = h.saved_open;
      silent = h.silent;
      memory_safe = λ j other.
          rw (put_other k j (f (w.memory.progress k)) w.memory.progress other)
            (h.memory_safe j other);
      saved_safe = h.saved_safe;
      frame = h.frame;
      here = rw (put_self k (f (w.memory.progress k)) w.memory.progress) (step _ _ _ h.here);
    })

    pub set_cell_rule :
        (L' : Progress → Progress → Cell → Type 0) (c' : Cell)
        → ((p q : Progress) (c : Cell) → L p q c → L' p q c')
        → Ensures {E = StoreError}
            (Holding L)
            (modify (set_cell k c'))
            (λ _. Holding L')
            (Failed digest orig es quiet)
    set_cell_rule L' c' step = Ensures-modify _ _ (λ w h. record {
      memory_entries = h.memory_entries;
      saved_entries = h.saved_entries;
      memory_open = h.memory_open;
      saved_open = h.saved_open;
      silent = h.silent;
      memory_safe = λ j other. rw (put_other k j c' w.cell other) (h.memory_safe j other);
      saved_safe = λ j other. rw (put_other k j c' w.cell other) (h.saved_safe j other);
      frame = λ j other. rw (put_other k j c' w.cell other) (h.frame j other);
      here = rw (put_self k c' w.cell) (step _ _ _ h.here);
    })

  pub save_rule :
      (L L' : Progress → Progress → Cell → Type 0)
      → IsGood L
      → IsGood L'
      → ((p q : Progress) (c : Cell) → L p q c → L' p p c)
      → Ensures (Holding L) save_manifest (λ _. Holding L') (Failed digest orig es quiet)
  unfolding save_manifest
  save_rule L L' good good' step = Ensures-seq (Holding L) (tick_rule L good) (
      Ensures-seq (Holding L')
        (Ensures-modify _ _ (λ w h. record {
          memory_entries = h.memory_entries;
          saved_entries = h.memory_entries;
          memory_open = h.memory_open;
          saved_open = h.memory_open;
          silent = h.silent;
          memory_safe = h.memory_safe;
          saved_safe = h.memory_safe;
          frame = h.frame;
          here = step _ _ _ h.here;
        }))
        (tick_rule L' good'))
