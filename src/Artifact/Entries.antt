-- ===== src/Artifact/Entries.antt =====
-- One round of the loop of Install: from an entry that can be rolled back to one that is installed and
-- can be rolled back.
use mathlib.Core.Path.{subst, ap}
use openvpn_docker.Prelude.{◌≡◌, refl, true, Option, none, some, List, ℕ, String, ok, ap}
use openvpn_docker.Actions.{fail}
use openvpn_docker.Actions.Triples.{
  Ensures, Ensures-fail, Ensures-pure, Ensures-seq, Ensures-weaken, Ensures-lift, Ensures-if,
}
use openvpn_docker.Artifact.{
  Node, regular, special, File, Cell, Entry, Action, write, delete, Progress, World, tick,
  is_safe_mode, StoreError,
}
use openvpn_docker.Artifact.Calls.{
  digest_file, backup_original, backup_target, install_entry, install_action, found_original,
  move_to_backup, move_staged,
}
use openvpn_docker.Artifact.Safe.{
  Safe, IsReady, Safe-found_original, Safe-backup, Safe-install, Safe-backup_ready, Safe-installed,
}
use openvpn_docker.Artifact.Holding.{
  Holding, IsGood, Holding-Failed, Holding-map, tick_rule, cell_rule, change_progress_rule,
  set_cell_rule, save_rule,
}
use openvpn_docker.Artifact.Open.{Failed, SafeAt, find_entry}

module _ (digest : List ℕ → String) where
  -- What a finished entry leaves at its key.
  abbrev pub IsDone : Action → Entry → Cell → Type 0
  IsDone write e c =
      (g : File) × (c.target ≡ some (regular g))
      × (digest_file digest c.target ≡ ok e.digest)
      × (g.mode ≡ e.mode)
  IsDone delete e c = c.target ≡ none

module _ (digest : List ℕ → String) (orig : String → Option Node) (es : List Entry) (quiet : Type 0)
    (loud : quiet → ⊥) (F : String → Cell → Type 0) (e : Entry)
    (found : find_entry e.key es ≡ some e) where
  abbrev Local : Type 1
  Local = Progress → Progress → Cell → Type 0

  abbrev Held : Local → World → Type 0
  Held L = Holding digest orig es quiet e.key F L

  abbrev Lost : World → Type 0
  Lost = Failed digest orig es quiet

  -- The entry can be rolled back, by the memory and by the saved manifest, and its staged file is good.
  abbrev Start : Local
  Start p q c = Safe digest (orig e.key) e p c × Safe digest (orig e.key) e q c × IsReady digest e c

  abbrev Found : File → Local
  Found f p q c = Start p q c × (c.target ≡ some (regular f))

  -- The manifest says that there is an original, in memory or also on the disk.
  abbrev Noted : File → Local
  Noted f p q c = Found f p q c × (p.had_original ≡ true)

  abbrev Saved : File → Local
  Saved f p q c = Noted f p q c × (q.had_original ≡ true)

  abbrev Gone : Local
  Gone p q c = Start p q c × (c.target ≡ none)

  abbrev Finished : Local
  Finished p q c =
      Safe digest (orig e.key) e p c
      × Safe digest (orig e.key) e q c
      × (e.action ≡ write → c.staged ≡ none)
      × IsDone digest e.action e c

  good :
      (L : Local)
      → ((p q : Progress) (c : Cell)
          → L p q c
          → Safe digest (orig e.key) e p c × Safe digest (orig e.key) e q c)
      → IsGood digest orig es quiet e.key F L
  unfolding SafeAt
  good L safe p q c l = rw found (safe p q c l)

  good_start : IsGood digest orig es quiet e.key F Start
  good_start = good Start (λ p q c (s, t, r). (s, t))

  good_found : (f : File) → IsGood digest orig es quiet e.key F (Found f)
  good_found f = good (Found f) (λ p q c ((s, t, r), _). (s, t))

  good_noted : (f : File) → IsGood digest orig es quiet e.key F (Noted f)
  good_noted f = good (Noted f) (λ p q c (((s, t, r), _), _). (s, t))

  good_saved : (f : File) → IsGood digest orig es quiet e.key F (Saved f)
  good_saved f = good (Saved f) (λ p q c ((((s, t, r), _), _), _). (s, t))

  good_gone : IsGood digest orig es quiet e.key F Gone
  good_gone = good Gone (λ p q c ((s, t, r), _). (s, t))

  good_finished : IsGood digest orig es quiet e.key F Finished
  good_finished = good Finished (λ p q c (s, t, r, d). (s, t))

  fails :
      {A : Type 0} (L : Local) (x : StoreError) (Q : A → World → Type 0)
      → IsGood digest orig es quiet e.key F L
      → Ensures (Held L) (fail x) Q Lost
  fails L x Q g = Ensures-fail x Q (Holding-Failed digest orig es quiet e.key F L g loud)

  ticks :
      (L : Local) → IsGood digest orig es quiet e.key F L → Ensures (Held L) tick (λ _. Held L) Lost
  ticks L g = tick_rule digest orig es quiet e.key F L g

  move_to_backup_rule :
      (f : File) → Ensures (Held (Saved f)) (move_to_backup digest e.key) (λ _. Held Gone) Lost
  move_to_backup_rule f = Ensures-seq (Held (Saved f)) (ticks (Saved f) (good_saved f)) (
      cell_rule digest orig es quiet e.key F (Saved f) (λ a.
        set_cell_rule digest orig es quiet e.key F (λ p q c. Saved f p q c × (c ≡ a)) Gone
          (record a { target = none; backup = a.target })
          (λ p q c (((((s, t, r), there), had), had'), same).
            subst (λ x. Gone p q (record x { target = none; backup = x.target })) same
              ((Safe-backup digest s r had there, Safe-backup digest t r had' there, r), refl))))

  backup_original_rule :
      (f : File) → Ensures (Held (Found f)) (backup_original digest e.key f) (λ _. Held Gone) Lost
  unfolding backup_original
  backup_original_rule f =
      Ensures-lift (digest_file digest (some (regular f)))
        (λ d h. Ensures-seq (Held (Found f)) (ticks (Found f) (good_found f)) (
          Ensures-seq (Held (Noted f))
            (change_progress_rule digest orig es quiet e.key F (Found f) (Noted f)
              (found_original digest f d)
              (λ p q c ((s, t, r), there).
                (((Safe-found_original digest s r there h, t, r), there), refl)))
            (Ensures-seq (Held (Saved f))
              (save_rule digest orig es quiet e.key F (Noted f) (Saved f) (good_noted f)
                (good_saved f)
                (λ p q c (((s, t, r), there), had). ((((s, s, r), there), had), had)))
              (Ensures-seq (Held (Saved f)) (ticks (Saved f) (good_saved f)) (
                Ensures-seq (Held Gone) (move_to_backup_rule f) (
                  Ensures-seq (Held Gone) (ticks Gone good_gone) (
                    Ensures-seq (Held Gone) (ticks Gone good_gone) (
                      Ensures-seq (Held Gone)
                        (change_progress_rule digest orig es quiet e.key F Gone Gone
                          (λ p. record p { backup_ready = true })
                          (λ p q c ((s, t, r), gone). ((Safe-backup_ready digest s, t, r), gone)))
                        (Ensures-seq (Held Gone)
                          (save_rule digest orig es quiet e.key F Gone Gone good_gone good_gone
                            (λ p q c ((s, t, r), gone). ((s, s, r), gone)))
                          (ticks Gone good_gone))))))))))
        (λ x h w l. Holding-Failed digest orig es quiet e.key F (Found f) (good_found f) loud w l)

  backup_target_rule :
      (target : Option Node)
      → Ensures
          (Held (λ p q c. Start p q c × (c.target ≡ target)))
          (backup_target digest e.key target)
          (λ _. Held Gone)
          Lost
  backup_target_rule none = Ensures-pure _ _ (λ w h. h)
  backup_target_rule (some special) =
      fails (λ p q c. Start p q c × (c.target ≡ some special)) _ _
        (good (λ p q c. Start p q c × (c.target ≡ some special)) (λ p q c ((s, t, r), _). (s, t)))
  backup_target_rule (some (regular f)) =
      Ensures-if (is_safe_mode f.mode) (λ _. backup_original_rule f)
        (λ _. fails (Found f) _ _ (good_found f))

  -- The target is gone, so a rename of the staged file brings what the entry says.
  Moved : Option Node → Local
  Moved staged p q c = Gone p q c × (c.staged ≡ staged)

  move_staged_rule :
      (staged : Option Node) (writes : e.action ≡ write)
      → Ensures (Held (Moved staged)) (move_staged digest e.key staged) (λ _. Held Finished) Lost
  unfolding Moved
  move_staged_rule none writes =
      fails (Moved none) _ _ (good (Moved none) (λ p q c (((s, t, r), _), _). (s, t)))
  move_staged_rule (some n) writes = cell_rule digest orig es quiet e.key F (Moved (some n)) (λ a.
      set_cell_rule digest orig es quiet e.key F (λ p q c. Moved (some n) p q c × (c ≡ a)) Finished
        (record a { target = some n; staged = none })
        (λ p q c ((((s, t, r), gone), there), same).
          let (g, ready, right, mode) = r writes in
          let is_regular : n ≡ regular g = cc in
          subst (λ x. Finished p q (record x { target = some n; staged = none })) same
            (rw is_regular (
              Safe-install digest s gone writes g ready right,
              Safe-install digest t gone writes g ready right,
              (λ _. refl),
              rw writes (g, refl, rw (← ready) right, mode),
            ))))

  install_action_rule :
      (action : Action)
      → e.action ≡ action
      → Ensures (Held Gone) (install_action digest action e.key) (λ _. Held Finished) Lost
  unfolding Moved
  install_action_rule write writes = Ensures-seq (Held Gone) (ticks Gone good_gone) (
      cell_rule digest orig es quiet e.key F Gone (λ a.
        Ensures-weaken
          (Holding-map digest orig es quiet e.key F (λ p q c. Gone p q c × (c ≡ a)) (Moved a.staged)
            (λ p q c (g, same). (g, ap (λ (x : Cell). x.staged) same)))
          (move_staged_rule a.staged writes)))
  install_action_rule delete deletes = Ensures-pure _ _ (
      Holding-map digest orig es quiet e.key F Gone Finished
        (λ p q c ((s, t, r), gone). (s, t, (λ writes. absurd (cc)), rw deletes gone)))

  -- From an entry that is ready to one that is installed.
  pub install_entry_rule : Ensures (Held Start) (install_entry digest e) (λ _. Held Finished) Lost
  unfolding install_entry
  install_entry_rule = Ensures-seq (Held Start) (ticks Start good_start) (
      Ensures-seq (Held Start) (ticks Start good_start) (
        cell_rule digest orig es quiet e.key F Start (λ a.
          Ensures-seq (Held Gone)
            (Ensures-weaken
              (Holding-map digest orig es quiet e.key F (λ p q c. Start p q c × (c ≡ a))
                (λ p q c. Start p q c × (c.target ≡ a.target))
                (λ p q c (s, same). (s, ap (λ (x : Cell). x.target) same)))
              (backup_target_rule a.target))
            (Ensures-seq (Held Finished) (install_action_rule e.action refl) (
              Ensures-seq (Held Finished)
                (change_progress_rule digest orig es quiet e.key F Finished Finished
                  (λ p. record p { installed = true })
                  (λ p q c (s, t, n, d). (Safe-installed digest s n, t, n, d)))
                (Ensures-seq (Held Finished) (ticks Finished good_finished) (
                  Ensures-seq (Held Finished)
                    (save_rule digest orig es quiet e.key F Finished Finished good_finished
                      good_finished (λ p q c (s, t, n, d). (s, s, n, d)))
                    (ticks Finished good_finished))))))))
