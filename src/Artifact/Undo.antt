-- ===== src/Artifact/Undo.antt =====
-- One round of the loop of Rollback: from an entry that can be rolled back to its original.
use openvpn_docker.Artifact.Found.{
  IsNonempty, original_passes, new_passes, not_staged, still_staged, at_backup, Safe-cleared,
  Safe-restored, Safe-removed,
}
use mathlib.Core.Path.{subst}
use openvpn_docker.Prelude.{
  ◌≡◌, refl, sym, ap, ◌∙◌, inl, inr, true, false, not, ◌&&◌, Option, none, some, List, ℕ, String,
  str_eq, ◌⊎◌, ◌||◌,
}
use openvpn_docker.Actions.{pure, ◌>>◌}
use openvpn_docker.Actions.Triples.{
  Ensures, Ensures-pure, Ensures-seq, Ensures-weaken, Ensures-if, Ensures-fact,
}
use openvpn_docker.Artifact.{
  StoreError, Node, regular, special, Cell, Entry, Progress, World, Run, tick, Action, write,
  delete,
}
use openvpn_docker.Artifact.Calls.{
  digest_file, check_original, remove_regular, remove_regular_if_present, restore_backup,
  same_digest, check_new, rollback_entry, undo_entry, undo_write, is_missing,
}
use openvpn_docker.Artifact.Safe.{Safe, moved, still, fresh, IsStaged, HasOriginal, IsNew}
use openvpn_docker.Artifact.Holding.{
  Holding, IsGood, Holding-map, tick_rule, cell_rule, set_cell_rule, progress_rule,
}
use openvpn_docker.Artifact.Open.{Failed, SafeAt, find_entry}

module _ (digest : List ℕ → String) (full : IsNonempty digest) (orig : String → Option Node)
    (es : List Entry) (quiet : Type 0) (F : String → Cell → Type 0) (e : Entry)
    (found : find_entry e.key es ≡ some e) where
  abbrev Local : Type 1
  Local = Progress → Progress → Cell → Type 0

  abbrev Held : Local → World → Type 0
  Held L = Holding digest orig es quiet e.key F L

  abbrev Lost : World → Type 0
  Lost = Failed digest orig es quiet

  -- The entry can be rolled back, by the memory and by the saved manifest.
  abbrev Start : Local
  Start p q c = Safe digest (orig e.key) e p c × Safe digest (orig e.key) e q c

  abbrev pub Settled : Local
  Settled p q c = Start p q c × (c.target ≡ orig e.key)

  abbrev With : (Progress → Progress → Cell → Type 0) → Local
  With M p q c = Start p q c × M p q c

  good : (M : Local) → IsGood digest orig es quiet e.key F (With M)
  unfolding SafeAt
  good M p q c (s, m) = rw found s

  ticks : (M : Local) → Ensures (Held (With M)) tick (λ _. Held (With M)) Lost
  ticks M = tick_rule digest orig es quiet e.key F (With M) (good M)

  -- A branch that no safe entry takes.
  never :
      {A : Type 0} {m : Run A} {Q : A → World → Type 0} (M : Local)
      → ((p q : Progress) (c : Cell) → With M p q c → ⊥)
      → Ensures (Held (With M)) m Q Lost
  never M no_way = Ensures-fact (λ w h. no_way _ _ _ h.here) (λ bad. absurd bad)

  passes :
      (M : Local)
      → ((p q : Progress) (c : Cell) → With M p q c → c.target ≡ orig e.key)
      → Ensures {E = StoreError} (Held (With M)) (pure tt) (λ _. Held Settled) Lost
  passes M settled = Ensures-pure tt _ (
      Holding-map digest orig es quiet e.key F (With M) Settled (λ p q c h. (h.0, settled p q c h)))

  abbrev BackedUp : Node → Local
  BackedUp b p q c = c.backup ≡ some b

  abbrev Cleared : Node → Local
  Cleared b p q c = (c.backup ≡ some b) × (c.target ≡ none)

  clear_rule :
      (b : Node) (target : Option Node)
      → Ensures
          (Held (With (λ p q c. (c.backup ≡ some b) × (c.target ≡ target))))
          (remove_regular digest e.key target)
          (λ _. Held (With (BackedUp b)))
          Lost
  clear_rule b none = Ensures-pure tt _ (
      Holding-map digest orig es quiet e.key F (With (Cleared b)) (With (BackedUp b))
        (λ p q c (s, (t, _)). (s, t)))
  clear_rule b (some special) =
      never (λ p q c. (c.backup ≡ some b) × (c.target ≡ some special))
        (λ p q c ((s, _), (t, there)).
          let (f, _, _, _, _, m) = at_backup digest s t in
          elim m [ inl gone ↦ cc | inr (g, is_file, _, _) ↦ cc ])
  clear_rule b (some (regular f)) =
      let M : Local = λ p q c. (c.backup ≡ some b) × (c.target ≡ some (regular f)) in
      Ensures-seq (Held (With M)) (ticks M) (
        cell_rule digest orig es quiet e.key F (With M) (λ a.
          set_cell_rule digest orig es quiet e.key F (λ p q c. With M p q c × (c ≡ a))
            (With (BackedUp b)) (record a { target = none })
            (λ p q c (((s, t), (there, _)), same).
              subst (λ x. With (BackedUp b) p q (record x { target = none })) same
                ((Safe-cleared digest s there, Safe-cleared digest t there), there))))

  restore_rule :
      (b : Node)
      → Ensures
          (Held (With (BackedUp b)))
          (remove_regular_if_present digest e.key >> restore_backup digest e.key)
          (λ _. Held Settled)
          Lost
  restore_rule b =
      Ensures-seq (Held (With (BackedUp b)))
        (Ensures-seq (Held (With (BackedUp b))) (ticks (BackedUp b)) (
          cell_rule digest orig es quiet e.key F (With (BackedUp b)) (λ a.
            Ensures-weaken
              (Holding-map digest orig es quiet e.key F (λ p q c. With (BackedUp b) p q c × (c ≡ a))
                (With (λ p q c. (c.backup ≡ some b) × (c.target ≡ a.target)))
                (λ p q c ((s, t), same). (s, (t, ap (λ (x : Cell). x.target) same))))
              (clear_rule b a.target))))
        (Ensures-seq (Held (With (BackedUp b))) (ticks (BackedUp b)) (
          cell_rule digest orig es quiet e.key F (With (BackedUp b)) (λ a.
            set_cell_rule digest orig es quiet e.key F (λ p q c. With (BackedUp b) p q c × (c ≡ a))
              Settled (record a { target = a.backup; backup = none })
              (λ p q c (((s, t), there), same).
                let (f, is_file, original, _, _, _) = at_backup digest s there in
                subst (λ x. Settled p q (record x { target = x.backup; backup = none })) same
                  (
                    (Safe-restored digest s there, Safe-restored digest t there),
                    is_file ∙ sym original,
                  )))))

  -- No backup; `p0` and `a` are what the round has read.
  abbrev Read : Progress → Cell → Local
  Read p0 a p q c = (p ≡ p0) × (c ≡ a) × (a.backup ≡ none)

  kept_original :
      (p0 : Progress) (a : Cell) (p q : Progress) (c : Cell)
      → p0.had_original ≡ true
      → With (Read p0 a) p q c
      → (c.target ≡ orig e.key) × HasOriginal digest p (orig e.key)
  kept_original p0 a p q c had (((moved f b _ _ _ _), t), (same, here, none_there)) = absurd (cc)
  kept_original p0 a p q c had (((still b t' h _), t), (same, here, none_there)) =
      (t', h (ap (λ (x : Progress). x.had_original) same ∙ had))
  kept_original p0 a p q c had (((fresh b _ none_had _), t), (same, here, none_there)) = absurd (cc)

  check_original_rule :
      (p0 : Progress) (a : Cell)
      → p0.had_original ≡ true
      → Ensures
          (Held (With (Read p0 a)))
          (check_original digest p0 a.target)
          (λ _. Held Settled)
          Lost
  check_original_rule p0 a had =
      Ensures-if
        (not (str_eq p0.original_digest "")
          && same_digest digest (digest_file digest a.target) p0.original_digest)
        (λ _. passes (Read p0 a) (λ p q c h. (kept_original p0 a p q c had h).0))
        (λ failed. never (Read p0 a) (λ p q c h.
          let (t, o) = kept_original p0 a p q c had h in
          let (_, (same, here, _)) = h in
          let good_test = original_passes digest p (orig e.key) full o in
          let same_target : a.target ≡ orig e.key = ap (λ (x : Cell). x.target) (sym here) ∙ t in
          cc))

  abbrev Any : Local
  Any p q c = Unit

  -- There was no original, and the target is gone or holds the new file.
  abbrev New : Local
  New p q c = (c.backup ≡ none) × (orig e.key ≡ none) × IsNew digest e c

  without_original :
      (p0 : Progress) (a : Cell) (p q : Progress) (c : Cell)
      → p0.had_original ≡ false
      → With (Read p0 a) p q c
      → New p q c ⊎ ((c.target ≡ orig e.key) × (e.action ≡ write → IsStaged digest p c))
  without_original p0 a p q c had (((moved f b _ _ _ _), t), (same, here, none_there)) = absurd (cc)
  without_original p0 a p q c had (((still b t' _ staged), t), (same, here, none_there)) =
      inr (t', staged (ap (λ (x : Progress). x.had_original) same ∙ had))
  without_original p0 a p q c had (((fresh b gone _ n), t), (same, here, none_there)) =
      inl (b, gone, n)

  check_new_rule :
      (target : Option Node)
      → Ensures
          (Held (With (λ p q c. New p q c × (c.target ≡ target))))
          (check_new digest e target)
          (λ _. Held (With New))
          Lost
  check_new_rule none = Ensures-pure tt _ (
      Holding-map digest orig es quiet e.key F (With (λ p q c. New p q c × (c.target ≡ none)))
        (With New) (λ p q c (s, (n, _)). (s, n)))
  check_new_rule (some n) =
      let M : Local = λ p q c. New p q c × (c.target ≡ some n) in
      Ensures-if (same_digest digest (digest_file digest (some n)) e.digest)
        (λ _. Ensures-pure tt _ (
          Holding-map digest orig es quiet e.key F (With M) (With New)
            (λ p q c (s, (n, _)). (s, n))))
        (λ failed. never M (λ p q c (s, ((_, _, is_new), there)). elim is_new [
          | inl gone ↦ cc
          | inr (g, _, _, _, right) ↦
              let good_test = new_passes digest e c.target right in cc (rw there at good_test)
        ]))

  remove_new_rule :
      (target : Option Node)
      → Ensures
          (Held (With (λ p q c. New p q c × (c.target ≡ target))))
          (remove_regular digest e.key target)
          (λ _. Held Settled)
          Lost
  remove_new_rule none =
      passes (λ p q c. New p q c × (c.target ≡ none))
        (λ p q c (s, ((_, gone, _), there)). there ∙ sym gone)
  remove_new_rule (some special) =
      never (λ p q c. New p q c × (c.target ≡ some special))
        (λ p q c (s, ((_, _, is_new), there)). elim is_new [
          | inl gone ↦ cc
          | inr (g, is_file, _, _, _) ↦ cc
        ])
  remove_new_rule (some (regular f)) =
      let M : Local = λ p q c. New p q c × (c.target ≡ some (regular f)) in
      Ensures-seq (Held (With M)) (ticks M) (
        cell_rule digest orig es quiet e.key F (With M) (λ a.
          set_cell_rule digest orig es quiet e.key F (λ p q c. With M p q c × (c ≡ a)) Settled
            (record a { target = none })
            (λ p q c (((s, t), ((b, gone, _), there)), same).
              subst (λ x. Settled p q (record x { target = none })) same
                ((Safe-removed digest s b gone, Safe-removed digest t b gone), sym gone))))

  remove_rule :
      Ensures (Held (With New)) (remove_regular_if_present digest e.key) (λ _. Held Settled) Lost
  remove_rule = Ensures-seq (Held (With New)) (ticks New) (
      cell_rule digest orig es quiet e.key F (With New) (λ a.
        Ensures-weaken
          (Holding-map digest orig es quiet e.key F (λ p q c. With New p q c × (c ≡ a))
            (With (λ p q c. New p q c × (c.target ≡ a.target)))
            (λ p q c ((s, n), same). (s, (n, ap (λ (x : Cell). x.target) same))))
          (remove_new_rule a.target)))

  undo_write_rule :
      (action : Action) (p0 : Progress) (a : Cell)
      → e.action ≡ action
      → p0.had_original ≡ false
      → Ensures (Held (With (Read p0 a))) (undo_write digest action e p0 a) (λ _. Held Settled) Lost
  undo_write_rule delete p0 a deletes had = passes (Read p0 a) (λ p q c h.
      elim (without_original p0 a p q c had h) [
        | inr (t, _) ↦ t
        | inl (_, gone, n) ↦ elim n [
          | inl empty ↦ empty ∙ sym gone
          | inr (_, _, writes, _, _) ↦ absurd (cc)
        ]
      ])
  undo_write_rule write p0 a writes had =
      Ensures-if (p0.installed || is_missing digest a.staged)
        (λ test.
          Ensures-weaken
            (Holding-map digest orig es quiet e.key F (With (Read p0 a))
              (With (λ p q c. New p q c × (c.target ≡ a.target)))
              (λ p q c h.
                let (s, (same, here, _)) = h in
                elim (without_original p0 a p q c had h) [
                  | inl n ↦ (s, (n, ap (λ (x : Cell). x.target) here))
                  | inr (_, staged) ↦
                      absurd (not_staged digest p c p0 a same here test (staged writes))
                ]))
            (Ensures-seq (Held (With New)) (check_new_rule a.target) remove_rule))
        (λ test. passes (Read p0 a) (λ p q c h.
          let (_, (_, here, _)) = h in
          elim (without_original p0 a p q c had h) [
            | inr (t, _) ↦ t
            | inl (_, gone, n) ↦ elim n [
              | inl empty ↦ empty ∙ sym gone
              | inr (_, _, _, missing, _) ↦ absurd (still_staged digest c p0 a here test missing)
            ]
          ]))

  undo_entry_rule :
      (backup : Option Node) (p0 : Progress) (a : Cell)
      → Ensures
          (Held (With (λ p q c. (p ≡ p0) × (c ≡ a) × (a.backup ≡ backup))))
          (undo_entry digest e p0 a backup)
          (λ _. Held Settled)
          Lost
  undo_entry_rule (some b) p0 a =
      Ensures-weaken
        (Holding-map digest orig es quiet e.key F
          (With (λ p q c. (p ≡ p0) × (c ≡ a) × (a.backup ≡ some b))) (With (BackedUp b))
          (λ p q c (s, (_, here, there)). (s, ap (λ (x : Cell). x.backup) here ∙ there)))
        (restore_rule b)
  undo_entry_rule none p0 a =
      Ensures-if p0.had_original
        (λ had.
          Ensures-seq (Held (With (Read p0 a))) (ticks (Read p0 a)) (check_original_rule p0 a had))
        (λ had. undo_write_rule e.action p0 a refl had)

  -- From an entry that can be rolled back to its original.
  pub rollback_entry_rule : Ensures (Held Start) (rollback_entry digest e) (λ _. Held Settled) Lost
  unfolding rollback_entry
  rollback_entry_rule =
      Ensures-weaken
        (Holding-map digest orig es quiet e.key F Start (With Any) (λ p q c s. (s, tt)))
        (Ensures-seq (Held (With Any)) (ticks Any) (
          Ensures-seq (Held (With Any)) (ticks Any) (
            progress_rule digest orig es quiet e.key F (With Any) (λ p0.
              cell_rule digest orig es quiet e.key F (λ p q c. With Any p q c × (p ≡ p0))
                (λ a.
                  Ensures-seq (Held Settled)
                    (Ensures-weaken
                      (Holding-map digest orig es quiet e.key F
                        (λ p q c. (With Any p q c × (p ≡ p0)) × (c ≡ a))
                        (With (λ p q c. (p ≡ p0) × (c ≡ a) × (a.backup ≡ a.backup)))
                        (λ p q c (((s, _), same), here). (s, (same, here, refl))))
                      (undo_entry_rule a.backup p0 a))
                    settled_tick)))))
    where
      settled_tick : Ensures (Held Settled) tick (λ _. Held Settled) Lost
      settled_tick = ticks (λ p q c. c.target ≡ orig e.key)
