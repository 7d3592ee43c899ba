-- ===== src/Artifact/Checks.antt =====
-- The first loop of Install: the checks before anything is touched.
use openvpn_docker.Prelude.{
  ◌≡◌, ◌≢◌, ◌<◌, refl, sym, ap, ◌∙◌, ◌⊎◌, Option, none, some, length, arith, eq_iff, inl, inr, Bool,
  true, false, ◌&&◌, if◌then◌else◌, str_eq, List, [], ◌∷◌, ℕ, String, Result, ok, err,
}
use mathlib.Core.Path.{subst}
use openvpn_docker.Actions.{◌>>=◌, ◌>>◌}
use openvpn_docker.Actions.Triples.{
  Ensures, Post, Ensures-pure, Ensures-fail, Ensures-seq, Ensures-weaken, Ensures-fact,
  Ensures-gets, Ensures-lift, Ensures-return, Ensures-if, Ensures-conclude,
}
use openvpn_docker.Artifact.{
  Cell, Entry, Node, World, StoreError, is_safe_mode, regular, special, tick, write,
}
use openvpn_docker.Artifact.Calls.{
  verify_staged, verify_write, verify_entry, verify_entries, preflight_target, install, is_prepared,
}
use openvpn_docker.Artifact.Open.{tick-Ensures}
use openvpn_docker.Artifact.Keys.{In}
use openvpn_docker.Artifact.Recovery.{IsOk}

-- The files and both manifests are those of a given world.
pub record IsUntouched (w v : World) : Type 0 where
  pub cell : v.cell ≡ w.cell
  pub saved : v.saved ≡ w.saved
  pub memory : v.memory ≡ w.memory

if-ok : (b : Bool) (x : StoreError) {u : Unit {0}} → (if b then ok tt else err x) ≡ ok u → b ≡ true
if-ok true x h = refl
if-ok false x h = cc

equal_digest : (a b : Bool) (s t : String) → (a && (b && str_eq s t)) ≡ true → s ≡ t
equal_digest a b s t h = (eq_iff s t).0 (ground (arith, h))

safe_modes : (m : ℕ) → is_safe_mode m ≡ true → (m ≡ 384) ⊎ (m ≡ 420)
safe_modes m h = ground arith

module _ (digest : List ℕ → String) where
  -- Neither nothing nor a regular file of mode 0o600 or 0o644.
  abbrev pub IsUnsafe : Option Node → Type 0
  IsUnsafe none = ⊥
  IsUnsafe (some special) = Unit
  IsUnsafe (some (regular f)) = (f.mode ≢ 384) × (f.mode ≢ 420)

  -- Not a regular file with the mode and the digest of the entry, and of at most 16 MiB.
  abbrev pub IsOther : Entry → Option Node → Type 0
  IsOther e none = Unit
  IsOther e (some special) = Unit
  IsOther e (some (regular f)) =
      (f.mode ≢ e.mode) ⊎ ((16777216 < length f.content) ⊎ (digest f.content ≢ e.digest))

  -- The staged file of an entry that writes is not the one to install, or something unsafe stands at
  -- the target.
  abbrev pub IsRefused : Entry → Cell → Type 0
  IsRefused e c = ((e.action ≡ write) × IsOther e c.staged) ⊎ IsUnsafe c.target

  verify_staged-IsOther :
      (e : Entry) (n : Option Node) {u : Unit {0}}
      → IsOther e n
      → verify_staged digest e n ≡ ok u
      → ⊥
  unfolding verify_staged
  verify_staged-IsOther e none other h = cc
  verify_staged-IsOther e (some special) other h = cc
  verify_staged-IsOther e (some (regular f)) (inl other) h =
      let fits = if-ok _ _ h in other (ground (arith, fits))
  verify_staged-IsOther e (some (regular f)) (inr (inl other)) h =
      let fits = if-ok _ _ h in ground (arith, fits)
  verify_staged-IsOther e (some (regular f)) (inr (inr other)) h =
      let fits = if-ok _ _ h in other (equal_digest _ _ _ _ fits)

  preflight_target-IsUnsafe :
      (n : Option Node) {u : Unit {0}} → IsUnsafe n → preflight_target digest n ≡ ok u → ⊥
  unfolding preflight_target
  preflight_target-IsUnsafe none unsafe h = unsafe
  preflight_target-IsUnsafe (some special) unsafe h = cc
  preflight_target-IsUnsafe (some (regular f)) (writable, readable) h =
      elim (safe_modes f.mode (if-ok _ _ h)) [ inl e ↦ writable e | inr e ↦ readable e ]

  module _ (w : World) where
    abbrev Checked : Entry → Type 0
    Checked e =
        (verify_write digest e.action e (w.cell e.key).staged ≡ ok tt)
        × (preflight_target digest (w.cell e.key).target ≡ ok tt)

    Untouched-tick : Ensures (IsUntouched w) tick (λ _. IsUntouched w) (IsUntouched w)
    Untouched-tick =
        tick-Ensures (IsUntouched w) (IsUntouched w) (λ v b fs u h. later v fs u)
          (λ v fs u h. later v fs u)
      where
        later :
            (v : World) (fs : List Bool)
            → IsUntouched w v
            → IsUntouched w (record v { faults = fs })
        later v fs u = record { cell = u.cell; saved = u.saved; memory = u.memory }

    verify_entry-Checked :
        (e : Entry)
        → Ensures
            (IsUntouched w)
            (verify_entry digest e)
            (λ _ v. IsUntouched w v × Checked e)
            (IsUntouched w)
    unfolding verify_entry ◌>>◌ ◌>>=◌
    verify_entry-Checked e = Ensures-seq (IsUntouched w) Untouched-tick (
        Ensures-gets _ (λ c.
          Ensures-fact {F = w.cell e.key ≡ c} (λ v (u, h). sym (ap (λ f. f e.key) u.cell) ∙ h)
            (λ here.
              Ensures-weaken {P = IsUntouched w} (λ v (u, _). u)
                (Ensures-lift (verify_write digest e.action e c.staged)
                  (λ a good. Ensures-seq (IsUntouched w) Untouched-tick (
                    Ensures-return (preflight_target digest c.target)
                      (λ b safe v u. (
                        u,
                        subst
                            (λ x.
                              (verify_write digest e.action e x.staged ≡ ok tt)
                              × (preflight_target digest x.target ≡ ok tt))
                            (sym here) (good, safe),
                      ))
                      (λ v u. u)))
                  (λ x bad v u. u)))))

    verify_entries-Checked :
        (es : List Entry)
        → Ensures
            (IsUntouched w)
            (verify_entries digest es)
            (λ _ v. IsUntouched w v × ((e : Entry) → In e es → Checked e))
            (IsUntouched w)
    unfolding verify_entries
    verify_entries-Checked [] = Ensures-pure tt _ (λ v u. (u, λ e i. elim i [ ]))
    verify_entries-Checked (x ∷ es) =
        Ensures-seq (λ v. IsUntouched w v × Checked x) (verify_entry-Checked x)
          (Ensures-fact {F = Checked x} (λ v (u, k). k)
            (λ k.
              Ensures-weaken {P = IsUntouched w} (λ v (u, _). u)
                (Ensures-conclude (verify_entries-Checked es)
                  (λ _ v (u, all). (u, λ e i. elim i [ inl p ↦ rw p k | inr j ↦ all e j ])))))

    refused_rule :
        (e : Entry)
        → In e w.memory.entries
        → IsRefused e (w.cell e.key)
        → Ensures (IsUntouched w) (install digest) (λ _ _. ⊥) (IsUntouched w)
    unfolding install
    refused_rule e i refused = Ensures-gets _ (λ m.
        Ensures-fact {F = w.memory ≡ m} (λ v (u, h). sym u.memory ∙ h)
          (λ same.
            Ensures-weaken {P = IsUntouched w} (λ v (u, _). u)
              (Ensures-seq (IsUntouched w)
                (Ensures-if (is_prepared digest m.state) (λ _. Ensures-pure tt _ (λ v u. u))
                  (λ _. Ensures-fail _ _ (λ v u. u)))
                (Ensures-seq (λ _. ⊥)
                  (Ensures-conclude (verify_entries-Checked m.entries) (λ _ v (u, all).
                    contradiction (all e (subst (λ x. In e x.entries) same i)) refused))
                  (record { at = λ v none_here. absurd none_here })))))
      where
        contradiction : Checked e → IsRefused e (w.cell e.key) → ⊥
        contradiction (good, safe) (inl (writes, other)) =
            verify_staged-IsOther e (w.cell e.key).staged other (rw writes at good)
        contradiction (good, safe) (inr unsafe) =
            preflight_target-IsUnsafe (w.cell e.key).target unsafe safe

  -- If the staged file of an entry that writes is not a regular file of at most 16 MiB with the mode
  -- and the digest that Stage has written down, or if something stands at the target of an entry that
  -- is not a regular file of mode 0o600 or 0o644, then Install fails, whatever system calls fail, and
  -- it leaves every file, the manifest on the disk and the manifest in memory as they were.
  pub install_refuses :
      (w : World) (e : Entry)
      → In e w.memory.entries
      → IsRefused e (w.cell e.key)
      → (IsOk ((install digest w).0) → ⊥) × IsUntouched w ((install digest w).1)
  install_refuses w e i refused =
      outcome (install digest w)
        ((refused_rule w e i refused).at w (record { cell = refl; saved = refl; memory = refl }))
    where
      outcome :
          (r : Result StoreError (Unit {0}) × World)
          → Post (λ _ _. ⊥) (IsUntouched w) r
          → (IsOk (r.0) → ⊥) × IsUntouched w (r.1)
      outcome (ok u, v) q = absurd q
      outcome (err x, v) q = ((λ i. i), q)
