-- ===== src/Artifact/Found.antt =====
-- What Rollback finds at an entry that can be rolled back.
use openvpn_docker.Prelude.{
  ◌≡◌, refl, sym, ap, ◌∙◌, inl, inr, true, false, not, ◌&&◌, Option, none, some, List, ℕ, String,
  ok, str_eq, eq_refl, Bool-cases, ltb, length, ok-injective, ◌||◌, arith,
}
use openvpn_docker.Artifact.{
  Node, regular, special, File, Cell, Entry, Progress, max_artifact_size, length,
}
use openvpn_docker.Artifact.Calls.{digest_file, same_digest, is_missing}
use openvpn_docker.Artifact.Safe.{Safe, moved, still, fresh, IsStaged, HasOriginal, IsMoved}

module _ (digest : List ℕ → String) where
  -- SHA-256 in hexadecimal is never the empty text.
  abbrev pub IsNonempty : Type 0
  IsNonempty = (content : List ℕ) → str_eq (digest content) "" ≡ false

  pub digest_file-nonempty :
      (o : Option Node) (d : String)
      → IsNonempty
      → digest_file digest o ≡ ok d
      → str_eq d "" ≡ false
  unfolding digest_file
  digest_file-nonempty none d full h = absurd (cc)
  digest_file-nonempty (some special) d full h = absurd (cc)
  digest_file-nonempty (some (regular f)) d full h =
      elim (Bool-cases (ltb max_artifact_size (length f.content))) [
        | inl e ↦ cc (rw e at h)
        | inr e ↦ let q = ok-injective (rw e at h) in rw (← q) (full f.content)
      ]

  pub original_passes :
      (p : Progress) (o : Option Node)
      → IsNonempty
      → HasOriginal digest p o
      → not (str_eq p.original_digest "")
          && same_digest digest (digest_file digest o) p.original_digest
        ≡ true
  original_passes p o full (f, there, right) =
      rw (digest_file-nonempty o p.original_digest full right, right) (eq_refl p.original_digest)

  pub new_passes :
      (e : Entry) (o : Option Node)
      → digest_file digest o ≡ ok e.digest
      → same_digest digest (digest_file digest o) e.digest ≡ true
  new_passes e o h = rw h (eq_refl e.digest)

  pub not_staged :
      (p : Progress) (c : Cell) (p0 : Progress) (a : Cell)
      → p ≡ p0
      → c ≡ a
      → p0.installed || is_missing digest a.staged ≡ true
      → IsStaged digest p c
      → ⊥
  not_staged p c p0 a same here test (n, fresh_entry, there) =
      let i : p0.installed ≡ false = ap (λ (x : Progress). x.installed) (sym same) ∙ fresh_entry in
      let t : a.staged ≡ some n = ap (λ (x : Cell). x.staged) (sym here) ∙ there in
      cc (rw (i, t) at test)

  pub still_staged :
      (c : Cell) (p0 : Progress) (a : Cell)
      → c ≡ a
      → p0.installed || is_missing digest a.staged ≡ false
      → c.staged ≡ none
      → ⊥
  still_staged c p0 a here test missing =
      let t : a.staged ≡ none = ap (λ (x : Cell). x.staged) (sym here) ∙ missing in
      ground (arith, t)

  module _ {o : Option Node} {e : Entry} {p : Progress} {c : Cell} where
    -- A backup is there only for the original.
    pub at_backup :
        {b : Node}
        → Safe digest o e p c
        → c.backup ≡ some b
        → (f : File) × (c.backup ≡ some (regular f))
          × (o ≡ some (regular f))
          × HasOriginal digest p o
          × (p.had_original ≡ true)
          × IsMoved digest e c
    at_backup (moved f b s h had m) t = (f, b, s, h, had, m)
    at_backup (still b _ _ _) t = absurd (cc)
    at_backup (fresh b _ _ _) t = absurd (cc)

    pub Safe-cleared :
        {b : Node}
        → Safe digest o e p c
        → c.backup ≡ some b
        → Safe digest o e p (record c { target = none })
    Safe-cleared s t = let (f, b, s', h, had, m) = at_backup s t in moved f b s' h had (inl refl)

    pub Safe-restored :
        {b : Node}
        → Safe digest o e p c
        → c.backup ≡ some b
        → Safe digest o e p (record c { target = c.backup; backup = none })
    Safe-restored s t =
        let (f, b, s', h, had, m) = at_backup s t in
        still refl (b ∙ sym s') (λ _. h) (λ none_had. absurd (cc))

    pub Safe-removed :
        Safe digest o e p c
        → c.backup ≡ none
        → o ≡ none
        → Safe digest o e p (record c { target = none })
    Safe-removed (moved f b _ _ _ _) t gone = absurd (cc)
    Safe-removed (still b t' h staged) t gone = still b (sym gone) h staged
    Safe-removed (fresh b s had n) t gone = fresh b s had (inl refl)
