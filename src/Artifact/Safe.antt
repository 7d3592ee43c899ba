-- ===== src/Artifact/Safe.antt =====
-- When an entry of an operation can be rolled back: what its progress and its files say together.
use openvpn_docker.Prelude.{
  ◌≡◌, refl, sym, ◌∙◌, ◌⊎◌, inl, inr, true, false, Option, none, some, List, ℕ, String, ok,
  Bool-cases,
}
use openvpn_docker.Artifact.{File, Node, regular, Cell, write, Entry, Progress}
use openvpn_docker.Artifact.Calls.{digest_file, found_original}

module _ (digest : List ℕ → String) where
  -- The target is gone, or the staged file has been moved there.
  abbrev pub IsMoved : Entry → Cell → Type 0
  IsMoved e c =
      (c.target ≡ none)
      ⊎ ((g : File) × (c.target ≡ some (regular g)) × (e.action ≡ write) × (c.staged ≡ none))

  abbrev pub HasOriginal : Progress → Option Node → Type 0
  HasOriginal p o =
      (f : File) × (o ≡ some (regular f)) × (digest_file digest o ≡ ok p.original_digest)

  abbrev pub IsStaged : Progress → Cell → Type 0
  IsStaged p c = (n : Node) × (p.installed ≡ false) × (c.staged ≡ some n)

  -- Nothing is there, or the file of the entry.
  abbrev pub IsNew : Entry → Cell → Type 0
  IsNew e c =
      (c.target ≡ none)
      ⊎ ((g : File) × (c.target ≡ some (regular g))
          × (e.action ≡ write)
          × (c.staged ≡ none)
          × (digest_file digest c.target ≡ ok e.digest))

  -- `o` is the original: it is in the backup, or at the target, or there is none.
  pub data Safe (o : Option Node) (e : Entry) (p : Progress) (c : Cell) : Type 0 where
    moved :
        (f : File)
        → c.backup ≡ some (regular f)
        → o ≡ some (regular f)
        → HasOriginal p o
        → p.had_original ≡ true
        → IsMoved e c
        → Safe o e p c
    still :
        c.backup ≡ none
        → c.target ≡ o
        → (p.had_original ≡ true → HasOriginal p o)
        → (p.had_original ≡ false → e.action ≡ write → IsStaged p c)
        → Safe o e p c
    fresh : c.backup ≡ none → o ≡ none → p.had_original ≡ false → IsNew e c → Safe o e p c

  -- Before Install moves the staged file, it has been verified.
  abbrev pub IsReady : Entry → Cell → Type 0
  IsReady e c =
      e.action ≡ write
      → (g : File) × (c.staged ≡ some (regular g))
        × (digest_file digest c.staged ≡ ok e.digest)
        × (g.mode ≡ e.mode)

  module _ {o : Option Node} {e : Entry} {p : Progress} {c : Cell} where
    at_target :
        {f : File}
        → Safe o e p c
        → IsReady e c
        → c.target ≡ some (regular f)
        → (c.backup ≡ none) × (c.target ≡ o)
    at_target (moved f b s h had (inl gone)) r t = absurd (cc)
    at_target (moved f b s h had (inr (g, t', w, empty))) r t =
        let (_, there, _, _) = r w in absurd (cc)
    at_target (still b t' _ _) r t = (b, t')
    at_target (fresh b s had (inl gone)) r t = absurd (cc)
    at_target (fresh b s had (inr (g, t', w, empty, _))) r t =
        let (_, there, _, _) = r w in absurd (cc)

    pub Safe-found_original :
        {f : File} {d : String}
        → Safe o e p c
        → IsReady e c
        → c.target ≡ some (regular f)
        → digest_file digest (some (regular f)) ≡ ok d
        → Safe o e (found_original digest f d p) c
    Safe-found_original {f} s r t h =
        let (b, same) = at_target s r t in
        still b same (λ _. (f, sym same ∙ t, rw (sym same ∙ t) h)) (λ had. absurd (cc))

    pub Safe-backup :
        {f : File}
        → Safe o e p c
        → IsReady e c
        → p.had_original ≡ true
        → c.target ≡ some (regular f)
        → Safe o e p (record c { target = none; backup = c.target })
    Safe-backup {f} s r had t =
        let (b, same) = at_target s r t in moved f t (sym same ∙ t) (original s had) had (inl refl)
      where
        original : Safe o e p c → p.had_original ≡ true → HasOriginal p o
        original (moved f b s h _ m) had = h
        original (still b t h staged) had = h had
        original (fresh b s none_had n) had = absurd (cc)

    pub Safe-install :
        Safe o e p c
        → c.target ≡ none
        → e.action ≡ write
        → (g : File) → c.staged ≡ some (regular g)
        → digest_file digest c.staged ≡ ok e.digest
        → Safe o e p (record c { target = some (regular g); staged = none })
    Safe-install (moved f b s h0 had _) t w g there h = moved f b s h0 had (inr (g, refl, w, refl))
    Safe-install (still b same had staged) t w g there h = elim (Bool-cases p.had_original) [
      | inl e ↦ let (f, s, _) = had e in absurd (cc)
      | inr e ↦ fresh b (sym same ∙ t) e (inr (g, refl, w, refl, rw (← there) h))
    ]
    Safe-install (fresh b s had _) t w g there h =
        fresh b s had (inr (g, refl, w, refl, rw (← there) h))

    pub Safe-backup_ready : Safe o e p c → Safe o e (record p { backup_ready = true }) c
    Safe-backup_ready (moved f b s h had m) = moved f b s h had m
    Safe-backup_ready (still b t had staged) = still b t had staged
    Safe-backup_ready (fresh b s had n) = fresh b s had n

    -- A staged file stays only behind an entry that is not installed.
    pub Safe-installed :
        Safe o e p c
        → (e.action ≡ write → c.staged ≡ none)
        → Safe o e (record p { installed = true }) c
    Safe-installed (moved f b s h had m) n = moved f b s h had m
    Safe-installed (still b t had staged) n =
        still b t had (λ h w. let (g, _, there) = staged h w in let gone = n w in absurd (cc))
    Safe-installed (fresh b s had m) n = fresh b s had m
