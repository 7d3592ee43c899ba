-- ===== src/Network/Scope/Rules.antt =====
-- One rule for each of the two kinds of iptables calls: what it needs and what is known after it.
use openvpn_docker.Actions.Triples.{Ensures, Post}
use openvpn_docker.Network.Scope.{AreInScope, InScope, IsReading, IsShown, KeepsChains, Shows}
use openvpn_docker.Network.{
  Answer, Call, Identity, Verb, absent, append, broken, check, delete, delete_chain, done, flush,
  insert, iptables, new, outcome, query, show, strict,
}
use openvpn_docker.Prelude.{
  String, ◌≡◌, refl, sym, ap, ◌∙◌, inl, true, List, [], ◌∷◌, ◌++◌, All-append,
}

append-one : (b s : List Call) (c : Call) → (b ++ c ∷ []) ++ s ≡ b ++ c ∷ s
append-one [] s c = refl
append-one (x ∷ b) s c = rw (append-one b s c) refl

append_assoc : (a b c : List Call) → (a ++ b) ++ c ≡ a ++ (b ++ c)
append_assoc [] b c = refl
append_assoc (x ∷ a) b c = rw (append_assoc a b c) refl

append_nil : (a : List Call) → a ++ [] ≡ a
append_nil [] = refl
append_nil (x ∷ a) = rw (append_nil a) refl

reading-KeepsChains : (v : Verb) → IsReading v → KeepsChains v
reading-KeepsChains show r = tt
reading-KeepsChains check r = tt
reading-KeepsChains new r = tt
reading-KeepsChains flush r = tt
reading-KeepsChains append r = tt
reading-KeepsChains delete r = tt
reading-KeepsChains (insert n) r = tt
reading-KeepsChains delete_chain r = r

module _ (answer : List Call → Call → Answer) (i : Identity) where
  InScope-append :
      (b s t : List Call) (c : Call)
      → t ≡ b ++ s
      → AreInScope answer i b s
      → InScope answer i t c
      → AreInScope answer i b (s ++ c ∷ [])
  InScope-append b [] t c e h k = let same = e ∙ append_nil b in (rw same at k, tt)
  InScope-append b (x ∷ s) t c e h k =
      (h.0, InScope-append (b ++ x ∷ []) s t c (e ∙ sym (append-one b s x)) h.1 k)

  -- All calls so far are in scope.
  abbrev pub IsGood : List Call → Type 0
  IsGood s = AreInScope answer i [] s

  pub IsGood-append :
      (s : List Call) (c : Call) → IsGood s → InScope answer i s c → IsGood (s ++ c ∷ [])
  IsGood-append s c h k = InScope-append [] s s c refl h k

  -- A fact that lasts while no chain is deleted.
  abbrev pub IsLasting : (List Call → Type 0) → Type 0
  IsLasting K = (s : List Call) (c : Call) → KeepsChains c.verb → K s → K (s ++ c ∷ [])

  pub IsShown-IsLasting : (table chain : String) → IsLasting (IsShown answer i table chain)
  IsShown-IsLasting table chain s c keeps (p, e, q, at, answered, shows, later) = (
    p,
    e,
    q ++ c ∷ [],
    ap (λ x. x ++ c ∷ []) at ∙ append_assoc p (e ∷ q) (c ∷ []),
    answered,
    shows,
    All-append (λ x. KeepsChains x.verb) q (c ∷ []) later (keeps, tt),
  )

  pub ask :
      {K : List Call → Type 0} (c : Call)
      → IsReading c.verb
      → IsLasting K
      → Ensures
          (λ s. IsGood s × K s)
          (query answer c)
          (λ b s.
            IsGood s
            × K s
            × (b ≡ true
                → (table chain : String) → Shows i table chain c
                → IsShown answer i table chain s))
          IsGood
  unfolding query
  ask {K} c reads lasting = record { at = λ s (g, k). from_answer s g k (answer s c) refl }
    where
      from_answer :
          (s : List Call)
          → IsGood s
          → K s
          → (a : Answer) → answer s c ≡ a
          → Post
              (λ b s.
                IsGood s
                × K s
                × (b ≡ true
                    → (table chain : String) → Shows i table chain c
                    → IsShown answer i table chain s))
              IsGood
              (outcome answer a, s ++ c ∷ [])
      from_answer s g k done e = (
        IsGood-append s c g (inl reads),
        lasting s c (reading-KeepsChains c.verb reads) k,
        λ t table chain shows. (s, c, [], refl, e, shows, tt),
      )
      from_answer s g k absent e = (
        IsGood-append s c g (inl reads),
        lasting s c (reading-KeepsChains c.verb reads) k,
        λ t. cc t,
      )
      from_answer s g k broken e = IsGood-append s c g (inl reads)

  pub change :
      {P : List Call → Type 0} {Q : List Call → Type 0} (c : Call)
      → ((s : List Call) → P s → IsGood s × InScope answer i s c)
      → ((s : List Call) → P s → answer s c ≡ done → Q (s ++ c ∷ []))
      → Ensures P (iptables answer c) (λ _ s. IsGood s × Q s) IsGood
  unfolding iptables
  change {P} {Q} c scope after = record { at = λ s p. from_answer s p (answer s c) refl }
    where
      from_answer :
          (s : List Call)
          → P s
          → (a : Answer) → answer s c ≡ a
          → Post (λ _ s. IsGood s × Q s) IsGood (strict answer a, s ++ c ∷ [])
      from_answer s p done e = let (g, k) = scope s p in (IsGood-append s c g k, after s p e)
      from_answer s p absent e = let (g, k) = scope s p in IsGood-append s c g k
      from_answer s p broken e = let (g, k) = scope s p in IsGood-append s c g k
