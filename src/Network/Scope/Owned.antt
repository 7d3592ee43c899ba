-- ===== src/Network/Scope/Owned.antt =====
-- The chains and jumps of internal/network/network.go, step by step: what removeChain and prepareChain
-- have found before they change a chain.
use openvpn_docker.Actions.Triples.{
  Ensures, Ensures-bind, Ensures-conclude, Ensures-fail, Ensures-if, Ensures-pure, Ensures-seq,
  Ensures-weaken,
}
use openvpn_docker.Network.Scope.Rules.{IsGood, IsLasting, ask, change, IsShown-IsLasting}
use openvpn_docker.Network.Scope.{InScope, IsOwn, IsShown, KeepsChains, parent_of}
use openvpn_docker.Network.{
  Act, Answer, Call, Identity, Verb, append, call, check, delete, delete_chain, ensure_jump, flush,
  iptables, jump_rule, jump_tag, new, not_owned, owner_rule, owner_tag, prepare_chain, remove_chain,
  remove_jump, remove_jump_loop, remove_owned, show, too_many_jumps, ◌+s◌,
}
use openvpn_docker.Prelude.{
  ℕ, zero, suc, String, ◌≡◌, ◌⊎◌, ◌++◌, refl, inl, inr, Bool, true, false, ◌||◌, List, [], ◌∷◌,
}

module _ (answer : List Call → Call → Answer) (i : Identity) where
  abbrev pub Good : List Call → Type 0
  Good = IsGood answer i

  abbrev pub Shown : String → String → List Call → Type 0
  Shown = IsShown answer i

  -- From calls that are in scope, an action adds such calls, and keeps a fact.
  abbrev pub Keeps : (List Call → Type 0) → Act (Unit {0}) → Type 0
  Keeps K m = Ensures (λ s. Good s × K s) m (λ _ s. Good s × K s) Good

  abbrev pub Safe : Act (Unit {0}) → Type 0
  Safe m = Ensures Good m (λ _. Good) Good

  jump_scope :
      (s : List Call) (table parent chain tag : String) (verb : Verb)
      → (verb ≡ append) ⊎ (verb ≡ delete)
      → IsOwn i chain
      → InScope answer i s (call table verb parent (jump_rule (i.comment +s tag) chain))
  jump_scope s table parent chain tag verb v own = inr (inr (v, (chain, tag, (own, refl))))

  remove_jump_loop-Keeps :
      {K : List Call → Type 0} (left : ℕ) (table parent chain tag : String)
      → IsOwn i chain
      → IsLasting answer i K
      → Keeps K (remove_jump_loop answer left table parent (jump_rule (i.comment +s tag) chain))
  unfolding remove_jump_loop
  remove_jump_loop-Keeps zero table parent chain tag own lasting =
      Ensures-fail too_many_jumps _ (λ s p. p.0)
  remove_jump_loop-Keeps {K} (suc left) table parent chain tag own lasting =
      let c = call table delete parent (jump_rule (i.comment +s tag) chain) in
      Ensures-bind _
        (ask answer i (call table check parent (jump_rule (i.comment +s tag) chain)) tt lasting)
        (elim [
          | false ↦ Ensures-pure tt _ (λ s (g, k, _). (g, k))
          | true ↦
              Ensures-seq (λ s. Good s × K s)
                (change answer i c
                  (λ s (g, k, _). (g, jump_scope s table parent chain tag delete (inr refl) own))
                  (λ s (g, k, _) _. lasting s c tt k))
                (remove_jump_loop-Keeps left table parent chain tag own lasting)
        ])

  remove_jump-Keeps :
      {K : List Call → Type 0} (table parent chain tag : String)
      → IsOwn i chain
      → IsLasting answer i K
      → Keeps K (remove_jump answer table parent chain (i.comment +s tag))
  unfolding remove_jump
  remove_jump-Keeps table parent chain tag own lasting =
      remove_jump_loop-Keeps 64 table parent chain tag own lasting

  pub ensure_jump-Keeps :
      {K : List Call → Type 0} (table parent chain tag : String)
      → IsOwn i chain
      → IsLasting answer i K
      → Keeps K (ensure_jump answer table parent chain (i.comment +s tag))
  unfolding ensure_jump
  ensure_jump-Keeps {K} table parent chain tag own lasting =
      let c = call table append parent (jump_rule (i.comment +s tag) chain) in
      Ensures-seq (λ s. Good s × K s) (remove_jump-Keeps table parent chain tag own lasting)
        (change answer i c
          (λ s (g, k). (g, jump_scope s table parent chain tag append (inl refl) own))
          (λ s (g, k) _. lasting s c tt k))

  -- A change inside a chain that has been shown to be the instance's.
  work :
      {K : List Call → Type 0} (c : Call)
      → IsOwn i c.chain
      → ((s : List Call) → K s → Shown c.table c.chain s)
      → ((s : List Call) → K s → K (s ++ c ∷ []))
      → Keeps K (iptables answer c)
  work c own shown lasting =
      change answer i c (λ s (g, k). (g, inr (inl (own, inr (shown s k)))))
        (λ s (g, k) _. lasting s k)

  pub work-Shown :
      (c : Call)
      → IsOwn i c.chain
      → KeepsChains c.verb
      → Keeps (Shown c.table c.chain) (iptables answer c)
  work-Shown c own keeps =
      work c own (λ s k. k) (λ s k. IsShown-IsLasting answer i c.table c.chain s c keeps k)

  remove_owned-Safe :
      (table parent chain tag : String) (owned : Bool)
      → IsOwn i chain
      → Ensures
          (λ s. Good s × (owned ≡ true → Shown table chain s))
          (remove_owned answer table parent chain (i.comment +s tag) owned)
          (λ _. Good)
          Good
  unfolding remove_owned
  remove_owned-Safe table parent chain tag owned own =
      Ensures-if owned
        (λ e.
          Ensures-weaken (λ s (g, k). (g, k e))
            (Ensures-seq (λ s. Good s × Shown table chain s)
              (Ensures-seq (λ s. Good s × Shown table chain s)
                (remove_jump-Keeps table parent chain tag own
                  (IsShown-IsLasting answer i table chain))
                (work-Shown (call table flush chain []) own tt))
              (Ensures-conclude
                (change answer i {Q = λ _. Unit} (call table delete_chain chain [])
                  (λ s (g, k). (g, inr (inl (own, inr k)))) (λ s p _. tt))
                (λ _ s (g, _). g))))
        (λ _. Ensures-fail not_owned _ (λ s (g, _). g))

  pub remove_chain-Safe :
      (table chain : String)
      → IsOwn i chain
      → Safe (remove_chain answer table (parent_of table) chain i.comment)
  unfolding remove_chain
  remove_chain-Safe table chain own =
      let parent = parent_of table in
      Ensures-weaken (λ s g. (g, tt))
        (Ensures-bind _ (ask answer i {K = λ _. Unit} (call table show chain []) tt (λ s c _ _. tt))
          (elim [
            | false ↦ Ensures-pure tt _ (λ s (g, _, _). g)
            | true ↦
                Ensures-weaken {P = λ s. Good s × Unit} (λ s (g, _, _). (g, tt))
                  (Ensures-bind _
                    (ask answer i {K = λ _. Unit}
                      (call table check parent (jump_rule (i.comment +s jump_tag table) chain)) tt
                      (λ s c _ _. tt))
                    (λ jump_owned.
                      Ensures-weaken {P = λ s. Good s × (jump_owned ≡ true → Shown table chain s)}
                        (λ s (g, _, f). (g, λ e. f e table chain (inr (inr refl))))
                        (Ensures-bind _
                          (ask answer i {K = λ s. jump_owned ≡ true → Shown table chain s}
                            (call table check chain (owner_rule (i.comment +s owner_tag table))) tt
                            (λ s c keeps k e.
                              IsShown-IsLasting answer i table chain s c keeps (k e)))
                          (λ marker_owned.
                            Ensures-weaken
                              (λ s (g, k, f). (
                                g,
                                either jump_owned marker_owned k
                                    (λ e. f e table chain (inr (inl refl))),
                              ))
                              (remove_owned-Safe table parent chain (jump_tag table)
                                (jump_owned || marker_owned) own)))))
          ]))
    where
      either : {A : Type 0} (a b : Bool) → (a ≡ true → A) → (b ≡ true → A) → (a || b) ≡ true → A
      either true b f g e = f refl
      either false b f g e = g e

  pub prepare_chain-Shown :
      (table chain : String)
      → IsOwn i chain
      → Ensures Good
          (prepare_chain answer table chain (i.comment +s owner_tag table))
          (λ _ s. Good s × Shown table chain s)
          Good
  unfolding prepare_chain
  prepare_chain-Shown table chain own =
      let owner = owner_rule (i.comment +s owner_tag table) in
      let made = call table new chain [] in
      Ensures-weaken (λ s g. (g, tt))
        (Ensures-seq (λ s. Good s × Shown table chain s)
          (Ensures-seq (λ s. Good s × Shown table chain s)
            (Ensures-bind _
              (ask answer i {K = λ _. Unit} (call table show chain []) tt (λ s c _ _. tt))
              (elim [
                | false ↦
                    change answer i made (λ s (g, _, _). (g, inr (inl (own, inl refl))))
                      (λ s _ e. (s, made, [], refl, e, inl refl, tt))
                | true ↦
                    Ensures-weaken {P = λ s. Good s × Unit} (λ s (g, _, _). (g, tt))
                      (Ensures-bind _
                        (ask answer i {K = λ _. Unit} (call table check chain owner) tt
                          (λ s c _ _. tt))
                        (λ owned.
                          Ensures-if owned
                            (λ e.
                              Ensures-pure tt _
                                (λ s (g, _, f). (g, f e table chain (inr (inl refl)))))
                            (λ _. Ensures-fail not_owned _ (λ s (g, _, _). g))))
              ]))
            (work-Shown (call table flush chain []) own tt))
          (work-Shown (call table append chain owner) own tt))
