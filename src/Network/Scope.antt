-- ===== src/Network/Scope.antt =====
-- Which chains and rules the reconciler touches, whatever iptables answers.
mod Rules
mod Owned
pub mod Reconciled
use openvpn_docker.Actions.{◌>>=◌, ◌>>◌, pure, fail, lift}
use openvpn_docker.Actions.Triples.{
  Ensures, Post, Ensures-pure, Ensures-fail, Ensures-bind, Ensures-seq, Ensures-if, Ensures-return,
  Ensures-lift, Ensures-conclude, Ensures-weaken,
}
use openvpn_docker.Domain.Config.{IPv4Config}
use openvpn_docker.Network.{
  Act, Answer, Call, Identity, NetworkError, Verb, append, both, call, check, cleanup, construct,
  delete, delete_chain, done, ensure_jump, flush, insert, iptables, jump_rule, jump_tag, new,
  not_owned, or_undo, owner_rule, owner_tag, prepare_chain, query, reconcile, remove_chain,
  remove_jump, remove_jump_loop, remove_owned, show, too_many_jumps, undo, ◌+s◌, outcome, strict,
  join_errors,
}
use openvpn_docker.Prelude.{
  ℕ, zero, suc, String, ◌≡◌, refl, sym, ap, ◌∙◌, ◌⊎◌, inl, inr, Bool, true, false, not, ◌&&◌, ◌||◌,
  List, [], ◌∷◌, ◌++◌, arith, ltb, if◌then◌else◌, str_eq, length, All, All-append, Result, ok, err,
  Bool-cases,
}

abbrev pub IsReading : Verb → Type 0
IsReading show = Unit
IsReading check = Unit
IsReading _ = ⊥

-- Every verb but the one that deletes a chain.
abbrev pub KeepsChains : Verb → Type 0
KeepsChains delete_chain = ⊥
KeepsChains _ = Unit

-- A chain with one of the names of the instance.
abbrev pub IsOwn : Identity → String → Type 0
IsOwn i chain =
    (chain ≡ i.filter_chain)
    ⊎ ((chain ≡ i.nat_chain) ⊎ ((chain ≡ i.legacy_filter) ⊎ (chain ≡ i.legacy_nat)))

abbrev pub parent_of : String → String
parent_of table = if str_eq table "nat" then "POSTROUTING" else "FORWARD"

-- Calls whose success shows that a chain is the instance's: the chain is made; the owner's rule is
-- found in it; or the instance's jump to it is found in the parent chain.
abbrev pub Shows : Identity → String → String → Call → Type 0
Shows i table chain c =
    (c ≡ call table new chain [])
    ⊎ ((c ≡ call table check chain (owner_rule (i.comment +s owner_tag table)))
        ⊎ (c ≡ call table check (parent_of table) (jump_rule (i.comment +s jump_tag table) chain)))

module _ (answer : List Call → Call → Answer) (i : Identity) where
  -- Among the calls so far one has shown the chain to be the instance's, and no chain has been
  -- deleted since.
  abbrev pub IsShown : String → String → List Call → Type 0
  IsShown table chain s =
      (p : List Call) × (e : Call) × (q : List Call) × (s ≡ p ++ e ∷ q)
      × (answer p e ≡ done)
      × Shows i table chain e
      × All (λ c. KeepsChains c.verb) q

  -- A call that reads; that makes a chain of the instance, or changes one that has been shown to be
  -- the instance's; or that adds or deletes a jump to a chain of the instance, whose comment is the
  -- instance's with a tag.
  abbrev pub InScope : List Call → Call → Type 0
  InScope s c =
      IsReading c.verb
      ⊎ ((IsOwn i c.chain × ((c.verb ≡ new) ⊎ IsShown c.table c.chain s))
          ⊎ (((c.verb ≡ append) ⊎ (c.verb ≡ delete))
              × ((chain : String) × (tag : String) × (IsOwn i chain
                    × (c.rule ≡ jump_rule (i.comment +s tag) chain)))))

  -- Each call of the list is in scope after those before it.
  abbrev pub AreInScope : List Call → List Call → Type 0
  AreInScope before [] = Unit
  AreInScope before (c ∷ cs) = InScope before c × AreInScope (before ++ c ∷ []) cs
