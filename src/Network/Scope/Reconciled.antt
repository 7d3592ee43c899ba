-- ===== src/Network/Scope/Reconciled.antt =====
-- Every call of a reconciliation is in scope after those before it: Cleanup and Reconcile of
-- internal/network/network.go.
use openvpn_docker.Actions.Triples.{
  Ensures, Post, Ensures-conclude, Ensures-if, Ensures-lift, Ensures-pure, Ensures-return,
  Ensures-seq,
}
use openvpn_docker.Domain.Config.{IPv4Config}
use openvpn_docker.Network.Scope.Rules.{IsShown-IsLasting}
use openvpn_docker.Network.Scope.{AreInScope}
use openvpn_docker.Network.{
  Act, Answer, Call, Identity, NetworkError, both, call, cleanup, construct, insert, join_errors,
  or_undo, reconcile, undo,
}
use openvpn_docker.Prelude.{
  String, refl, inl, inr, Bool, not, ◌&&◌, ◌||◌, List, [], ltb, str_eq, length, Result, ok, err,
}
use openvpn_docker.Network.Scope.Owned.{
  Good, Safe, Shown, ensure_jump-Keeps, prepare_chain-Shown, remove_chain-Safe, work-Shown,
}

module _ (answer : List Call → Call → Answer) (i : Identity) where
  joined-Post :
      (r q : Result NetworkError (Unit {0})) (s : List Call)
      → Good answer i s
      → Post (λ _. Good answer i) (Good answer i) (join_errors r q, s)
  joined-Post (err e) q s g = g
  joined-Post (ok u) (ok v) s g = g
  joined-Post (ok u) (err e) s g = g

  any-Good :
      (r : Result NetworkError (Unit {0}) × List Call)
      → Post (λ _. Good answer i) (Good answer i) r
      → Good answer i r.1
  any-Good (ok u, s) g = g
  any-Good (err e, s) g = g

  both-Safe : (m n : Act (Unit {0})) → Safe answer i m → Safe answer i n → Safe answer i (both m n)
  unfolding both
  both-Safe m n h k = record {
    at = λ s g.
        let (r, s') = m s in
        joined-Post r (n s').0 (n s').1 (any-Good (n s') (k.at s' (any-Good (m s) (h.at s g))));
  }

  or_undo-Safe :
      (m cleanup' : Act (Unit {0}))
      → Safe answer i m
      → Safe answer i cleanup'
      → Safe answer i (or_undo m cleanup')
  unfolding or_undo
  or_undo-Safe m cleanup' h k = record { at = λ s g. undone (m s) (h.at s g) }
    where
      undone :
          (r : Result NetworkError (Unit {0}) × List Call)
          → Post (λ _. Good answer i) (Good answer i) r
          → Post (λ _. Good answer i) (Good answer i) (undo cleanup' r)
      undone (ok u, s) g = g
      undone (err e, s) g = any-Good (cleanup' s) (k.at s g)

  cleanup-Safe : Safe answer i (cleanup answer i)
  unfolding cleanup
  cleanup-Safe =
      let current =
        both-Safe _ _ (remove_chain-Safe answer i "nat" i.nat_chain (inr (inl refl)))
          (remove_chain-Safe answer i "filter" i.filter_chain (inl refl)) in
      let legacy =
        both-Safe _ _ (remove_chain-Safe answer i "nat" i.legacy_nat (inr (inr (inr refl))))
          (remove_chain-Safe answer i "filter" i.legacy_filter (inr (inr (inl refl)))) in
      Ensures-if (str_eq i.legacy_filter i.filter_chain && str_eq i.legacy_nat i.nat_chain)
        (λ _. current) (λ _. both-Safe _ _ current legacy)

  forget :
      {K : List Call → Type 0} {m : Act (Unit {0})}
      → Ensures (Good answer i) m (λ _ s. Good answer i s × K s) (Good answer i)
      → Safe answer i m
  forget h = Ensures-conclude h (λ _ s (g, _). g)

  construct-Safe :
      (network iface : String) (nat_enabled : Bool)
      → Safe answer i (construct answer i network iface nat_enabled)
  unfolding construct
  construct-Safe network iface nat_enabled =
      Ensures-seq (Good answer i)
        (forget (
          Ensures-seq (λ s. Good answer i s × Shown answer i "filter" i.filter_chain s)
            (Ensures-seq (λ s. Good answer i s × Shown answer i "filter" i.filter_chain s)
              (Ensures-seq (λ s. Good answer i s × Shown answer i "filter" i.filter_chain s)
                (prepare_chain-Shown answer i "filter" i.filter_chain (inl refl))
                (work-Shown answer i (call "filter" (insert 1) i.filter_chain _) (inl refl) tt))
              (work-Shown answer i (call "filter" (insert 2) i.filter_chain _) (inl refl) tt))
            (ensure_jump-Keeps answer i "filter" "FORWARD" i.filter_chain ":forward" (inl refl)
              (IsShown-IsLasting answer i "filter" i.filter_chain))))
        (Ensures-if (not nat_enabled) (λ _. Ensures-pure tt _ (λ s g. g))
          (λ _. forget (
            Ensures-seq (λ s. Good answer i s × Shown answer i "nat" i.nat_chain s)
              (Ensures-seq (λ s. Good answer i s × Shown answer i "nat" i.nat_chain s)
                (prepare_chain-Shown answer i "nat" i.nat_chain (inr (inl refl)))
                (work-Shown answer i (call "nat" (insert 1) i.nat_chain _) (inr (inl refl)) tt))
              (ensure_jump-Keeps answer i "nat" "POSTROUTING" i.nat_chain ":nat" (inr (inl refl))
                (IsShown-IsLasting answer i "nat" i.nat_chain)))))

-- Whatever iptables answers, each call of a reconciliation, with the cleanup that it makes after a
-- failure, either reads; or makes a chain with a name of the instance; or changes or deletes one, and
-- then an earlier call of it has made this chain, or has found the owner's rule in it or the instance's
-- jump to it, and no chain was deleted in between; or it adds or deletes a jump to a chain with a name
-- of the instance, whose comment is the instance's with a tag.
pub reconcile-AreInScope :
    (answer : List Call → Call → Answer) (i : Identity) (config : IPv4Config) (network : String)
    (forwarding : Result NetworkError (Unit {0})) (iface : Result NetworkError String)
    → AreInScope answer i [] (reconcile answer i config network forwarding iface []).1
unfolding reconcile
reconcile-AreInScope answer i config network forwarding iface = any-Good answer i _ (
    (Ensures-if
        (not (config.nat_enabled || (config.redirect_gateway || ltb 0 (length config.routes))))
        (λ _. cleanup-Safe answer i)
        (λ _. Ensures-seq (Good answer i) (cleanup-Safe answer i) (
          or_undo-Safe answer i _ _
            (Ensures-seq (Good answer i) (Ensures-return forwarding (λ a _ s g. g) (λ s g. g)) (
              Ensures-lift iface (λ name _. construct-Safe answer i network name config.nat_enabled)
                (λ e _ s g. g)))
            (cleanup-Safe answer i)))).at
      [] tt)
