-- ===== src/Network/Tests.antt =====
-- A reconciliation where no chain exists yet, and the theorem at it.
use openvpn_docker.Prelude.{◌≡◌, refl, List, [], length, ok}
use openvpn_docker.Actions.{◌>>◌, ◌>>=◌, pure, fail, lift}
use openvpn_docker.Examples.{sample_config}
use openvpn_docker.Network.{
  both, or_undo, construct, prepare_chain, iptables, ensure_jump, remove_jump, cleanup,
  remove_chain, query, Identity, Call, Answer, Verb, reconcile, done, absent, cleanup, remove_chain,
  query,
}
use openvpn_docker.Network.Scope.{AreInScope}
use openvpn_docker.Network.Scope.Reconciled.{reconcile-AreInScope}

abbrev identity : Identity
identity = record {
  filter_chain = "OVPN-FWD-1111";
  nat_chain = "OVPN-NAT-1111";
  legacy_filter = "OVPN-FWD-1";
  legacy_nat = "OVPN-NAT-1";
  comment = "openvpn-container:1111";
}

-- Nothing that is asked for is there, and every change succeeds.
abbrev fresh_answer : Verb → Answer
fresh_answer Verb.show = absent
fresh_answer Verb.check = absent
fresh_answer _ = done

abbrev fresh : List Call → Call → Answer
fresh before c = fresh_answer c.verb

-- Four reads of the cleanup, and fifteen calls of the construction.
is_constructed :
    length (reconcile fresh identity sample_config.ipv4 "10.42.0.0/29" (ok tt) (ok "eth0") []).1
    ≡ 19
unfolding reconcile ◌>>◌ ◌>>=◌ pure fail lift cleanup both remove_chain query or_undo construct
    prepare_chain iptables ensure_jump remove_jump
is_constructed = refl

reconcile-AreInScope_example :
    AreInScope fresh identity []
      (reconcile fresh identity sample_config.ipv4 "10.42.0.0/29" (ok tt) (ok "eth0") []).1
reconcile-AreInScope_example =
    reconcile-AreInScope fresh identity sample_config.ipv4 "10.42.0.0/29" (ok tt) (ok "eth0")
