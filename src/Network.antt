-- ===== src/Network.antt =====
-- internal/network/network.go: the iptables rules of one instance. An iptables call is a value, and
-- `answer` says what the kernel answers to a call after the calls that went before it.
pub mod Scope
mod Tests
use openvpn_docker.Prelude.{
  ℕ, zero, suc, ◌+◌, ◌-◌, ◌*◌, ◌/◌, ◌%◌, ◌^◌, ◌≤◌, ◌<◌, String, ◌≡◌, refl, sym, ap, ◌∙◌, ◌≢◌, ◌↔◌,
  ◌⊎◌, inl, inr, Bool, true, false, not, ◌&&◌, ◌||◌, Option, none, some, List, [], ◌∷◌, ◌++◌, map,
  arith, eq_iff, eq_refl, ltb, leb, ◌==◌, if◌then◌else◌, Bool-cases, Option-cases, str_eq, length,
  length-append, All, All-append, has, IsDistinct, has-append, ==_iff, ltb→lt, leb→le, Result, ok,
  err, refuse_if, Result-cases, refuse_if-ok, ok-injective,
}
use openvpn_docker.Actions
use openvpn_docker.Actions.{pure, fail, lift, ◌>>=◌, ◌>>◌}
use Prim.Native.String.{◌++◌ as str_append}
use Prim.Native.Char.{code}
use openvpn_docker.Domain.{ipv4}
use openvpn_docker.Domain.Ids.{valid_uuid, codes}
use openvpn_docker.Domain.Config.{Config, IPv4Config}
use openvpn_docker.Ipam.{new_ipv4_layout}

pub data NetworkError : Type 0 where
  invalid_instance invalid_network invalid_layout invalid_interface : NetworkError
  unavailable unexpected_forwarding not_owned too_many_jumps command_failed : NetworkError

pub data Verb : Type 0 where
  show new flush delete_chain append check delete : Verb
  insert : ℕ → Verb

-- One call: `-w -t table`, the verb, the chain and the rule.
pub record Call : Type 0 where
  pub table : String
  pub verb : Verb
  pub chain : String
  pub rule : List String

abbrev pub flag : Verb → List String → List String
flag show rest = "-S" ∷ rest
flag new rest = "-N" ∷ rest
flag flush rest = "-F" ∷ rest
flag delete_chain rest = "-X" ∷ rest
flag append rest = "-A" ∷ rest
flag check rest = "-C" ∷ rest
flag delete rest = "-D" ∷ rest
flag (insert _) rest = "-I" ∷ rest

-- fmt.Sprint of a rule's position is an argument.
abbrev pub position : (ℕ → String) → Verb → List String → List String
position digits (insert n) rest = digits n ∷ rest
position digits _ rest = rest

unfoldable pub arguments : (ℕ → String) → Call → List String
arguments digits c = "-w" ∷ "-t" ∷ c.table ∷ flag c.verb (c.chain ∷ position digits c.verb c.rule)

-- The command succeeded; or it failed with exit code 1; or in another way.
pub data Answer : Type 0 where
  done absent broken : Answer

abbrev pub Act : Type 0 → Type 0
Act A = Actions.Act (List Call) NetworkError A

abbrev pub join_errors :
    Result NetworkError (Unit {0}) → Result NetworkError (Unit {0}) → Result NetworkError (Unit {0})
join_errors (err e) r = err e
join_errors (ok _) r = r

-- errors.Join: both run, and the first error is kept.
unfoldable pub both : Act (Unit {0}) → Act (Unit {0}) → Act (Unit {0})
both m n s = let (r, s') = m s in let (q, s'') = n s' in (join_errors r q, s'')

-- The rule of a jump, and the owner's rule.
abbrev pub jump_rule : String → String → List String
jump_rule comment chain = "-m" ∷ "comment" ∷ "--comment" ∷ comment ∷ "-j" ∷ chain ∷ []

unfoldable pub owner_rule : String → List String
owner_rule comment = "-m" ∷ "comment" ∷ "--comment" ∷ comment ∷ "-j" ∷ "RETURN" ∷ []

abbrev pub call : String → Verb → String → List String → Call
call table verb chain rule = record { table = table; verb = verb; chain = chain; rule = rule }

infixr 66 ◌+s◌
abbrev pub ◌+s◌ : String → String → String
s +s t = str_append s t

-- The tag that ends a comment: TrimSuffix of the tag leaves the instance's comment.
abbrev pub jump_tag : String → String
jump_tag table = if str_eq table "nat" then ":nat" else ":forward"

abbrev pub owner_tag : String → String
owner_tag table = if str_eq table "nat" then ":nat-owner" else ":filter-owner"

abbrev pub undo :
    Act (Unit {0})
    → Result NetworkError (Unit {0}) × List Call
    → Result NetworkError (Unit {0}) × List Call
undo cleanup' (ok u, s) = (ok u, s)
undo cleanup' (err e, s) = (err e, (cleanup' s).1)

-- The deferred cleanup of a partial construction; its own errors are dropped.
unfoldable pub or_undo : Act (Unit {0}) → Act (Unit {0}) → Act (Unit {0})
or_undo m cleanup' s = undo cleanup' (m s)

-- What identities and legacyIdentities return for an instance.
pub record Identity : Type 0 where
  pub filter_chain : String
  pub nat_chain : String
  pub legacy_filter : String
  pub legacy_nat : String
  pub comment : String

module _ (answer : List Call → Call → Answer) where
  abbrev pub outcome : Answer → Result NetworkError Bool
  outcome done = ok true
  outcome absent = ok false
  outcome broken = err command_failed

  -- A call whose failure with exit code 1 means `no`.
  unfoldable pub query : Call → Act Bool
  query c s = (outcome (answer s c), s ++ c ∷ [])

  abbrev pub strict : Answer → Result NetworkError (Unit {0})
  strict done = ok tt
  strict _ = err command_failed

  -- A call whose every failure is an error.
  unfoldable pub iptables : Call → Act (Unit {0})
  iptables c s = (strict (answer s c), s ++ c ∷ [])

  abbrev pub chain_exists : String → String → Act Bool
  chain_exists table chain = query (call table show chain [])

  abbrev pub rule_exists : String → String → List String → Act Bool
  rule_exists table chain rule = query (call table check chain rule)

  abbrev then_remove : Act (Unit {0}) → Act (Unit {0}) → Bool → Act (Unit {0})
  then_remove remove rest true = remove >> rest
  then_remove remove rest false = pure tt

  -- The loop of removeJump, with the rounds left of 64.
  remove_jump_loop : ℕ → String → String → List String → Act (Unit {0})
  remove_jump_loop zero table parent rule = fail too_many_jumps
  remove_jump_loop (suc left) table parent rule =
      let rest = remove_jump_loop left table parent rule in
      query (call table check parent rule)
      >>= then_remove (iptables (call table delete parent rule)) rest

  unfoldable pub remove_jump : String → String → String → String → Act (Unit {0})
  unfolding remove_jump_loop
  remove_jump table parent chain comment =
      remove_jump_loop 64 table parent (jump_rule comment chain)

  unfoldable pub ensure_jump : String → String → String → String → Act (Unit {0})
  ensure_jump table parent chain comment =
      remove_jump table parent chain comment
      >> iptables (call table append parent (jump_rule comment chain))

  unfoldable pub remove_owned : String → String → String → String → Bool → Act (Unit {0})
  remove_owned table parent chain comment owned =
      if owned
      then (remove_jump table parent chain comment
          >> iptables (call table flush chain [])
          >> iptables (call table delete_chain chain []))
      else fail not_owned

  abbrev removal_checks : String → String → String → String → Bool → Act (Unit {0})
  removal_checks table parent chain instance' false = pure tt
  removal_checks table parent chain instance' true =
      rule_exists table parent (jump_rule (instance' +s jump_tag table) chain) >>= λ jump_owned.
      rule_exists table chain (owner_rule (instance' +s owner_tag table)) >>= λ marker_owned.
      remove_owned table parent chain (instance' +s jump_tag table) (jump_owned || marker_owned)

  -- `instance'` is the instance's comment, without the tag.
  unfoldable pub remove_chain : String → String → String → String → Act (Unit {0})
  unfolding remove_owned
  remove_chain table parent chain instance' =
      chain_exists table chain >>= removal_checks table parent chain instance'

  abbrev claim : String → String → String → Bool → Act (Unit {0})
  claim table chain owner false = iptables (call table new chain [])
  claim table chain owner true = rule_exists table chain (owner_rule owner) >>= λ owned.
      if owned then pure tt else fail not_owned

  unfoldable pub prepare_chain : String → String → String → Act (Unit {0})
  prepare_chain table chain owner =
      chain_exists table chain
      >>= claim table chain owner
      >> iptables (call table flush chain [])
      >> iptables (call table append chain (owner_rule owner))

  -- The names of an instance: its chains and those of the former naming, and its comment.
  abbrev cleanup_current : Identity → Act (Unit {0})
  cleanup_current i =
      both (remove_chain "nat" "POSTROUTING" i.nat_chain i.comment)
        (remove_chain "filter" "FORWARD" i.filter_chain i.comment)

  abbrev cleanup_legacy : Identity → Act (Unit {0})
  cleanup_legacy i =
      both (remove_chain "nat" "POSTROUTING" i.legacy_nat i.comment)
        (remove_chain "filter" "FORWARD" i.legacy_filter i.comment)

  -- Cleanup, for an instance whose identifier is valid.
  unfoldable pub cleanup : Identity → Act (Unit {0})
  cleanup i =
      if str_eq i.legacy_filter i.filter_chain && str_eq i.legacy_nat i.nat_chain
      then cleanup_current i
      else both (cleanup_current i) (cleanup_legacy i)

  abbrev egress_rule : String → String → String → List String
  egress_rule network iface comment =
      "-s"
      ∷ network
      ∷ "-o"
      ∷ iface
      ∷ "-m"
      ∷ "comment"
      ∷ "--comment"
      ∷ (comment +s ":egress")
      ∷ "-j"
      ∷ "ACCEPT"
      ∷ []

  abbrev return_rule : String → String → String → List String
  return_rule network iface comment =
      "-d"
      ∷ network
      ∷ "-i"
      ∷ iface
      ∷ "-m"
      ∷ "conntrack"
      ∷ "--ctstate"
      ∷ "RELATED,ESTABLISHED"
      ∷ "-m"
      ∷ "comment"
      ∷ "--comment"
      ∷ (comment +s ":return")
      ∷ "-j"
      ∷ "ACCEPT"
      ∷ []

  abbrev masquerade_rule : String → String → String → List String
  masquerade_rule network iface comment =
      "-s"
      ∷ network
      ∷ "-o"
      ∷ iface
      ∷ "-m"
      ∷ "comment"
      ∷ "--comment"
      ∷ (comment +s ":masquerade")
      ∷ "-j"
      ∷ "MASQUERADE"
      ∷ []

  -- The filter rules, and the NAT rules if NAT is enabled.
  unfoldable pub construct : Identity → String → String → Bool → Act (Unit {0})
  construct i network iface nat_enabled =
      prepare_chain "filter" i.filter_chain (i.comment +s ":filter-owner")
      >> iptables (call "filter" (insert 1) i.filter_chain (egress_rule network iface i.comment))
      >> iptables (call "filter" (insert 2) i.filter_chain (return_rule network iface i.comment))
      >> ensure_jump "filter" "FORWARD" i.filter_chain (i.comment +s ":forward")
      >> (if not nat_enabled
          then pure tt
          else (prepare_chain "nat" i.nat_chain (i.comment +s ":nat-owner")
              >> iptables
                  (call "nat" (insert 1) i.nat_chain (masquerade_rule network iface i.comment))
              >> ensure_jump "nat" "POSTROUTING" i.nat_chain (i.comment +s ":nat")))

  -- Reconcile behind its checks of the instance and the layout. `forwarding` and `iface` are what
  -- enableForwarding and egressInterface return; `network` is the text of the tunnel network.
  unfoldable pub reconcile :
      Identity
      → IPv4Config
      → String
      → Result NetworkError (Unit {0})
      → Result NetworkError String
      → Act (Unit {0})
  reconcile i config network forwarding iface =
      if not (config.nat_enabled || (config.redirect_gateway || ltb 0 (length config.routes)))
      then cleanup i
      else (cleanup i
          >> or_undo
              (lift forwarding
                >> (lift iface >>= λ name. construct i network name config.nat_enabled))
              (cleanup i))
