-- ===== src/Configuration/Build.antt =====
-- BuildPlan of internal/configuration/plan.go: what an offline apply will change.
use openvpn_docker.Prelude.{
  ℕ, String, Bool, true, false, not, ◌&&◌, Option, none, some, List, [], ◌∷◌, ◌++◌, map,
  if◌then◌else◌, str_eq, Result, ok, err, ◌>>=◌,
}
use openvpn_docker.Domain.Config.{Config, ClientStatus, is_active, is_revoked}
use openvpn_docker.Store.{ClientState, InstanceState, AddressAssignment}
use openvpn_docker.Configuration.{PlanError, ClientRef, AddressChange, client_ref, remap_addresses}
use openvpn_docker.Domain.Sets.{str_lt, sort_by}
use openvpn_docker.Workflow
use Prim.Native.String.{◌++◌ as str_append}
use openvpn_docker.Workflow.{WorkflowError, Texts}

pub data BuildError : Type 0 where
  compare_failed : WorkflowError → BuildError
  remap_failed : PlanError → BuildError
  unsupported_group : String → BuildError

pub record ArtifactImpact : Type 0 where
  pub owner_kind : String
  pub owner_id : String
  pub kind : String
  pub key : String
  pub action : String

pub record FirewallState : Type 0 where
  pub network : String
  pub nat_enabled : Bool
  pub nat_interface : String
  pub routes : List String

pub record FirewallImpact : Type 0 where
  pub reconcile : Bool
  pub before : Option FirewallState
  pub after : Option FirewallState

pub record Plan : Type 0 where
  pub version : ℕ
  pub instance_id : String
  pub configuration : Workflow.Plan
  pub address_changes : List AddressChange
  pub artifacts : List ArtifactImpact
  pub profile_redistribution : List ClientRef
  pub firewall : FirewallImpact

abbrev pub firewall_state : Texts → Config → FirewallState
firewall_state t c = record {
  network = t.show_network c.ipv4.network;
  nat_enabled = c.ipv4.nat_enabled;
  nat_interface = c.ipv4.nat_interface;
  routes = map t.show_network c.ipv4.routes;
}

abbrev pub client_less : ClientState → ClientState → Bool
client_less a b =
    if not (str_eq a.client.name b.client.name)
    then str_lt a.client.name b.client.name
    else str_lt a.client.id b.client.id

abbrev pub server_config_impact : String → ArtifactImpact
server_config_impact id = record {
  owner_kind = "instance";
  owner_id = id;
  kind = "server-config";
  key = "server/server.conf";
  action = "regenerate";
}

abbrev directory : ClientStatus → String
directory status = if is_revoked status then "revoked" else "active"

abbrev pub profile_impact : ClientState → ArtifactImpact
profile_impact c = record {
  owner_kind = "client";
  owner_id = c.client.id;
  kind = "profile";
  key =
      str_append "clients/" (
        str_append (directory c.client.status) (str_append "/" (str_append c.client.name ".ovpn")));
  action = "regenerate";
}

abbrev pub redistributed : List ClientState → List ClientRef
redistributed [] = []
redistributed (c ∷ cs) =
    let rest = redistributed cs in if is_active c.client.status then client_ref c ∷ rest else rest

abbrev is_static : Option AddressAssignment → Bool
is_static none = false
is_static (some a) = str_eq a.kind "static"

abbrev pub ccd_action : ClientState → String
ccd_action c =
    if is_active c.client.status && is_static c.assignment then "regenerate" else "delete"

abbrev pub ccd_impact : ClientState → ArtifactImpact
ccd_impact c = record {
  owner_kind = "client";
  owner_id = c.client.id;
  kind = "ccd";
  key = str_append "ccd/" c.client.id;
  action = ccd_action c;
}

abbrev pub Works : Type 0
Works = List ArtifactImpact × List ClientRef

-- One case of the switch over the derived artifacts.
unfoldable pub group_works : String → List ClientState → String → Result BuildError Works
group_works id clients group =
    if str_eq group "server_config"
    then ok (server_config_impact id ∷ [], [])
    else if str_eq group "client_profiles"
    then ok (map profile_impact clients, redistributed clients)
    else if str_eq group "ccd"
    then ok (map ccd_impact clients, [])
    else err (unsupported_group group)

unfoldable pub all_works : String → List ClientState → List String → Result BuildError Works
unfolding group_works
all_works id clients [] = ok ([], [])
all_works id clients (g ∷ gs) = do
  (artifacts, refs) ← group_works id clients g
  (artifacts', refs') ← all_works id clients gs
  ok (artifacts ++ artifacts', refs ++ refs')

abbrev pub or_remap : Result PlanError (List AddressChange) → Result BuildError (List AddressChange)
or_remap (ok changes) = ok changes
or_remap (err e) = err (remap_failed e)

abbrev pub or_compare : Result WorkflowError Workflow.Plan → Result BuildError Workflow.Plan
or_compare (ok p) = ok p
or_compare (err e) = err (compare_failed e)

abbrev firewall_impact : Texts → Config → Config → Bool → FirewallImpact
firewall_impact t applied desired true = record {
  reconcile = true;
  before = some (firewall_state t applied);
  after = some (firewall_state t desired);
}
firewall_impact t applied desired false = record { reconcile = false; before = none; after = none }

abbrev plan_of : Texts → InstanceState → Config → Workflow.Plan → List AddressChange → Works → Plan
plan_of t instance' desired base changes (artifacts, refs) = record {
  version = 1;
  instance_id = instance'.id;
  configuration = base;
  address_changes = changes;
  artifacts = artifacts;
  profile_redistribution = refs;
  firewall = firewall_impact t instance'.applied.config desired base.impact.firewall_reconcile;
}

-- The plan behind the comparison.
abbrev pub detail :
    Texts → InstanceState → List ClientState → Config → Workflow.Plan → Result BuildError Plan
detail t instance' clients desired base =
    let ordered = sort_by client_less clients in
    if base.in_sync then ok (plan_of t instance' desired base [] ([], [])) else (do
      changes ←
          if base.impact.address_remap then or_remap (remap_addresses ordered desired) else ok []
      works ← all_works instance'.id ordered base.impact.derived_artifacts
      ok (plan_of t instance' desired base changes works))

unfoldable pub build_plan :
    Texts → InstanceState → List ClientState → Config → Result BuildError Plan
unfolding all_works
build_plan t instance' clients desired = do
  base ← or_compare (Workflow.build_plan t (some instance'.applied) desired)
  detail t instance' clients desired base
