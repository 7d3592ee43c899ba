-- ===== src/Workflow/Tests.antt =====
-- Plans of a changed endpoint, and the theorem at them.
use openvpn_docker.Prelude.{◌≡◌, refl, ◌↔◌, true, false, some, [], ◌∷◌, ok}
use openvpn_docker.Examples.{sample_config}
use openvpn_docker.Domain.Config.{Config}
use openvpn_docker.Workflow.{
  Texts, AppliedSnapshot, Plan, Field, text, build_plan, new_view, validate, config_fields,
  compare_fields, apply_impact,
}
use openvpn_docker.Workflow.Compare.{build_plan-in_sync}

abbrev shown : Texts
shown = record { show_address = λ a. "a"; show_network = λ n. "n"; digest = λ v. some "d" }

abbrev applied : AppliedSnapshot
applied = record { revision = 4; digest = "d"; config = sample_config }

abbrev moved : Config
moved = record sample_config { endpoint = "vpn.example.org" }

abbrev moved_plan : Plan
moved_plan = record {
  initial = false;
  current_revision = 4;
  target_revision = 5;
  current_digest = "d";
  desired_digest = "d";
  in_sync = false;
  changes =
      record {
        field = Field.endpoint;
        before = some (text "vpn.example.com");
        after = text "vpn.example.org";
      }
      ∷ [];
  impact = record {
    restart_required = true;
    address_remap = false;
    firewall_reconcile = false;
    profile_redistribution = true;
    derived_artifacts = "client_profiles" ∷ [];
  };
}

is_planned : build_plan shown (some applied) moved ≡ ok moved_plan
unfolding build_plan new_view validate config_fields compare_fields apply_impact
is_planned = refl

build_plan-in_sync_example :
    (moved_plan.in_sync ≡ true) ↔ (new_view shown sample_config ≡ new_view shown moved)
build_plan-in_sync_example = build_plan-in_sync shown applied moved {p = moved_plan} is_planned
