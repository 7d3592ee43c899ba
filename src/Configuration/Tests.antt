-- ===== src/Configuration/Tests.antt =====
-- A remapping of two clients, a plan of an apply, and the theorems at these inputs.
use openvpn_docker.Ipam.{new_ipv4_layout, client_capacity, layout_at, contains, ipv4_uint32}
use openvpn_docker.Prelude.{ℕ, String, ◌≡◌, refl, some, List, [], ◌∷◌, ok}
use openvpn_docker.Examples.{sample_config, sample_instance, static_client, some_uuid, other_uuid}
use openvpn_docker.Examples.{sample_layout, sample_accepted, sample-IsCanonical}
use openvpn_docker.Configuration.{
  remap_addresses, AddressChange, map_host_bits, is_free, new_ipv4_layout, contains, sort_by,
  ipv4_uint32,
}
use openvpn_docker.Configuration.Remap.{Sound, gives, remap_addresses-Sound}
use openvpn_docker.Configuration.Supported.{NotUnsupported, build_plan-NotUnsupported}
use openvpn_docker.Configuration.Build.{build_plan}
use openvpn_docker.Store.{ClientState, AssignmentStatus}
use openvpn_docker.Domain.{address_from4}
use openvpn_docker.Domain.Sets.{total, sort_by}
use openvpn_docker.Workflow.{Texts}

-- The first keeps 10.42.0.3; the second, at 10.9.0.2, is mapped to 10.42.0.2.
abbrev two_clients : List ClientState
two_clients =
    static_client some_uuid "alice" 0x0a2a0003 ∷ static_client other_uuid "bob" 0x0a090002 ∷ []

abbrev change : String → String → ℕ → ℕ → AddressChange
change id name before after = record {
  client = record { id = id; name = name };
  before = record {
    mode = "static";
    address = some (address_from4 before);
    state = AssignmentStatus.active;
  };
  after = record {
    mode = "static";
    address = some (address_from4 after);
    state = AssignmentStatus.active;
  };
}

abbrev two_changes : List AddressChange
two_changes =
    change some_uuid "alice" 0x0a2a0003 0x0a2a0003
    ∷ change other_uuid "bob" 0x0a090002 0x0a2a0002
    ∷ []

remapped : remap_addresses two_clients sample_config ≡ ok two_changes
unfolding remap_addresses new_ipv4_layout client_capacity layout_at contains is_free map_host_bits
    sort_by ipv4_uint32
remapped = refl

remap_addresses-Sound_example : Sound sample_layout (λ x. total (gives x) two_changes)
remap_addresses-Sound_example =
    remap_addresses-Sound two_clients sample_config {changes = two_changes} sample-IsCanonical
      sample_accepted remapped

abbrev texts : Texts
texts = record { show_address = λ a. "a"; show_network = λ n. "n"; digest = λ v. some "d" }

build_plan-NotUnsupported_example :
    NotUnsupported (build_plan texts sample_instance two_clients sample_config)
build_plan-NotUnsupported_example =
    build_plan-NotUnsupported texts sample_instance two_clients sample_config
