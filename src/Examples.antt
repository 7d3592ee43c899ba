-- ===== src/Examples.antt =====
-- Data that the tests share: a client, configurations and an instance of a small network.
use openvpn_docker.Ipam.{layout_at, new_ipv4_layout, Layout, client_capacity}
use openvpn_docker.Domain.Networks.{IsCanonical}
use openvpn_docker.Prelude.{ℕ, String, true, false, none, some, [], arith, ◌≡◌, ok, refl}
use openvpn_docker.Domain.{Network, prefix, v4, address_from4}
use openvpn_docker.Domain.Config.{Config, Protocol, TransportFamily, ClientStatus}
use openvpn_docker.Store.{ClientState, InstanceState, AssignmentStatus, AddressAssignment}

abbrev pub some_uuid : String
some_uuid = "11111111-1111-4111-8111-111111111111"

abbrev pub other_uuid : String
other_uuid = "22222222-2222-4222-9222-222222222222"

abbrev pub sample_network : Network
sample_network = record { value = prefix (v4 0x0a2a0000) 29 }

-- 10.42.0.0/29 with a dynamic pool of two.
abbrev pub sample_config : Config
sample_config = record {
  endpoint = "vpn.example.com";
  protocol = Protocol.udp;
  transport_family = TransportFamily.auto;
  port = 1194;
  client_to_client = false;
  ipv4 = record {
    network = sample_network;
    dynamic_pool_size = 2;
    nat_enabled = true;
    nat_interface = "auto";
    redirect_gateway = false;
    dns = [];
    routes = [];
  };
  logging = record { max_bytes = 1048576; backups = 3 };
}

abbrev pub sample_instance : InstanceState
sample_instance = record {
  id = some_uuid;
  network_id = other_uuid;
  applied = record { revision = 1; digest = "d"; config = sample_config };
}

abbrev pub static_assignment : ℕ → AddressAssignment
static_assignment a = record {
  id = other_uuid;
  network_id = other_uuid;
  kind = "static";
  address = some (address_from4 a);
  status = AssignmentStatus.active;
  created_at = 5;
  updated_at = 5;
  released_at = none;
}

abbrev pub static_client : String → String → ℕ → ClientState
static_client id name a = record {
  client = record { id = id; name = name; status = ClientStatus.active };
  created_at = 5;
  revoked_at = none;
  deleted_at = none;
  assignment = some (static_assignment a);
  lease = none;
  artifacts = [];
}

-- Static .2 to .4, dynamic .5 and .6.
abbrev pub sample_layout : Layout
unfolding layout_at
sample_layout = layout_at sample_network 0x0a2a0000 8 5 2

pub sample_accepted : new_ipv4_layout sample_network 2 ≡ ok sample_layout
unfolding new_ipv4_layout client_capacity layout_at
sample_accepted = refl

pub sample-IsCanonical : IsCanonical sample_network.value
sample-IsCanonical = omega arith
