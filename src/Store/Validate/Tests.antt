-- ===== src/Store/Validate/Tests.antt =====
-- A client with a lease, which is accepted.
use openvpn_docker.Prelude.{ℕ, String, ◌≡◌, refl, none, some, [], ok}
use openvpn_docker.Examples.{some_uuid, other_uuid}
use openvpn_docker.Domain.{address_from4}
use openvpn_docker.Domain.Ids.{valid_uuid, new_client, valid_client_name}
use openvpn_docker.Domain.Config.{ClientStatus}
use openvpn_docker.Store.{ClientState, ClientLease, AddressAssignment, AssignmentStatus}
use openvpn_docker.Store.Validate.{validate_client_state}

abbrev lease : ClientLease
lease = record { network_id = other_uuid; address = address_from4 0x0a2a0005; updated_at = 6 }

abbrev dynamic : AddressAssignment
dynamic = record {
  id = other_uuid;
  network_id = other_uuid;
  kind = "dynamic";
  address = none;
  status = AssignmentStatus.active;
  created_at = 5;
  updated_at = 5;
  released_at = none;
}

abbrev leased : ClientState
leased = record {
  client = record { id = some_uuid; name = "alice"; status = ClientStatus.active };
  created_at = 5;
  revoked_at = none;
  deleted_at = none;
  assignment = some dynamic;
  lease = some lease;
  artifacts = [];
}

abbrev size : String → ℕ
size s = 0

is_accepted : validate_client_state (λ s. s) size leased ≡ ok tt
unfolding validate_client_state new_client valid_uuid valid_client_name
is_accepted = refl
