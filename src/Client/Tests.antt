-- ===== src/Client/Tests.antt =====
-- Assignments for one client on a small network, and the theorems at these inputs.
use openvpn_docker.Ipam.{new_ipv4_layout, client_capacity, layout_at, contains, validate_static}
use openvpn_docker.Prelude.{
  String, ◌≡◌, refl, Option, none, some, List, [], ◌∷◌, if◌then◌else◌, str_eq, ok,
}
use openvpn_docker.Examples.{
  sample_instance, sample_layout, sample_accepted, sample-IsCanonical, static_client, some_uuid,
  other_uuid,
}
use openvpn_docker.Client.{
  TextFunctions, Planned, plan_addresses, plan_create_assignment, draft, static_addresses,
  kept_addresses, new_ipv4_layout, contains, validate_static, new_address,
}
use openvpn_docker.Client.Assign.{
  IsNew, IsGiven, named, targeted, plan_addresses-IsNew, plan_create_assignment-IsGiven,
}
use openvpn_docker.Domain.Sets.{total, sort_by}
use openvpn_docker.Domain.{Addr, v4, address_from4, new_address, unmap}
use openvpn_docker.Store.{ClientState, AddressAssignment}

abbrev parse : String → Option Addr
parse s = if str_eq s "10.42.0.3" then some (v4 0x0a2a0003) else none

abbrev text_functions : TextFunctions
text_functions = record { parse_addr = parse; show = λ a. "address"; lower = λ s. s }

abbrev alice : ClientState
alice = static_client some_uuid "alice" 0x0a2a0002

abbrev manual : AddressAssignment
manual = draft sample_instance 7 other_uuid "static" (some (address_from4 0x0a2a0003))

given :
    plan_create_assignment text_functions sample_instance
      (alice ∷ [])
      "10.42.0.3"
      7
      (some other_uuid)
    ≡ ok manual
unfolding plan_create_assignment new_ipv4_layout client_capacity layout_at contains validate_static
    new_address unmap
given = refl

plan_create_assignment-IsGiven_example :
    IsGiven sample_layout (static_addresses (alice ∷ [])) manual
plan_create_assignment-IsGiven_example =
    plan_create_assignment-IsGiven text_functions sample_instance (alice ∷ []) "10.42.0.3" 7
      (some other_uuid) {l = sample_layout} {a = manual} (sample-IsCanonical, sample_accepted) given

abbrev planned : List Planned
planned = record { client_id = some_uuid; assignment = manual; normalized = "address" } ∷ []

abbrev selections : List (String × String)
selections = (some_uuid, "10.42.0.3") ∷ []

planned_once :
    plan_addresses text_functions sample_instance
      (alice ∷ [])
      (alice ∷ [])
      selections
      7
      (λ k. some other_uuid)
    ≡ ok planned
unfolding plan_addresses new_ipv4_layout client_capacity layout_at contains validate_static sort_by
    new_address unmap
planned_once = refl

plan_addresses-IsNew_example :
    IsNew sample_layout (kept_addresses (alice ∷ []) (alice ∷ [])) planned
    × ((id : String) → total (named id) planned ≡ total (targeted id) (alice ∷ []))
plan_addresses-IsNew_example =
    plan_addresses-IsNew text_functions sample_instance (alice ∷ []) (alice ∷ []) selections 7
      (λ k. some other_uuid) {l = sample_layout} {planned = planned}
      (sample-IsCanonical, sample_accepted) planned_once
