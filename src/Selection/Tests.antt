-- ===== src/Selection/Tests.antt =====
-- A batch of one selected client, and the theorem at it.
use openvpn_docker.Domain.Sets.{sort_by}
use openvpn_docker.Domain.Ids.{valid_client_name}
use openvpn_docker.Prelude.{◌≡◌, refl, false, List, [], ◌∷◌, arith, ok}
use openvpn_docker.Examples.{static_client, some_uuid}
use openvpn_docker.Selection.{
  Selector, select_active, valid_client_name, chosen, select_client, validate_selector, sort_by,
}
use openvpn_docker.Selection.Unique.{HasDistinctIds, AreTargets, select_active-AreTargets}
use openvpn_docker.Store.{ClientState}

abbrev alice : ClientState
alice = static_client some_uuid "alice" 0x0a2a0002

abbrev by_name : List Selector
by_name = record { name = "alice"; id_prefix = "" } ∷ []

is_selected : select_active (λ s. s) (alice ∷ []) false by_name ≡ ok (alice ∷ [])
unfolding select_active valid_client_name chosen select_client validate_selector sort_by
    openvpn_docker.Domain.Ids.valid_uuid
is_selected = refl

alice_distinct : HasDistinctIds (alice ∷ [])
alice_distinct id = ground arith

select_active-AreTargets_example : AreTargets (alice ∷ [])
select_active-AreTargets_example =
    select_active-AreTargets (λ s. s) (alice ∷ []) false by_name {targets = alice ∷ []}
      alice_distinct is_selected
