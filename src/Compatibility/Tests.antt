-- ===== src/Compatibility/Tests.antt =====
-- A contract of two versions and one feature, and the theorem at it.
use openvpn_docker.Compatibility.{
  Contract, check_features, check_probes, check_versions, compare_version, is_name, parse_part,
  parse_version, validate_contract,
}
use openvpn_docker.Compatibility.Ordered.{
  AreApart, AreAscending, AreFeatures, validate_contract-IsOrdered,
}
use openvpn_docker.Prelude.{◌≡◌, refl, [], ◌∷◌, ok}

abbrev contract : Contract
contract = record {
  version = 1;
  supported_openvpn_versions = "2.6.9" ∷ "2.6.12" ∷ [];
  adapter = record {
    name = "openvpn-2.6";
    template_family = "v2";
    config_test_cipher = "AES-256-GCM";
  };
  required_features = record { name = "tls-crypt"; help_contains = "--tls-crypt" ∷ [] } ∷ [];
}

contract-valid : validate_contract contract ≡ ok tt
unfolding validate_contract check_versions parse_version parse_part compare_version is_name
    check_features check_probes
contract-valid = refl

validate_contract-IsOrdered_example :
    AreAscending contract.supported_openvpn_versions
    × AreApart contract.supported_openvpn_versions
    × AreFeatures contract.required_features
validate_contract-IsOrdered_example = validate_contract-IsOrdered contract contract-valid
