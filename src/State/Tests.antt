-- ===== src/State/Tests.antt =====
-- A healthy installation with one client, and an unsorted report, with the theorems at them.
use openvpn_docker.Prelude.{
  ℕ, String, ◌≡◌, refl, true, ◌≤◌, ◌⊎◌, some, none, [], ◌∷◌, length, ok, All,
}
use openvpn_docker.Domain.Sets.{total}
use openvpn_docker.Examples.{some_uuid, sample_instance, static_client}
use openvpn_docker.Ipam.{new_ipv4_layout, client_capacity}
use openvpn_docker.State.{
  Classification, Severity, Issue, Report, Listing, Look, rank, state_for_severity,
  classification_for, finish, precedes,
}
use openvpn_docker.State.Healthy.Installed.{IsInstalled, scan-IsInstalled}
use openvpn_docker.State.Reported.{Some, IsFalling, finish_reports}
use openvpn_docker.State.Scan.{
  Installation, scan, scan_rest, scan_config, scan_authority, scan_artifact_set, scan_duplicates,
  scan_all_expected, scan_expected, scan_clients, scan_client, scan_identity, scan_client_artifacts,
  scan_active_artifact, scan_all_needed, scan_needed, scan_profile, compare_profile,
  compare_derived, scan_ccd, lookup, material_issue, of_instance,
}
use openvpn_docker.Store.{ClientState, ArtifactMetadata, ArtifactStatus}

abbrev recorded : String → String → ArtifactMetadata
recorded kind key = record {
  id = "id";
  owner_kind = "instance";
  owner_id = "owner";
  kind = kind;
  key = key;
  digest = "digest";
  certificate_serial = "01";
  certificate_fingerprint = "print";
  status = ArtifactStatus.active;
}

abbrev one_client : ClientState
one_client = record (static_client some_uuid "alice" 10) {
  artifacts =
      recorded "client-cert" "pki/issued/11111111-1111-4111-8111-111111111111.crt"
      ∷ recorded "client-key" "pki/private/11111111-1111-4111-8111-111111111111.key"
      ∷ recorded "profile" "clients/active/alice.ovpn"
      ∷ [];
}

abbrev world : Installation
world = record {
  open_store = ok tt;
  data_directory = Listing.entries [];
  instance' = some sample_instance;
  ca_fingerprint = "print";
  clients = some (one_client ∷ []);
  metadata = some (
      recorded "ca-cert" "pki/ca.crt"
      ∷ recorded "ca-key" "pki/private/ca.key"
      ∷ recorded "server-cert" "pki/issued/openvpn-server.crt"
      ∷ recorded "server-key" "pki/private/openvpn-server.key"
      ∷ recorded "crl" "pki/crl.pem"
      ∷ recorded "tls-crypt" "secrets/tls-crypt.key"
      ∷ recorded "server-config" "server/server.conf"
      ∷ []);
  pending = some [];
  artifact_root = true;
  data_dir = "/data";
  config_file = "";
  load_file = none;
  digest = λ c. some "digest";
  server_name = "";
  validate_ca = some "print";
  look = λ path. Look.file true 384 1;
  validate_ca_key_pair = true;
  validate_server = true;
  validate_crl = true;
  validate_tls_crypt = true;
  read = λ key. some (record { content = "text"; digest = "digest" });
  render_server = some "text";
  render_client = λ c ca certificate key tls. some "text";
  render_ccd = λ a b. "text";
  validate_client = λ id. some (record { serial = "01"; fingerprint = "print" });
  validate_revocation = λ serial revoked. true;
}

world-healthy : (scan world).state ≡ Classification.healthy
unfolding scan scan_rest scan_config scan_authority scan_artifact_set scan_duplicates
    scan_all_expected scan_expected scan_clients scan_client scan_identity scan_client_artifacts
    scan_active_artifact scan_all_needed scan_needed scan_profile compare_profile compare_derived
    scan_ccd lookup finish new_ipv4_layout client_capacity
world-healthy = refl

scan-IsInstalled_example : IsInstalled world
scan-IsInstalled_example = scan-IsInstalled world world-healthy

abbrev unsorted : Report
unsorted = record (of_instance sample_instance) {
  issues =
      material_issue "CRL_INVALID" Severity.repairable "REBUILD_CRL" "pki/crl.pem"
      ∷ material_issue "PKI_SIGNING_DATABASE_INVALID" Severity.critical "RESTORE_BACKUP"
          "pki/serial"
      ∷ [];
}

unsorted-critical : (finish unsorted).state ≡ Classification.critical
unfolding finish precedes
unsorted-critical = refl

finish_reports_example :
    ((weight : Issue → ℕ) → total weight (finish unsorted).issues ≡ total weight unsorted.issues)
    × IsFalling (finish unsorted).issues
    × ((finish unsorted).issue_count ≡ length unsorted.issues)
    × All (λ i. classification_for i.severity ≤ rank (finish unsorted).state) unsorted.issues
    × (((finish unsorted).state ≡ Classification.healthy)
        ⊎ Some (λ i. state_for_severity i.severity ≡ (finish unsorted).state) unsorted.issues)
finish_reports_example = finish_reports unsorted
