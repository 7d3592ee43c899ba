-- ===== src/State/Scan.antt =====
-- internal/state/state.go: Scan. What the scan reads is a Installation: SQLite, the checks of internal/pki,
-- LocalStore.Read, the renderer, and os.Lstat.
use Prim.Native.String.{◌++◌ as str_append}
use openvpn_docker.Prelude.{
  ℕ, String, Bool, true, false, not, ◌&&◌, ◌||◌, Option, none, some, List, [], ◌∷◌, ◌++◌,
  if◌then◌else◌, str_eq, length, Result, ok, err,
}
use openvpn_docker.Domain.{Address}
use openvpn_docker.Domain.Config.{Config, ClientStatus, is_active, is_revoked}
use openvpn_docker.Ipam.{new_ipv4_layout}
use openvpn_docker.State.{
  Classification, Severity, Issue, Report, OpenError, Listing, Look, not_exist,
  severity_for_artifact, action_for_artifact, verifiable_artifact, repair_action, database_issue_id,
  directory_empty, require_regular, require_regular_mode, finish,
}
use openvpn_docker.Store.{ClientState, ArtifactMetadata, InstanceState}
use openvpn_docker.Store.Commits.{is_active_artifact}
use openvpn_docker.Store.Journal.{Operation}

pub record CertificateInfo : Type 0 where
  pub serial : String
  pub fingerprint : String

-- A file that LocalStore.Read returns, with the digest of its reference.
pub record Found : Type 0 where
  pub content : String
  pub digest : String

pub record Installation : Type 0 where
  pub open_store : Result OpenError (Unit {0})
  pub data_directory : Listing
  pub instance' : Option InstanceState
  pub ca_fingerprint : String
  pub clients : Option (List ClientState)
  pub metadata : Option (List ArtifactMetadata)
  pub pending : Option (List Operation)
  pub artifact_root : Bool
  pub data_dir : String
  pub config_file : String
  pub load_file : Option Config
  pub digest : Config → Option String
  pub server_name : String
  pub validate_ca : Option String
  pub look : String → Look
  pub validate_ca_key_pair : Bool
  pub validate_server : Bool
  pub validate_crl : Bool
  pub validate_tls_crypt : Bool
  pub read : String → Option Found
  pub render_server : Option String
  pub render_client : ClientState → Found → Found → Found → Found → Option String
  pub render_ccd : Address → Address → String
  pub validate_client : String → Option CertificateInfo
  pub validate_revocation : String → Bool → Bool

-- `options.ServerName`, with its default.
abbrev pub server_name_of : Installation → String
server_name_of w = if str_eq w.server_name "" then "openvpn-server" else w.server_name

abbrev pub critical_issue : String → String → String → String → Issue
critical_issue id target owner kind = record {
  id = id;
  severity = Severity.critical;
  action = "RESTORE_BACKUP";
  target = target;
  owner_id = owner;
  artifact_kind = kind;
}

-- materialIssue
abbrev pub material_issue : String → Severity → String → String → Issue
material_issue id severity action target = record {
  id = id;
  severity = severity;
  action = action;
  target = target;
  owner_id = "";
  artifact_kind = "";
}

-- materialIssueForOwner
abbrev pub material_issue_for_owner : String → Severity → String → String → String → Issue
material_issue_for_owner id severity action target owner =
    record (material_issue id severity action target) { owner_id = owner }

abbrev pub note_if : Bool → Issue → List Issue
note_if true i = i ∷ []
note_if false i = []

-- scanConfig
unfoldable pub scan_config : Installation → InstanceState → List Issue
scan_config w instance' = if str_eq w.config_file "" then [] else elim w.load_file [
  | none ↦
      material_issue "DECLARATIVE_CONFIG_UNAVAILABLE" Severity.repairable "EXPORT_CONFIG"
        w.config_file
      ∷ []
  | some desired ↦
      note_if
        (elim (w.digest desired) [ none ↦ true | some d ↦ not (str_eq d instance'.applied.digest) ])
        (material_issue "DECLARATIVE_CONFIG_DRIFT" Severity.repairable "REVIEW_CONFIG_PLAN"
          w.config_file)
]

abbrev pub ca_valid : Installation → Bool
ca_valid w = elim w.validate_ca [ none ↦ false | some f ↦ str_eq f w.ca_fingerprint ]

abbrev pub scan_ca : Installation → List Issue
scan_ca w = elim w.validate_ca [
  | none ↦ material_issue "CA_CERT_INVALID" Severity.recoverable "RECOVER_CA_CERT" "pki/ca.crt" ∷ []
  | some f ↦
      note_if (not (str_eq f w.ca_fingerprint))
        (critical_issue "CA_FINGERPRINT_MISMATCH" "pki/ca.crt" "" "")
]

abbrev pub ca_key_issue : Severity → String → Issue
ca_key_issue severity action =
    material_issue "CA_PRIVATE_KEY_INVALID" severity action "pki/private/ca.key"

abbrev pub scan_ca_key : Installation → List Issue
scan_ca_key w = elim (require_regular_mode 384 (w.look "pki/private/ca.key")) [
  | err e ↦
      (elim e [
        | not_exist ↦ ca_key_issue Severity.fatal "RESTORE_CA_PRIVATE_KEY"
        | _ ↦ ca_key_issue Severity.critical "RESTORE_BACKUP"
      ])
      ∷ []
  | ok _ ↦
      note_if (ca_valid w && not w.validate_ca_key_pair)
        (ca_key_issue Severity.critical "RESTORE_BACKUP")
]

-- The result of scanAuthority: whether the CRL is valid.
abbrev pub crl_valid : Installation → Bool
crl_valid w = ca_valid w && w.validate_crl

abbrev pub is_fit : Installation → String → Bool
is_fit w target = elim (require_regular (w.look target)) [ ok _ ↦ true | err _ ↦ false ]

-- scanAuthority
unfoldable pub scan_authority : Installation → List Issue
scan_authority w =
    scan_ca w
    ++ (scan_ca_key w
        ++ (note_if (ca_valid w && not w.validate_server) (
              material_issue "SERVER_IDENTITY_INVALID" Severity.reissuable "REISSUE_SERVER"
                (str_append "pki/issued/" (str_append (server_name_of w) ".crt")))
            ++ (note_if (ca_valid w && not w.validate_crl)
                  (material_issue "CRL_INVALID" Severity.repairable "REBUILD_CRL" "pki/crl.pem")
                ++ (note_if (not w.validate_tls_crypt) (
                      material_issue "TLS_CRYPT_INVALID" Severity.recoverable "RECOVER_TLS_CRYPT"
                        "secrets/tls-crypt.key")
                    ++ (note_if (not (is_fit w "pki/index.txt")) (
                          material_issue "PKI_SIGNING_DATABASE_INVALID" Severity.critical
                            "RESTORE_BACKUP" "pki/index.txt")
                        ++ note_if (not (is_fit w "pki/serial")) (
                            material_issue "PKI_SIGNING_DATABASE_INVALID" Severity.critical
                              "RESTORE_BACKUP" "pki/serial"))))))

-- The map from kinds to the first active artifact of the kind.
unfoldable pub lookup : String → List ArtifactMetadata → Option ArtifactMetadata
lookup kind [] = none
lookup kind (a ∷ as') =
    let rest = lookup kind as' in
    if is_active_artifact a.status && str_eq a.kind kind then some a else rest

abbrev pub is_taken : String → List ArtifactMetadata → Bool
is_taken kind as' = elim (lookup kind as') [ none ↦ false | some _ ↦ true ]

-- The first loop of scanArtifactSet, with the metadata that it has met.
unfoldable pub scan_duplicates : String → List ArtifactMetadata → List ArtifactMetadata → List Issue
unfolding lookup
scan_duplicates owner seen [] = []
scan_duplicates owner seen (a ∷ as') =
    note_if (is_active_artifact a.status && is_taken a.kind seen)
      (critical_issue "ARTIFACT_METADATA_DUPLICATE" a.key owner a.kind)
    ++ scan_duplicates owner (seen ++ a ∷ []) as'

abbrev pub matches_file : Installation → String → String → Bool
matches_file w key digest = elim (w.read key) [ none ↦ false | some f ↦ str_eq f.digest digest ]

abbrev pub is_readable : Installation → String → Bool
is_readable w key = elim (w.read key) [ none ↦ false | some _ ↦ true ]

abbrev pub artifact_issue : String → String → String → String → Issue
artifact_issue id kind target owner =
    material_issue_for_owner id (severity_for_artifact kind) (action_for_artifact kind) target owner

abbrev pub register_issue : String → String → String → String → Issue
register_issue id key owner kind = record {
  id = id;
  severity = Severity.repairable;
  action = "REGISTER_VERIFIED_ARTIFACT";
  target = key;
  owner_id = owner;
  artifact_kind = kind;
}

-- One round of the second loop of scanArtifactSet.
unfoldable pub scan_expected :
    Installation → String → List ArtifactMetadata → String → String → List Issue
unfolding lookup
scan_expected w owner metadata kind key = elim (lookup kind metadata) [
  | none ↦
      if is_readable w key && verifiable_artifact kind
      then register_issue "ARTIFACT_METADATA_MISSING" key owner kind ∷ []
      else artifact_issue "ARTIFACT_METADATA_MISSING" kind key owner ∷ []
  | some item ↦
      if not (str_eq item.key key)
      then critical_issue "ARTIFACT_KEY_INVALID" item.key owner "" ∷ []
      else note_if (not (matches_file w item.key item.digest))
          (artifact_issue "ARTIFACT_CONTENT_MISMATCH" kind item.key owner)
]

abbrev pub expected_artifacts : List (String × String)
expected_artifacts =
    ("ca-cert", "pki/ca.crt")
    ∷ ("ca-key", "pki/private/ca.key")
    ∷ ("server-cert", "pki/issued/openvpn-server.crt")
    ∷ ("server-key", "pki/private/openvpn-server.key")
    ∷ ("crl", "pki/crl.pem")
    ∷ ("tls-crypt", "secrets/tls-crypt.key")
    ∷ ("server-config", "server/server.conf")
    ∷ []

unfoldable pub scan_all_expected :
    Installation → String → List ArtifactMetadata → List (String × String) → List Issue
unfolding scan_expected
scan_all_expected w owner metadata [] = []
scan_all_expected w owner metadata ((kind, key) ∷ rest) =
    scan_expected w owner metadata kind key ++ scan_all_expected w owner metadata rest

-- scanArtifactSet; finish sorts the issues, so the order of the map `expected` does not matter.
unfoldable pub scan_artifact_set : Installation → List ArtifactMetadata → String → List Issue
unfolding scan_duplicates scan_all_expected
scan_artifact_set w metadata owner =
    scan_duplicates owner [] metadata ++ scan_all_expected w owner metadata expected_artifacts

-- compareDerived
unfoldable pub compare_derived : Installation → String → String → String → String → List Issue
compare_derived w id key expected owner =
    note_if (elim (w.read key) [ none ↦ true | some f ↦ not (str_eq f.content expected) ])
      (material_issue_for_owner id Severity.repairable (repair_action id) key owner)

-- The part of scanClient on the identity; `none` of the certificate is `identityErr != nil`.
unfoldable pub scan_identity :
    Installation → ClientState → Bool → Option CertificateInfo → List Issue
scan_identity w c crl none =
    material_issue_for_owner "CLIENT_IDENTITY_INVALID" Severity.recoverable
      "RECOVER_CLIENT_IDENTITY" (str_append "pki/issued/" (str_append c.client.id ".crt"))
      c.client.id
    ∷ []
scan_identity w c crl (some info) =
    note_if (crl && not (w.validate_revocation info.serial (is_revoked c.client.status))) (
      material_issue_for_owner "CLIENT_REVOCATION_STATUS_INVALID" Severity.critical "RESTORE_BACKUP"
        "pki/crl.pem" c.client.id)

abbrev pub directory_of : ClientStatus → String
directory_of status = if is_revoked status then "revoked" else "active"

abbrev pub profile_key : ClientState → String
profile_key c =
    str_append "clients/" (
      str_append (directory_of c.client.status) (str_append "/" (str_append c.client.name ".ovpn")))

-- expectedClientArtifactKey
abbrev pub expected_client_artifact_key : ClientState → String → String
expected_client_artifact_key c kind =
    if str_eq kind "client-cert"
    then str_append "pki/issued/" (str_append c.client.id ".crt")
    else if str_eq kind "client-key"
    then str_append "pki/private/" (str_append c.client.id ".key")
    else if str_eq kind "profile"
    then profile_key c
    else if str_eq kind "ccd"
    then str_append "ccd/" c.client.id
    else ""

-- One round of the loop over the client's artifacts; `taken` says that the kind has been met.
unfoldable pub scan_active_artifact :
    Installation → ClientState → Bool → ArtifactMetadata → List Issue
scan_active_artifact w c taken a =
    if taken
    then critical_issue "CLIENT_ARTIFACT_METADATA_DUPLICATE" a.key c.client.id a.kind ∷ []
    else if not (str_eq (expected_client_artifact_key c a.kind) "")
        && not (str_eq a.key (expected_client_artifact_key c a.kind))
    then critical_issue "CLIENT_ARTIFACT_KEY_INVALID" a.key c.client.id a.kind ∷ []
    else note_if (not (matches_file w a.key a.digest))
        (artifact_issue "CLIENT_ARTIFACT_CONTENT_MISMATCH" a.kind a.key c.client.id)

unfoldable pub scan_client_artifacts :
    Installation → ClientState → List ArtifactMetadata → List ArtifactMetadata → List Issue
unfolding lookup scan_active_artifact
scan_client_artifacts w c seen [] = []
scan_client_artifacts w c seen (a ∷ as') =
    (if is_active_artifact a.status then scan_active_artifact w c (is_taken a.kind seen) a else [])
    ++ scan_client_artifacts w c (seen ++ a ∷ []) as'

-- One round of the loop over the three kinds that a client needs; a profile has no key there.
unfoldable pub scan_needed : Installation → ClientState → Bool → String → String → List Issue
unfolding lookup
scan_needed w c identified kind key =
    if is_taken kind c.artifacts
    then []
    else if identified && (not (str_eq key "") && is_readable w key)
    then register_issue "CLIENT_ARTIFACT_METADATA_MISSING" key c.client.id kind ∷ []
    else artifact_issue "CLIENT_ARTIFACT_METADATA_MISSING" kind "" c.client.id ∷ []

abbrev pub is_some : Option CertificateInfo → Bool
is_some none = false
is_some (some _) = true

unfoldable pub scan_all_needed : Installation → ClientState → Bool → List Issue
unfolding scan_needed
scan_all_needed w c identified =
    scan_needed w c identified "client-cert"
      (str_append "pki/issued/" (str_append c.client.id ".crt"))
    ++ (scan_needed w c identified "client-key"
          (str_append "pki/private/" (str_append c.client.id ".key"))
        ++ scan_needed w c identified "profile" "")

-- The profile that the files and the state render to, if the files are all there.
abbrev pub rendered_profile : Installation → ClientState → Option String
rendered_profile w c = elim (w.read "pki/ca.crt") [
  | none ↦ none
  | some ca ↦ elim (w.read (str_append "pki/issued/" (str_append c.client.id ".crt"))) [
    | none ↦ none
    | some certificate ↦ elim (w.read (str_append "pki/private/" (str_append c.client.id ".key"))) [
      | none ↦ none
      | some key ↦ elim (w.read "secrets/tls-crypt.key") [
        | none ↦ none
        | some tls ↦ w.render_client c ca certificate key tls
      ]
    ]
  ]
]

-- The record of the client's certificate is not the certificate's.
abbrev pub is_other_certificate : ClientState → CertificateInfo → Bool
is_other_certificate c info = elim (lookup "client-cert" c.artifacts) [
  | none ↦ false
  | some a ↦
      not (str_eq a.certificate_serial info.serial)
      || not (str_eq a.certificate_fingerprint info.fingerprint)
]

unfoldable pub compare_profile : Installation → ClientState → List Issue
unfolding compare_derived
compare_profile w c = elim (rendered_profile w c) [
  | none ↦ []
  | some profile ↦ compare_derived w "CLIENT_PROFILE_DRIFT" (profile_key c) profile c.client.id
]

-- The part of scanClient for an identity that passed the check.
unfoldable pub scan_profile : Installation → ClientState → Option CertificateInfo → List Issue
unfolding lookup compare_profile
scan_profile w c none = []
scan_profile w c (some info) =
    note_if (is_other_certificate c info) (
      critical_issue "CLIENT_CERTIFICATE_METADATA_MISMATCH"
        (elim (lookup "client-cert" c.artifacts) [ none ↦ "" | some a ↦ a.key ]) c.client.id "")
    ++ compare_profile w c

-- The address of an active client's static assignment.
abbrev pub static_address : ClientState → Option Address
static_address c = elim c.assignment [
  | none ↦ none
  | some a ↦ if is_active c.client.status && str_eq a.kind "static" then a.address else none
]

unfoldable pub scan_ccd : Installation → InstanceState → ClientState → List Issue
unfolding compare_derived
scan_ccd w instance' c = elim (static_address c) [
  | some address ↦
      elim (new_ipv4_layout instance'.applied.config.ipv4.network
        instance'.applied.config.ipv4.dynamic_pool_size) [
          | err _ ↦ []
          | ok layout ↦
              compare_derived w "CLIENT_CCD_DRIFT" (str_append "ccd/" c.client.id)
                (w.render_ccd address layout.netmask) c.client.id
        ]
  | none ↦ note_if (is_readable w (str_append "ccd/" c.client.id)) (
      material_issue_for_owner "CLIENT_CCD_UNEXPECTED" Severity.repairable
        "REFRESH_CLIENT_ARTIFACTS" (str_append "ccd/" c.client.id) c.client.id)
]

-- scanClient
unfoldable pub scan_client : Installation → InstanceState → ClientState → List Issue
unfolding scan_identity scan_client_artifacts scan_all_needed scan_profile scan_ccd
scan_client w instance' c =
    let info = w.validate_client c.client.id in
    scan_identity w c (crl_valid w) info
    ++ (scan_client_artifacts w c [] c.artifacts
        ++ (scan_all_needed w c (is_some info)
            ++ (scan_profile w c info ++ scan_ccd w instance' c)))

unfoldable pub scan_clients : Installation → InstanceState → List ClientState → List Issue
unfolding scan_client
scan_clients w instance' [] = []
scan_clients w instance' (c ∷ cs) = scan_client w instance' c ++ scan_clients w instance' cs

abbrev pub interrupted : List Operation → List Issue
interrupted [] = []
interrupted (o ∷ os) =
    material_issue_for_owner "OPERATION_INTERRUPTED" Severity.critical "RECOVER_OPERATION" "" o.id
    ∷ interrupted os

abbrev pub database_issue : String → Issue
database_issue id = critical_issue id "meta/state.db" "" ""

abbrev pub pending_issues : Option (List Operation) → List Issue
pending_issues none = database_issue "SQLITE_OPERATION_STATE_INVALID" ∷ []
pending_issues (some os) = interrupted os

abbrev pub pending_number : Option (List Operation) → ℕ
pending_number none = 0
pending_number (some os) = length os

abbrev pub scan_server : Installation → String → List Issue
scan_server w owner = elim w.render_server [
  | none ↦
      material_issue "SERVER_CONFIG_RENDER_FAILED" Severity.critical "RESTORE_TEMPLATES"
        "server/server.conf"
      ∷ []
  | some expected ↦ compare_derived w "SERVER_CONFIG_DRIFT" "server/server.conf" expected owner
]

abbrev pub new_report : Report
new_report = record {
  state = Classification.healthy;
  instance_id = "";
  revision = 0;
  issue_count = 0;
  pending_count = 0;
  issues = [];
}

abbrev pub of_instance : InstanceState → Report
of_instance i = record new_report { instance_id = i.id; revision = i.applied.revision }

-- The end of Scan, from the pending operations on.
unfoldable pub scan_rest :
    Installation → InstanceState → List ClientState → List ArtifactMetadata → Report
unfolding scan_config scan_authority scan_artifact_set scan_clients compare_derived
scan_rest w i clients metadata =
    let opened : Report = record (of_instance i) { pending_count = pending_number w.pending } in
    if not w.artifact_root
    then finish (record opened {
      issues =
          pending_issues w.pending ++ critical_issue "ARTIFACT_ROOT_UNSAFE" w.data_dir "" "" ∷ [];
    })
    else finish (record opened {
      issues =
          pending_issues w.pending
          ++ (scan_config w i
              ++ (scan_authority w
                  ++ (scan_artifact_set w metadata i.id
                      ++ (scan_server w i.id ++ scan_clients w i clients))));
    })

abbrev failed_with : Report → String → Report
failed_with r id = finish (record r { issues = database_issue id ∷ [] })

-- There is no database, and nothing else in its directory.
abbrev pub is_unborn : Installation → OpenError → Bool
is_unborn w OpenError.missing = directory_empty w.data_directory
is_unborn w _ = false

-- Scan
unfoldable pub scan : Installation → Report
unfolding scan_rest
scan w = elim w.open_store [
  | err e ↦
      if is_unborn w e
      then record new_report { state = Classification.empty }
      else failed_with new_report (database_issue_id e)
  | ok _ ↦ elim w.instance' [
    | none ↦ failed_with new_report "SQLITE_STATE_INVALID"
    | some i ↦ elim w.clients [
      | none ↦ failed_with (of_instance i) "SQLITE_CLIENT_STATE_INVALID"
      | some clients ↦ elim w.metadata [
        | none ↦ failed_with (of_instance i) "SQLITE_ARTIFACT_STATE_INVALID"
        | some metadata ↦ scan_rest w i clients metadata
      ]
    ]
  ]
]
