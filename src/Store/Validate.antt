-- ===== src/Store/Validate.antt =====
-- validateClientState of internal/store/sqlite/client_state.go: which client records may be stored.
-- `clean` is path.Clean. A status is one of its constants by its type.
pub mod Accepted
mod Tests
use openvpn_docker.Prelude.{
  ℕ, zero, suc, ◌+◌, ◌-◌, ◌*◌, ◌/◌, ◌%◌, ◌^◌, ◌≤◌, ◌<◌, String, ◌≡◌, refl, sym, ap, ◌∙◌, ◌≢◌, ◌↔◌,
  ◌⊎◌, inl, inr, Bool, true, false, not, ◌&&◌, ◌||◌, Option, none, some, List, [], ◌∷◌, ◌++◌, map,
  arith, eq_iff, eq_refl, ltb, leb, ◌==◌, if◌then◌else◌, Bool-cases, Option-cases, str_eq, length,
  length-append, All, All-append, has, IsDistinct, has-append, ==_iff, ltb→lt, leb→le, Result, ok,
  err, ◌>>=◌, ◌>>◌, refuse_if, Result-cases, >>=-eq-ok, refuse_if-ok, ok-injective,
}
use openvpn_docker.Domain.{Address, AddressFamily, family}
use openvpn_docker.Domain.Config.{ClientStatus}
use openvpn_docker.Domain.Ids.{valid_uuid, new_client, codes}
use openvpn_docker.Ipam.{is_ipv4}
use openvpn_docker.Store.{
  ClientState, AddressAssignment, ArtifactMetadata, ClientLease, AssignmentStatus,
}

pub data StateError : Type 0 where
  invalid_client no_creation_time invalid_timestamps invalid_assignment invalid_lease : StateError
  invalid_artifact : StateError

abbrev pub is_some {ℓ} : {A : Type ℓ} → Option A → Bool
is_some none = false
is_some (some a) = true

abbrev pub bad_timestamps : ClientStatus → Bool → Bool → Bool
bad_timestamps ClientStatus.active revoked deleted = revoked || deleted
bad_timestamps ClientStatus.revoked revoked deleted = not revoked || deleted
bad_timestamps ClientStatus.deleted revoked deleted = not deleted

-- The release time is there exactly when the assignment is released.
abbrev pub bad_release : AssignmentStatus → Bool → Bool
bad_release AssignmentStatus.released released = not released
bad_release _ released = released

abbrev is_ipv4_address : Option Address → Bool
is_ipv4_address none = false
is_ipv4_address (some a) = is_ipv4 (family a)

abbrev pub bad_kind : String → Option Address → Bool
bad_kind kind address =
    if str_eq kind "static"
    then not (is_ipv4_address address)
    else not (str_eq kind "dynamic") || is_some address

unfoldable pub validate_assignment : Option AddressAssignment → Result StateError (Unit {0})
validate_assignment none = ok tt
validate_assignment (some a) = do
  refuse_if
      (not (valid_uuid a.id)
        || (not (valid_uuid a.network_id) || (a.created_at == 0 || a.updated_at == 0)))
      invalid_assignment
  refuse_if (bad_release a.status (is_some a.released_at)) invalid_assignment
  refuse_if (bad_kind a.kind a.address) invalid_assignment

abbrev pub is_released : AssignmentStatus → Bool
is_released AssignmentStatus.released = true
is_released _ = false

-- The assignment that a lease needs: current, dynamic and of its network.
abbrev pub carries : Option AddressAssignment → ClientLease → Bool
carries none lease = false
carries (some a) lease =
    str_eq a.kind "dynamic" && (str_eq a.network_id lease.network_id && not (is_released a.status))

unfoldable pub validate_lease :
    Option AddressAssignment → Option ClientLease → Result StateError (Unit {0})
validate_lease assignment none = ok tt
validate_lease assignment (some lease) = do
  refuse_if
      (not (is_ipv4 (family lease.address))
        || (lease.updated_at == 0 || not (valid_uuid lease.network_id)))
      invalid_lease
  refuse_if (not (carries assignment lease)) invalid_lease

abbrev pub one_of : List String → String → Bool
one_of [] s = false
one_of (t ∷ ts) s = str_eq t s || one_of ts s

abbrev pub instance_artifact_kinds : List String
instance_artifact_kinds =
    "ca-cert" ∷ "ca-key" ∷ "server-cert" ∷ "server-key" ∷ "crl" ∷ "tls-crypt" ∷ "server-config" ∷ []

abbrev pub client_artifact_kinds : List String
client_artifact_kinds = "client-cert" ∷ "client-key" ∷ "profile" ∷ "ccd" ∷ []

abbrev pub artifact_kinds : List String
artifact_kinds =
    "ca-cert" ∷ "ca-key" ∷ "server-cert" ∷ "server-key" ∷ "client-cert" ∷ "client-key" ∷ "crl"
    ∷ "tls-crypt" ∷ "profile" ∷ "ccd" ∷ "server-config" ∷ []

abbrev starts_with : List ℕ → List ℕ → Bool
starts_with cs [] = true
starts_with [] (p ∷ ps) = false
starts_with (c ∷ cs) (p ∷ ps) = c == p && starts_with cs ps

abbrev has_backslash : List ℕ → Bool
has_backslash [] = false
has_backslash (c ∷ cs) = c == 92 || has_backslash cs

abbrev pub bad_key : (String → String) → String → Bool
bad_key clean key =
    str_eq key ""
    || (starts_with (codes key) (codes "/")
        || (not (str_eq (clean key) key)
            || (str_eq key "."
                || (str_eq key ".."
                    || (starts_with (codes key) (codes "../") || has_backslash (codes key))))))

-- The fingerprint is a string of bytes: its length counts them.
unfoldable pub validate_artifact :
    (String → String) → (String → ℕ) → ArtifactMetadata → Result StateError (Unit {0})
validate_artifact clean size a = do
  refuse_if
      (not (valid_uuid a.id)
        || (not (valid_uuid a.owner_id)
            || (not (str_eq a.owner_kind "client") && not (str_eq a.owner_kind "instance"))))
      invalid_artifact
  refuse_if (bad_key clean a.key) invalid_artifact
  refuse_if
      (not (size a.certificate_fingerprint == 0) && not (size a.certificate_fingerprint == 32))
      invalid_artifact
  refuse_if (not (one_of artifact_kinds a.kind)) invalid_artifact

unfoldable pub validate_artifact_owner_kind : ArtifactMetadata → Result StateError (Unit {0})
validate_artifact_owner_kind a =
    if str_eq a.owner_kind "instance"
    then refuse_if (not (one_of instance_artifact_kinds a.kind)) invalid_artifact
    else if str_eq a.owner_kind "client"
    then refuse_if (not (one_of client_artifact_kinds a.kind)) invalid_artifact
    else err invalid_artifact

validate_artifacts :
    (String → String) → (String → ℕ) → List ArtifactMetadata → Result StateError (Unit {0})
unfolding validate_artifact validate_artifact_owner_kind
validate_artifacts clean size [] = ok tt
validate_artifacts clean size (a ∷ as') = do
  validate_artifact clean size a
  validate_artifact_owner_kind a
  validate_artifacts clean size as'

abbrev pub check_client : ClientState → Result StateError (Unit {0})
check_client c = elim (new_client c.client.id c.client.name c.client.status) [
  | ok _ ↦ ok tt
  | err _ ↦ err invalid_client
]

unfoldable pub validate_client_state :
    (String → String) → (String → ℕ) → ClientState → Result StateError (Unit {0})
unfolding validate_assignment validate_lease validate_artifacts
validate_client_state clean size c = do
  check_client c
  refuse_if (c.created_at == 0) no_creation_time
  refuse_if (bad_timestamps c.client.status (is_some c.revoked_at) (is_some c.deleted_at))
      invalid_timestamps
  validate_assignment c.assignment
  validate_lease c.assignment c.lease
  validate_artifacts clean size c.artifacts
