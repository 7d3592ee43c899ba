-- ===== src/Store.antt =====
-- The persisted records of internal/store/sqlite that the planners read. A time counts the seconds from
-- Go's zero time, so that IsZero is a comparison with 0.
pub mod Rows
pub mod Tables
pub mod Commits
pub mod Clients
pub mod Addressing
pub mod Consistent
pub mod Requests
pub mod Journal
pub mod Validate
use openvpn_docker.Prelude.{
  ℕ, zero, suc, ◌+◌, ◌-◌, ◌*◌, ◌/◌, ◌%◌, ◌^◌, ◌≤◌, ◌<◌, String, ◌≡◌, refl, sym, ap, ◌∙◌, ◌≢◌, ◌↔◌,
  ◌⊎◌, inl, inr, Bool, true, false, not, ◌&&◌, ◌||◌, Option, none, some, List, [], ◌∷◌, ◌++◌, map,
  arith, eq_iff, eq_refl, ltb, leb, ◌==◌, if◌then◌else◌, Bool-cases, Option-cases, str_eq, length,
  length-append, All, All-append, has, IsDistinct, has-append, ==_iff, ltb→lt, leb→le, Result, ok,
  err, ◌>>=◌, ◌>>◌, refuse_if,
}
use openvpn_docker.Domain.{Address}
use openvpn_docker.Domain.Config.{Client}
use openvpn_docker.Workflow.{AppliedSnapshot}

pub data AssignmentStatus : Type 0 where
  active retained released : AssignmentStatus

pub data ArtifactStatus : Type 0 where
  active stale deleted : ArtifactStatus

pub record AddressAssignment : Type 0 where
  pub id : String
  pub network_id : String
  pub kind : String
  pub address : Option Address
  pub status : AssignmentStatus
  pub created_at : ℕ
  pub updated_at : ℕ
  pub released_at : Option ℕ

pub record ArtifactMetadata : Type 0 where
  pub id : String
  pub owner_kind : String
  pub owner_id : String
  pub kind : String
  pub key : String
  pub digest : String
  pub certificate_serial : String
  pub certificate_fingerprint : String
  pub status : ArtifactStatus

pub record ClientLease : Type 0 where
  pub network_id : String
  pub address : Address
  pub updated_at : ℕ

pub record ClientState : Type 0 where
  pub client : Client
  pub created_at : ℕ
  pub revoked_at : Option ℕ
  pub deleted_at : Option ℕ
  pub assignment : Option AddressAssignment
  pub lease : Option ClientLease
  pub artifacts : List ArtifactMetadata

pub record InstanceState : Type 0 where
  pub id : String
  pub network_id : String
  pub applied : AppliedSnapshot

-- The address that a client's assignment names, if it has one.
abbrev pub assigned_address : ClientState → Option Address
assigned_address c = elim c.assignment [ none ↦ none | some a ↦ a.address ]
