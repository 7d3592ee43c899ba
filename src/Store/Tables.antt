-- ===== src/Store/Tables.antt =====
-- The tables that internal/store/sqlite/migrations.go declares for clients, address assignments,
-- leases, artifacts and networks, and the SQL statements of client_state.go, client_operation.go and
-- client_lifecycle_operation.go on them. A statement checks the unique indexes that it can break.
-- An address and a time are kept as the value that the column stands for.
use openvpn_docker.Prelude.{
  ℕ, ◌+◌, ◌-◌, String, Bool, true, false, not, ◌&&◌, ◌||◌, Option, none, some, List, [], ◌∷◌, ◌++◌,
  ltb, ◌==◌, if◌then◌else◌, str_eq, Result, ok, err, ◌>>=◌, ◌>>◌, refuse_if,
}
use openvpn_docker.Domain.{Address, Network}
use openvpn_docker.Domain.Config.{ClientStatus}
use openvpn_docker.Domain.Sets.{same_address}
use openvpn_docker.Ipam.{
  IpamError, Layout, new_ipv4_layout, validate_static, validate_dynamic_lease,
}
use openvpn_docker.Store.{
  AssignmentStatus, ArtifactStatus, AddressAssignment, ArtifactMetadata, ClientLease,
}
use openvpn_docker.Store.Journal.{Database, JournalError}
use openvpn_docker.Store.Rows.{count_where, update_where, delete_where, find_where}
use openvpn_docker.Store.Validate.{StateError, bad_timestamps, bad_release, is_some}

pub record ClientRow : Type 0 where
  pub id : String
  pub instance_id : String
  pub current_name : String
  pub status : ClientStatus
  pub created_at : ℕ
  pub revoked_at : Option ℕ
  pub deleted_at : Option ℕ

pub record AssignmentRow : Type 0 where
  pub client_id : String
  pub value : AddressAssignment

pub record LeaseRow : Type 0 where
  pub client_id : String
  pub value : ClientLease

pub record ArtifactRow : Type 0 where
  pub instance_id : String
  pub value : ArtifactMetadata

-- A row of networks, with the first and last address of its row in address_pools of kind dynamic.
pub record NetworkRow : Type 0 where
  pub id : String
  pub instance_id : String
  pub network : Network
  pub dynamic : Option (ℕ × ℕ)

pub record Tables : Type 0 where
  pub journal : Database
  pub clients : List ClientRow
  pub assignments : List AssignmentRow
  pub leases : List LeaseRow
  pub artifacts : List ArtifactRow
  pub networks : List NetworkRow

pub data StoreError : Type 0 where
  invalid_request operation_missing not_files_installed source_changed : StoreError
  constraint network_missing invalid_pool no_dynamic_assignment : StoreError
  artifact_conflict artifact_owner : StoreError
  invalid_state : StateError → StoreError
  pool_refused : IpamError → StoreError
  journal_refused : JournalError → StoreError

-- The tests of the statuses that the source spells as texts.
abbrev pub status_eq : ClientStatus → ClientStatus → Bool
status_eq ClientStatus.active ClientStatus.active = true
status_eq ClientStatus.revoked ClientStatus.revoked = true
status_eq ClientStatus.deleted ClientStatus.deleted = true
status_eq _ _ = false

-- status IN ('active', 'revoked')
abbrev pub is_current : ClientStatus → Bool
is_current ClientStatus.deleted = false
is_current _ = true

-- status IN ('active', 'retained')
abbrev pub is_held : AssignmentStatus → Bool
is_held AssignmentStatus.released = false
is_held _ = true

-- status IN ('active', 'stale')
abbrev pub is_kept : ArtifactStatus → Bool
is_kept ArtifactStatus.deleted = false
is_kept _ = true

abbrev pub address_eq : Option Address → Option Address → Bool
address_eq (some a) (some b) = same_address a b
address_eq _ _ = false

-- The tests of the WHERE clauses and of the partial indexes.
unfoldable pub has_id : String → ClientRow → Bool
has_id id c = str_eq c.id id

-- clients_current_name
unfoldable pub has_name : String → String → ClientRow → Bool
has_name instance_id name c =
    is_current c.status && (str_eq c.instance_id instance_id && str_eq c.current_name name)

unfoldable pub is_source : String → String → String → (ClientStatus → Bool) → ClientRow → Bool
is_source id instance_id name statuses c =
    str_eq c.id id
    && (str_eq c.instance_id instance_id && (str_eq c.current_name name && statuses c.status))

unfoldable pub holds : String → AssignmentRow → Bool
holds client_id a = str_eq a.client_id client_id && is_held a.value.status

-- assignments_current_client_network
unfoldable pub holds_in : String → String → AssignmentRow → Bool
holds_in client_id network_id a =
    str_eq a.client_id client_id && (str_eq a.value.network_id network_id && is_held a.value.status)

unfoldable pub holds_dynamic : String → String → AssignmentRow → Bool
holds_dynamic client_id network_id a =
    str_eq a.client_id client_id
    && (str_eq a.value.network_id network_id
        && (str_eq a.value.kind "dynamic" && is_held a.value.status))

-- assignments_current_network_address
unfoldable pub holds_address : String → Address → AssignmentRow → Bool
holds_address network_id address a =
    str_eq a.value.network_id network_id
    && (address_eq a.value.address (some address) && is_held a.value.status)

unfoldable pub is_assignment : String → AssignmentRow → Bool
is_assignment id a = str_eq a.value.id id

unfoldable pub leases_of : String → LeaseRow → Bool
leases_of client_id l = str_eq l.client_id client_id

unfoldable pub leases_in : String → String → LeaseRow → Bool
leases_in client_id network_id l =
    str_eq l.client_id client_id && str_eq l.value.network_id network_id

-- client_leases_network_address
unfoldable pub leases_address : String → Address → LeaseRow → Bool
leases_address network_id address l =
    str_eq l.value.network_id network_id && same_address l.value.address address

-- artifacts_current_key
unfoldable pub has_key : String → ArtifactRow → Bool
has_key key a = is_kept a.value.status && str_eq a.value.key key

unfoldable pub is_artifact : String → String → String → String → ArtifactRow → Bool
is_artifact instance_id owner_kind owner_id key a =
    str_eq a.instance_id instance_id
    && (str_eq a.value.owner_kind owner_kind
        && (str_eq a.value.owner_id owner_id && str_eq a.value.key key))

unfoldable pub is_network : String → String → NetworkRow → Bool
is_network id instance_id n = str_eq n.id id && str_eq n.instance_id instance_id

-- INSERT INTO clients
unfoldable pub insert_client : ClientRow → Tables → Result StoreError Tables
unfolding has_id has_name
insert_client c t = do
  refuse_if (ltb 0 (count_where (has_id c.id) t.clients)) constraint
  refuse_if
      (is_current c.status && ltb 0 (count_where (has_name c.instance_id c.current_name) t.clients))
      constraint
  refuse_if (bad_timestamps c.status (is_some c.revoked_at) (is_some c.deleted_at)) constraint
  ok (record t { clients = t.clients ++ c ∷ [] })

-- UPDATE clients ... WHERE ..., of which RowsAffected has to be 1.
unfoldable pub update_client :
    (ClientRow → Bool) → (ClientRow → ClientRow) → Tables → Result StoreError Tables
update_client w f t = do
  refuse_if (not (count_where w t.clients == 1)) source_changed
  ok (record t { clients = update_where w f t.clients })

-- loadNetworkLayout
unfoldable pub network_layout : NetworkRow → Result StoreError Layout
network_layout n = elim n.dynamic [
  | none ↦ (elim (new_ipv4_layout n.network 0) [ ok l ↦ ok l | err e ↦ err (pool_refused e) ])
  | some (first, last) ↦
      if ltb last first
      then err invalid_pool
      else (elim (new_ipv4_layout n.network (last - first + 1)) [
        | ok l ↦ ok l
        | err e ↦ err (pool_refused e)
      ])
]

unfoldable pub load_layout : String → Tables → Result StoreError Layout
unfolding network_layout
load_layout network_id t = elim (find_where (λ n. str_eq n.id network_id) t.networks) [
  | none ↦ err network_missing
  | some n ↦ network_layout n
]

unfoldable pub ensure_network_instance : String → String → Tables → Result StoreError (Unit {0})
ensure_network_instance network_id instance_id t =
    refuse_if (not (count_where (is_network network_id instance_id) t.networks == 1))
      network_missing

abbrev from_ipam : Result IpamError (Unit {0}) → Result StoreError (Unit {0})
from_ipam (ok u) = ok u
from_ipam (err e) = err (pool_refused e)

-- The static address of an assignment lies in the static range of its network.
unfoldable pub check_pool : AddressAssignment → Tables → Result StoreError (Unit {0})
unfolding load_layout
check_pool a t = elim a.address [
  | none ↦ ok tt
  | some address ↦ do l ← load_layout a.network_id t; from_ipam (validate_static l address)
]

-- CHECK ((kind = 'static' AND address IS NOT NULL) OR (kind = 'dynamic' AND address IS NULL))
abbrev pub bad_kind_address : String → Option Address → Bool
bad_kind_address kind address =
    not (str_eq kind "static" && is_some address || str_eq kind "dynamic" && not (is_some address))

abbrev pub address_taken : AddressAssignment → List AssignmentRow → Bool
address_taken a rows = elim a.address [
  | none ↦ false
  | some address ↦ ltb 0 (count_where (holds_address a.network_id address) rows)
]

-- insertAssignment: the pool, and INSERT INTO address_assignments with its constraints.
unfoldable pub insert_assignment : String → AddressAssignment → Tables → Result StoreError Tables
unfolding check_pool
insert_assignment client_id a t = do
  check_pool a t
  refuse_if (ltb 0 (count_where (is_assignment a.id) t.assignments)) constraint
  refuse_if
      (is_held a.status && ltb 0 (count_where (holds_in client_id a.network_id) t.assignments))
      constraint
  refuse_if (is_held a.status && address_taken a t.assignments) constraint
  refuse_if (bad_kind_address a.kind a.address) constraint
  refuse_if (bad_release a.status (is_some a.released_at)) constraint
  ok (record t { assignments = t.assignments ++ record { client_id = client_id; value = a } ∷ [] })

abbrev pub release : ℕ → AssignmentRow → AssignmentRow
release at a = record a {
  value = record (a.value) {
    status = AssignmentStatus.released;
    updated_at = at;
    released_at = some at;
  };
}

abbrev pub retain : ℕ → AssignmentRow → AssignmentRow
retain at a = record a {
  value = record (a.value) {
    status = AssignmentStatus.retained;
    updated_at = at;
    released_at = none;
  };
}

abbrev pub reactivate : ℕ → AssignmentRow → AssignmentRow
reactivate at a = record a {
  value = record (a.value) {
    status = AssignmentStatus.active;
    updated_at = at;
    released_at = none;
  };
}

-- UPDATE address_assignments ... WHERE client_id = ? AND status IN ('active', 'retained')
unfoldable pub change_held : (AssignmentRow → AssignmentRow) → String → Tables → Tables
change_held f client_id t = record t {
  assignments = update_where (holds client_id) f t.assignments;
}

-- DELETE FROM client_leases WHERE client_id = ?
unfoldable pub clear_leases : String → Tables → Tables
clear_leases client_id t = record t { leases = delete_where (leases_of client_id) t.leases }

-- validateLeasePool
unfoldable pub validate_lease_pool : ClientLease → Tables → Result StoreError (Unit {0})
unfolding load_layout
validate_lease_pool lease t = do
  l ← load_layout lease.network_id t
  from_ipam (validate_dynamic_lease l lease.address)

-- INSERT INTO client_leases
unfoldable pub insert_lease : String → ClientLease → Tables → Result StoreError Tables
insert_lease client_id lease t = do
  refuse_if
      (ltb 0 (count_where (leases_in client_id lease.network_id) t.leases)
        || ltb 0 (count_where (leases_address lease.network_id lease.address) t.leases))
      constraint
  ok (record t { leases = t.leases ++ record { client_id = client_id; value = lease } ∷ [] })
