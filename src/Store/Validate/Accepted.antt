-- ===== src/Store/Validate/Accepted.antt =====
-- What an accepted client record of internal/store/sqlite/client_state.go promises.
use openvpn_docker.Domain.{Address}
use openvpn_docker.Prelude.{
  ℕ, String, ◌≡◌, refl, true, false, not, ◌||◌, Option, none, some, arith, eq_iff, ◌==◌, str_eq,
  Result, ok, err, ◌>>◌, refuse_if, >>=-eq-ok, refuse_if-ok,
}
use openvpn_docker.Store.{ClientState, ClientLease, AddressAssignment, Address}
use openvpn_docker.Domain.{family}
use openvpn_docker.Domain.Ids.{valid_uuid}
use openvpn_docker.Ipam.{is_ipv4}
use openvpn_docker.Store.Validate.{
  bad_release, invalid_assignment, StateError, invalid_lease, no_creation_time, invalid_timestamps,
  bad_timestamps, validate_client_state, validate_assignment, validate_lease, check_client,
  bad_timestamps, bad_kind, is_some, is_released, carries,
}

-- A lease is there only for a current dynamic assignment of its network, without an address.
abbrev pub HasCarrier : Option AddressAssignment → ClientLease → Type 0
HasCarrier assignment lease =
    (a : AddressAssignment) × (assignment ≡ some a)
    × (a.kind ≡ "dynamic")
    × (a.network_id ≡ lease.network_id)
    × (a.address ≡ none)
    × (is_released a.status ≡ false)

is_some-none : (o : Option Address) → is_some o ≡ false → o ≡ none
is_some-none none h = refl
is_some-none (some a) h = cc

carries-parts :
    (a : AddressAssignment) (lease : ClientLease)
    → not (carries (some a) lease) ≡ false
    → (str_eq a.kind "dynamic" ≡ true)
      × (str_eq a.network_id lease.network_id ≡ true)
      × (is_released a.status ≡ false)
carries-parts a lease h = ground arith

bad_kind-dynamic :
    (kind : String) (address : Option Address)
    → kind ≡ "dynamic"
    → bad_kind kind address ≡ false
    → address ≡ none
bad_kind-dynamic kind address e h = is_some-none address (rw e at h)

seq-err :
    (m : Result StateError (Unit {0})) (e : StateError) {v : Unit {0}} → (m >> err e) ≡ ok v → ⊥
seq-err (ok _) e h = cc
seq-err (err d) e h = cc

validate_lease-HasCarrier :
    (o : Option AddressAssignment) (lease : ClientLease) {u v : Unit {0}}
    → validate_assignment o ≡ ok u
    → validate_lease o (some lease) ≡ ok v
    → HasCarrier o lease
unfolding validate_assignment validate_lease
validate_lease-HasCarrier none lease h k = absurd (seq-err (refuse_if _ _) invalid_lease k)
validate_lease-HasCarrier (some a) lease h k =
    let (_, _, k1) =
      >>=-eq-ok
        (refuse_if
          (not (is_ipv4 (family lease.address))
            || (lease.updated_at == 0 || not (valid_uuid lease.network_id)))
          invalid_lease)
        _ k in
    let (_, _, h1) =
      >>=-eq-ok
        (refuse_if
          (not (valid_uuid a.id)
            || (not (valid_uuid a.network_id) || (a.created_at == 0 || a.updated_at == 0)))
          invalid_assignment)
        _ h in
    let (_, _, h2) =
      >>=-eq-ok (refuse_if (bad_release a.status (is_some a.released_at)) invalid_assignment) _
        h1 in
    let (kind, network, current) = carries-parts a lease (refuse_if-ok _ invalid_lease k1) in
    let dynamic = (eq_iff a.kind "dynamic").0 kind in
    (
      a,
      refl,
      dynamic,
      (eq_iff a.network_id lease.network_id).0 network,
      bad_kind-dynamic a.kind a.address dynamic (refuse_if-ok _ invalid_assignment h2),
      current,
    )

-- An accepted client record has a lease only beside a current dynamic assignment of the same
-- network, which names no address.
pub validate_client_state-HasCarrier :
    (clean : String → String) (size : String → ℕ) (c : ClientState) {u : Unit {0}}
    (lease : ClientLease)
    → validate_client_state clean size c ≡ ok u
    → c.lease ≡ some lease
    → HasCarrier c.assignment lease
unfolding validate_client_state
validate_client_state-HasCarrier clean size c lease h e =
    let (_, _, h1) = >>=-eq-ok (check_client c) _ h in
    let (_, _, h2) = >>=-eq-ok (refuse_if (c.created_at == 0) no_creation_time) _ h1 in
    let (_, _, h3) =
      >>=-eq-ok
        (refuse_if (bad_timestamps c.client.status (is_some c.revoked_at) (is_some c.deleted_at))
          invalid_timestamps)
        _ h2 in
    let (_, assigned, h4) = >>=-eq-ok (validate_assignment c.assignment) _ h3 in
    let (_, leased, _) = >>=-eq-ok (validate_lease c.assignment c.lease) _ h4 in
    validate_lease-HasCarrier c.assignment lease assigned (rw e at leased)
