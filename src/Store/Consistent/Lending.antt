-- ===== src/Store/Consistent/Lending.antt =====
-- Assignments that are given back, and leases, in consistent tables.
use openvpn_docker.Prelude.{
  ℕ, ◌≤◌, String, ◌≡◌, refl, inl, inr, Bool, true, not, ◌&&◌, some, List, [], ◌∷◌, ◌++◌, arith,
  eq_iff, ltb, Bool-cases,
}
use openvpn_docker.Store.{ClientLease}
use openvpn_docker.Store.Rows.{
  count_where, update_where, delete_where, find_where, count-update_same, count-delete-le,
  count-append_one, find-count, count_split, count-update_among,
}
use openvpn_docker.Store.Tables.{
  AssignmentRow, LeaseRow, is_held, holds, holds_dynamic, holds_address, leases_in, is_assignment,
  reactivate,
}
use openvpn_docker.Store.Clients.{leased_elsewhere, renewed, upsert_lease}
use openvpn_docker.Store.Consistent.{Core, IsConsistent}

-- An assignment that is held already is made active.
module _ (id j : String) (at : ℕ) (k : Core) (v : IsConsistent k) (found : AssignmentRow) where
  abbrev pub restore : Core
  restore = record k { assignments = update_where (is_assignment j) (reactivate at) k.assignments }

  -- The rows with the identifier are held.
  only_held :
      find_where (holds id) k.assignments ≡ some found
      → is_assignment j found ≡ true
      → count_where (λ x. not (holds id x) && is_assignment j x) k.assignments ≡ 0
  only_held there named = omega (
    arith,
    find-count (holds id) (is_assignment j) k.assignments {y = found} there named,
    count_split (holds id) (is_assignment j) k.assignments,
    v.rows j,
  )

  restore_count :
      (p : AssignmentRow → Bool)
      → find_where (holds id) k.assignments ≡ some found
      → is_assignment j found ≡ true
      → ((x : AssignmentRow) → is_held x.value.status ≡ true → p (reactivate at x) ≡ p x)
      → count_where p restore.assignments ≡ count_where p k.assignments
  unfolding holds
  restore_count p there named h =
      count-update_among p (is_assignment j) (holds id) (reactivate at) k.assignments
        (only_held there named) (λ x w g. h x (ground arith))

  pub restore-IsConsistent :
      find_where (holds id) k.assignments ≡ some found
      → is_assignment j found ≡ true
      → IsConsistent restore
  unfolding holds holds_dynamic holds_address is_assignment
  restore-IsConsistent there named = record {
    ids = v.ids;
    names = v.names;
    times = v.times;
    rows = λ i. rw (restore_count (is_assignment i) there named (λ x h. refl)) (v.rows i);
    single = λ i. rw (restore_count (holds i) there named (λ x h. ground arith)) (v.single i);
    owned = λ i. rw (restore_count (holds i) there named (λ x h. ground arith)) (v.owned i);
    addresses = λ n x.
        rw (restore_count (holds_address n x) there named (λ y h. ground arith)) (v.addresses n x);
    carried = λ i n.
        rw (restore_count (holds_dynamic i n) there named (λ x h. ground arith)) (v.carried i n);
  }

module _ (id : String) (lease : ClientLease) (k : Core) (v : IsConsistent k) where
  abbrev pub lend : List LeaseRow → Core
  lend ls = record k { leases = ls }

  abbrev lease_row : LeaseRow
  lease_row = record { client_id = id; value = lease }

  lent :
      (ls : List LeaseRow) (j n : String)
      → ((i m : String)
          → count_where (leases_in i m) ls ≤ count_where (holds_dynamic i m) k.assignments)
      → count_where (leases_in id lease.network_id) ls ≡ 0
      → 1 ≤ count_where (holds_dynamic id lease.network_id) k.assignments
      → count_where (leases_in j n) (ls ++ lease_row ∷ [])
        ≤ count_where (holds_dynamic j n) k.assignments
  unfolding leases_in
  lent ls j n old none' there =
      rw (count-append_one (leases_in j n) ls lease_row)
        (elim (Bool-cases (leases_in j n lease_row)) [
          | inr e ↦ rw e (omega (arith, old j n))
          | inl e ↦
              let same_j : id ≡ j = (eq_iff id j).0 (ground arith) in
              let same_n : lease.network_id ≡ n = (eq_iff lease.network_id n).0 (ground arith) in
              let gone : count_where (leases_in j n) ls ≡ 0 = rw (← same_j, ← same_n) none' in
              let held : 1 ≤ count_where (holds_dynamic j n) k.assignments =
                rw (← same_j, ← same_n) there in
              rw e (omega (arith, gone, held))
        ])

  pub lend-IsConsistent :
      (ls : List LeaseRow)
      → ((i m : String)
          → count_where (leases_in i m) ls ≤ count_where (holds_dynamic i m) k.assignments)
      → IsConsistent (lend ls)
  lend-IsConsistent ls h = record {
    ids = v.ids;
    names = v.names;
    times = v.times;
    rows = v.rows;
    single = v.single;
    owned = v.owned;
    addresses = v.addresses;
    carried = h;
  }

  renewed-leases_in :
      (j n : String) (ls : List LeaseRow)
      → count_where
          (leases_in j n)
          (update_where (leases_in id lease.network_id) (renewed lease) ls)
        ≡ count_where (leases_in j n) ls
  unfolding leases_in
  renewed-leases_in j n ls =
      count-update_same (leases_in j n) (leases_in id lease.network_id) (renewed lease) ls
        λ l w. refl

  -- INSERT of a lease that is not there.
  pub insert-IsConsistent :
      count_where (leases_in id lease.network_id) k.leases ≡ 0
      → 1 ≤ count_where (holds_dynamic id lease.network_id) k.assignments
      → IsConsistent (lend (k.leases ++ lease_row ∷ []))
  insert-IsConsistent none' there =
      lend-IsConsistent _ λ j n. lent k.leases j n v.carried none' there

  -- The statements of RecordLease.
  pub record-IsConsistent :
      1 ≤ count_where (holds_dynamic id lease.network_id) k.assignments
      → IsConsistent
          (lend (upsert_lease id lease (delete_where (leased_elsewhere id lease) k.leases)))
  unfolding upsert_lease
  record-IsConsistent there =
      let ls = delete_where (leased_elsewhere id lease) k.leases in
      let old : (i m : String)
          → count_where (leases_in i m) ls ≤ count_where (holds_dynamic i m) k.assignments =
        (λ i m. omega (
          arith,
          count-delete-le (leases_in i m) (leased_elsewhere id lease) k.leases,
          v.carried i m,
        )) in
      elim (Bool-cases (ltb 0 (count_where (leases_in id lease.network_id) ls))) [
        | inl e ↦ rw e (lend-IsConsistent _ λ j n. rw (renewed-leases_in j n ls) (old j n))
        | inr e ↦ rw e (lend-IsConsistent _ λ j n. lent ls j n old (ground arith) there)
      ]
