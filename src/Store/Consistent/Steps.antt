-- ===== src/Store/Consistent/Steps.antt =====
-- Statements and pairs of statements that keep the tables consistent.
use openvpn_docker.Prelude.{
  ℕ, ◌≤◌, String, ◌≡◌, refl, false, List, arith, eq_iff, str_eq, Bool-cases, inl, inr,
}
use openvpn_docker.Domain.{Address}
use openvpn_docker.Store.Rows.{
  count_where, update_where, delete_where, count-update_same, count-update-le, count-update_none,
  count-delete_same, count-delete_none, count-delete-le,
}
use openvpn_docker.Store.Tables.{
  AssignmentRow, LeaseRow, holds, holds_dynamic, holds_address, leases_of, leases_in, release,
  retain, is_assignment,
}
use openvpn_docker.Store.Consistent.{Core, IsConsistent}

-- UPDATE of the held assignments of a client by `release`.
module _ (id : String) (at : ℕ) (as' : List AssignmentRow) where
  abbrev released : List AssignmentRow
  released = update_where (holds id) (release at) as'

  pub released-holds_same : count_where (holds id) released ≡ 0
  unfolding holds
  released-holds_same =
      count-update_none (holds id) (holds id) (release at) as' (λ a h. h) (λ a. ground arith)

  pub released-holds_other :
      (j : String)
      → str_eq id j ≡ false
      → count_where (holds j) released ≡ count_where (holds j) as'
  unfolding holds
  released-holds_other j e =
      count-update_same (holds j) (holds id) (release at) as'
        λ a w. ground (arith, eq_iff a.client_id id, eq_iff a.client_id j, eq_iff id j)

  pub released-holds-le : (j : String) → count_where (holds j) released ≤ count_where (holds j) as'
  unfolding holds
  released-holds-le j = count-update-le (holds j) (holds id) (release at) as' λ a w e. ground arith

  pub released-holds_dynamic_other :
      (j n : String)
      → str_eq id j ≡ false
      → count_where (holds_dynamic j n) released ≡ count_where (holds_dynamic j n) as'
  unfolding holds holds_dynamic
  released-holds_dynamic_other j n e =
      count-update_same (holds_dynamic j n) (holds id) (release at) as'
        λ a w. ground (arith, eq_iff a.client_id id, eq_iff a.client_id j, eq_iff id j)

  pub released-holds_address :
      (n : String) (x : Address)
      → count_where (holds_address n x) released ≤ count_where (holds_address n x) as'
  unfolding holds holds_address
  released-holds_address n x =
      count-update-le (holds_address n x) (holds id) (release at) as' λ a w e. ground arith

  pub released-is_assignment :
      (j : String) → count_where (is_assignment j) released ≡ count_where (is_assignment j) as'
  unfolding is_assignment
  released-is_assignment j =
      count-update_same (is_assignment j) (holds id) (release at) as' λ a w. refl

-- DELETE of the leases of a client.
module _ (id : String) (ls : List LeaseRow) where
  pub cleared_same :
      (n : String) → count_where (leases_in id n) (delete_where (leases_of id) ls) ≡ 0
  unfolding leases_of leases_in
  cleared_same n = count-delete_none (leases_in id n) (leases_of id) ls λ l h. ground arith

  pub cleared_other :
      (j n : String)
      → str_eq id j ≡ false
      → count_where (leases_in j n) (delete_where (leases_of id) ls)
        ≡ count_where (leases_in j n) ls
  unfolding leases_of leases_in
  cleared_other j n e =
      count-delete_same (leases_in j n) (leases_of id) ls
        λ l h. ground (arith, eq_iff l.client_id id, eq_iff l.client_id j, eq_iff id j)

abbrev pub vacate : String → ℕ → Core → Core
vacate id at k = record {
  clients = k.clients;
  assignments = update_where (holds id) (release at) k.assignments;
  leases = delete_where (leases_of id) k.leases;
}

abbrev pub keep_address : String → ℕ → Core → Core
keep_address id at k = record {
  clients = k.clients;
  assignments = update_where (holds id) (retain at) k.assignments;
  leases = delete_where (leases_of id) k.leases;
}

module _ (id : String) (at : ℕ) (k : Core) (v : IsConsistent k) where
  vacate-carried :
      (j n : String)
      → count_where (leases_in j n) (vacate id at k).leases
        ≤ count_where (holds_dynamic j n) (vacate id at k).assignments
  vacate-carried j n = elim (Bool-cases (str_eq id j)) [
    | inl e ↦ rw (← (eq_iff id j).0 e) (rw (cleared_same id k.leases n) (omega arith))
    | inr e ↦
        rw (cleared_other id k.leases j n e, released-holds_dynamic_other id at k.assignments j n e)
          (v.carried j n)
  ]

  -- The released client holds nothing.
  pub vacate-holds : count_where (holds id) (vacate id at k).assignments ≡ 0
  vacate-holds = released-holds_same id at k.assignments

  pub vacate-IsConsistent : IsConsistent (vacate id at k)
  vacate-IsConsistent = record {
    ids = v.ids;
    names = v.names;
    times = v.times;
    rows = λ j. rw (released-is_assignment id at k.assignments j) (v.rows j);
    single = λ j. omega (arith, released-holds-le id at k.assignments j, v.single j);
    owned = λ j. omega (arith, released-holds-le id at k.assignments j, v.owned j);
    addresses =
        λ n x. omega (arith, released-holds_address id at k.assignments n x, v.addresses n x);
    carried = vacate-carried;
  }

  retained_holds :
      (j : String)
      → count_where (holds j) (keep_address id at k).assignments
        ≡ count_where (holds j) k.assignments
  unfolding holds
  retained_holds j =
      count-update_same (holds j) (holds id) (retain at) k.assignments λ a w. ground arith

  retained_dynamic :
      (j n : String)
      → count_where (holds_dynamic j n) (keep_address id at k).assignments
        ≡ count_where (holds_dynamic j n) k.assignments
  unfolding holds holds_dynamic
  retained_dynamic j n =
      count-update_same (holds_dynamic j n) (holds id) (retain at) k.assignments λ a w. ground arith

  retained_rows :
      (j : String)
      → count_where (is_assignment j) (keep_address id at k).assignments
        ≡ count_where (is_assignment j) k.assignments
  unfolding is_assignment
  retained_rows j =
      count-update_same (is_assignment j) (holds id) (retain at) k.assignments λ a w. refl

  retained_address :
      (n : String) (x : Address)
      → count_where (holds_address n x) (keep_address id at k).assignments
        ≡ count_where (holds_address n x) k.assignments
  unfolding holds holds_address
  retained_address n x =
      count-update_same (holds_address n x) (holds id) (retain at) k.assignments λ a w. ground arith

  pub keep_address-IsConsistent : IsConsistent (keep_address id at k)
  keep_address-IsConsistent = record {
    ids = v.ids;
    names = v.names;
    times = v.times;
    rows = λ j. rw (retained_rows j) (v.rows j);
    single = λ j. rw (retained_holds j) (v.single j);
    owned = λ j. rw (retained_holds j) (v.owned j);
    addresses = λ n x. rw (retained_address n x) (v.addresses n x);
    carried = λ j n. omega (
      arith,
      retained_dynamic j n,
      count-delete-le (leases_in j n) (leases_of id) k.leases,
      v.carried j n,
    );
  }
