-- ===== src/Store/Consistent/Placing.antt =====
-- Clients and assignments that are inserted in consistent tables.
use openvpn_docker.Prelude.{
  ◌≤◌, String, ◌≡◌, Bool, true, false, ◌&&◌, some, List, [], ◌∷◌, ◌++◌, arith, eq_iff,
  if◌then◌else◌, str_eq, Bool-cases, inl, inr, ltb, Option-cases,
}
use openvpn_docker.Domain.{Address}
use openvpn_docker.Domain.Sets.{same_address_iff}
use openvpn_docker.Store.{AddressAssignment}
use openvpn_docker.Store.Rows.{count_where, count_mono, count-append_one}
use openvpn_docker.Store.Tables.{
  ClientRow, AssignmentRow, is_current, is_held, has_id, has_name, holds, holds_dynamic,
  holds_address, address_taken, address_eq, is_assignment,
}
use openvpn_docker.Store.Consistent.{Core, IsConsistent, is_live, is_bad}

abbrev one_of_name : ClientRow → List ClientRow → Bool
one_of_name c cs =
    is_current c.status && ltb 0 (count_where (has_name c.instance_id c.current_name) cs)

abbrev pub add_client : ClientRow → Core → Core
add_client c k = record k { clients = k.clients ++ c ∷ [] }

module _ (c : ClientRow) (k : Core) (v : IsConsistent k) where
  add_client-ids :
      count_where (has_id c.id) k.clients ≡ 0
      → (j : String) → count_where (has_id j) (k.clients ++ c ∷ []) ≤ 1
  unfolding has_id
  add_client-ids new j =
      rw (count-append_one (has_id j) k.clients c) (elim (Bool-cases (str_eq c.id j)) [
        | inl e ↦
            let gone : count_where (has_id j) k.clients ≡ 0 = rw (← (eq_iff c.id j).0 e) new in
            rw (e, gone) (omega arith)
        | inr e ↦ rw e (omega (arith, v.ids j))
      ])

  add_client-names :
      one_of_name c k.clients ≡ false
      → (i n : String) → count_where (has_name i n) (k.clients ++ c ∷ []) ≤ 1
  unfolding has_name
  add_client-names free i n =
      rw (count-append_one (has_name i n) k.clients c) (elim (Bool-cases (has_name i n c)) [
        | inr e ↦ rw e (omega (arith, v.names i n))
        | inl e ↦
            let same_i : c.instance_id ≡ i = (eq_iff c.instance_id i).0 (ground arith) in
            let same_n : c.current_name ≡ n = (eq_iff c.current_name n).0 (ground arith) in
            let gone : ltb 0 (count_where (has_name i n) k.clients) ≡ false =
              rw (← same_i, ← same_n) (ground arith) in
            rw e (ground arith)
      ])

  pub add_client-IsConsistent :
      count_where (has_id c.id) k.clients ≡ 0
      → one_of_name c k.clients ≡ false
      → is_bad c ≡ false
      → IsConsistent (add_client c k)
  add_client-IsConsistent new free good = record {
    ids = add_client-ids new;
    names = add_client-names free;
    times = rw (count-append_one is_bad k.clients c, good) (omega (arith, v.times));
    rows = v.rows;
    single = v.single;
    owned = λ j. omega (arith, count-append_one (is_live j) k.clients c, v.owned j);
    addresses = v.addresses;
    carried = v.carried;
  }

  -- A client with a new id holds nothing.
  pub new-holds :
      count_where (has_id c.id) k.clients ≡ 0 → count_where (holds c.id) k.assignments ≡ 0
  unfolding is_live has_id
  new-holds new = omega (
    arith,
    v.owned c.id,
    count_mono (is_live c.id) (has_id c.id) k.clients (λ x h. ground arith),
    new,
  )

abbrev pub place : String → AddressAssignment → Core → Core
place id a k = record k { assignments = k.assignments ++ record { client_id = id; value = a } ∷ [] }

module _ (id : String) (a : AddressAssignment) (k : Core) (v : IsConsistent k) where
  abbrev row : AssignmentRow
  row = record { client_id = id; value = a }

  held_row :
      (n : String) (x : Address)
      → holds_address n x row ≡ true
      → (str_eq a.network_id n ≡ true)
        × (address_eq a.address (some x) ≡ true)
        × (is_held a.status ≡ true)
  unfolding holds_address
  held_row n x h = ground arith

  -- The unique index of the held addresses.
  taken_address :
      (n : String) (x y : Address)
      → a.address ≡ some y
      → a.network_id ≡ n
      → y ≡ x
      → (is_held a.status && address_taken a k.assignments) ≡ false
      → is_held a.status ≡ true
      → count_where (holds_address n x) k.assignments ≡ 0
  taken_address n x y there net same free held =
      let open_now : ltb 0 (count_where (holds_address a.network_id y) k.assignments) ≡ false =
        (rw there at (rw held at free)) in
      rw (← net, ← same) (ground arith)

  place-addresses :
      (is_held a.status && address_taken a k.assignments) ≡ false
      → (n : String) (x : Address) → count_where (holds_address n x) (k.assignments ++ row ∷ []) ≤ 1
  unfolding holds_address
  place-addresses free n x =
      rw (count-append_one (holds_address n x) k.assignments row)
        (elim (Bool-cases (holds_address n x row)) [
          | inr e ↦ rw e (omega (arith, v.addresses n x))
          | inl e ↦ elim (Option-cases a.address) [
            | inl nothing ↦ cc (rw nothing at ((held_row n x e).1))
            | inr (y, there) ↦
                let (net, at, held) = held_row n x e in
                rw e (
                  omega (
                    arith,
                    taken_address n x y there ((eq_iff a.network_id n).0 net)
                        ((same_address_iff y x).0 (rw there at at)) free held,
                  ))
          ]
        ])

  place-rows :
      count_where (is_assignment a.id) k.assignments ≡ 0
      → (j : String) → count_where (is_assignment j) (k.assignments ++ row ∷ []) ≤ 1
  unfolding is_assignment
  place-rows new j =
      rw (count-append_one (is_assignment j) k.assignments row) (elim (Bool-cases (str_eq a.id j)) [
        | inl e ↦
            let gone : count_where (is_assignment j) k.assignments ≡ 0 =
              rw (← (eq_iff a.id j).0 e) new in
            rw e (omega (arith, gone))
        | inr e ↦ rw e (omega (arith, v.rows j))
      ])

  place-holds_same :
      count_where (holds id) k.assignments ≡ 0
      → count_where (holds id) (k.assignments ++ row ∷ []) ≡ (if is_held a.status then 1 else 0)
  unfolding holds
  place-holds_same empty =
      rw (count-append_one (holds id) k.assignments row) (ground (arith, eq_iff id id, empty))

  pub place-holds_other :
      (j : String)
      → str_eq id j ≡ false
      → count_where (holds j) (k.assignments ++ row ∷ []) ≡ count_where (holds j) k.assignments
  unfolding holds
  place-holds_other j e = rw (count-append_one (holds j) k.assignments row) (rw e (omega arith))

  place-single :
      count_where (holds id) k.assignments ≡ 0
      → (j : String) → count_where (holds j) (k.assignments ++ row ∷ []) ≤ 1
  place-single empty j = elim (Bool-cases (str_eq id j)) [
    | inl e ↦ rw (← (eq_iff id j).0 e) (ground (arith, place-holds_same empty))
    | inr e ↦ rw (place-holds_other j e) (v.single j)
  ]

  place-owned :
      count_where (holds id) k.assignments ≡ 0
      → (is_held a.status ≡ true → 1 ≤ count_where (is_live id) k.clients)
      → (j : String)
      → count_where (holds j) (k.assignments ++ row ∷ []) ≤ count_where (is_live j) k.clients
  place-owned empty live j = elim (Bool-cases (str_eq id j)) [
    | inl e ↦ rw (← (eq_iff id j).0 e) (elim (Bool-cases (is_held a.status)) [
      | inl h ↦ omega (arith, rw h at (place-holds_same empty), live h)
      | inr h ↦ omega (arith, rw h at (place-holds_same empty))
    ])
    | inr e ↦ rw (place-holds_other j e) (v.owned j)
  ]

  pub place-IsConsistent :
      count_where (is_assignment a.id) k.assignments ≡ 0
      → (is_held a.status && address_taken a k.assignments) ≡ false
      → count_where (holds id) k.assignments ≡ 0
      → (is_held a.status ≡ true → 1 ≤ count_where (is_live id) k.clients)
      → IsConsistent (place id a k)
  place-IsConsistent new free empty live = record {
    ids = v.ids;
    names = v.names;
    times = v.times;
    rows = place-rows new;
    single = place-single empty;
    owned = place-owned empty live;
    addresses = place-addresses free;
    carried =
        λ j n. omega (arith, count-append_one (holds_dynamic j n) k.assignments row, v.carried j n);
  }
