-- ===== src/Store/Consistent/Clients.antt =====
-- Statements on the table of clients that keep the tables consistent.
use openvpn_docker.Prelude.{
  ℕ, ◌≤◌, String, ◌≡◌, refl, Bool, true, false, ◌&&◌, List, arith, eq_iff, str_eq, Bool-cases, inl,
  inr,
}
use openvpn_docker.Domain.Config.{ClientStatus}
use openvpn_docker.Store.Rows.{count_where, update_where, count-update-le, count-update_add}
use openvpn_docker.Store.Tables.{ClientRow, status_eq, is_current, has_name, is_source, holds}
use openvpn_docker.Store.Clients.{revoked, reissued, deleted, renamed}
use openvpn_docker.Store.Consistent.{
  Core, IsConsistent, is_bad, moved-has_id, moved-is_live, moved-is_live_other, moved-has_name,
  moved-is_bad,
}

module _ (id i n : String) (q : ClientStatus → Bool) (f : ClientRow → ClientRow) where
  abbrev pub move : Core → Core
  move k = record k { clients = update_where (is_source id i n q) f k.clients }

  -- A change of the status of a current client to one that is current too.
  pub move-IsConsistent :
      (k : Core)
      → IsConsistent k
      → ((c : ClientRow) → (f c).id ≡ c.id)
      → ((c : ClientRow) → (f c).instance_id ≡ c.instance_id)
      → ((c : ClientRow) → (f c).current_name ≡ c.current_name)
      → ((c : ClientRow) → q c.status ≡ true → is_current (f c).status ≡ is_current c.status)
      → ((c : ClientRow) → is_bad (f c) ≡ false)
      → IsConsistent (move k)
  move-IsConsistent k v a b c d e = record {
    ids = λ j. rw (moved-has_id id i n q f k.clients j a) (v.ids j);
    names = λ j m.
        omega
          (arith, moved-has_name id i n q f k.clients j m b c (λ x w h. cc (d x w)), v.names j m);
    times = omega (arith, moved-is_bad id i n q f k.clients e, v.times);
    rows = v.rows;
    single = v.single;
    owned = λ j. rw (moved-is_live id i n q f k.clients j a d) (v.owned j);
    addresses = v.addresses;
    carried = v.carried;
  }

pub revoke-IsConsistent :
    (id i n : String) (at : ℕ) (k : Core)
    → IsConsistent k
    → IsConsistent (move id i n (status_eq ClientStatus.active) (revoked at) k)
unfolding is_bad
revoke-IsConsistent id i n at k v =
    move-IsConsistent id i n (status_eq ClientStatus.active) (revoked at) k v (λ c. refl)
      (λ c. refl) (λ c. refl) (λ c h. ground arith) (λ c. refl)

pub reissue-IsConsistent :
    (id i n : String) (status : ClientStatus) (k : Core)
    → is_current status ≡ true
    → IsConsistent k
    → IsConsistent (move id i n (status_eq status) reissued k)
unfolding is_bad
reissue-IsConsistent id i n status k cur v =
    move-IsConsistent id i n (status_eq status) reissued k v (λ c. refl) (λ c. refl) (λ c. refl)
      (λ c h. ground arith) (λ c. refl)

-- A client is deleted when it holds nothing.
pub delete-IsConsistent :
    (id i n : String) (status : ClientStatus) (at : ℕ) (k : Core)
    → count_where (holds id) k.assignments ≡ 0
    → IsConsistent k
    → IsConsistent (move id i n (status_eq status) (deleted at) k)
unfolding is_bad
delete-IsConsistent id i n status at k empty v = record {
  ids = λ j.
      rw (moved-has_id id i n (status_eq status) (deleted at) k.clients j (λ c. refl)) (v.ids j);
  names = λ j m. omega (
    arith,
    moved-has_name id i n (status_eq status) (deleted at) k.clients j m (λ c. refl) (λ c. refl)
        (λ c w h. cc h),
    v.names j m,
  );
  times =
      omega
        (arith, moved-is_bad id i n (status_eq status) (deleted at) k.clients (λ c. refl), v.times);
  rows = v.rows;
  single = v.single;
  owned = λ j. elim (Bool-cases (str_eq id j)) [
    | inl e ↦ rw (← (eq_iff id j).0 e) (omega (arith, empty))
    | inr e ↦
        rw (moved-is_live_other id i n (status_eq status) (deleted at) k.clients j (λ c. refl) e)
          (v.owned j)
  ];
  addresses = v.addresses;
  carried = v.carried;
}

-- The names after a rename that the unique index lets pass.
renamed-has_name :
    (id i n m : String) (cs : List ClientRow) (j l : String)
    → count_where (is_source id i n is_current) cs ≡ 1
    → count_where (has_name i m) cs ≡ 0
    → count_where (has_name j l) cs ≤ 1
    → count_where (has_name j l) (update_where (is_source id i n is_current) (renamed m) cs) ≤ 1
unfolding has_name is_source
renamed-has_name id i n m cs j l one free old = elim (Bool-cases (str_eq i j && str_eq m l)) [
  | inl e ↦
      let same_i : i ≡ j = (eq_iff i j).0 (ground arith) in
      let same_m : m ≡ l = (eq_iff m l).0 (ground arith) in
      let gone : count_where (has_name j l) cs ≡ 0 = rw (← same_i, ← same_m) free in
      omega (
        arith,
        count-update_add (has_name j l) (is_source id i n is_current) (renamed m) cs,
        gone,
        one,
      )
  | inr e ↦ omega (
    arith,
    count-update-le (has_name j l) (is_source id i n is_current) (renamed m) cs
        λ c w h. ground (arith, eq_iff c.instance_id i, eq_iff c.instance_id j, eq_iff i j),
    old,
  )
]

pub rename-IsConsistent :
    (id i n m : String) (k : Core)
    → count_where (is_source id i n is_current) k.clients ≡ 1
    → count_where (has_name i m) k.clients ≡ 0
    → IsConsistent k
    → IsConsistent (move id i n is_current (renamed m) k)
unfolding is_bad
rename-IsConsistent id i n m k one free v = record {
  ids = λ j. rw (moved-has_id id i n is_current (renamed m) k.clients j (λ c. refl)) (v.ids j);
  names = λ j l. renamed-has_name id i n m k.clients j l one free (v.names j l);
  times = omega (
    arith,
    count-update-le is_bad (is_source id i n is_current) (renamed m) k.clients (λ c w h. h),
    v.times,
  );
  rows = v.rows;
  single = v.single;
  owned = λ j.
      rw (moved-is_live id i n is_current (renamed m) k.clients j (λ c. refl) (λ c h. refl))
        (v.owned j);
  addresses = v.addresses;
  carried = v.carried;
}
