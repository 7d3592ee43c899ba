-- ===== src/Store/Consistent.antt =====
-- What the tables of clients, assignments and leases keep in common, and how each statement of
-- internal/store/sqlite that Tables models changes the counts that say it.
pub mod Steps
pub mod Clients
pub mod Placing
pub mod Lending
pub mod Frames
pub mod Kept
pub mod Given
pub mod Noted
pub mod Created
pub mod Changed
pub mod Addressed
use openvpn_docker.Prelude.{
  ℕ, ◌+◌, ◌≤◌, String, ◌≡◌, refl, Bool, true, false, not, ◌&&◌, ◌||◌, Option, none, some, List, [],
  ◌∷◌, ◌++◌, arith, eq_iff, if◌then◌else◌, str_eq, Bool-cases, inl, inr,
}
use openvpn_docker.Domain.{Address}
use openvpn_docker.Domain.Config.{ClientStatus}
use openvpn_docker.Store.{AssignmentStatus, AddressAssignment}
use openvpn_docker.Store.Rows.{
  count_where, update_where, delete_where, count-update_same, count-update-le, count-update_none,
  count-delete_same, count-delete_none, count-delete-le, count_mono, count-append_one,
}
use openvpn_docker.Store.Tables.{
  Tables, ClientRow, AssignmentRow, LeaseRow, status_eq, is_current, is_held, has_id, has_name,
  is_source, holds, holds_in, holds_dynamic, holds_address, is_assignment, leases_of, leases_in,
  release, retain,
}
use openvpn_docker.Store.Validate.{bad_timestamps, is_some}

-- The three tables.
pub record Core : Type 0 where
  pub clients : List ClientRow
  pub assignments : List AssignmentRow
  pub leases : List LeaseRow

abbrev pub core : Tables → Core
core t = record { clients = t.clients; assignments = t.assignments; leases = t.leases }

unfoldable pub is_live : String → ClientRow → Bool
is_live id c = str_eq c.id id && is_current c.status

unfoldable pub is_bad : ClientRow → Bool
is_bad c = bad_timestamps c.status (is_some c.revoked_at) (is_some c.deleted_at)

-- No two clients have one id, no two current clients of an instance one name, and the times of a
-- client fit its status; no two assignments have one id; a client holds at most one assignment, and only a current client holds one;
-- no address of a network is held twice; and a lease stands beside a held dynamic assignment of its
-- network.
pub record IsConsistent (k : Core) : Type 0 where
  pub ids : (id : String) → count_where (has_id id) k.clients ≤ 1
  pub names : (i n : String) → count_where (has_name i n) k.clients ≤ 1
  pub times : count_where is_bad k.clients ≡ 0
  pub rows : (id : String) → count_where (is_assignment id) k.assignments ≤ 1
  pub single : (id : String) → count_where (holds id) k.assignments ≤ 1
  pub owned :
      (id : String) → count_where (holds id) k.assignments ≤ count_where (is_live id) k.clients
  pub addresses : (n : String) (a : Address) → count_where (holds_address n a) k.assignments ≤ 1
  pub carried :
      (id n : String)
      → count_where (leases_in id n) k.leases ≤ count_where (holds_dynamic id n) k.assignments

module _ (id i n : String) (q : ClientStatus → Bool) (f : ClientRow → ClientRow) where
  abbrev moved : List ClientRow → List ClientRow
  moved = update_where (is_source id i n q) f

  -- A change of a client's row that keeps its id, its instance, its name and that it is current.
  pub moved-has_id :
      (cs : List ClientRow) (j : String)
      → ((c : ClientRow) → (f c).id ≡ c.id)
      → count_where (has_id j) (moved cs) ≡ count_where (has_id j) cs
  unfolding has_id
  moved-has_id cs j h = count-update_same (has_id j) (is_source id i n q) f cs λ c w. rw (h c)

  pub moved-is_live_other :
      (cs : List ClientRow) (j : String)
      → ((c : ClientRow) → (f c).id ≡ c.id)
      → str_eq id j ≡ false
      → count_where (is_live j) (moved cs) ≡ count_where (is_live j) cs
  unfolding is_live is_source
  moved-is_live_other cs j h e =
      count-update_same (is_live j) (is_source id i n q) f cs
        λ c w. rw (h c) (ground (arith, eq_iff c.id id, eq_iff c.id j, eq_iff id j))

  pub moved-is_live :
      (cs : List ClientRow) (j : String)
      → ((c : ClientRow) → (f c).id ≡ c.id)
      → ((c : ClientRow) → q c.status ≡ true → is_current (f c).status ≡ is_current c.status)
      → count_where (is_live j) (moved cs) ≡ count_where (is_live j) cs
  unfolding is_live is_source
  moved-is_live cs j h k =
      count-update_same (is_live j) (is_source id i n q) f cs λ c w. rw (h c) (ground (arith, k c))

  pub moved-has_name :
      (cs : List ClientRow) (j m : String)
      → ((c : ClientRow) → (f c).instance_id ≡ c.instance_id)
      → ((c : ClientRow) → (f c).current_name ≡ c.current_name)
      → ((c : ClientRow)
          → q c.status ≡ true
          → is_current (f c).status ≡ true
          → is_current c.status ≡ true)
      → count_where (has_name j m) (moved cs) ≤ count_where (has_name j m) cs
  unfolding has_name is_source
  moved-has_name cs j m h k l =
      count-update-le (has_name j m) (is_source id i n q) f cs
        λ c w. rw (h c, k c) (ground (arith, l c))

  pub moved-is_bad :
      (cs : List ClientRow)
      → ((c : ClientRow) → is_bad (f c) ≡ false)
      → count_where is_bad (moved cs) ≤ count_where is_bad cs
  moved-is_bad cs h = count-update-le is_bad (is_source id i n q) f cs λ c w e. cc (h c)
