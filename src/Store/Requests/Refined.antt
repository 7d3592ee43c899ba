-- ===== src/Store/Requests/Refined.antt =====
-- Each call of the store against the machine of Lives, and what becomes of a deleted client.
use mathlib.Core.Path.{subst}
use openvpn_docker.Prelude.{
  ℕ, String, ◌≡◌, refl, sym, ap, ◌∙◌, inl, inr, Bool, true, false, ◌&&◌, Option, some, List, [],
  ◌∷◌, arith, eq_iff, if◌then◌else◌, str_eq, Bool-cases, ok, Result-cases,
}
use openvpn_docker.Domain.Config.{ClientStatus}
use openvpn_docker.Store.Rows.{count_where, update_where}
use openvpn_docker.Store.Tables.{
  Tables, ClientRow, has_id, is_source, is_current, status_eq, clear_leases,
}
use openvpn_docker.Store.Commits.{Session}
use openvpn_docker.Store.Clients.{
  Rename, Change, source, revoked, reissued, deleted, renamed, client_row,
}
use openvpn_docker.Store.Requests.{
  Request, create, rename, revoke, reissue, delete, assign, lease, journal, attempt, settle, serve,
}
use openvpn_docker.Store.{ClientState, ClientLease, AddressAssignment}
use openvpn_docker.Store.Addressing.{Addressing, commit_addresses}
use openvpn_docker.Store.Clients.{
  commit_create, commit_rename, commit_revoke, commit_reissue, commit_delete, record_lease,
}
use openvpn_docker.Store.Consistent.{IsConsistent, Core, core}
use openvpn_docker.Store.Consistent.Addressed.{commit_addresses-clients}
use openvpn_docker.Store.Consistent.Created.{commit_create-clients}
use openvpn_docker.Store.Consistent.Given.{commit_reissue-ok, reassign-clients}
use openvpn_docker.Store.Consistent.Noted.{commit_rename-ok, record_lease-ok}
use openvpn_docker.Store.Consistent.Kept.{commit_revoke-ok, commit_delete-ok}
use openvpn_docker.Store.Consistent.Clients.{move}
use openvpn_docker.Store.Consistent.Steps.{vacate, keep_address}
use openvpn_docker.Store.Requests.Safe.{AreFit, attempt-Keeps, from_journal-core}
use openvpn_docker.Store.Requests.Lives.{
  life, may, after, is_status, life-source, life-update_same, life-update_other, life-absent,
  life-added, life-added_other, life-kept,
}

clients_of : {k : Core} (t' : Tables) → core t' ≡ k → t'.clients ≡ k.clients
clients_of t' e = ap (λ (k : Core). k.clients) e

life_of : (id : String) {cs ds : List ClientRow} → cs ≡ ds → life id cs ≡ life id ds
life_of id e = ap (life id) e

module _ (s : Session) (t : Tables) (id : String) (v : IsConsistent (core t)) where
  abbrev Lives : Request → Tables → Type 0
  Lives r t' =
      (may r id (life id t.clients) ≡ true) × (life id t'.clients ≡ after r id (life id t.clients))

  create-Lives :
      (o i : String) (c : ClientState) (payload : String) (at : ℕ) {t' : Tables}
      → commit_create s o i c payload at t ≡ ok t'
      → Lives (create o i c payload at) t'
  create-Lives o i c payload at {t'} h =
      let (new, e) = commit_create-clients s o i c payload at t {t' = t'} h in
      elim (Bool-cases (str_eq c.client.id id)) [
        | inl q ↦
            let same : c.client.id ≡ id = (eq_iff c.client.id id).0 q in
            let gone : count_where (has_id id) t.clients ≡ 0 = rw (← same) new in
            rw (q, e)
              (life-absent id t.clients gone, life-added id t.clients (client_row i c) gone q)
        | inr q ↦ rw (q, e) (refl, life-added_other id t.clients (client_row i c) q)
      ]

  -- A change of one client's status.
  changed :
      (k i n : String) (q : ClientStatus → Bool) (f : ClientRow → ClientRow) (to : ClientStatus)
      (test : Option ClientStatus → Bool) (cs : List ClientRow)
      → count_where (is_source k i n q) t.clients ≡ 1
      → cs ≡ update_where (is_source k i n q) f t.clients
      → ((c : ClientRow) → (f c).id ≡ c.id)
      → ((c : ClientRow) → (f c).status ≡ to)
      → ((r : ClientStatus) → q r ≡ true → test (some r) ≡ true)
      → ((if str_eq k id then test (life id t.clients) else true) ≡ true)
        × (life id cs ≡ (if str_eq k id then some to else life id t.clients))
  changed k i n q f to test cs one e keeps becomes passes = elim (Bool-cases (str_eq k id)) [
    | inl same ↦
        let (r, there, w) = life-source k i n q f t.clients v.ids one keeps in
        let ki : k ≡ id = (eq_iff k id).0 same in
        let at_id : life id t.clients ≡ some r = rw (← ki) there in
        let after' = life-update_same k i n q f t.clients v.ids one keeps to becomes in
        rw same (rw at_id (passes r w), rw e (rw (← ki) after'))
    | inr other ↦
        rw other (refl, rw e (life-update_other k i n q f t.clients v.ids one keeps id other))
  ]

  rename-Lives :
      (o i : String) (r : Rename) (payload : String) (at : ℕ) {t' : Tables}
      → commit_rename s o i r payload at t ≡ ok t'
      → Lives (rename o i r payload at) t'
  rename-Lives o i r payload at {t'} h =
      let (one, _, e) = commit_rename-ok s o i r payload at t {t' = t'} h in
      (
        elim (Bool-cases (str_eq r.client_id id)) [
          | inl same ↦
              let (x, there, w) =
                life-source r.client_id i r.old_name is_current (renamed r.new_name) t.clients v.ids
                  one (λ c. refl) in
              let at_id : life id t.clients ≡ some x =
                rw (← (eq_iff r.client_id id).0 same) there in
              rw same (rw at_id w)
          | inr other ↦ rw other refl
        ],
        life_of id (clients_of t' e)
            ∙ life-kept id (is_source r.client_id i r.old_name is_current) (renamed r.new_name)
                t.clients (λ c. refl) (λ c. refl),
      )

  revoke-Lives :
      (c : Change) (b : Bool) {t' : Tables} → commit_revoke s c b t ≡ ok t' → Lives (revoke c b) t'
  revoke-Lives c b {t'} h =
      let (one, e) = commit_revoke-ok s c b t {t' = t'} h in
      changed c.client_id c.instance_id c.name (status_eq ClientStatus.active) (revoked c.at)
        ClientStatus.revoked (is_status ClientStatus.active) t'.clients one
        (clients_of t' e ∙ revoked_clients b) (λ x. refl) (λ x. refl) (λ r w. w)
    where
      revoked_clients :
          (b : Bool)
          → ((if b then vacate c.client_id c.at else keep_address c.client_id c.at) (
              move c.client_id c.instance_id c.name
                (status_eq ClientStatus.active)
                (revoked c.at)
                (core t))).clients
            ≡ update_where (source c ClientStatus.active) (revoked c.at) t.clients
      revoked_clients true = refl
      revoked_clients false = refl

  delete-Lives :
      (c : Change) (status : ClientStatus) {t' : Tables}
      → commit_delete s c status t ≡ ok t'
      → Lives (delete c status) t'
  delete-Lives c status {t'} h =
      let (current, one, e) = commit_delete-ok s c status t {t' = t'} h in
      changed c.client_id c.instance_id c.name (status_eq status) (deleted c.at)
        ClientStatus.deleted (λ l. is_status status l && is_current status) t'.clients one
        (clients_of t' e) (λ x. refl) (λ x. refl) (λ r w. rw (w, current) refl)

  reissue-Lives :
      (c : Change) (status : ClientStatus) (a : AddressAssignment) {t' : Tables}
      → commit_reissue s c status a t ≡ ok t'
      → Lives (reissue c status a) t'
  unfolding clear_leases
  reissue-Lives c status a {t'} h =
      let (current, one, (d, hd, e)) = commit_reissue-ok s c status a t {t' = t'} h in
      changed c.client_id c.instance_id c.name (status_eq status) reissued ClientStatus.active
        (λ l. is_status status l && is_current status) t'.clients one
        (clients_of t' e ∙ reassign-clients c a _ {t' = d} hd) (λ x. refl) (λ x. refl)
        (λ r w. rw (w, current) refl)

  assign-Lives :
      (r : Addressing) {t' : Tables} → commit_addresses s r t ≡ ok t' → Lives (assign r) t'
  assign-Lives r {t'} h = (refl, life_of id (commit_addresses-clients s r t {t' = t'} h))

  lease-Lives :
      (k : String) (l : ClientLease) {t' : Tables}
      → record_lease s k l t ≡ ok t'
      → Lives (lease k l) t'
  lease-Lives k l {t'} h =
      (refl, life_of id (clients_of t' (record_lease-ok s k l t {t' = t'} h).1))

-- The tables refine a machine that keeps for each client only its status: in consistent tables a call
-- that succeeds is one that the machine allows for every client, and the status of every client is
-- then the one that the machine gives it. The machine creates a client that is absent, renames one
-- that is active or revoked, revokes one that is active, reissues and deletes one that has the source
-- status of the call, active or revoked, and leaves the status of every other client.
pub attempt_refines :
    (s : Session) (r : Request) (t : Tables) (id : String) {t' : Tables}
    → IsConsistent (core t)
    → attempt s r t ≡ ok t'
    → (may r id (life id t.clients) ≡ true) × (life id t'.clients ≡ after r id (life id t.clients))
unfolding attempt
attempt_refines s (create o i c payload at) t id {t'} v h =
    create-Lives s t id v o i c payload at {t' = t'} h
attempt_refines s (rename o i r payload at) t id {t'} v h =
    rename-Lives s t id v o i r payload at {t' = t'} h
attempt_refines s (revoke c b) t id {t'} v h = revoke-Lives s t id v c b {t' = t'} h
attempt_refines s (reissue c status a) t id {t'} v h = reissue-Lives s t id v c status a {t' = t'} h
attempt_refines s (delete c status) t id {t'} v h = delete-Lives s t id v c status {t' = t'} h
attempt_refines s (assign r) t id {t'} v h = assign-Lives s t id v r {t' = t'} h
attempt_refines s (lease k l) t id {t'} v h = lease-Lives s t id v k l {t' = t'} h
attempt_refines s (journal env r) t id {t'} v h =
    (refl, life_of id (clients_of t' (from_journal-core t _ {t' = t'} h)))

-- What the machine may do to a deleted client leaves it deleted.
after_deleted :
    (r : Request) (id : String)
    → may r id (some ClientStatus.deleted) ≡ true
    → after r id (some ClientStatus.deleted) ≡ some ClientStatus.deleted
after_deleted (create _ _ c _ _) id h = ground arith
after_deleted (rename _ _ r _ _) id h = refl
after_deleted (revoke c _) id h = ground arith
after_deleted (reissue c status _) id h = ground arith
after_deleted (delete c status) id h = ground arith
after_deleted (assign r) id h = refl
after_deleted (lease k l) id h = refl
after_deleted (journal env r) id h = refl

-- In consistent tables a client that is deleted stays deleted under any sequence of calls, whether
-- they succeed or fail, if a client that is created with an assignment that it holds is not a deleted
-- one.
pub serve_tombstone :
    (calls : List (Session × Request)) (t : Tables) (id : String)
    → AreFit calls
    → IsConsistent (core t)
    → life id t.clients ≡ some ClientStatus.deleted
    → life id (serve calls t).clients ≡ some ClientStatus.deleted
unfolding serve
serve_tombstone [] t id fit v gone = gone
serve_tombstone ((s, r) ∷ rest) t id fit v gone = elim (Result-cases (attempt s r t)) [
  | inl (t', e) ↦
      let (allowed, next) = attempt_refines s r t id {t' = t'} v e in
      subst (λ x. life id (serve rest (settle x t)).clients ≡ some ClientStatus.deleted) (sym e)
        (serve_tombstone rest t' id fit.1 (attempt-Keeps s r t {t' = t'} e fit.0 v)
          (next ∙ (rw gone (after_deleted r id (rw gone at allowed)))))
  | inr (_, e) ↦
      subst (λ x. life id (serve rest (settle x t)).clients ≡ some ClientStatus.deleted) (sym e)
        (serve_tombstone rest t id fit.1 v gone)
]
