-- ===== src/Store/Requests.antt =====
-- The calls that change the tables of internal/store/sqlite, in any order, as its callers make them:
-- a call that fails leaves the tables.
pub mod Safe
pub mod Lives
pub mod Refined
mod Tests
use openvpn_docker.Prelude.{
  ℕ, String, ◌≡◌, Bool, true, false, Option, none, some, List, [], ◌∷◌, Result, ok, err,
  if◌then◌else◌, str_eq, ◌&&◌,
}
use openvpn_docker.Domain.Config.{ClientStatus}
use openvpn_docker.Store.{AddressAssignment, ClientLease, ClientState}
use openvpn_docker.Store.Journal as Journal
use openvpn_docker.Store.Journal.{Env}
use openvpn_docker.Store.Tables.{Tables, StoreError}
use openvpn_docker.Store.Commits.{Session, from_journal}
use openvpn_docker.Store.Clients.{
  Rename, Change, commit_create, commit_rename, commit_revoke, commit_reissue, commit_delete,
  record_lease,
}
use openvpn_docker.Store.Addressing.{Addressing, commit_addresses}

pub data Request : Type 0 where
  create : String → String → ClientState → String → ℕ → Request
  rename : String → String → Rename → String → ℕ → Request
  revoke : Change → Bool → Request
  reissue : Change → ClientStatus → AddressAssignment → Request
  delete : Change → ClientStatus → Request
  assign : Addressing → Request
  lease : String → ClientLease → Request
  journal : Env → Journal.Request → Request

unfoldable pub attempt : Session → Request → Tables → Result StoreError Tables
attempt s (create operation instance' c payload at) t =
    commit_create s operation instance' c payload at t
attempt s (rename operation instance' r payload at) t =
    commit_rename s operation instance' r payload at t
attempt s (revoke c release_address) t = commit_revoke s c release_address t
attempt s (reissue c status a) t = commit_reissue s c status a t
attempt s (delete c status) t = commit_delete s c status t
attempt s (assign r) t = commit_addresses s r t
attempt s (lease id l) t = record_lease s id l t
attempt s (journal env r) t = from_journal t (Journal.attempt env r t.journal)

abbrev pub settle : Result StoreError Tables → Tables → Tables
settle (ok t') t = t'
settle (err _) t = t

unfoldable pub serve : List (Session × Request) → Tables → Tables
unfolding attempt
serve [] t = t
serve ((s, r) ∷ rest) t = serve rest (settle (attempt s r t) t)
