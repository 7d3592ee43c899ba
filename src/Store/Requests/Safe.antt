-- ===== src/Store/Requests/Safe.antt =====
-- The tables stay consistent under every sequence of calls.
use mathlib.Core.Path.{subst}
use openvpn_docker.Prelude.{
  ◌≡◌, sym, ap, List, [], ◌∷◌, Result, ok, err, inl, inr, Result-cases, ok-injective,
}
use openvpn_docker.Store.Journal as Journal
use openvpn_docker.Store.Tables.{Tables}
use openvpn_docker.Store.Commits.{Session, from_journal}
use openvpn_docker.Store.Requests.{
  Request, create, rename, revoke, reissue, delete, assign, lease, journal, attempt, settle, serve,
}
use openvpn_docker.Store.Consistent.{IsConsistent, core}
use openvpn_docker.Store.Consistent.Addressed.{commit_addresses-Keeps}
use openvpn_docker.Store.Consistent.Created.{FitsStatus, commit_create-Keeps}
use openvpn_docker.Store.Consistent.Given.{commit_reissue-Keeps}
use openvpn_docker.Store.Consistent.Noted.{commit_rename-Keeps, record_lease-Keeps}
use openvpn_docker.Store.Consistent.Kept.{Keeps, commit_revoke-Keeps, commit_delete-Keeps}

-- A client that is created with a held assignment is current.
abbrev pub IsFit : Request → Type 0
IsFit (create operation instance' c payload at) = FitsStatus c
IsFit _ = Unit

abbrev pub AreFit : List (Session × Request) → Type 0
AreFit [] = Unit
AreFit ((s, r) ∷ rest) = IsFit r × AreFit rest

pub from_journal-core :
    (t : Tables) (r : Result Journal.JournalError Journal.Database) {t' : Tables}
    → from_journal t r ≡ ok t'
    → core t' ≡ core t
from_journal-core t (ok db) h = sym (ap core (ok-injective h))
from_journal-core t (err e) h = cc h

pub attempt-Keeps :
    (s : Session) (r : Request) (t : Tables) {t' : Tables}
    → attempt s r t ≡ ok t'
    → IsFit r
    → Keeps t t'
unfolding attempt
attempt-Keeps s (create o i c payload at) t {t'} h fit =
    commit_create-Keeps s o i c payload at t {t' = t'} h fit
attempt-Keeps s (rename o i r payload at) t {t'} h fit =
    commit_rename-Keeps s o i r payload at t {t' = t'} h
attempt-Keeps s (revoke c b) t {t'} h fit = commit_revoke-Keeps s c b t {t' = t'} h
attempt-Keeps s (reissue c status a) t {t'} h fit = commit_reissue-Keeps s c status a t {t' = t'} h
attempt-Keeps s (delete c status) t {t'} h fit = commit_delete-Keeps s c status t {t' = t'} h
attempt-Keeps s (assign r) t {t'} h fit = commit_addresses-Keeps s r t {t' = t'} h
attempt-Keeps s (lease id l) t {t'} h fit = record_lease-Keeps s id l t {t' = t'} h
attempt-Keeps s (journal env r) t {t'} h fit =
    λ v. subst IsConsistent (sym (from_journal-core t _ {t' = t'} h)) v

-- The tables of clients, assignments and leases stay consistent under any sequence of calls that
-- create, rename, revoke, reissue and delete clients, assign addresses, record leases and move
-- operations on, whether they succeed or fail, if a client that is created with an assignment that it
-- holds is not a deleted one. Consistent means: no two clients have one id, no two current clients of
-- an instance one name, the times of a client fit its status, and no two assignments have one id; a
-- client holds at most one assignment, and a deleted client none; no address of a network is held
-- twice; and a client has no more leases in a network than dynamic assignments that it holds there.
pub serve-IsConsistent :
    (calls : List (Session × Request)) (t : Tables)
    → AreFit calls
    → IsConsistent (core t)
    → IsConsistent (core (serve calls t))
unfolding serve
serve-IsConsistent [] t fit v = v
serve-IsConsistent ((s, r) ∷ rest) t fit v = elim (Result-cases (attempt s r t)) [
  | inl (t', e) ↦
      subst (λ x. IsConsistent (core (serve rest (settle x t)))) (sym e)
        (serve-IsConsistent rest t' fit.1 (attempt-Keeps s r t {t' = t'} e fit.0 v))
  | inr (_, e) ↦
      subst (λ x. IsConsistent (core (serve rest (settle x t)))) (sym e)
        (serve-IsConsistent rest t fit.1 v)
]
