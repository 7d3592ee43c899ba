-- ===== src/Store/Consistent/Frames.antt =====
-- What the parts of a transaction that write the journal and the artifacts leave: the tables of
-- clients, assignments and leases.
use openvpn_docker.Prelude.{
  ℕ, String, ◌≡◌, not, ◌&&◌, ◌||◌, List, [], ◌∷◌, str_eq, Bool-cases, inl, inr, ltb, ◌==◌, sym, ap,
  ◌∙◌, Option-cases, ok, refuse_if, >>=-eq-ok, Result-cases, ok-injective,
}
use openvpn_docker.Store.{ArtifactMetadata}
use openvpn_docker.Store.Journal.{append_audit}
use openvpn_docker.Store.Rows.{count_where, find_where}
use openvpn_docker.Store.Tables.{Tables, clear_leases, has_key, is_kept, source_changed, constraint}
use openvpn_docker.Store.Commits.{
  Session, ArtifactDeletion, finish, commit_operation_row, audit, insert_artifact,
  insert_artifact_metadata, from_state, upsert_active_artifact, check_artifact, same_owner,
  retire_artifact, retire_all, activate_all, clear_lease_and_apply_artifacts, foreign_owner, probe,
  probe_kind, is_active_artifact, is_open,
}
use openvpn_docker.Store.Clients.{insert_artifacts}
use openvpn_docker.Store.Validate.{validate_artifact, validate_artifact_owner_kind}
use openvpn_docker.Store.Consistent.{core}

pub audit-core :
    (s : Session) (k : ℕ) (i o e : String) (t : Tables) {t' : Tables}
    → audit s k i o e t ≡ ok t'
    → core t' ≡ core t
unfolding audit
audit-core s k i o e t h = elim (Result-cases (append_audit (s.events k) i o e t.journal)) [
  | inl (db, q) ↦ sym (ap core (ok-injective (rw q at h)))
  | inr (_, q) ↦ cc (rw q at h)
]

pub commit_operation_row-core :
    (o payload : String) (at : ℕ) (t : Tables) {t' : Tables}
    → commit_operation_row o payload at t ≡ ok t'
    → core t' ≡ core t
unfolding commit_operation_row
commit_operation_row-core o payload at t h =
    let (_, _, r) =
      >>=-eq-ok (refuse_if (not (count_where (is_open o) t.journal.operations == 1)) source_changed)
        _ h in
    sym (ap core (ok-injective r))

pub finish-core :
    (s : Session) (o i e payload : String) (at : ℕ) (t : Tables) {t' : Tables}
    → finish s o i e payload at t ≡ ok t'
    → core t' ≡ core t
unfolding finish
finish-core s o i e payload at t {t'} h =
    let (a, ha, r1) = >>=-eq-ok (commit_operation_row o payload at t) _ h in
    let (b, hb, r2) = >>=-eq-ok (audit s 0 i o e a) _ r1 in
    let (c, hc, r3) = >>=-eq-ok (audit s 1 i o "operation.committed" b) _ r2 in
    let (_, _, r4) = >>=-eq-ok (refuse_if (not s.accepted) constraint) _ r3 in
    sym (ap core (ok-injective r4))
    ∙ audit-core s 1 i o "operation.committed" b {t' = c} hc
    ∙ audit-core s 0 i o e a {t' = b} hb
    ∙ commit_operation_row-core o payload at t {t' = a} ha

pub upsert-core :
    (s : Session) (i : String) (a : ArtifactMetadata) (t : Tables) {t' : Tables}
    → upsert_active_artifact s i a t ≡ ok t'
    → core t' ≡ core t
unfolding upsert_active_artifact
upsert-core s i a t {t'} h =
    let (_, _, r) = >>=-eq-ok (check_artifact s a) _ h in
    elim (Option-cases (find_where (has_key a.key) t.artifacts)) [
      | inl e ↦ sym (ap core (ok-injective (rw e at r)))
      | inr (row, e) ↦ elim (Bool-cases (same_owner i a row)) [
        | inl q ↦ sym (ap core (ok-injective (rw q at (rw e at r))))
        | inr q ↦ cc (rw q at (rw e at r))
      ]
    ]

retire_all-core :
    (s : Session) (i c : String) (ds : List ArtifactDeletion) (t : Tables) {t' : Tables}
    → retire_all s i c ds t ≡ ok t'
    → core t' ≡ core t
unfolding retire_all retire_artifact
retire_all-core s i c [] t h = sym (ap core (ok-injective h))
retire_all-core s i c (d ∷ ds) t {t'} h =
    let (_, _, r1) = >>=-eq-ok (refuse_if (foreign_owner i c d.owner_kind d.owner_id) _) _ h in
    let (_, _, r2) =
      >>=-eq-ok
        (from_state (
          validate_artifact s.clean s.size
            (probe c d.owner_kind d.owner_id (probe_kind d.owner_kind) d.key)))
        _ r1 in
    retire_all-core s i c ds (retire_artifact i d.owner_kind d.owner_id d.key t) {t' = t'} r2

activate_all-core :
    (s : Session) (i c : String) (as' : List ArtifactMetadata) (t : Tables) {t' : Tables}
    → activate_all s i c as' t ≡ ok t'
    → core t' ≡ core t
unfolding activate_all
activate_all-core s i c [] t h = sym (ap core (ok-injective h))
activate_all-core s i c (a ∷ as') t {t'} h =
    let (_, _, r1) =
      >>=-eq-ok
        (refuse_if (not (is_active_artifact a.status) || foreign_owner i c a.owner_kind a.owner_id)
          _)
        _ h in
    let (b, hb, r2) = >>=-eq-ok (upsert_active_artifact s i a t) _ r1 in
    activate_all-core s i c as' b {t' = t'} r2 ∙ upsert-core s i a t {t' = b} hb

pub clear_lease-core :
    (s : Session) (i c : String) (as' : List ArtifactMetadata) (ds : List ArtifactDeletion)
    (t : Tables) {t' : Tables}
    → clear_lease_and_apply_artifacts s i c as' ds t ≡ ok t'
    → core t' ≡ core (clear_leases c t)
unfolding clear_lease_and_apply_artifacts
clear_lease-core s i c as' ds t {t'} h =
    let (a, ha, r) = >>=-eq-ok (retire_all s i c ds (clear_leases c t)) _ h in
    activate_all-core s i c as' a {t' = t'} r
    ∙ retire_all-core s i c ds (clear_leases c t) {t' = a} ha

insert_metadata-core :
    (i : String) (a : ArtifactMetadata) (t : Tables) {t' : Tables}
    → insert_artifact_metadata i a t ≡ ok t'
    → core t' ≡ core t
unfolding insert_artifact_metadata
insert_metadata-core i a t h =
    let (_, _, r) =
      >>=-eq-ok
        (refuse_if (is_kept a.status && ltb 0 (count_where (has_key a.key) t.artifacts)) constraint)
        _ h in
    sym (ap core (ok-injective r))

insert_artifact-core :
    (s : Session) (i c : String) (a : ArtifactMetadata) (t : Tables) {t' : Tables}
    → insert_artifact s i c a t ≡ ok t'
    → core t' ≡ core t
unfolding insert_artifact
insert_artifact-core s i c a t h =
    let (_, _, r1) = >>=-eq-ok (from_state (validate_artifact s.clean s.size a)) _ h in
    let (_, _, r2) =
      >>=-eq-ok (refuse_if (not (str_eq a.owner_kind "client") || not (str_eq a.owner_id c)) _) _
        r1 in
    let (_, _, r3) = >>=-eq-ok (from_state (validate_artifact_owner_kind a)) _ r2 in
    insert_metadata-core i a t r3

pub insert_artifacts-core :
    (s : Session) (i c : String) (as' : List ArtifactMetadata) (t : Tables) {t' : Tables}
    → insert_artifacts s i c as' t ≡ ok t'
    → core t' ≡ core t
unfolding insert_artifacts
insert_artifacts-core s i c [] t h = sym (ap core (ok-injective h))
insert_artifacts-core s i c (a ∷ as') t {t'} h =
    let (b, hb, r) = >>=-eq-ok (insert_artifact s i c a t) _ h in
    insert_artifacts-core s i c as' b {t' = t'} r ∙ insert_artifact-core s i c a t {t' = b} hb
