-- ===== src/Store/Consistent/Addressed.antt =====
-- New assignments for a set of clients keep the tables consistent.
use openvpn_docker.Prelude.{
  ℕ, ◌+◌, String, ◌≡◌, sym, ap, ◌∙◌, inl, inr, not, ◌||◌, List, [], ◌∷◌, ◌==◌, str_eq, Option-cases,
  ok, refuse_if, >>=-eq-ok, ok-injective,
}
use openvpn_docker.Domain.Ids.{valid_uuid}
use openvpn_docker.Store.{ArtifactMetadata}
use openvpn_docker.Store.Addressing.{
  AddressChange, Addressing, check_changes, release_all, assigned, assign_one, assign_all,
  retire_ccds, activate_ccds, audit_changes, commit_addresses, targets, is_empty, address_kinds,
}
use openvpn_docker.Store.Tables.{
  Tables, constraint, invalid_request, artifact_owner, ensure_network_instance,
}
use openvpn_docker.Store.Commits.{
  Session, ArtifactDeletion, require_files_installed, commit_operation_row, audit, from_state,
  upsert_active_artifact, retire_artifact, probe, is_active_artifact,
}
use openvpn_docker.Store.Validate.{validate_artifact, one_of}
use openvpn_docker.Store.Consistent.{Core, core}
use openvpn_docker.Store.Consistent.Frames.{audit-core, commit_operation_row-core, upsert-core}
use openvpn_docker.Store.Consistent.Given.{insert_assignment-ok}
use openvpn_docker.Store.Consistent.Kept.{Keeps, by_core}
use openvpn_docker.Store.Consistent.Changed.{
  IsReady, check_changes-IsReady, release_all-clients, release_all-Keeps, release_all-IsVacant,
  assign_all-Keeps,
}

retire_ccds-core :
    (s : Session) (o i : String) (allowed : List String) (ds : List ArtifactDeletion) (t : Tables)
    {t' : Tables}
    → retire_ccds s o i allowed ds t ≡ ok t'
    → core t' ≡ core t
unfolding retire_ccds retire_artifact
retire_ccds-core s o i allowed [] t h = sym (ap core (ok-injective h))
retire_ccds-core s o i allowed (d ∷ ds) t {t'} h =
    let (_, _, r1) =
      >>=-eq-ok (refuse_if (not (str_eq d.owner_kind "client")) artifact_owner) _ h in
    let (_, _, r2) = >>=-eq-ok (refuse_if (not (one_of allowed d.owner_id)) artifact_owner) _ r1 in
    let (_, _, r3) =
      >>=-eq-ok
        (from_state (validate_artifact s.clean s.size (probe o "client" d.owner_id "ccd" d.key))) _
        r2 in
    retire_ccds-core s o i allowed ds _ {t' = t'} r3

activate_ccds-core :
    (s : Session) (i : String) (allowed : List String) (as' : List ArtifactMetadata) (t : Tables)
    {t' : Tables}
    → activate_ccds s i allowed as' t ≡ ok t'
    → core t' ≡ core t
unfolding activate_ccds
activate_ccds-core s i allowed [] t h = sym (ap core (ok-injective h))
activate_ccds-core s i allowed (a ∷ as') t {t'} h =
    let (_, _, r1) =
      >>=-eq-ok
        (refuse_if
          (not (str_eq a.owner_kind "client")
            || (not (str_eq a.kind "ccd") || not (is_active_artifact a.status)))
          artifact_owner)
        _ h in
    let (_, _, r2) = >>=-eq-ok (refuse_if (not (one_of allowed a.owner_id)) artifact_owner) _ r1 in
    let (b, hb, r3) = >>=-eq-ok (upsert_active_artifact s i a t) _ r2 in
    activate_ccds-core s i allowed as' b {t' = t'} r3 ∙ upsert-core s i a t {t' = b} hb

audit_changes-core :
    (s : Session) (k : ℕ) (i o : String) (cs : List AddressChange) (t : Tables) {t' : Tables}
    → audit_changes s k i o cs t ≡ ok t'
    → core t' ≡ core t
unfolding audit_changes
audit_changes-core s k i o [] t {t'} h = audit-core s k i o "operation.committed" t {t' = t'} h
audit_changes-core s k i o (c ∷ cs) t {t'} h =
    let (b, hb, r) = >>=-eq-ok (audit s k i o "client.address_changed" t) _ h in
    audit_changes-core s (k + 1) i o cs b {t' = t'} r
    ∙ audit-core s k i o "client.address_changed" t {t' = b} hb

pub commit_addresses-ok :
    (s : Session) (r : Addressing) (t : Tables) {t' : Tables}
    → commit_addresses s r t ≡ ok t'
    → IsReady t.clients r.changes
      × ((a : Tables) × (assign_all r.at r.instance_id r.changes (release_all r.at r.changes t)
            ≡ ok a)
          × (core t' ≡ core a))
unfolding commit_addresses
commit_addresses-ok s r t {t'} h =
    let (_, _, r1) =
      >>=-eq-ok
        (refuse_if
          (not (valid_uuid r.operation_id)
            || (not (valid_uuid r.instance_id)
                || (not (one_of address_kinds r.kind)
                    || (is_empty r.changes || (not (s.json_valid r.payload) || r.at == 0)))))
          invalid_request)
        _ h in
    let (_, _, r2) = >>=-eq-ok (require_files_installed r.operation_id r.instance_id t) _ r1 in
    let (u, checked, r3) = >>=-eq-ok (check_changes r.kind r.instance_id [] r.changes t) _ r2 in
    let freed = release_all r.at r.changes t in
    let (a, ha, r4) = >>=-eq-ok (assign_all r.at r.instance_id r.changes freed) _ r3 in
    let (b, hb, r5) =
      >>=-eq-ok (retire_ccds s r.operation_id r.instance_id (targets r.changes) r.removed a) _ r4 in
    let (d, hd, r6) =
      >>=-eq-ok (activate_ccds s r.instance_id (targets r.changes) r.active b) _ r5 in
    let (e, he, r7) = >>=-eq-ok (commit_operation_row r.operation_id r.payload r.at d) _ r6 in
    let (f, hf, r8) = >>=-eq-ok (audit_changes s 0 r.instance_id r.operation_id r.changes e) _ r7 in
    let (_, _, r9) = >>=-eq-ok (refuse_if (not s.accepted) constraint) _ r8 in
    (
      check_changes-IsReady r.kind r.instance_id [] r.changes t {u = u} checked,
      (
        a,
        ha,
        sym (ap core (ok-injective r9))
            ∙ audit_changes-core s 0 r.instance_id r.operation_id r.changes e {t' = f} hf
            ∙ commit_operation_row-core r.operation_id r.payload r.at d {t' = e} he
            ∙ activate_ccds-core s r.instance_id (targets r.changes) r.active b {t' = d} hd
            ∙ retire_ccds-core s r.operation_id r.instance_id (targets r.changes) r.removed a
                {t' = b} hb,
      ),
    )

pub commit_addresses-Keeps :
    (s : Session) (r : Addressing) (t : Tables) {t' : Tables}
    → commit_addresses s r t ≡ ok t'
    → Keeps t t'
commit_addresses-Keeps s r t {t'} h v =
    let (ready, (a, ha, e)) = commit_addresses-ok s r t {t' = t'} h in
    by_core t' e (
      assign_all-Keeps r.at r.instance_id r.changes (release_all r.at r.changes t) {t' = a} ha
        (rw (release_all-clients r.at r.changes t) ready) (release_all-IsVacant r.at r.changes t v)
        (release_all-Keeps r.at r.changes t v))

assign_all-clients :
    (at : ℕ) (i : String) (cs : List AddressChange) (t : Tables) {t' : Tables}
    → assign_all at i cs t ≡ ok t'
    → t'.clients ≡ t.clients
unfolding assign_all assign_one
assign_all-clients at i [] t h = ap (λ (x : Tables). x.clients) (sym (ok-injective h))
assign_all-clients at i (c ∷ cs) t {t'} h =
    let (b, hb, r) = >>=-eq-ok (assign_one at i c.client_id c.status c.assignment t) _ h in
    assign_all-clients at i cs b {t' = t'} r ∙ elim (Option-cases c.assignment) [
      | inl e ↦ ap (λ (x : Tables). x.clients) (sym (ok-injective (rw (e, assign_one) at hb)))
      | inr (a, e) ↦
          let (_, _, q) =
            >>=-eq-ok (ensure_network_instance a.network_id i t) _ (rw (e, assign_one) at hb) in
          let (_, _, same) =
            insert_assignment-ok c.client_id (assigned at c.status a) t {t' = b} q in
          ap (λ (x : Tables). x.clients) same
    ]

pub commit_addresses-clients :
    (s : Session) (r : Addressing) (t : Tables) {t' : Tables}
    → commit_addresses s r t ≡ ok t'
    → t'.clients ≡ t.clients
commit_addresses-clients s r t {t'} h =
    let (_, (a, ha, e)) = commit_addresses-ok s r t {t' = t'} h in
    ap (λ (k : Core). k.clients) e
    ∙ assign_all-clients r.at r.instance_id r.changes _ {t' = a} ha
    ∙ release_all-clients r.at r.changes t
