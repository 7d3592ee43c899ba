-- ===== src/State/Healthy.antt =====
-- What a healthy report of Scan, internal/state/state.go, says of the installation.
mod Clients
pub mod Installed
use openvpn_docker.Prelude.{
  String, ◌≡◌, refl, Bool, true, false, not, ◌&&◌, Option, none, some, List, [], ◌∷◌, ◌++◌, arith,
  eq_iff, if◌then◌else◌, Bool-cases, inl, inr, str_eq, All, Result, ok, err,
}
use openvpn_docker.Domain.Config.{is_revoked}
use openvpn_docker.State.{
  Classification, Severity, Issue, Report, OpenError, PathError, require_regular,
  require_regular_mode, verifiable_artifact, directory_empty, finish,
}
use openvpn_docker.State.Reported.{finish-healthy}
use openvpn_docker.State.Scan.{
  Installation, CertificateInfo, note_if, ca_valid, crl_valid, is_fit, scan, scan_rest, scan_ca,
  scan_ca_key, scan_authority, lookup, is_taken, matches_file, is_readable, scan_expected,
  scan_all_expected, scan_duplicates, scan_artifact_set, expected_artifacts, compare_derived,
  profile_key, rendered_profile, scan_identity, scan_active_artifact, scan_client_artifacts,
  scan_needed, scan_all_needed, scan_profile, scan_client, scan_clients, pending_issues,
  interrupted, is_some, scan_ccd, scan_server, scan_config,
}
use openvpn_docker.Store.{ClientState, ArtifactMetadata, InstanceState}
use openvpn_docker.Store.Commits.{is_active_artifact}
use openvpn_docker.Store.Journal.{Operation}

pub both : (xs ys : List Issue) → xs ++ ys ≡ [] → (xs ≡ []) × (ys ≡ [])
both [] ys h = (refl, h)
both (x ∷ xs) ys h = grind arith

pub nonempty : {x : Issue} {xs : List Issue} → x ∷ xs ≡ [] → ⊥
nonempty h = grind arith

pub quiet : (b : Bool) (i : Issue) → note_if b i ≡ [] → b ≡ false
quiet true i h = grind arith
quiet false i h = refl

pub silent :
    (b : Bool) (i : Issue) (rest : List Issue)
    → note_if b i ++ rest ≡ []
    → (b ≡ false) × (rest ≡ [])
silent true i rest h = grind arith
silent false i rest h = (refl, h)

-- An artifact of a kind is recorded under the key, and its file has the digest of the record.
abbrev pub IsRecorded : Installation → List ArtifactMetadata → String → String → Type 0
IsRecorded w metadata kind key =
    (a : ArtifactMetadata) × (lookup kind metadata ≡ some a)
    × (a.key ≡ key)
    × (matches_file w a.key a.digest ≡ true)

scan_expected-IsRecorded :
    (w : Installation) (owner : String) (metadata : List ArtifactMetadata) (kind key : String)
    → scan_expected w owner metadata kind key ≡ []
    → IsRecorded w metadata kind key
unfolding scan_expected
scan_expected-IsRecorded w owner metadata kind key h = recorded (lookup kind metadata) refl
  where
    recorded :
        (o : Option ArtifactMetadata) → lookup kind metadata ≡ o → IsRecorded w metadata kind key
    recorded none e = grind (arith, eq_iff)
    recorded (some a) e = elim (Bool-cases (str_eq a.key key)) [
      | inl k ↦ elim (Bool-cases (matches_file w a.key a.digest)) [
        | inl m ↦ (a, e, grind (arith, eq_iff), m)
        | inr m ↦ absurd (grind (arith, eq_iff))
      ]
      | inr k ↦ absurd (grind (arith, eq_iff))
    ]

-- Everything that the instance must have on disk is recorded.
abbrev pub AreRecorded : Installation → List ArtifactMetadata → List (String × String) → Type 0
AreRecorded w metadata [] = Unit
AreRecorded w metadata ((kind, key) ∷ rest) =
    IsRecorded w metadata kind key × AreRecorded w metadata rest

pub scan_all_expected-AreRecorded :
    (w : Installation) (owner : String) (metadata : List ArtifactMetadata)
    (kinds : List (String × String))
    → scan_all_expected w owner metadata kinds ≡ []
    → AreRecorded w metadata kinds
unfolding scan_all_expected
scan_all_expected-AreRecorded w owner metadata [] h = tt
scan_all_expected-AreRecorded w owner metadata ((kind, key) ∷ rest) h =
    let (a, b) = both (scan_expected w owner metadata kind key) _ h in
    (
      scan_expected-IsRecorded w owner metadata kind key a,
      scan_all_expected-AreRecorded w owner metadata rest b,
    )

pub of_not : (b : Bool) → not b ≡ false → b ≡ true
of_not true h = refl
of_not false h = grind arith

pub unguarded : {a b : Bool} → a ≡ true → (a && not b) ≡ false → b ≡ true
unguarded {a} {b} h k = of_not b (rw h at k)

-- The authority's files pass their checks.
abbrev pub IsSoundAuthority : Installation → Type 0
IsSoundAuthority w =
    (ca_valid w ≡ true)
    × (require_regular_mode 384 (w.look "pki/private/ca.key") ≡ ok tt)
    × (w.validate_ca_key_pair ≡ true)
    × (w.validate_server ≡ true)
    × (w.validate_crl ≡ true)
    × (w.validate_tls_crypt ≡ true)
    × (is_fit w "pki/index.txt" ≡ true)
    × (is_fit w "pki/serial" ≡ true)

scan_ca-valid : (w : Installation) → scan_ca w ≡ [] → ca_valid w ≡ true
scan_ca-valid w h = from_ca w.validate_ca refl
  where
    from_ca : (o : Option String) → w.validate_ca ≡ o → ca_valid w ≡ true
    from_ca none e = grind (arith, eq_iff)
    from_ca (some f) e = grind (arith, eq_iff)

scan_ca_key-valid :
    (w : Installation)
    → ca_valid w ≡ true
    → scan_ca_key w ≡ []
    → (require_regular_mode 384 (w.look "pki/private/ca.key") ≡ ok tt)
      × (w.validate_ca_key_pair ≡ true)
scan_ca_key-valid w c h = from_look (require_regular_mode 384 (w.look "pki/private/ca.key")) refl
  where
    from_look :
        (o : Result PathError (Unit {0}))
        → require_regular_mode 384 (w.look "pki/private/ca.key") ≡ o
        → (require_regular_mode 384 (w.look "pki/private/ca.key") ≡ ok tt)
          × (w.validate_ca_key_pair ≡ true)
    from_look (err e) k = absurd (ground arith)
    from_look (ok _) k = (k, unguarded c (ground arith))

pub scan_authority-IsSound : (w : Installation) → scan_authority w ≡ [] → IsSoundAuthority w
unfolding scan_authority
scan_authority-IsSound w h =
    let (a, h) = both (scan_ca w) _ h in
    let (b, h) = both (scan_ca_key w) _ h in
    let (c, h) = silent (ca_valid w && not w.validate_server) _ _ h in
    let (d, h) = silent (ca_valid w && not w.validate_crl) _ _ h in
    let (e, h) = silent (not w.validate_tls_crypt) _ _ h in
    let (f, h) = silent (not (is_fit w "pki/index.txt")) _ _ h in
    let g = quiet (not (is_fit w "pki/serial")) _ h in
    let valid = scan_ca-valid w a in
    let (k, p) = scan_ca_key-valid w valid b in
    (valid, k, p, unguarded valid c, unguarded valid d, of_not _ e, of_not _ f, of_not _ g)
