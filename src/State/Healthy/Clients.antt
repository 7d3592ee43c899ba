-- ===== src/State/Healthy/Clients.antt =====
-- What scanClient of internal/state/state.go has checked of a client without issues.
use openvpn_docker.Prelude.{
  String, ◌≡◌, refl, Bool, true, not, ◌&&◌, Option, none, some, List, [], ◌∷◌, ◌++◌, arith, eq_iff,
  if◌then◌else◌, All,
}
use openvpn_docker.Domain.Config.{is_revoked}
use openvpn_docker.State.Healthy.{both, nonempty, quiet, silent, unguarded}
use openvpn_docker.State.Scan.{
  Installation, CertificateInfo, Found, crl_valid, is_taken, matches_file, compare_derived,
  profile_key, rendered_profile, scan_identity, scan_active_artifact, scan_client_artifacts,
  scan_needed, scan_all_needed, scan_profile, is_other_certificate, compare_profile, scan_client,
  scan_clients, is_some,
}
use openvpn_docker.Store.{ClientState, ArtifactMetadata, InstanceState}
use openvpn_docker.Store.Commits.{is_active_artifact}

-- The file under the key is there and has the content.
abbrev pub HasContent : Installation → String → String → Type 0
HasContent w key content = elim (w.read key) [ none ↦ ⊥ | some f ↦ f.content ≡ content ]

-- The certificate of a client that passes the check, with its place in the revocation list.
abbrev pub IsIdentified : Installation → ClientState → CertificateInfo → Type 0
IsIdentified w c info =
    (w.validate_client c.client.id ≡ some info)
    × (w.validate_revocation info.serial (is_revoked c.client.status) ≡ true)

-- A client's identity is valid, its active artifacts are as recorded, its certificate, key and profile
-- are recorded, and its profile file is the one that the state renders to, unless the renderer or one
-- of the reads for it fails, which scanClient passes over.
abbrev pub IsSoundClient : Installation → ClientState → Type 0
IsSoundClient w c =
    ((info : CertificateInfo) × IsIdentified w c info)
    × All (λ a. is_active_artifact a.status ≡ true → matches_file w a.key a.digest ≡ true)
        c.artifacts
    × (is_taken "client-cert" c.artifacts ≡ true)
    × (is_taken "client-key" c.artifacts ≡ true)
    × (is_taken "profile" c.artifacts ≡ true)
    × ((profile : String)
        → rendered_profile w c ≡ some profile
        → HasContent w (profile_key c) profile)

pub compare_derived-HasContent :
    (w : Installation) (id key expected owner : String)
    → compare_derived w id key expected owner ≡ []
    → HasContent w key expected
unfolding compare_derived
compare_derived-HasContent w id key expected owner h = from_read (w.read key) refl
  where
    from_read : (o : Option Found) → w.read key ≡ o → HasContent w key expected
    from_read none e = absurd (ground arith)
    from_read (some f) e =
        let same : f.content ≡ expected = grind (arith, eq_iff) in rw (HasContent, e) same

scan_identity-IsIdentified :
    (w : Installation) (c : ClientState) (o : Option CertificateInfo)
    → w.validate_client c.client.id ≡ o
    → crl_valid w ≡ true
    → scan_identity w c (crl_valid w) o ≡ []
    → (info : CertificateInfo) × (o ≡ some info) × IsIdentified w c info
unfolding scan_identity
scan_identity-IsIdentified w c none e v h = absurd (nonempty h)
scan_identity-IsIdentified w c (some info) e v h = (
  info,
  refl,
  (
    e,
    unguarded v (
        quiet (crl_valid w && not (w.validate_revocation info.serial (is_revoked c.client.status)))
          _ h),
  ),
)

scan_active_artifact-matches :
    (w : Installation) (c : ClientState) (taken : Bool) (a : ArtifactMetadata)
    → scan_active_artifact w c taken a ≡ []
    → matches_file w a.key a.digest ≡ true
unfolding scan_active_artifact
scan_active_artifact-matches w c taken a h = ground arith

scan_client_artifacts-matches :
    (w : Installation) (c : ClientState) (seen as' : List ArtifactMetadata)
    → scan_client_artifacts w c seen as' ≡ []
    → All (λ a. is_active_artifact a.status ≡ true → matches_file w a.key a.digest ≡ true) as'
unfolding scan_client_artifacts
scan_client_artifacts-matches w c seen [] h = tt
scan_client_artifacts-matches w c seen (a ∷ as') h =
    let (one, rest) =
      both
        (if is_active_artifact a.status
          then scan_active_artifact w c (is_taken a.kind seen) a
          else [])
        _ h in
    (
      λ live. scan_active_artifact-matches w c (is_taken a.kind seen) a (rw live at one),
      scan_client_artifacts-matches w c (seen ++ a ∷ []) as' rest,
    )

scan_needed-taken :
    (w : Installation) (c : ClientState) (identified : Bool) (kind key : String)
    → scan_needed w c identified kind key ≡ []
    → is_taken kind c.artifacts ≡ true
unfolding scan_needed
scan_needed-taken w c identified kind key h = ground arith

scan_profile-HasContent :
    (w : Installation) (c : ClientState) (info : CertificateInfo)
    → scan_profile w c (some info) ≡ []
    → (profile : String) → rendered_profile w c ≡ some profile
    → HasContent w (profile_key c) profile
unfolding scan_profile compare_profile
scan_profile-HasContent w c info h profile e =
    let (a, b) = silent (is_other_certificate c info) _ (compare_profile w c) h in
    compare_derived-HasContent w "CLIENT_PROFILE_DRIFT" (profile_key c) profile c.client.id
      (rw (compare_profile, e) at b)

scan_client-IsSound :
    (w : Installation) (i : InstanceState) (c : ClientState)
    → crl_valid w ≡ true
    → scan_client w i c ≡ []
    → IsSoundClient w c
unfolding scan_client scan_all_needed
scan_client-IsSound w i c v h =
    let info = w.validate_client c.client.id in
    let (a, h) = both (scan_identity w c (crl_valid w) info) _ h in
    let (b, h) = both (scan_client_artifacts w c [] c.artifacts) _ h in
    let (d, h) = both (scan_all_needed w c (is_some info)) _ h in
    let (e, f) = both (scan_profile w c info) _ h in
    let (certificate, d) = both (scan_needed w c (is_some info) "client-cert" _) _ d in
    let (key, profile) = both (scan_needed w c (is_some info) "client-key" _) _ d in
    let (found, same, identified) = scan_identity-IsIdentified w c info refl v a in
    (
      (found, identified),
      scan_client_artifacts-matches w c [] c.artifacts b,
      scan_needed-taken w c (is_some info) "client-cert" _ certificate,
      scan_needed-taken w c (is_some info) "client-key" _ key,
      scan_needed-taken w c (is_some info) "profile" "" profile,
      scan_profile-HasContent w c found (rw same at e),
    )

pub scan_clients-AreSound :
    (w : Installation) (i : InstanceState) (cs : List ClientState)
    → crl_valid w ≡ true
    → scan_clients w i cs ≡ []
    → All (IsSoundClient w) cs
unfolding scan_clients
scan_clients-AreSound w i [] v h = tt
scan_clients-AreSound w i (c ∷ cs) v h =
    let (a, b) = both (scan_client w i c) _ h in
    (scan_client-IsSound w i c v a, scan_clients-AreSound w i cs v b)
