-- ===== src/State/Healthy/Installed.antt =====
-- What a healthy report of Scan in internal/state/state.go says of the whole installation.
use openvpn_docker.Prelude.{
  String, ◌≡◌, refl, true, Option, none, some, List, [], ◌∷◌, arith, Bool-cases, inl, inr, All,
  Result, ok, err,
}
use openvpn_docker.State.{Classification, OpenError}
use openvpn_docker.State.Healthy.{
  both, nonempty, AreRecorded, scan_all_expected-AreRecorded, IsSoundAuthority,
  scan_authority-IsSound,
}
use openvpn_docker.State.Healthy.Clients.{
  HasContent, compare_derived-HasContent, IsSoundClient, scan_clients-AreSound,
}
use openvpn_docker.State.Reported.{finish-healthy}
use openvpn_docker.State.Scan.{
  compare_derived, Installation, is_unborn, scan, scan_rest, crl_valid, scan_config, scan_authority,
  scan_artifact_set, scan_duplicates, expected_artifacts, scan_server, pending_issues,
}
use openvpn_docker.Store.{ClientState, ArtifactMetadata, InstanceState}
use openvpn_docker.Store.Journal.{Operation}

-- The server's configuration renders, and its file is the one rendered.
abbrev pub IsServed : Installation → Type 0
IsServed w =
    (expected : String) × (w.render_server ≡ some expected)
    × HasContent w "server/server.conf" expected

-- The database opens and its records load; no operation is pending; the artifact root is safe; the
-- authority's files pass their checks; every artifact of the instance is recorded under its key with
-- the digest of its file; the server's configuration is the one rendered; and every client is sound.
abbrev pub IsInstalled : Installation → Type 0
IsInstalled w =
    (w.open_store ≡ ok tt)
    × (w.pending ≡ some [])
    × (w.artifact_root ≡ true)
    × IsSoundAuthority w
    × IsServed w
    × ((i : InstanceState) × (w.instance' ≡ some i))
    × ((metadata : List ArtifactMetadata) × (w.metadata ≡ some metadata)
        × AreRecorded w metadata expected_artifacts)
    × ((clients : List ClientState) × (w.clients ≡ some clients) × All (IsSoundClient w) clients)

-- What the part of a healthy scan after the loads has found.
abbrev IsInOrder : Installation → List ClientState → List ArtifactMetadata → Type 0
IsInOrder w clients metadata =
    (w.pending ≡ some [])
    × (w.artifact_root ≡ true)
    × IsSoundAuthority w
    × AreRecorded w metadata expected_artifacts
    × IsServed w
    × All (IsSoundClient w) clients

pending-none : (o : Option (List Operation)) → pending_issues o ≡ [] → o ≡ some []
pending-none none h = absurd (nonempty h)
pending-none (some []) h = refl
pending-none (some (x ∷ os)) h = absurd (nonempty h)

scan_server-IsServed : (w : Installation) (owner : String) → scan_server w owner ≡ [] → IsServed w
unfolding compare_derived
scan_server-IsServed w owner h = from_render w.render_server refl
  where
    from_render : (o : Option String) → w.render_server ≡ o → IsServed w
    from_render none e = absurd (nonempty (rw e at h))
    from_render (some expected) e = (
      expected,
      e,
      compare_derived-HasContent w "SERVER_CONFIG_DRIFT" "server/server.conf" expected owner
          (rw e at h),
    )

scan_rest-IsInOrder :
    (w : Installation) (i : InstanceState) (clients : List ClientState)
    (metadata : List ArtifactMetadata)
    → (scan_rest w i clients metadata).state ≡ Classification.healthy
    → IsInOrder w clients metadata
unfolding scan_rest scan_artifact_set
scan_rest-IsInOrder w i clients metadata h = elim (Bool-cases w.artifact_root) [
  | inr unsafe ↦
      let (a, b) = both (pending_issues w.pending) _ (finish-healthy _ (rw unsafe at h)) in
      absurd (nonempty b)
  | inl safe ↦
      let (a, h) = both (pending_issues w.pending) _ (finish-healthy _ (rw safe at h)) in
      let (b, h) = both (scan_config w i) _ h in
      let (c, h) = both (scan_authority w) _ h in
      let (d, h) = both (scan_artifact_set w metadata i.id) _ h in
      let (e, f) = both (scan_server w i.id) _ h in
      let (g, k) = both (scan_duplicates i.id [] metadata) _ d in
      let sound = scan_authority-IsSound w c in
      let valid : crl_valid w ≡ true = rw (sound.0) (sound.4) in
      (
        pending-none w.pending a,
        safe,
        sound,
        scan_all_expected-AreRecorded w i.id metadata expected_artifacts k,
        scan_server-IsServed w i.id e,
        scan_clients-AreSound w i clients valid f,
      )
]

-- A scan that reports a healthy state has found the installation in order: the database opens and its
-- records load, no operation is pending, the artifact root is safe, the authority's files pass their
-- checks, every artifact of the instance is recorded with the digest of its file, the server's
-- configuration is the one rendered, every client's identity is valid and its active artifacts are as
-- recorded, and a client's profile is the one rendered if the files that it embeds can be read and the
-- renderer succeeds.
pub scan-IsInstalled : (w : Installation) → (scan w).state ≡ Classification.healthy → IsInstalled w
unfolding scan
scan-IsInstalled w h = opened w.open_store refl
  where
    opened : (o : Result OpenError (Unit {0})) → w.open_store ≡ o → IsInstalled w
    opened (err e) k = elim (Bool-cases (is_unborn w e)) [
      | inl u ↦
          let unborn : Classification.empty ≡ Classification.healthy = rw (k, u) at h in
          absurd (ground arith)
      | inr u ↦ absurd (nonempty (finish-healthy _ (rw (k, u) at h)))
    ]
    opened (ok _) k = found w.instance' refl
      where
        found : (o : Option InstanceState) → w.instance' ≡ o → IsInstalled w
        found none a = absurd (nonempty (finish-healthy _ (rw (k, a) at h)))
        found (some i) a = listed w.clients refl
          where
            listed : (o : Option (List ClientState)) → w.clients ≡ o → IsInstalled w
            listed none b = absurd (nonempty (finish-healthy _ (rw (k, a, b) at h)))
            listed (some clients) b = recorded w.metadata refl
              where
                recorded : (o : Option (List ArtifactMetadata)) → w.metadata ≡ o → IsInstalled w
                recorded none c = absurd (nonempty (finish-healthy _ (rw (k, a, b, c) at h)))
                recorded (some metadata) c =
                    let (p, q, r, s, v, t) =
                      scan_rest-IsInOrder w i clients metadata (rw (k, a, b, c) at h) in
                    (k, p, q, r, v, (i, a), (metadata, c, s), (clients, b, t))
