-- ===== src/Compatibility/Ordered.antt =====
-- What Validate of internal/compatibility/contract.go has checked of an accepted contract.
use openvpn_docker.Compatibility.{
  Contract, Feature, Version, bad_adapter, bad_contract_version, bad_feature, bad_version,
  duplicate_feature, no_features, no_probes, no_versions, not_ascending, version_range,
  check_features, check_probes, check_versions, compare_version, digits_value, feature_rest,
  follows, has_break, is_canonical, is_less, is_name, is_nil, name_seen, parse_part,
  version_of_parts, parse_version, split_at_dots, validate_contract,
}
use openvpn_docker.Domain.Ids.{codes}
use openvpn_docker.Prelude.{
  ℕ, ◌^◌, ◌<◌, String, ◌≡◌, ◌⊎◌, sym, ◌∙◌, true, false, not, ◌&&◌, ◌||◌, none, some, List, [], ◌∷◌,
  All, arith, eq_iff, eq_refl, Bool-cases, inl, inr, ltb, ◌==◌, str_eq, ok, refuse_if, refuse_if-ok,
  >>=-eq-ok, ok-injective,
}

-- Each part is a 64-bit number.
abbrev pub IsUint64 : Version → Type 0
IsUint64 v = (v.major < 2 ^ 64) × (v.minor < 2 ^ 64) × (v.patch < 2 ^ 64)

-- The numbers stand in lexicographic order, and differ.
abbrev pub IsBefore : Version → Version → Type 0
IsBefore a b =
    (a.major < b.major)
    ⊎ ((a.major ≡ b.major) × ((a.minor < b.minor) ⊎ ((a.minor ≡ b.minor) × (a.patch < b.patch))))

-- The text is that of a version which comes before the given one.
abbrev pub IsLater : Version → String → Type 0
IsLater a text = (b : Version) × (parse_version text ≡ ok b) × IsBefore a b

-- Every text is that of a version of 64-bit parts, which comes before all the later ones.
abbrev pub AreAscending : List String → Type 0
AreAscending [] = Unit
AreAscending (v ∷ vs) =
    ((a : Version) × (parse_version v ≡ ok a) × IsUint64 a × All (IsLater a) vs) × AreAscending vs

-- No text of the list stands in it twice.
abbrev pub AreApart : List String → Type 0
AreApart [] = Unit
AreApart (v ∷ vs) = All (λ w. str_eq v w ≡ false) vs × AreApart vs

-- No name stands in the list.
abbrev pub Avoids : String → List Feature → Type 0
Avoids name [] = Unit
Avoids name (f ∷ fs) = (str_eq name f.name ≡ false) × Avoids name fs

-- Every feature has a name of its own.
abbrev pub AreFeatures : List Feature → Type 0
AreFeatures [] = Unit
AreFeatures (f ∷ fs) = Avoids f.name fs × AreFeatures fs

IsBefore-trans : (a b c : Version) → IsBefore a b → IsBefore b c → IsBefore a c
IsBefore-trans a b c (inl h) (inl k) = inl (omega arith)
IsBefore-trans a b c (inl h) (inr (e, k)) = inl (omega arith)
IsBefore-trans a b c (inr (e, h)) (inl k) = inl (omega arith)
IsBefore-trans a b c (inr (e, inl h)) (inr (f, inl k)) = inr (omega arith, inl (omega arith))
IsBefore-trans a b c (inr (e, inl h)) (inr (f, inr (g, k))) = inr (omega arith, inl (omega arith))
IsBefore-trans a b c (inr (e, inr (d, h))) (inr (f, inl k)) = inr (omega arith, inl (omega arith))
IsBefore-trans a b c (inr (e, inr (d, h))) (inr (f, inr (g, k))) =
    inr (omega arith, inr (omega arith, omega arith))

IsBefore-same : (a : Version) → IsBefore a a → ⊥
IsBefore-same a (inl h) = omega arith
IsBefore-same a (inr (e, inl h)) = omega arith
IsBefore-same a (inr (e, inr (d, h))) = omega arith

compare_version-IsBefore : (a b : Version) → is_less (compare_version a b) ≡ true → IsBefore a b
unfolding compare_version
compare_version-IsBefore a b h = ground arith

parse_part-lt : (cs : List ℕ) {n : ℕ} → parse_part cs ≡ ok n → n < 2 ^ 64
unfolding parse_part
parse_part-lt cs h =
    let (u, a, b) =
      >>=-eq-ok (refuse_if (not (ltb (digits_value 0 cs) (2 ^ 64))) version_range) _ h in
    let fits = refuse_if-ok (not (ltb (digits_value 0 cs) (2 ^ 64))) version_range a in
    let value = ok-injective b in ground arith

parse_version-IsUint64 : (text : String) {v : Version} → parse_version text ≡ ok v → IsUint64 v
unfolding parse_version
parse_version-IsUint64 text {v} h = from_parts (split_at_dots (codes text)) h
  where
    from_parts : (parts : List (List ℕ)) → version_of_parts parts ≡ ok v → IsUint64 v
    from_parts [] h = cc
    from_parts (a ∷ []) h = cc
    from_parts (a ∷ b ∷ []) h = cc
    from_parts (a ∷ b ∷ c ∷ d ∷ rest) h = cc
    from_parts (a ∷ b ∷ c ∷ []) h =
        let (u, canonical, h) =
          >>=-eq-ok
            (refuse_if (not (is_canonical a && (is_canonical b && is_canonical c))) bad_version) _
            h in
        let (major, x, h) = >>=-eq-ok (parse_part a) _ h in
        let (minor, y, h) = >>=-eq-ok (parse_part b) _ h in
        let (patch, z, h) = >>=-eq-ok (parse_part c) _ h in
        rw (← ok-injective h) (parse_part-lt a x, parse_part-lt b y, parse_part-lt c z)

is_less-IsBefore :
    (previous current : Version) {u : Unit {0}}
    → refuse_if (not (follows (some previous) current)) not_ascending ≡ ok u
    → IsBefore previous current
is_less-IsBefore previous current h =
    let fits = refuse_if-ok (not (follows (some previous) current)) not_ascending h in
    compare_version-IsBefore previous current (ground arith)

IsLater-earlier :
    (a b : Version) (vs : List String) → IsBefore a b → All (IsLater b) vs → All (IsLater a) vs
IsLater-earlier a b [] h later = tt
IsLater-earlier a b (v ∷ vs) h ((c, parsed, k), later) =
    ((c, parsed, IsBefore-trans a b c h k), IsLater-earlier a b vs h later)

check-AreAscending :
    (previous : Version) (vs : List String) {u : Unit {0}}
    → check_versions (some previous) vs ≡ ok u
    → AreAscending vs × All (IsLater previous) vs
unfolding check_versions
check-AreAscending previous [] h = (tt, tt)
check-AreAscending previous (v ∷ vs) h =
    let (current, a, h) = >>=-eq-ok (parse_version v) _ h in
    let (u, b, h) =
      >>=-eq-ok (refuse_if (not (follows (some previous) current)) not_ascending) _ h in
    let (rest, later) = check-AreAscending current vs h in
    let before = is_less-IsBefore previous current b in
    (
      ((current, a, parse_version-IsUint64 v a, later), rest),
      ((current, a, before), IsLater-earlier previous current vs before later),
    )

first-AreAscending :
    (vs : List String) {u : Unit {0}} → check_versions none vs ≡ ok u → AreAscending vs
unfolding check_versions
first-AreAscending [] h = tt
first-AreAscending (v ∷ vs) h =
    let (current, a, h) = >>=-eq-ok (parse_version v) _ h in
    let (rest, later) = check-AreAscending current vs h in
    ((current, a, parse_version-IsUint64 v a, later), rest)

unseen :
    (seen : List String) (name other : String)
    → name_seen seen name ≡ true
    → name_seen seen other ≡ false
    → str_eq name other ≡ false
unseen [] name other h k = cc
unseen (x ∷ xs) name other h k = elim (Bool-cases (str_eq name other)) [
  | inr e ↦ e
  | inl e ↦ grind (arith, eq_iff)
]

check-AreFeatures :
    (seen : List String) (fs : List Feature) {u : Unit {0}}
    → check_features seen fs ≡ ok u
    → AreFeatures fs × ((name : String) → name_seen seen name ≡ true → Avoids name fs)
unfolding check_features
check-AreFeatures seen [] h = (tt, λ name k. tt)
check-AreFeatures seen (f ∷ fs) h =
    let (u, a, h) =
      >>=-eq-ok (refuse_if (not (feature_rest true (codes f.name))) bad_feature) _ h in
    let (u2, b, h) = >>=-eq-ok (refuse_if (name_seen seen f.name) duplicate_feature) _ h in
    let (u3, c, h) = >>=-eq-ok (refuse_if (is_nil f.help_contains) no_probes) _ h in
    let (u4, d, h) = >>=-eq-ok (check_probes f.help_contains) _ h in
    let (rest, apart) = check-AreFeatures (f.name ∷ seen) fs h in
    let fresh = refuse_if-ok (name_seen seen f.name) duplicate_feature b in
    (
      (apart f.name (ground (arith, eq_refl f.name)), rest),
      λ name k. (unseen seen name f.name k fresh, apart name (ground (arith, k))),
    )

later-apart :
    (a : Version) (v : String) (ws : List String)
    → parse_version v ≡ ok a
    → All (IsLater a) ws
    → All (λ w. str_eq v w ≡ false) ws
later-apart a v [] h later = tt
later-apart a v (w ∷ ws) h ((b, parsed, before), later) = (
  elim (Bool-cases (str_eq v w)) [
    | inr e ↦ e
    | inl e ↦
        let same : v ≡ w = (eq_iff v w).0 e in
        let one : a ≡ b = ok-injective (sym h ∙ rw (← same) at parsed) in
        absurd (IsBefore-same a (rw (← one) at before))
  ],
  later-apart a v ws h later,
)

AreAscending-AreApart : (vs : List String) → AreAscending vs → AreApart vs
AreAscending-AreApart [] h = tt
AreAscending-AreApart (v ∷ vs) ((a, parsed, bounded, later), rest) =
    (later-apart a v vs parsed later, AreAscending-AreApart vs rest)

-- The versions of an accepted contract have parts below 2 ^ 64 and stand in ascending lexicographic
-- order of these parts, each before all the later ones; so no version is listed twice, and no feature.
pub validate_contract-IsOrdered :
    (c : Contract)
    → validate_contract c ≡ ok tt
    → AreAscending c.supported_openvpn_versions
      × AreApart c.supported_openvpn_versions
      × AreFeatures c.required_features
unfolding validate_contract
validate_contract-IsOrdered c h =
    let (u, a, h) = >>=-eq-ok (refuse_if (not (c.version == 1)) bad_contract_version) _ h in
    let (u2, b, h) = >>=-eq-ok (refuse_if (is_nil c.supported_openvpn_versions) no_versions) _ h in
    let (u3, d, h) = >>=-eq-ok (check_versions none c.supported_openvpn_versions) _ h in
    let (u4, e, h) = >>=-eq-ok (refuse_if (not (is_name (codes c.adapter.name))) bad_adapter) _ h in
    let (u5, f, h) =
      >>=-eq-ok (refuse_if (not (is_name (codes c.adapter.template_family))) bad_adapter) _ h in
    let (u6, g, h) =
      >>=-eq-ok
        (refuse_if
          (str_eq c.adapter.config_test_cipher "" || has_break (codes c.adapter.config_test_cipher))
          bad_adapter)
        _ h in
    let (u7, i, h) = >>=-eq-ok (refuse_if (is_nil c.required_features) no_features) _ h in
    let ascending = first-AreAscending c.supported_openvpn_versions d in
    (
      ascending,
      AreAscending-AreApart c.supported_openvpn_versions ascending,
      (check-AreFeatures [] c.required_features h).0,
    )
