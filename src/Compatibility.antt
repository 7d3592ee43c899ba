-- ===== src/Compatibility.antt =====
-- internal/compatibility/contract.go: the checks on the contract of supported OpenVPN versions. Texts are
-- compared as their code points; a decoded JSON document is the record.
pub mod Ordered
mod Tests
use openvpn_docker.Domain.Ids.{between, codes, is_alnum, is_name_char}
use openvpn_docker.Prelude.{
  ℕ, ◌+◌, ◌*◌, ◌-◌, ◌^◌, String, Bool, true, false, not, ◌&&◌, ◌||◌, Option, none, some, List, [],
  ◌∷◌, ltb, ◌==◌, if◌then◌else◌, str_eq, length, Result, ok, err, ◌>>=◌, ◌>>◌, refuse_if, has,
}

pub record Adapter : Type 0 where
  pub name : String
  pub template_family : String
  pub config_test_cipher : String

pub record Feature : Type 0 where
  pub name : String
  pub help_contains : List String

pub record Contract : Type 0 where
  pub version : ℕ
  pub supported_openvpn_versions : List String
  pub adapter : Adapter
  pub required_features : List Feature

pub data ContractError : Type 0 where
  bad_contract_version no_versions bad_version version_range not_ascending bad_adapter :
      ContractError
  no_features bad_feature duplicate_feature no_probes bad_probe : ContractError

pub record Version : Type 0 where
  pub major : ℕ
  pub minor : ℕ
  pub patch : ℕ

abbrev is_digit : ℕ → Bool
is_digit c = between b'0' b'9' c

abbrev all_digits : List ℕ → Bool
all_digits [] = true
all_digits (c ∷ cs) = is_digit c && all_digits cs

abbrev pub is_nil : {A : Type 0} → List A → Bool
is_nil [] = true
is_nil (x ∷ xs) = false

-- 0|[1-9][0-9]*
abbrev is_canonical : List ℕ → Bool
is_canonical [] = false
is_canonical (c ∷ cs) = if c == b'0' then is_nil cs else is_digit c && all_digits cs

abbrev digits_value : ℕ → List ℕ → ℕ
digits_value n [] = n
digits_value n (c ∷ cs) = digits_value (n * 10 + (c - b'0')) cs

abbrev put_first : ℕ → List (List ℕ) → List (List ℕ)
put_first c [] = (c ∷ []) ∷ []
put_first c (p ∷ ps) = (c ∷ p) ∷ ps

abbrev split_at_dots : List ℕ → List (List ℕ)
split_at_dots [] = [] ∷ []
split_at_dots (c ∷ cs) =
    let rest = split_at_dots cs in if c == b'.' then [] ∷ rest else put_first c rest

-- strconv.ParseUint(part, 10, 64) of a canonical part.
unfoldable pub parse_part : List ℕ → Result ContractError ℕ
parse_part cs = do
  refuse_if (not (ltb (digits_value 0 cs) (2 ^ 64))) version_range
  ok (digits_value 0 cs)

abbrev version_of_parts : List (List ℕ) → Result ContractError Version
version_of_parts (a ∷ (b ∷ (c ∷ []))) = do
  refuse_if (not (is_canonical a && (is_canonical b && is_canonical c))) bad_version
  major ← parse_part a
  minor ← parse_part b
  patch ← parse_part c
  ok (record { major = major; minor = minor; patch = patch })
version_of_parts _ = err bad_version

-- parseVersion
unfoldable pub parse_version : String → Result ContractError Version
unfolding parse_part
parse_version value = version_of_parts (split_at_dots (codes value))

pub data Comparison : Type 0 where
  less same greater : Comparison

-- compareVersion, by the first part that differs.
unfoldable pub compare_version : Version → Version → Comparison
compare_version l r =
    if ltb l.major r.major
    then less
    else if ltb r.major l.major
    then greater
    else if ltb l.minor r.minor
    then less
    else if ltb r.minor l.minor
    then greater
    else if ltb l.patch r.patch
    then less
    else if ltb r.patch l.patch
    then greater
    else same

abbrev is_less : Comparison → Bool
is_less less = true
is_less _ = false

abbrev pub follows : Option Version → Version → Bool
follows none current = true
follows (some previous) current = is_less (compare_version previous current)

-- The loop over the versions, with the one before.
unfoldable pub check_versions : Option Version → List String → Result ContractError (Unit {0})
unfolding parse_version compare_version
check_versions previous [] = ok tt
check_versions previous (v ∷ vs) = do
  current ← parse_version v
  refuse_if (not (follows previous current)) not_ascending
  check_versions (some current) vs

abbrev all_pattern : List ℕ → Bool
all_pattern [] = true
all_pattern (c ∷ cs) = is_name_char c && all_pattern cs

-- namePattern
unfoldable pub is_name : List ℕ → Bool
is_name [] = false
is_name (c ∷ cs) = is_alnum c && all_pattern cs

abbrev is_feature_char : ℕ → Bool
is_feature_char c = between b'a' b'z' c || between b'0' b'9' c

-- featurePattern: runs of letters and digits with single dashes between; `fresh` asks for one.
abbrev feature_rest : Bool → List ℕ → Bool
feature_rest fresh [] = not fresh
feature_rest fresh (c ∷ cs) =
    let inside = feature_rest false cs in
    let start = feature_rest true cs in
    if is_feature_char c then inside else not fresh && (c == b'-' && start)

-- strings.ContainsAny(s, "\r\n")
abbrev has_break : List ℕ → Bool
has_break cs = has cs 10 || has cs 13

abbrev name_seen : List String → String → Bool
name_seen [] name = false
name_seen (x ∷ xs) name = str_eq x name || name_seen xs name

unfoldable pub check_probes : List String → Result ContractError (Unit {0})
check_probes [] = ok tt
check_probes (p ∷ ps) = do refuse_if (str_eq p "" || has_break (codes p)) bad_probe; check_probes ps

-- The loop over the features, with the names seen.
unfoldable pub check_features : List String → List Feature → Result ContractError (Unit {0})
unfolding check_probes
check_features seen [] = ok tt
check_features seen (f ∷ fs) = do
  refuse_if (not (feature_rest true (codes f.name))) bad_feature
  refuse_if (name_seen seen f.name) duplicate_feature
  refuse_if (is_nil f.help_contains) no_probes
  check_probes f.help_contains
  check_features (f.name ∷ seen) fs

-- Validate
unfoldable pub validate_contract : Contract → Result ContractError (Unit {0})
unfolding check_versions check_features is_name
validate_contract c = do
  refuse_if (not (c.version == 1)) bad_contract_version
  refuse_if (is_nil c.supported_openvpn_versions) no_versions
  check_versions none c.supported_openvpn_versions
  refuse_if (not (is_name (codes c.adapter.name))) bad_adapter
  refuse_if (not (is_name (codes c.adapter.template_family))) bad_adapter
  refuse_if
      (str_eq c.adapter.config_test_cipher "" || has_break (codes c.adapter.config_test_cipher))
      bad_adapter
  refuse_if (is_nil c.required_features) no_features
  check_features [] c.required_features

-- SupportsVersion
unfoldable pub supports_version : List String → String → Bool
supports_version [] version = false
supports_version (v ∷ vs) version = str_eq version v || supports_version vs version
