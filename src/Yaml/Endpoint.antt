-- ===== src/Yaml/Endpoint.antt =====
-- What net/netip and strings.ToLower are documented to do with the texts that a configuration holds, and
-- the endpoints that normalizeEndpoint returns.
use mathlib.Core.Path.{subst, sym}
use openvpn_docker.Prelude.{
  ℕ, ◌+◌, ◌≡◌, refl, String, true, false, none, some, List, [], ◌∷◌, map, if◌then◌else◌, str_eq, ok,
  arith, length, >>=-eq-ok, Bool-cases, ap, inl, not, suc, refuse_if, ◌||◌, eq_iff, inr,
  Option-cases, ok-injective, ◌∙◌, sym,
}
use openvpn_docker.Domain.{Addr, Prefix, Network, zone, unmap, new_network}
use openvpn_docker.Domain.Ids.{codes, all_name_chars, between}
use openvpn_docker.Yaml.{
  Library, matches_endpoint, has_break, has_dots, matches_pattern, address_endpoint, name_endpoint,
  normalize_endpoint, parsed_endpoint, endpoint_missing, endpoint_lines,
}

-- The lower case of an ASCII character.
abbrev pub lower_code : ℕ → ℕ
lower_code c = if between b'A' b'Z' c then c + 32 else c

pub record Documented (lib : Library) : Type 0 where
  pub no_address : lib.parse_addr "" ≡ none
  -- The text of a parsed address is parsed as that address, and has no line break.
  pub address_text :
      (s : String) (a : Addr)
      → lib.parse_addr s ≡ some a
      → str_eq (zone a) "" ≡ true
      → lib.parse_addr (lib.show_addr a) ≡ some a
  pub unmapped_text :
      (s : String) (a : Addr)
      → lib.parse_addr s ≡ some a
      → str_eq (zone a) "" ≡ true
      → lib.parse_addr (lib.show_addr (unmap a)) ≡ some (unmap a)
  pub address_line :
      (s : String) (a : Addr)
      → lib.parse_addr s ≡ some a
      → str_eq (zone a) "" ≡ true
      → has_break (codes (lib.show_addr a)) ≡ false
  -- The text of a network from a parsed prefix is parsed as that network.
  pub network_text :
      (s : String) (p : Prefix) (n : Network)
      → lib.parse_prefix s ≡ some p
      → new_network p ≡ ok n
      → lib.parse_prefix (lib.show_prefix n.value) ≡ some n.value
  -- ToLower changes only the case, and a second time nothing; the case of a letter does not make an
  -- address.
  pub lower_text :
      (s : String)
      → matches_endpoint (codes s) ≡ true
      → map lower_code (codes (lib.lower s)) ≡ map lower_code (codes s)
  pub lower_twice : (s : String) → lib.lower (lib.lower s) ≡ lib.lower s
  pub lower_address : (s : String) → lib.parse_addr s ≡ none → lib.parse_addr (lib.lower s) ≡ none

all_name_chars-lower : (cs : List ℕ) → all_name_chars (map lower_code cs) ≡ all_name_chars cs
unfolding all_name_chars
all_name_chars-lower [] = refl
all_name_chars-lower (c ∷ cs) = rw (all_name_chars-lower cs) (ground arith)

has_dots-lower : (cs : List ℕ) → has_dots (map lower_code cs) ≡ has_dots cs
unfolding has_dots
has_dots-lower [] = refl
has_dots-lower (c ∷ []) = ground arith
has_dots-lower (c ∷ d ∷ cs) = let rest = has_dots-lower (d ∷ cs) in rw (rest) (ground arith)

all_name_chars-has_break : (cs : List ℕ) → all_name_chars cs ≡ true → has_break cs ≡ false
unfolding all_name_chars has_break
all_name_chars-has_break [] h = refl
all_name_chars-has_break (c ∷ cs) h =
    let rest = all_name_chars-has_break cs (ground (arith, h)) in ground (arith, h, rest)

length-lower : (cs : List ℕ) → length (map lower_code cs) ≡ length cs
length-lower [] = refl
length-lower (c ∷ cs) = ap suc (length-lower cs)

matches_pattern-lower :
    (most : ℕ) (cs : List ℕ) → matches_pattern most (map lower_code cs) ≡ matches_pattern most cs
matches_pattern-lower most [] = refl
matches_pattern-lower most (c ∷ cs) = rw (length-lower cs, all_name_chars-lower cs) (ground arith)

matches_pattern-has_break :
    (most : ℕ) (cs : List ℕ) → matches_pattern most cs ≡ true → has_break cs ≡ false
unfolding has_break
matches_pattern-has_break most [] h = refl
matches_pattern-has_break most (c ∷ cs) h =
    let rest = all_name_chars-has_break cs (ground (arith, h)) in ground (arith, h, rest)

matches_pattern-nonempty :
    (most : ℕ) (s : String) → matches_pattern most (codes s) ≡ true → str_eq s "" ≡ false
matches_pattern-nonempty most s h = elim (Bool-cases (str_eq s "")) [
  | inl e ↦ let empty : s ≡ "" = (eq_iff s "").0 e in absurd (cc (rw empty at h))
  | inr e ↦ e
]

module _ (lib : Library) (doc : Documented lib) where
  passes :
      (e : String)
      → str_eq e "" ≡ false
      → has_break (codes e) ≡ false
      → parsed_endpoint lib e (lib.parse_addr e) ≡ ok e
      → normalize_endpoint lib e ≡ ok e
  unfolding normalize_endpoint
  passes e there line h = rw (there, line) h

  name_stable :
      (input e : String)
      → lib.parse_addr input ≡ none
      → name_endpoint lib input ≡ ok e
      → normalize_endpoint lib e ≡ ok e
  name_stable input e none_parsed h =
      elim (Bool-cases (not (matches_endpoint (codes input)) || has_dots (codes input))) [
        | inl bad ↦ absurd (cc (rw bad at h))
        | inr good ↦
            let same : lib.lower input ≡ e = ok-injective (rw good at h) in
            let m : matches_endpoint (codes input) ≡ true = ground (arith, good) in
            let d : has_dots (codes input) ≡ false = ground (arith, good) in
            let t = doc.lower_text input m in
            let m' : matches_endpoint (codes (lib.lower input)) ≡ true =
              sym (matches_pattern-lower 252 (codes (lib.lower input)))
              ∙ (ap (λ cs. matches_endpoint cs) t
                  ∙ (matches_pattern-lower 252 (codes input) ∙ m)) in
            let d' : has_dots (codes (lib.lower input)) ≡ false =
              sym (has_dots-lower (codes (lib.lower input)))
              ∙ (ap has_dots t ∙ (has_dots-lower (codes input) ∙ d)) in
            subst (λ x. normalize_endpoint lib x ≡ ok x) same
              (passes (lib.lower input) (matches_pattern-nonempty 252 _ m')
                (matches_pattern-has_break 252 _ m')
                (rw (doc.lower_address input none_parsed, m', d', doc.lower_twice input) refl))
      ]

  address_stable :
      (input e : String) (a : Addr)
      → lib.parse_addr input ≡ some a
      → address_endpoint lib a ≡ ok e
      → normalize_endpoint lib e ≡ ok e
  address_stable input e a parsed h = elim (Bool-cases (str_eq (zone a) "")) [
    | inr bad ↦ absurd (cc (rw bad at h))
    | inl good ↦
        let same : lib.show_addr a ≡ e = ok-injective (rw good at h) in
        let again = doc.address_text input a parsed good in
        subst (λ x. normalize_endpoint lib x ≡ ok x) same
          (passes (lib.show_addr a) (nonempty again) (doc.address_line input a parsed good)
            (rw (again, good) refl))
  ]
    where
      nonempty : lib.parse_addr (lib.show_addr a) ≡ some a → str_eq (lib.show_addr a) "" ≡ false
      nonempty again = elim (Bool-cases (str_eq (lib.show_addr a) "")) [
        | inl p ↦
            let q : lib.parse_addr "" ≡ some a =
              subst (λ x. lib.parse_addr x ≡ some a) ((eq_iff (lib.show_addr a) "").0 p) again in
            let n = doc.no_address in absurd (cc)
        | inr p ↦ p
      ]

  pub normalize_endpoint_stable :
      (input e : String) → normalize_endpoint lib input ≡ ok e → normalize_endpoint lib e ≡ ok e
  unfolding normalize_endpoint
  normalize_endpoint_stable input e h =
      let (u, p, h1) = >>=-eq-ok (refuse_if (str_eq input "") endpoint_missing) _ h in
      let (v, q, h2) = >>=-eq-ok (refuse_if (has_break (codes input)) endpoint_lines) _ h1 in
      elim (Option-cases (lib.parse_addr input)) [
        | inl absent ↦ name_stable input e absent (rw absent at h2)
        | inr (a, parsed) ↦ address_stable input e a parsed (rw parsed at h2)
      ]
