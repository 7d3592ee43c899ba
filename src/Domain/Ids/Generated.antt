-- ===== src/Domain/Ids/Generated.antt =====
-- Every identifier that GenerateUUID makes has the form that the program accepts.
use mathlib.Core.Path.{subst}
use openvpn_docker.Prelude.{
  ok-injective, ℕ, zero, suc, ◌/◌, ◌%◌, ◌<◌, ◌≡◌, refl, ◌∙◌, Bool, true, ◌&&◌, some, List, [], ◌∷◌,
  arith, ◌==◌, All, ok,
}
use openvpn_docker.Domain.Ids.{
  hex_digit, is_hex, is_variant, variant_byte, version_byte, match_classes, Random, hex_bytes,
  repeat, generate_uuid, is_four, matches_uuid, format_uuid, is_dash,
}

-- A test that holds at every byte, by running it at each of them.
module _ (test : ℕ → Bool) where
  run_below : ℕ → Bool
  run_below zero = true
  run_below (suc bound) = test bound && run_below bound

  test_holds : (bound byte : ℕ) → run_below bound ≡ true → byte < bound → test byte ≡ true
  unfolding run_below
  test_holds zero byte run small = absurd (omega arith)
  test_holds (suc bound) byte run small = ground (arith, test_holds bound byte)

hex_digit-is_hex : (n : ℕ) → n < 16 → is_hex (hex_digit n) ≡ true
unfolding hex_digit is_hex
hex_digit-is_hex n h = ground arith

abbrev version_form : ℕ → Bool
version_form b = hex_digit (version_byte b / 16) == b'4' && is_hex (hex_digit (version_byte b % 16))

abbrev variant_form : ℕ → Bool
variant_form b =
    is_variant (hex_digit (variant_byte b / 16)) && is_hex (hex_digit (variant_byte b % 16))

version_table : run_below version_form 256 ≡ true
unfolding run_below version_byte hex_digit is_hex
version_table = refl

variant_table : run_below variant_form 256 ≡ true
unfolding run_below variant_byte hex_digit is_hex is_variant
variant_table = refl

hex_byte :
    (b : ℕ) → b < 256 → (is_hex (hex_digit (b / 16)) ≡ true) × (is_hex (hex_digit (b % 16)) ≡ true)
hex_byte b h = (hex_digit-is_hex (b / 16) (omega arith), hex_digit-is_hex (b % 16) (omega arith))

and_split : (a b : Bool) → (a && b) ≡ true → (a ≡ true) × (b ≡ true)
and_split a b h = ground arith

-- Random bytes are below 256.
abbrev pub IsBytes : List ℕ → Type 0
IsBytes = All (λ b. b < 256)

abbrev pub bytes_of : Random → List ℕ
bytes_of r =
    r.b0 ∷ r.b1 ∷ r.b2 ∷ r.b3 ∷ r.b4 ∷ r.b5 ∷ r.b6 ∷ r.b7 ∷ r.b8 ∷ r.b9 ∷ r.b10 ∷ r.b11 ∷ r.b12
    ∷ r.b13 ∷ r.b14 ∷ r.b15 ∷ []

hex_classes : List ℕ → List (ℕ → Bool) → List (ℕ → Bool)
hex_classes [] ps = ps
hex_classes (b ∷ bs) ps = is_hex ∷ is_hex ∷ hex_classes bs ps

match_hex_bytes :
    (bs : List ℕ) (ps : List (ℕ → Bool)) (rest : List ℕ)
    → IsBytes bs
    → match_classes (hex_classes bs ps) (hex_bytes bs rest) ≡ match_classes ps rest
unfolding match_classes hex_bytes hex_classes
match_hex_bytes [] ps rest h = refl
match_hex_bytes (b ∷ bs) ps rest h =
    rw ((hex_byte b h.0).0, (hex_byte b h.0).1) (match_hex_bytes bs ps rest h.1)

version_byte_form :
    (b : ℕ)
    → b < 256
    → ((hex_digit (version_byte b / 16) == b'4') ≡ true)
      × (is_hex (hex_digit (version_byte b % 16)) ≡ true)
version_byte_form b h = and_split _ _ (test_holds version_form 256 b version_table h)

variant_byte_form :
    (b : ℕ)
    → b < 256
    → (is_variant (hex_digit (variant_byte b / 16)) ≡ true)
      × (is_hex (hex_digit (variant_byte b % 16)) ≡ true)
variant_byte_form b h = and_split _ _ (test_holds variant_form 256 b variant_table h)

third_group :
    (c6 c7 : ℕ) (ps : List (ℕ → Bool)) (rest : List ℕ)
    → c6 < 256
    → c7 < 256
    → match_classes (is_four ∷ repeat 3 is_hex ps) (hex_bytes (version_byte c6 ∷ c7 ∷ []) rest)
      ≡ match_classes ps rest
unfolding match_classes hex_bytes
third_group c6 c7 ps rest h k =
    rw
      ((version_byte_form c6 h).0, (version_byte_form c6 h).1, (hex_byte c7 k).0, (hex_byte c7 k).1)

fourth_group :
    (c8 c9 : ℕ) (ps : List (ℕ → Bool)) (rest : List ℕ)
    → c8 < 256
    → c9 < 256
    → match_classes (is_variant ∷ repeat 3 is_hex ps) (hex_bytes (variant_byte c8 ∷ c9 ∷ []) rest)
      ≡ match_classes ps rest
unfolding match_classes hex_bytes
fourth_group c8 c9 ps rest h k =
    rw
      ((variant_byte_form c8 h).0, (variant_byte_form c8 h).1, (hex_byte c9 k).0, (hex_byte c9 k).1)

matches_format :
    (r : Random)
    → IsBytes (bytes_of r)
    → matches_uuid (
        format_uuid
          (r.b0 ∷ r.b1 ∷ r.b2 ∷ r.b3 ∷ [])
          (r.b4 ∷ r.b5 ∷ [])
          (version_byte r.b6 ∷ r.b7 ∷ [])
          (variant_byte r.b8 ∷ r.b9 ∷ [])
          (r.b10 ∷ r.b11 ∷ r.b12 ∷ r.b13 ∷ r.b14 ∷ r.b15 ∷ []))
      ≡ true
unfolding matches_uuid format_uuid hex_classes
matches_format r h =
    let tail = r.b10 ∷ r.b11 ∷ r.b12 ∷ r.b13 ∷ r.b14 ∷ r.b15 ∷ [] in
    let variant = variant_byte r.b8 ∷ r.b9 ∷ [] in
    let version = version_byte r.b6 ∷ r.b7 ∷ [] in
    let c5 = is_dash ∷ hex_classes tail [] in
    let r5 = b'-' ∷ hex_bytes tail [] in
    let c4 = is_dash ∷ is_variant ∷ repeat 3 is_hex c5 in
    let r4 = b'-' ∷ hex_bytes variant r5 in
    let c3 = is_dash ∷ is_four ∷ repeat 3 is_hex c4 in
    let r3 = b'-' ∷ hex_bytes version r4 in
    let c2 = is_dash ∷ hex_classes (r.b4 ∷ r.b5 ∷ []) c3 in
    let r2 = b'-' ∷ hex_bytes (r.b4 ∷ r.b5 ∷ []) r3 in
    match_hex_bytes (r.b0 ∷ r.b1 ∷ r.b2 ∷ r.b3 ∷ []) c2 r2 (omega arith)
    ∙ match_hex_bytes (r.b4 ∷ r.b5 ∷ []) c3 r3 (omega arith)
    ∙ third_group r.b6 r.b7 c4 r4 (omega arith) (omega arith)
    ∙ fourth_group r.b8 r.b9 c5 r5 (omega arith) (omega arith)
    ∙ match_hex_bytes tail [] [] (omega arith)

-- From any sixteen random bytes GenerateUUID makes an identifier that ValidUUID accepts.
pub generate_uuid-matches_uuid :
    (r : Random) {id : List ℕ}
    → IsBytes (bytes_of r)
    → generate_uuid (some r) ≡ ok id
    → matches_uuid id ≡ true
unfolding generate_uuid
generate_uuid-matches_uuid r {id} h e =
    subst (λ x. matches_uuid x ≡ true) (ok-injective e) (matches_format r h)
