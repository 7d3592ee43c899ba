-- ===== src/Domain/Ids.antt =====
-- internal/domain/client.go: identifiers and client names, as code points.
mod Generated
pub mod Plain
mod Tests
use openvpn_docker.Prelude.{
  ℕ, zero, suc, ◌+◌, ◌-◌, ◌*◌, ◌/◌, ◌%◌, ◌^◌, ◌≤◌, ◌<◌, String, ◌≡◌, refl, sym, ap, ◌∙◌, ◌≢◌, ◌↔◌,
  ◌⊎◌, inl, inr, Bool, true, false, not, ◌&&◌, ◌||◌, Option, none, some, List, [], ◌∷◌, ◌++◌, map,
  arith, eq_iff, eq_refl, ltb, leb, ◌==◌, if◌then◌else◌, Bool-cases, Option-cases, str_eq, length,
  length-append, All, All-append, has, IsDistinct, has-append, ==_iff, ltb→lt, leb→le, Result, ok,
  err, ◌>>=◌, ◌>>◌, refuse_if, Result-cases, >>=-eq-ok, refuse_if-ok,
}
use Prim.Native.Char.{code}
use Prim.Native.Nat.{bit_and, bit_or}
use openvpn_docker.Domain.Config.{Client, ClientStatus}

pub data IdError : Type 0 where
  invalid_id invalid_name random_failed : IdError

abbrev pub codes : String → List ℕ
codes String.[] = []
codes (String.◌∷◌ c s) = code c ∷ codes s

abbrev pub between : ℕ → ℕ → ℕ → Bool
between lo hi c = leb lo c && leb c hi

-- [0-9a-f]
unfoldable pub is_hex : ℕ → Bool
is_hex c = between b'0' b'9' c || between b'a' b'f' c

-- [89ab]
unfoldable pub is_variant : ℕ → Bool
is_variant c = between b'8' b'9' c || between b'a' b'b' c

abbrev is_dash : ℕ → Bool
is_dash c = c == b'-'

abbrev is_four : ℕ → Bool
is_four c = c == b'4'

abbrev repeat {ℓ} : {A : Type ℓ} → ℕ → A → List A → List A
repeat zero a rest = rest
repeat (suc n) a rest = a ∷ repeat n a rest

-- A sequence of character classes, each for one character.
match_classes : List (ℕ → Bool) → List ℕ → Bool
match_classes [] [] = true
match_classes [] (c ∷ cs) = false
match_classes (p ∷ ps) [] = false
match_classes (p ∷ ps) (c ∷ cs) = p c && match_classes ps cs

-- uuidPattern
abbrev uuid_classes : List (ℕ → Bool)
uuid_classes = repeat 8 is_hex (
    is_dash
    ∷ repeat 4 is_hex (
        is_dash
        ∷ is_four
        ∷ repeat 3 is_hex (is_dash ∷ is_variant ∷ repeat 3 is_hex (is_dash ∷ repeat 12 is_hex []))))

unfoldable pub matches_uuid : List ℕ → Bool
unfolding match_classes is_hex is_variant
matches_uuid cs = match_classes uuid_classes cs

unfoldable pub valid_uuid : String → Bool
unfolding matches_uuid
valid_uuid s = matches_uuid (codes s)

abbrev pub is_alnum : ℕ → Bool
is_alnum c = between b'A' b'Z' c || (between b'a' b'z' c || between b'0' b'9' c)

abbrev pub is_name_char : ℕ → Bool
is_name_char c = is_alnum c || (c == b'.' || (c == b'_' || c == b'-'))

unfoldable pub all_name_chars : List ℕ → Bool
all_name_chars [] = true
all_name_chars (c ∷ cs) = is_name_char c && all_name_chars cs

-- clientNamePattern: one alphanumeric character, and up to 63 more.
matches_name : List ℕ → Bool
unfolding all_name_chars
matches_name [] = false
matches_name (c ∷ cs) = is_alnum c && (all_name_chars cs && leb (length cs) 63)

unfoldable pub valid_client_name : String → Bool
unfolding matches_name
valid_client_name s = matches_name (codes s) && not (valid_uuid s)

-- NewClient; a status outside the three constants is no value of ClientStatus here.
unfoldable pub new_client : String → String → ClientStatus → Result IdError Client
new_client id name status = do
  refuse_if (not (valid_uuid id)) invalid_id
  refuse_if (not (valid_client_name name)) invalid_name
  ok (record { id = id; name = name; status = status })

-- A half byte as a lower case hexadecimal digit.
hex_digit : ℕ → ℕ
hex_digit n = if ltb n 10 then n + 48 else n + 87

hex_bytes : List ℕ → List ℕ → List ℕ
hex_bytes [] rest = rest
hex_bytes (b ∷ bs) rest = hex_digit (b / 16) ∷ hex_digit (b % 16) ∷ hex_bytes bs rest

-- The format of GenerateUUID over sixteen bytes; `none` where the random source fails.
format_uuid : List ℕ → List ℕ → List ℕ → List ℕ → List ℕ → List ℕ
unfolding hex_bytes hex_digit
format_uuid a b c d e =
    hex_bytes a
      (b'-' ∷ hex_bytes b (b'-' ∷ hex_bytes c (b'-' ∷ hex_bytes d (b'-' ∷ hex_bytes e []))))

-- The sixteen bytes that rand.Read fills.
pub record Random : Type 0 where
  pub b0 : ℕ
  pub b1 : ℕ
  pub b2 : ℕ
  pub b3 : ℕ
  pub b4 : ℕ
  pub b5 : ℕ
  pub b6 : ℕ
  pub b7 : ℕ
  pub b8 : ℕ
  pub b9 : ℕ
  pub b10 : ℕ
  pub b11 : ℕ
  pub b12 : ℕ
  pub b13 : ℕ
  pub b14 : ℕ
  pub b15 : ℕ

unfoldable pub version_byte : ℕ → ℕ
version_byte b = bit_or (bit_and b 0x0f) 0x40

unfoldable pub variant_byte : ℕ → ℕ
variant_byte b = bit_or (bit_and b 0x3f) 0x80

unfoldable pub generate_uuid : Option Random → Result IdError (List ℕ)
unfolding format_uuid
generate_uuid none = err random_failed
generate_uuid (some r) = ok (
    format_uuid (r.b0 ∷ r.b1 ∷ r.b2 ∷ r.b3 ∷ []) (r.b4 ∷ r.b5 ∷ []) (version_byte r.b6 ∷ r.b7 ∷ [])
      (variant_byte r.b8 ∷ r.b9 ∷ []) (r.b10 ∷ r.b11 ∷ r.b12 ∷ r.b13 ∷ r.b14 ∷ r.b15 ∷ []))
