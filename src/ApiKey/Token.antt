-- ===== src/ApiKey/Token.antt =====
-- parseToken of internal/apikey/service.go: a token is the prefix, an identifier and the secret's text.
-- sha256 and base64 are parameters; a base64 text holds no dot.
use Prim.Native.Char.{Char, code}
use Prim.Native.String.{◌++◌ as str_append}
use Prim.Native.String.append.{nil, cons}
use openvpn_docker.Domain.Ids.{valid_uuid, codes}
use openvpn_docker.Domain.Ids.Plain.{valid_uuid-no_dot}
use openvpn_docker.Prelude.{
  ℕ, String, ◌≡◌, refl, Bool, true, false, ◌&&◌, Option, none, some, List, [], ◌∷◌, arith, ◌==◌,
  if◌then◌else◌, str_eq, length, has, eq_refl,
}

-- sha256.Sum256, base64.RawURLEncoding's EncodeToString and DecodeString, and strings.ToLower.
pub record Codec : Type 0 where
  pub sum256 : String → List ℕ
  pub encode_to_string : List ℕ → String
  pub decode_string : String → Option (List ℕ)
  pub to_lower : String → String

abbrev pub token_prefix : String
token_prefix = "ovpn_v1"

abbrev push : Char → List String → List String
push c [] = String.◌∷◌ c "" ∷ []
push c (p ∷ ps) = String.◌∷◌ c p ∷ ps

-- strings.Split(s, ".")
unfoldable pub split_dots : String → List String
split_dots String.[] = "" ∷ []
split_dots (String.◌∷◌ c s) =
    let rest = split_dots s in if code c == b'.' then "" ∷ rest else push c rest

-- The secret's text decodes to 32 bytes that encode to it.
unfoldable pub is_secret : Codec → String → Bool
is_secret codec text = elim (codec.decode_string text) [
  | none ↦ false
  | some secret ↦ length secret == 32 && str_eq (codec.encode_to_string secret) text
]

abbrev parse_parts : Codec → List String → Option String
parse_parts codec (prefix ∷ (id ∷ (text ∷ []))) =
    if str_eq prefix token_prefix && (valid_uuid id && is_secret codec text) then some id else none
parse_parts codec _ = none

-- parseToken, with `none` for a refused token; the digest beside it is the sum of the token.
unfoldable pub parse_token : Codec → String → Option String
unfolding split_dots is_secret
parse_token codec token = parse_parts codec (split_dots token)

-- `tokenPrefix + "." + id + "." + text`
abbrev pub token_of : String → String → String
token_of id text = str_append token_prefix (str_append "." (str_append id (str_append "." text)))

-- No code point of the text is a dot.
abbrev pub HasNoDot : String → Type 0
HasNoDot s = has (codes s) b'.' ≡ false

nil-append : (t : String) → str_append "" t ≡ t
nil-append t = λ i. nil t i

cons-append :
    (c : Char) (s t : String) → str_append (String.◌∷◌ c s) t ≡ String.◌∷◌ c (str_append s t)
cons-append c s t = λ i. cons c s t i

no_dots :
    (c : ℕ) (cs : List ℕ)
    → has (c ∷ cs) b'.' ≡ false
    → ((c == b'.') ≡ false) × (has cs b'.' ≡ false)
no_dots c cs h = ground arith

-- A text before a dot is a part of its own.
dot-split : (b : String) → split_dots (str_append "." b) ≡ "" ∷ split_dots b
unfolding split_dots
dot-split b = rw (cons-append "." "" b) (rw (nil-append b) refl)

split-append :
    (a b : String) → HasNoDot a → split_dots (str_append a (str_append "." b)) ≡ a ∷ split_dots b
unfolding split_dots
split-append String.[] b h = rw (nil-append (str_append "." b)) (dot-split b)
split-append (String.◌∷◌ c a) b h =
    let (c_dot, a_dots) = no_dots (code c) (codes a) h in
    rw (cons-append c a (str_append "." b)) (rw c_dot (rw (split-append a b a_dots) refl))

split-one : (a : String) → HasNoDot a → split_dots a ≡ a ∷ []
unfolding split_dots
split-one String.[] h = refl
split-one (String.◌∷◌ c a) h =
    let (c_dot, a_dots) = no_dots (code c) (codes a) h in rw c_dot (rw (split-one a a_dots) refl)

-- The token of a valid identifier and a secret names the identifier.
pub parse-token_of :
    (codec : Codec) (id : String) (secret : List ℕ)
    → valid_uuid id ≡ true
    → length secret ≡ 32
    → codec.decode_string (codec.encode_to_string secret) ≡ some secret
    → HasNoDot (codec.encode_to_string secret)
    → parse_token codec (token_of id (codec.encode_to_string secret)) ≡ some id
unfolding parse_token is_secret
parse-token_of codec id secret valid whole back plain =
    let text = codec.encode_to_string secret in
    let parts : split_dots (token_of id text) ≡ token_prefix ∷ id ∷ text ∷ [] =
      rw (split-append token_prefix (str_append id (str_append "." text)) refl)
        (rw (split-append id text (valid_uuid-no_dot id valid)) (rw (split-one text plain) refl)) in
    let opens : is_secret codec text ≡ true =
      rw (is_secret, back) (ground (arith, whole, eq_refl text)) in
    rw parts (rw (valid, opens) refl)
