-- ===== src/Domain/Ids/Plain.antt =====
-- The code points that no identifier of the accepted form holds.
use openvpn_docker.Domain.Ids.{
  is_hex, is_variant, is_dash, is_four, repeat, match_classes, uuid_classes, matches_uuid,
  valid_uuid, codes,
}
use openvpn_docker.Prelude.{
  ℕ, zero, suc, String, ◌≡◌, refl, Bool, true, false, List, [], ◌∷◌, arith, ◌==◌, has, All,
}

-- A class without dots.
abbrev Excludes : (ℕ → Bool) → Type 0
Excludes p = (c : ℕ) → p c ≡ true → (c == b'.') ≡ false

repeat-All :
    (n : ℕ) (p : ℕ → Bool) (rest : List (ℕ → Bool))
    → Excludes p
    → All Excludes rest
    → All Excludes (repeat n p rest)
repeat-All zero p rest h k = k
repeat-All (suc n) p rest h k = (h, repeat-All n p rest h k)

match-has :
    (ps : List (ℕ → Bool)) (cs : List ℕ)
    → All Excludes ps
    → match_classes ps cs ≡ true
    → has cs b'.' ≡ false
unfolding match_classes
match-has [] [] a h = refl
match-has [] (c ∷ cs) a h = ground arith
match-has (p ∷ ps) [] a h = ground arith
match-has (p ∷ ps) (c ∷ cs) a h =
    let first : p c ≡ true = ground arith in
    let rest : match_classes ps cs ≡ true = ground arith in
    ground (arith, a.0 c first, match-has ps cs a.1 rest)

hex-Excludes : Excludes is_hex
unfolding is_hex
hex-Excludes c h = ground arith

variant-Excludes : Excludes is_variant
unfolding is_variant
variant-Excludes c h = ground arith

dash-Excludes : Excludes is_dash
dash-Excludes c h = ground arith

four-Excludes : Excludes is_four
four-Excludes c h = ground arith

-- The classes from each dash on.
abbrev node : List (ℕ → Bool)
node = is_dash ∷ repeat 12 is_hex []

abbrev clock : List (ℕ → Bool)
clock = is_dash ∷ is_variant ∷ repeat 3 is_hex node

abbrev version : List (ℕ → Bool)
version = is_dash ∷ is_four ∷ repeat 3 is_hex clock

abbrev middle : List (ℕ → Bool)
middle = is_dash ∷ repeat 4 is_hex version

classes-Exclude : All Excludes uuid_classes
classes-Exclude =
    let at_node : All Excludes node = (dash-Excludes, repeat-All 12 is_hex [] hex-Excludes tt) in
    let at_clock : All Excludes clock =
      (dash-Excludes, (variant-Excludes, repeat-All 3 is_hex node hex-Excludes at_node)) in
    let at_version : All Excludes version =
      (dash-Excludes, (four-Excludes, repeat-All 3 is_hex clock hex-Excludes at_clock)) in
    let at_middle : All Excludes middle =
      (dash-Excludes, repeat-All 4 is_hex version hex-Excludes at_version) in
    repeat-All 8 is_hex middle hex-Excludes at_middle

pub valid_uuid-no_dot : (id : String) → valid_uuid id ≡ true → has (codes id) b'.' ≡ false
unfolding valid_uuid matches_uuid
valid_uuid-no_dot id h = match-has uuid_classes (codes id) classes-Exclude h
