-- ===== src/Domain/Ids/Tests.antt =====
-- An identifier made of sixteen bytes, and the theorem at them.
use openvpn_docker.Prelude.{ℕ, ◌≡◌, refl, true, some, List, arith, ok}
use openvpn_docker.Domain.Ids.{
  Random, generate_uuid, matches_uuid, codes, version_byte, variant_byte,
}
use openvpn_docker.Domain.Ids.Generated.{IsBytes, bytes_of, generate_uuid-matches_uuid}

abbrev random : Random
random = record {
  b0 = 0;
  b1 = 1;
  b2 = 2;
  b3 = 3;
  b4 = 4;
  b5 = 5;
  b6 = 255;
  b7 = 7;
  b8 = 255;
  b9 = 9;
  b10 = 10;
  b11 = 11;
  b12 = 12;
  b13 = 13;
  b14 = 14;
  b15 = 255;
}

abbrev generated : List ℕ
generated = codes "00010203-0405-4f07-bf09-0a0b0c0d0eff"

is_generated : generate_uuid (some random) ≡ ok generated
unfolding generate_uuid version_byte variant_byte
is_generated = refl

random-IsBytes : IsBytes (bytes_of random)
random-IsBytes = ground arith

generate_uuid-matches_uuid_example : matches_uuid generated ≡ true
generate_uuid-matches_uuid_example =
    generate_uuid-matches_uuid random {id = generated} random-IsBytes is_generated
