-- ===== src/Artifact/Sample.antt =====
-- An operation that writes one file and deletes another, for the tests.
use openvpn_docker.Prelude.{
  refl, false, none, some, List, [], ◌∷◌, ℕ, String, map, str_eq, if◌then◌else◌,
}
use openvpn_docker.Actions.{pure, fail, lift, gets, modify, ◌>>=◌, ◌>>◌}
use openvpn_docker.Domain.Ids.{valid_uuid}
use openvpn_docker.Examples.{some_uuid}
use openvpn_docker.Artifact.{Cell, regular, World, tick, save_manifest}
use openvpn_docker.Artifact.Calls.{preflight_target}
use openvpn_docker.Artifact.Stage.{
  Change, writing, deleting, change_entry, prepare, make_changes, make_change, stage, remove,
  check_stage, validate_key, write_staged, begin_operation, save_or_remove, new_manifest,
}
use openvpn_docker.Artifact.Attempts.{IsPrepared}
use openvpn_docker.Artifact.Recovery.{IsOk}
use openvpn_docker.Artifact.Prepare.{prepare-IsPrepared}

abbrev pub digest : List ℕ → String
digest c = "d1"

abbrev pub clean : String → String
clean k = k

abbrev pub original : String → Cell
original k = record {
  target =
      if str_eq k "old" then some (regular (record { content = 7 ∷ []; mode = 420 })) else none;
  staged = none;
  backup = none;
}

abbrev pub start : World
start = record {
  cell = original;
  present = false;
  saved = new_manifest "";
  memory = new_manifest "";
  faults = [];
}

abbrev pub changes : List Change
changes = writing "new" (record { content = 1 ∷ 2 ∷ []; mode = 384 }) ∷ deleting "old" ∷ []

abbrev pub prepared_world : World
prepared_world = (prepare digest clean some_uuid changes start).1

pub prepare_sample : IsOk ((prepare digest clean some_uuid changes start).0)
unfolding prepare make_changes make_change stage remove check_stage validate_key write_staged
    begin_operation save_or_remove save_manifest preflight_target tick pure fail lift gets modify
    ◌>>=◌ ◌>>◌ valid_uuid
prepare_sample = tt

pub prepared_world-IsPrepared : IsPrepared (map (change_entry digest clean) changes) prepared_world
prepared_world-IsPrepared =
    (prepare-IsPrepared digest clean some_uuid changes start (λ j. refl) prepare_sample).0
