-- ===== src/Artifact/Prepare.antt =====
-- What BeginOperation, Stage and Remove leave for Install.
use openvpn_docker.Artifact.Adding.{Ready, save_manifest-Ready, Appended, stage_rule, remove_rule}
use openvpn_docker.Artifact.Recovery.{IsOk, ok-Post}
use openvpn_docker.Domain.Ids.{valid_uuid}
use openvpn_docker.Prelude.{◌≡◌, refl, Option, none, List, [], ◌∷◌, ◌++◌, ℕ, String, map, Result}
use mathlib.Core.List.{append-nil, append_assoc}
use openvpn_docker.Actions.Triples.{
  Ensures, Ensures-pure, Ensures-fail, Ensures-seq, Ensures-weaken, Ensures-gets, Ensures-modify,
  Ensures-if, Post, Ensures-conclude,
}
use openvpn_docker.Artifact.{
  Node, Entry, World, tick, save_manifest, Result, StoreError, ok, err, valid_uuid,
}
use openvpn_docker.Artifact.Stage.{
  make_changes, begin_operation, save_or_remove, Change, change_entry, writing, or_remove, deleting,
  make_change, prepare,
}
use openvpn_docker.Artifact.Open.{tick-Ensures}
use openvpn_docker.Artifact.Attempts.{IsPrepared, targets}
use openvpn_docker.Artifact.Commit.{Fixed}

module _ (t : String → Option Node) where
  -- No operation is there, and its folder is empty.
  abbrev Clear : World → Type 0
  Clear w = ((j : String) → ((w.cell j).backup ≡ none)) × Fixed t w

  begin_rule : (id : String) → Ensures Clear (begin_operation id) (λ _. Ready t []) (λ _. Unit)
  unfolding begin_operation save_or_remove
  begin_rule id =
      Ensures-seq Clear
        (Ensures-if (valid_uuid id) (λ _. Ensures-pure tt _ (λ w c. c))
          (λ _. Ensures-fail _ _ (λ w c. tt)))
        (Ensures-seq Clear clear_tick (
          Ensures-gets _ (λ present.
            Ensures-weaken {P = Clear} (λ w (c, _). c)
              (Ensures-seq Clear
                (Ensures-if present (λ _. Ensures-fail _ _ (λ w c. tt))
                  (λ _. Ensures-pure tt _ (λ w c. c)))
                (Ensures-seq Clear clear_tick (
                  Ensures-seq (Appended t [])
                    (Ensures-modify _ _ (λ w (b, f). (
                      record {
                        state = refl;
                        entries = refl;
                        saved = refl;
                        present = refl;
                        untouched = λ j. refl;
                        no_backup = b;
                        staged = λ x i. elim i [ ];
                        distinct = tt;
                      },
                      f,
                    )))
                    (record {
                      at = λ w r. removed (save_manifest w) ((save_manifest-Ready t []).at w r);
                    })))))))
    where
      clear_tick : Ensures Clear tick (λ _. Clear) (λ _. Unit)
      clear_tick = tick-Ensures Clear (λ _. Unit) (λ w b fs c h. c) (λ w fs c h. tt)

      removed :
          (r : Result StoreError (Unit {0}) × World)
          → Post (λ _. Ready t []) (λ _. Unit) r
          → Post (λ _. Ready t []) (λ _. Unit) (or_remove r)
      removed (ok u, w) q = q
      removed (err e, w) q = tt

  module _ (digest : List ℕ → String) (clean : String → String) where
    change_rule :
        (c : Change) (es : List Entry)
        → Ensures
            (Ready t es)
            (make_change digest clean c)
            (λ _. Ready t (es ++ change_entry digest clean c ∷ []))
            (λ _. Unit)
    unfolding make_change
    change_rule (writing key f) es = stage_rule t digest clean es key f
    change_rule (deleting key) es = remove_rule t digest clean es key

    changes_rule :
        (cs : List Change) (es : List Entry)
        → Ensures
            (Ready t es)
            (make_changes digest clean cs)
            (λ _. Ready t (es ++ map (change_entry digest clean) cs))
            (λ _. Unit)
    unfolding make_changes
    changes_rule [] es = Ensures-pure tt _ (λ w r. rw (append-nil es) r)
    changes_rule (c ∷ cs) es =
        Ensures-seq (Ready t (es ++ change_entry digest clean c ∷ [])) (change_rule c es) (
          Ensures-conclude (changes_rule cs (es ++ change_entry digest clean c ∷ [])) (λ _ w r.
            rw
              (← append_assoc es (change_entry digest clean c ∷ [])
                (map (change_entry digest clean) cs))
              r))

    prepare_rule :
        (id : String) (cs : List Change)
        → Ensures Clear
            (prepare digest clean id cs)
            (λ _. Ready t (map (change_entry digest clean) cs))
            (λ _. Unit)
    unfolding prepare
    prepare_rule id cs = Ensures-seq (Ready t []) (begin_rule id) (changes_rule cs [])

module _ (digest : List ℕ → String) (clean : String → String) where
  -- BeginOperation and then one Stage or Remove for each change, from a store without backups. If all
  -- succeed, whatever system calls may fail, then the operation is prepared with one entry for each
  -- change in their order, no two of them have one key, the manifest on the disk is the one in
  -- memory, and no target is touched.
  pub prepare-IsPrepared :
      (id : String) (cs : List Change) (w : World)
      → ((j : String) → (w.cell j).backup ≡ none)
      → IsOk ((prepare digest clean id cs w).0)
      → let v = (prepare digest clean id cs w).1 in
        IsPrepared (map (change_entry digest clean) cs) v
        × ((j : String) → targets v j ≡ targets w j)
  prepare-IsPrepared id cs w empty i =
      ok-Post (Ready (targets w) (map (change_entry digest clean) cs)) _
        (prepare digest clean id cs w)
        ((prepare_rule (targets w) digest clean id cs).at w (empty, λ j. refl)) i
