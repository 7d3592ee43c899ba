-- ===== src/Selection/Unique.antt =====
-- The targets of a batch edit of internal/client/query.go.
use openvpn_docker.Prelude.{
  ℕ, ◌≤◌, String, ◌≡◌, refl, ◌∙◌, inl, inr, Bool, true, false, not, List, [], ◌∷◌, ◌++◌, arith,
  eq_iff, ltb, if◌then◌else◌, Bool-cases, str_eq, length, ok, refuse_if, >>=-eq-ok, refuse_if-ok,
  ok-injective,
}
use openvpn_docker.Domain.Config.{is_active}
use openvpn_docker.Domain.Sets.{total, total-append, total-sort_by, sort_by}
use mathlib.Core.Path.{subst}
use openvpn_docker.Store.{ClientState}
use openvpn_docker.Selection.{
  Selector, matching, is_seen, select_each, select_active, select_client, target_less, is_none,
  same_truth, chosen, invalid_request,
}

-- How often a client has the id; and whether it is not active.
abbrev pub with_id : String → ClientState → ℕ
with_id id c = if str_eq c.client.id id then 1 else 0

abbrev pub inactive : ClientState → ℕ
inactive c = if is_active c.client.status then 0 else 1

-- No two of the clients have one id.
abbrev pub HasDistinctIds : List ClientState → Type 0
HasDistinctIds cs = (id : String) → total (with_id id) cs ≤ 1

abbrev pub AreTargets : List ClientState → Type 0
AreTargets cs = HasDistinctIds cs × (total inactive cs ≡ 0)

is_seen-total :
    (seen : List ClientState) (c : ClientState)
    → is_seen seen c ≡ false
    → total (with_id c.client.id) seen ≡ 0
is_seen-total [] c h = refl
is_seen-total (d ∷ ds) c h = ground (arith, is_seen-total ds c)

AreTargets-add :
    (seen : List ClientState) (c : ClientState)
    → AreTargets seen
    → not (is_active c.client.status) ≡ false
    → is_seen seen c ≡ false
    → AreTargets (seen ++ c ∷ [])
AreTargets-add seen c (d, a) live new =
    (distinct, ground (arith, total-append inactive seen (c ∷ [])))
  where
    distinct : HasDistinctIds (seen ++ c ∷ [])
    distinct id = elim (Bool-cases (str_eq c.client.id id)) [
      | inl e ↦
          let q = (eq_iff c.client.id id).0 e in
          let none_yet = is_seen-total seen c new in
          rw (← q) (
            ground (
              arith,
              none_yet,
              eq_iff c.client.id c.client.id,
              total-append (with_id c.client.id) seen (c ∷ []),
            ))
      | inr e ↦ ground (arith, d id, total-append (with_id id) seen (c ∷ []))
    ]

select_each-AreTargets :
    (lower : String → String) (clients seen : List ClientState) (ss : List Selector)
    {targets : List ClientState}
    → AreTargets seen
    → select_each lower clients seen ss ≡ ok targets
    → AreTargets targets
unfolding select_each
select_each-AreTargets lower clients seen [] t h = subst AreTargets (ok-injective h) t
select_each-AreTargets lower clients seen (s ∷ ss) t h =
    let (c, _, h1) = >>=-eq-ok (select_client lower clients s) _ h in
    let (_, live, h2) =
      >>=-eq-ok (refuse_if (not (is_active c.client.status)) invalid_request) _ h1 in
    let (_, new, h3) = >>=-eq-ok (refuse_if (is_seen seen c) invalid_request) _ h2 in
    select_each-AreTargets lower clients (seen ++ c ∷ []) ss
      (AreTargets-add seen c t (refuse_if-ok _ _ live) (refuse_if-ok _ _ new)) h3

matching-AreTargets :
    (cs : List ClientState)
    → HasDistinctIds cs
    → AreTargets (matching (λ c. is_active c.client.status) cs)
matching-AreTargets cs d = ((λ id. fewer id cs (d id)), live cs)
  where
    less :
        (id : String) (cs : List ClientState)
        → total (with_id id) (matching (λ c. is_active c.client.status) cs) ≤ total (with_id id) cs
    less id [] = omega arith
    less id (c ∷ cs) = ground (arith, less id cs)

    fewer :
        (id : String) (cs : List ClientState)
        → total (with_id id) cs ≤ 1
        → total (with_id id) (matching (λ c. is_active c.client.status) cs) ≤ 1
    fewer id cs h = omega (arith, less id cs)

    live :
        (cs : List ClientState) → total inactive (matching (λ c. is_active c.client.status) cs) ≡ 0
    live [] = refl
    live (c ∷ cs) = ground (arith, live cs)

AreTargets-sort_by : (cs : List ClientState) → AreTargets cs → AreTargets (sort_by target_less cs)
AreTargets-sort_by cs (d, a) = (
  (λ id. rw (total-sort_by target_less (with_id id) cs) (d id)),
  total-sort_by target_less inactive cs ∙ a,
)

chosen-AreTargets :
    (lower : String → String) (clients : List ClientState) (all : Bool) (selectors : List Selector)
    {found : List ClientState}
    → HasDistinctIds clients
    → chosen lower clients all selectors ≡ ok found
    → AreTargets found
unfolding chosen
chosen-AreTargets lower clients true selectors d h =
    subst AreTargets (ok-injective h) (matching-AreTargets clients d)
chosen-AreTargets lower clients false selectors d h =
    select_each-AreTargets lower clients [] selectors ((λ id. omega arith), refl) h

-- When the targets of a batch edit are selected, all of the clients or by selectors, every target is
-- active and no two targets have one id, provided that no two clients have one id.
pub select_active-AreTargets :
    (lower : String → String) (clients : List ClientState) (all : Bool) (selectors : List Selector)
    {targets : List ClientState}
    → HasDistinctIds clients
    → select_active lower clients all selectors ≡ ok targets
    → AreTargets targets
unfolding select_active
select_active-AreTargets lower clients all selectors {targets} d h =
    let (_, _, h1) =
      >>=-eq-ok (refuse_if (same_truth all (ltb 0 (length selectors))) invalid_request) _ h in
    let (found, e, h2) = >>=-eq-ok (chosen lower clients all selectors) _ h1 in
    let (_, _, h3) = >>=-eq-ok (refuse_if (is_none found) invalid_request) _ h2 in
    subst AreTargets (ok-injective h3)
      (AreTargets-sort_by found (chosen-AreTargets lower clients all selectors d e))
