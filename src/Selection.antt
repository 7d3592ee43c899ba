-- ===== src/Selection.antt =====
-- internal/client/query.go: selectors, and the clients that they select. `lower` is strings.ToLower,
-- and every text is compared as its code points.
pub mod Unique
mod Tests
use openvpn_docker.Prelude.{
  ℕ, zero, suc, ◌+◌, ◌-◌, ◌*◌, ◌/◌, ◌%◌, ◌^◌, ◌≤◌, ◌<◌, String, ◌≡◌, refl, sym, ap, ◌∙◌, ◌≢◌, ◌↔◌,
  ◌⊎◌, inl, inr, Bool, true, false, not, ◌&&◌, ◌||◌, Option, none, some, List, [], ◌∷◌, ◌++◌, map,
  arith, eq_iff, eq_refl, ltb, leb, ◌==◌, if◌then◌else◌, Bool-cases, Option-cases, str_eq, length,
  length-append, All, All-append, has, IsDistinct, has-append, ==_iff, ltb→lt, leb→le, Result, ok,
  err, ◌>>=◌, ◌>>◌, refuse_if, Result-cases, >>=-eq-ok, refuse_if-ok, ok-injective,
}
use openvpn_docker.Domain.Config.{ClientStatus, is_active}
use openvpn_docker.Domain.Ids.{valid_client_name, valid_uuid, codes, is_hex}
use openvpn_docker.Domain.Sets.{str_lt, sort_by}
use openvpn_docker.Domain.{Address}
use openvpn_docker.Store.{ClientState, AddressAssignment, ClientLease, AssignmentStatus}

pub data SelectError : Type 0 where
  invalid_request not_found ambiguous : SelectError

pub record Selector : Type 0 where
  pub name : String
  pub id_prefix : String

pub record IPv4View : Type 0 where
  pub mode : String
  pub address : Option Address
  pub state : String

pub record View : Type 0 where
  pub id : String
  pub name : String
  pub status : ClientStatus
  pub ipv4 : IPv4View

abbrev is_retained : AssignmentStatus → Bool
is_retained AssignmentStatus.retained = true
is_retained _ = false

abbrev configured : AddressAssignment → String
configured a =
    if str_eq a.kind "static"
    then (if is_retained a.status then "retained" else "configured")
    else "unavailable"

-- newView for a client with an assignment: its address, or else that of the lease.
abbrev assigned_view : AddressAssignment → Option Address → Option ClientLease → IPv4View
assigned_view a (some x) lease = record { mode = a.kind; address = some x; state = configured a }
assigned_view a none (some lease) = record {
  mode = a.kind;
  address = some lease.address;
  state = "last-known";
}
assigned_view a none none = record { mode = a.kind; address = none; state = configured a }

unfoldable pub new_view : ClientState → View
new_view c = record {
  id = c.client.id;
  name = c.client.name;
  status = c.client.status;
  ipv4 = elim c.assignment [
    | none ↦ record { mode = "none"; address = none; state = "unavailable" }
    | some a ↦ assigned_view a a.address c.lease
  ];
}

-- strings.ReplaceAll(s, "-", "")
abbrev pub without_dashes : List ℕ → List ℕ
without_dashes [] = []
without_dashes (c ∷ cs) = let rest = without_dashes cs in if c == b'-' then rest else c ∷ rest

abbrev pub has_prefix : List ℕ → List ℕ → Bool
has_prefix cs [] = true
has_prefix [] (p ∷ ps) = false
has_prefix (c ∷ cs) (p ∷ ps) = c == p && has_prefix cs ps

abbrev pub all_hex : List ℕ → Bool
all_hex [] = true
all_hex (c ∷ cs) = is_hex c && all_hex cs

abbrev has_dash : List ℕ → Bool
has_dash [] = false
has_dash (c ∷ cs) = c == b'-' || has_dash cs

unfoldable pub normalize_id_prefix : (String → String) → String → Result SelectError (List ℕ)
normalize_id_prefix lower value =
    let low = codes (lower value) in
    let compact = without_dashes low in
    (do
      refuse_if (has_dash low && not (valid_uuid (lower value))) invalid_request
      refuse_if (ltb (length compact) 8 || ltb 32 (length compact)) invalid_request
      refuse_if (not (all_hex compact)) invalid_request
      ok compact)

abbrev forget : {A : Type 0} → Result SelectError A → Result SelectError (Unit {0})
forget (ok a) = ok tt
forget (err e) = err e

abbrev pub same_truth : Bool → Bool → Bool
same_truth true b = b
same_truth false b = not b

unfoldable pub validate_selector : (String → String) → Selector → Result SelectError (Unit {0})
unfolding normalize_id_prefix
validate_selector lower s = do
  refuse_if (same_truth (str_eq s.name "") (str_eq s.id_prefix "")) invalid_request
  refuse_if (not (str_eq s.name "") && not (valid_client_name s.name)) invalid_request
  if str_eq s.id_prefix "" then ok tt else forget (normalize_id_prefix lower s.id_prefix)

module _ (test : ClientState → Bool) where
  abbrev pub matching : List ClientState → List ClientState
  matching [] = []
  matching (c ∷ cs) = let rest = matching cs in if test c then c ∷ rest else rest

abbrev pub only : List ClientState → Result SelectError ClientState
only [] = err not_found
only (c ∷ []) = ok c
only (c ∷ (d ∷ cs)) = err ambiguous

abbrev pub has_name : String → ClientState → Bool
has_name name c = str_eq c.client.name name

abbrev pub has_id_prefix : List ℕ → ClientState → Bool
has_id_prefix prefix c = has_prefix (without_dashes (codes c.client.id)) prefix

unfoldable pub select_client :
    (String → String) → List ClientState → Selector → Result SelectError ClientState
unfolding validate_selector normalize_id_prefix
select_client lower clients s = do
  validate_selector lower s
  if not (str_eq s.name "") then only (matching (has_name s.name) clients) else (do
    prefix ← normalize_id_prefix lower s.id_prefix
    only (matching (has_id_prefix prefix) clients))

abbrev pub is_seen : List ClientState → ClientState → Bool
is_seen [] c = false
is_seen (d ∷ ds) c = str_eq d.client.id c.client.id || is_seen ds c

-- The loop over the selectors; `seen` holds the targets so far.
pub select_each :
    (String → String)
    → List ClientState
    → List ClientState
    → List Selector
    → Result SelectError (List ClientState)
unfolding select_client
select_each lower clients seen [] = ok seen
select_each lower clients seen (s ∷ ss) = do
  c ← select_client lower clients s
  refuse_if (not (is_active c.client.status)) invalid_request
  refuse_if (is_seen seen c) invalid_request
  select_each lower clients (seen ++ c ∷ []) ss

abbrev pub is_none : List ClientState → Bool
is_none [] = true
is_none _ = false

abbrev pub target_less : ClientState → ClientState → Bool
target_less a b =
    if str_eq a.client.name b.client.name
    then str_lt a.client.id b.client.id
    else str_lt a.client.name b.client.name

-- The targets of --all, or those of the selectors.
unfoldable pub chosen :
    (String → String)
    → List ClientState
    → Bool
    → List Selector
    → Result SelectError (List ClientState)
unfolding select_each
chosen lower clients true selectors = ok (matching (λ c. is_active c.client.status) clients)
chosen lower clients false selectors = select_each lower clients [] selectors

-- selectActive, behind the load of the clients.
unfoldable pub select_active :
    (String → String)
    → List ClientState
    → Bool
    → List Selector
    → Result SelectError (List ClientState)
unfolding chosen
select_active lower clients all selectors = do
  refuse_if (same_truth all (ltb 0 (length selectors))) invalid_request
  targets ← chosen lower clients all selectors
  refuse_if (is_none targets) invalid_request
  ok (sort_by target_less targets)

-- SelectActive: the views of the targets.
unfoldable pub select_active_views :
    (String → String) → List ClientState → Bool → List Selector → Result SelectError (List View)
unfolding select_active
select_active_views lower clients all selectors = do
  targets ← select_active lower clients all selectors
  ok (map new_view targets)

unfoldable pub short_id : String → List ℕ
short_id id = take_12 (without_dashes (codes id))
  where
    take : ℕ → List ℕ → List ℕ
    take zero cs = []
    take (suc n) [] = []
    take (suc n) (c ∷ cs) = c ∷ take n cs

    take_12 : List ℕ → List ℕ
    take_12 cs = take 12 cs
