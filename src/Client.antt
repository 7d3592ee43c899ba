-- ===== src/Client.antt =====
-- internal/client: the planning of IPv4 assignments, in planCreateAssignment (mutation.go) and in
-- applyAddressesLocked (address.go). An identifier that GenerateUUID draws is an argument, `none`
-- where the random source fails.
pub mod Assign
mod Tests
use openvpn_docker.Prelude.{
  ℕ, zero, suc, ◌+◌, ◌-◌, ◌*◌, ◌/◌, ◌%◌, ◌^◌, ◌≤◌, ◌<◌, String, ◌≡◌, refl, sym, ap, ◌∙◌, ◌≢◌, ◌↔◌,
  ◌⊎◌, inl, inr, Bool, true, false, not, ◌&&◌, ◌||◌, Option, none, some, List, [], ◌∷◌, ◌++◌, map,
  arith, eq_iff, eq_refl, ltb, leb, ◌==◌, if◌then◌else◌, Bool-cases, Option-cases, str_eq, length,
  length-append, All, All-append, has, IsDistinct, has-append, ==_iff, ltb→lt, leb→le, Result, ok,
  err, ◌>>=◌, ◌>>◌, refuse_if, Result-cases, >>=-eq-ok, refuse_if-ok,
}
use openvpn_docker.Domain.{Addr, Address, new_address, is4, family}
use openvpn_docker.Domain.Config.{Client, Config}
use openvpn_docker.Domain.Sets.{has_address, same_address, str_lt, sort_by}
use openvpn_docker.Store.{
  AssignmentStatus, AddressAssignment, ClientState, InstanceState, assigned_address, active,
}
use openvpn_docker.Ipam.{
  IpamError, Layout, is_ipv4, is_empty, contains, new_ipv4_layout, next_static, validate_static,
}

pub data ClientError : Type 0 where
  invalid_request conflict id_failed : ClientError
  layout_refused : IpamError → ClientError

-- Functions of Go's library on text: netip.ParseAddr, Addr.String and strings.ToLower.
pub record TextFunctions : Type 0 where
  pub parse_addr : String → Option Addr
  pub show : Address → String
  pub lower : String → String

-- domain.ParseAddress, without the text of the error.
abbrev pub parse_address : TextFunctions → String → Option Address
parse_address text s = elim (text.parse_addr s) [
  | none ↦ none
  | some value ↦ elim (new_address value) [ ok a ↦ some a | err _ ↦ none ]
]

abbrev pub draft : InstanceState → ℕ → String → String → Option Address → AddressAssignment
draft instance' now id kind address = record {
  id = id;
  network_id = instance'.network_id;
  kind = kind;
  address = address;
  status = active;
  created_at = now;
  updated_at = now;
  released_at = none;
}

-- The addresses of the clients whose assignment is static.
abbrev pub static_addresses : List ClientState → List Address
static_addresses [] = []
static_addresses (c ∷ cs) =
    let rest = static_addresses cs in
    elim c.assignment [
      | none ↦ rest
      | some a ↦
          if str_eq a.kind "static"
          then (elim a.address [ none ↦ rest | some x ↦ x ∷ rest ])
          else rest
    ]

-- The addresses of all clients' assignments.
abbrev pub all_addresses : List ClientState → List Address
all_addresses [] = []
all_addresses (c ∷ cs) =
    let rest = all_addresses cs in elim (assigned_address c) [ none ↦ rest | some x ↦ x ∷ rest ]

-- A static address that is named: parsed, IPv4, in the static range and not in use.
check_manual : Layout → List Address → Option Address → Result ClientError Address
check_manual l used none = err invalid_request
check_manual l used (some a) =
    if not (is_ipv4 (family a)) then err invalid_request else elim (validate_static l a) [
      | err _ ↦ err invalid_request
      | ok _ ↦ if has_address used a then err conflict else ok a
    ]

manual_address : TextFunctions → Layout → List Address → String → Result ClientError Address
unfolding check_manual
manual_address text l used selection = check_manual l used (parse_address text selection)

auto_address : Layout → List Address → Result ClientError Address
auto_address l used = elim (next_static l used) [ err _ ↦ err conflict | ok a ↦ ok a ]

create_selected :
    TextFunctions
    → InstanceState
    → Layout
    → List ClientState
    → String
    → ℕ
    → String
    → Result ClientError AddressAssignment
unfolding manual_address auto_address
create_selected text instance' l clients selection now id =
    if str_eq selection "dynamic"
    then (if is_empty l.dynamic
        then err invalid_request
        else ok (draft instance' now id "dynamic" none))
    else if str_eq selection "auto"
    then (do
      a ← auto_address l (static_addresses clients)
      ok (draft instance' now id "static" (some a)))
    else do
      a ← manual_address text l (all_addresses clients) selection
      ok (draft instance' now id "static" (some a))

unfoldable pub plan_create_assignment :
    TextFunctions
    → InstanceState
    → List ClientState
    → String
    → ℕ
    → Option String
    → Result ClientError AddressAssignment
unfolding create_selected
plan_create_assignment text instance' clients selection now id =
    elim (new_ipv4_layout instance'.applied.config.ipv4.network
      instance'.applied.config.ipv4.dynamic_pool_size) [
        | err e ↦ err (layout_refused e)
        | ok l ↦ elim id [
          | none ↦ err id_failed
          | some id' ↦ create_selected text instance' l clients selection now id'
        ]
      ]

-- Which clients are being changed: the map `selected`.
abbrev is_target : List ClientState → ClientState → Bool
is_target [] c = false
is_target (t ∷ ts) c = str_eq t.client.id c.client.id || is_target ts c

-- The addresses of the clients that are not changed.
abbrev pub kept_addresses : List ClientState → List ClientState → List Address
kept_addresses targets [] = []
kept_addresses targets (c ∷ cs) =
    let rest = kept_addresses targets cs in
    if is_target targets c
    then rest
    else (elim (assigned_address c) [ none ↦ rest | some x ↦ x ∷ rest ])

-- A missing key of a Go map reads as the empty text.
abbrev pub selection_of : List (String × String) → String → String
selection_of [] id = ""
selection_of ((k, v) ∷ rest) id = if str_eq k id then v else selection_of rest id

-- What one round of the loop decides: the assignment and its normalised text.
abbrev Decision : Type 0
Decision = AddressAssignment × String

choose :
    TextFunctions
    → InstanceState
    → Layout
    → List Address
    → String
    → ℕ
    → String
    → Result ClientError Decision
unfolding manual_address auto_address
choose text instance' l used selection now id =
    if str_eq (text.lower selection) "dynamic"
    then (if is_empty l.dynamic
        then err invalid_request
        else ok (draft instance' now id "dynamic" none, "dynamic"))
    else if str_eq (text.lower selection) "auto"
    then (do a ← auto_address l used; ok (draft instance' now id "static" (some a), text.show a))
    else do
      a ← manual_address text l used selection
      ok (draft instance' now id "static" (some a), text.show a)

-- An assignment of one target, with its client's id.
pub record Planned : Type 0 where
  pub client_id : String
  pub assignment : AddressAssignment
  pub normalized : String

-- `used = append(used, address)`, if there is an address.
abbrev extend : AddressAssignment → List Address → List Address
extend a used = elim a.address [ none ↦ used | some x ↦ used ++ x ∷ [] ]

-- The loop over the sorted targets; `ids k` is drawn in its k-th round.
plan_loop :
    TextFunctions
    → InstanceState
    → Layout
    → List (String × String)
    → ℕ
    → (ℕ → Option String)
    → ℕ
    → List Address
    → List ClientState
    → Result ClientError (List Planned)
unfolding choose
plan_loop text instance' l selections now ids k used [] = ok []
plan_loop text instance' l selections now ids k used (t ∷ ts) = elim (ids k) [
  | none ↦ err id_failed
  | some id ↦ do
    (a, shown) ← choose text instance' l used (selection_of selections t.client.id) now id
    rest ← plan_loop text instance' l selections now ids (k + 1) (extend a used) ts
    ok (record { client_id = t.client.id; assignment = a; normalized = shown } ∷ rest)
]

abbrev target_less : ClientState → ClientState → Bool
target_less a b =
    if str_eq a.client.name b.client.name
    then str_lt a.client.id b.client.id
    else str_lt a.client.name b.client.name

-- The planning half of applyAddressesLocked; what it plans is handed to commitAddressChanges.
unfoldable pub plan_addresses :
    TextFunctions
    → InstanceState
    → List ClientState
    → List ClientState
    → List (String × String)
    → ℕ
    → (ℕ → Option String)
    → Result ClientError (List Planned)
unfolding plan_loop
plan_addresses text instance' clients targets selections now ids =
    elim (new_ipv4_layout instance'.applied.config.ipv4.network
      instance'.applied.config.ipv4.dynamic_pool_size) [
        | err e ↦ err (layout_refused e)
        | ok l ↦
            plan_loop text instance' l selections now ids 0 (kept_addresses targets clients)
              (sort_by target_less targets)
      ]
