-- ===== src/Configuration.antt =====
-- remapAddresses of internal/configuration/plan.go: the IPv4 changes of a configuration apply. An
-- AddressIntent holds the address itself, where the source holds its text.
pub mod Remap
pub mod Build
mod Tests
pub mod Supported
use openvpn_docker.Prelude.{
  ℕ, zero, suc, ◌+◌, ◌-◌, ◌*◌, ◌/◌, ◌%◌, ◌^◌, ◌≤◌, ◌<◌, String, ◌≡◌, refl, sym, ap, ◌∙◌, ◌≢◌, ◌↔◌,
  ◌⊎◌, inl, inr, Bool, true, false, not, ◌&&◌, ◌||◌, Option, none, some, List, [], ◌∷◌, ◌++◌, map,
  arith, eq_iff, eq_refl, ltb, leb, ◌==◌, if◌then◌else◌, Bool-cases, Option-cases, str_eq, length,
  length-append, All, All-append, has, IsDistinct, has-append, ==_iff, ltb→lt, leb→le, Result, ok,
  err, ◌>>=◌, ◌>>◌, refuse_if,
}
use openvpn_docker.Domain.{Addr, invalid, v4, v6, Address, address_from4}
use openvpn_docker.Domain.Config.{Client, Config}
use openvpn_docker.Domain.Sets.{has_address, str_lt, sort_by}
use openvpn_docker.Store.{AssignmentStatus, AddressAssignment, ClientState}
use openvpn_docker.Ipam.{
  IpamError, Layout, ipv4_uint32, is_empty, contains, new_ipv4_layout, next_static, prefix_addr,
  prefix_bits,
}
use Prim.Native.Nat.{bit_and, bit_or}

pub data PlanError : Type 0 where
  layout_refused : IpamError → PlanError
  dynamic_pool_empty invalid_assignment no_static_left : PlanError

pub record ClientRef : Type 0 where
  pub id : String
  pub name : String

pub record AddressIntent : Type 0 where
  pub mode : String
  pub address : Option Address
  pub state : AssignmentStatus

pub record AddressChange : Type 0 where
  pub client : ClientRef
  pub before : AddressIntent
  pub after : AddressIntent

-- An entry of `static`: the client, the address of its assignment, and `value` with `set`.
pub record Pending : Type 0 where
  pub client : ClientState
  pub assignment : AddressAssignment
  pub current : Address
  pub value : Option Address

abbrev pub address_intent : AddressAssignment → AddressIntent
address_intent a = record { mode = a.kind; address = a.address; state = a.status }

abbrev pub client_ref : ClientState → ClientRef
client_ref c = record { id = c.client.id; name = c.client.name }

abbrev pub host_mask : ℕ → ℕ
host_mask bits = if ltb 0 bits then 2 ^ (32 - bits) - 1 else 2 ^ 32 - 1

-- `network | (value & hostMask)`
unfoldable pub map_host_bits : Address → Addr → ℕ → Address
map_host_bits a network bits =
    address_from4 (bit_or (ipv4_uint32 network) (bit_and (ipv4_uint32 a.value) (host_mask bits)))

abbrev unchanged : ClientState → AddressAssignment → AddressChange
unchanged c a = record {
  client = client_ref c;
  before = address_intent a;
  after = address_intent a;
}

abbrev Collected : Type 0
Collected = List Pending × List AddressChange

-- One round of the first loop, over what it has collected so far.
collect_one :
    Layout → ClientState → Option AddressAssignment → Collected → Result PlanError Collected
collect_one l c none (static, changes) = ok (static, changes)
collect_one l c (some a) (static, changes) =
    if str_eq a.kind "dynamic"
    then (if is_empty l.dynamic
        then err dynamic_pool_empty
        else ok (static, changes ++ unchanged c a ∷ []))
    else if not (str_eq a.kind "static")
    then err invalid_assignment
    else elim a.address [
      | none ↦ err invalid_assignment
      | some current ↦ ok (
        static ++ record { client = c; assignment = a; current = current; value = none } ∷ [],
        changes,
      )
    ]

collect : Layout → Collected → List ClientState → Result PlanError Collected
unfolding collect_one
collect l found [] = ok found
collect l found (c ∷ cs) = do found' ← collect_one l c c.assignment found; collect l found' cs

abbrev is_set : Pending → Bool
is_set p = elim p.value [ none ↦ false | some _ ↦ true ]

unfoldable pub is_free : Layout → List Address → Pending → Address → Bool
is_free l used p a = not (is_set p) && (contains l.static a && not (has_address used a))

-- A loop that gives each entry its candidate, if the entry has no address yet and the candidate is
-- static and unused: the candidate is the current address in the first loop, where no entry has an
-- address yet, and the mapped host bits in the second.
keep_free : (Pending → Address) → Layout → List Address → List Pending → List Pending × List Address
keep_free candidate l used [] = ([], used)
keep_free candidate l used (p ∷ ps) =
    let free = is_free l used p (candidate p) in
    let (rest, used') = keep_free candidate l (if free then candidate p ∷ used else used) ps in
    ((if free then record p { value = some (candidate p) } else p) ∷ rest, used')

-- The third loop: NextStatic over the addresses in use.
allocate : Layout → List Address → List Pending → Result PlanError (List Pending × List Address)
allocate l used [] = ok ([], used)
allocate l used (p ∷ ps) =
    if is_set p
    then (do (rest, used') ← allocate l used ps; ok (p ∷ rest, used'))
    else elim (next_static l used) [
      | err _ ↦ err no_static_left
      | ok a ↦ do
        (rest, used') ← allocate l (a ∷ used) ps
        ok (record p { value = some a } ∷ rest, used')
    ]

-- The three loops over the static clients.
place : Layout → Config → List Pending → Result PlanError (List Pending × List Address)
unfolding keep_free allocate
place l desired static =
    let (kept, used) = keep_free (λ p. p.current) l [] static in
    let host = λ (p : Pending).
      map_host_bits p.current (prefix_addr desired.ipv4.network.value)
        (prefix_bits desired.ipv4.network.value) in
    let (mapped, used') = keep_free host l used kept in allocate l used' mapped

moved_change : Pending → AddressChange
moved_change p = record {
  client = client_ref p.client;
  before = address_intent p.assignment;
  after = record { mode = "static"; address = p.value; state = p.assignment.status };
}

abbrev change_less : AddressChange → AddressChange → Bool
change_less a b =
    if not (str_eq a.client.name b.client.name)
    then str_lt a.client.name b.client.name
    else str_lt a.client.id b.client.id

unfoldable pub remap_addresses : List ClientState → Config → Result PlanError (List AddressChange)
unfolding collect place moved_change
remap_addresses clients desired =
    elim (new_ipv4_layout desired.ipv4.network desired.ipv4.dynamic_pool_size) [
      | err e ↦ err (layout_refused e)
      | ok l ↦ do
        (static, changes) ← collect l ([], []) clients
        (placed, _) ← place l desired static
        ok (sort_by change_less (changes ++ map moved_change placed))
    ]
