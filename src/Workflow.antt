-- ===== src/Workflow.antt =====
-- internal/config/workflow.go: the comparison of a desired configuration with the applied one; and the
-- view of a configuration, NewView of internal/config/yaml.go. `Texts` holds String of an address and
-- of a network, and the digest: SHA-256 of the JSON of a view, which may fail to encode.
pub mod Compare
mod Tests
pub mod Effects
use openvpn_docker.Prelude.{
  ℕ, zero, suc, ◌+◌, ◌-◌, ◌*◌, ◌/◌, ◌%◌, ◌^◌, ◌≤◌, ◌<◌, String, ◌≡◌, refl, sym, ap, ◌∙◌, ◌≢◌, ◌↔◌,
  ◌⊎◌, inl, inr, Bool, true, false, not, ◌&&◌, ◌||◌, Option, none, some, List, [], ◌∷◌, ◌++◌, map,
  arith, eq_iff, eq_refl, ltb, leb, ◌==◌, if◌then◌else◌, Bool-cases, Option-cases, str_eq, length,
  length-append, All, All-append, has, IsDistinct, has-append, ==_iff, ltb→lt, leb→le, Result, ok,
  err, ◌>>=◌, ◌>>◌, refuse_if, Result-cases, >>=-eq-ok, refuse_if-ok, ok-injective,
}
use openvpn_docker.Domain.{Address, Network}
use openvpn_docker.Domain.Config.{Config, Protocol, TransportFamily}

pub data WorkflowError : Type 0 where
  not_encoded revision_not_positive digest_mismatch revision_overflow : WorkflowError

pub record ServerView : Type 0 where
  pub endpoint : String
  pub protocol : String
  pub family : String
  pub port : ℕ
  pub client_to_client : Bool

pub record IPv4View : Type 0 where
  pub network : String
  pub dynamic_pool_size : ℕ
  pub nat_enabled : Bool
  pub nat_interface : String
  pub redirect_gateway : Bool
  pub dns : List String
  pub routes : List String

pub record LoggingView : Type 0 where
  pub max_bytes : ℕ
  pub backups : ℕ

pub record View : Type 0 where
  pub version : ℕ
  pub server : ServerView
  pub ipv4 : IPv4View
  pub logging : LoggingView

pub record Texts : Type 0 where
  pub show_address : Address → String
  pub show_network : Network → String
  pub digest : View → Option String

abbrev pub protocol_text : Protocol → String
protocol_text Protocol.udp = "udp"
protocol_text Protocol.tcp = "tcp"

abbrev pub family_text : TransportFamily → String
family_text TransportFamily.auto = "auto"
family_text TransportFamily.ipv4 = "ipv4"
family_text TransportFamily.ipv6 = "ipv6"

unfoldable pub new_view : Texts → Config → View
new_view t c = record {
  version = 1;
  server = record {
    endpoint = c.endpoint;
    protocol = protocol_text c.protocol;
    family = family_text c.transport_family;
    port = c.port;
    client_to_client = c.client_to_client;
  };
  ipv4 = record {
    network = t.show_network c.ipv4.network;
    dynamic_pool_size = c.ipv4.dynamic_pool_size;
    nat_enabled = c.ipv4.nat_enabled;
    nat_interface = c.ipv4.nat_interface;
    redirect_gateway = c.ipv4.redirect_gateway;
    dns = map t.show_address c.ipv4.dns;
    routes = map t.show_network c.ipv4.routes;
  };
  logging = record { max_bytes = c.logging.max_bytes; backups = c.logging.backups };
}

pub record AppliedSnapshot : Type 0 where
  pub revision : ℕ
  pub digest : String
  pub config : Config

-- Digest
abbrev pub digest_of : Texts → Config → Result WorkflowError String
digest_of t c = elim (t.digest (new_view t c)) [ none ↦ err not_encoded | some d ↦ ok d ]

unfoldable pub new_applied_snapshot : Texts → ℕ → Config → Result WorkflowError AppliedSnapshot
new_applied_snapshot t revision value = do
  refuse_if (revision == 0) revision_not_positive
  digest ← digest_of t value
  ok (record { revision = revision; digest = digest; config = value })

unfoldable pub validate : Texts → AppliedSnapshot → Result WorkflowError (Unit {0})
validate t s = do
  refuse_if (s.revision == 0) revision_not_positive
  digest ← digest_of t s.config
  refuse_if (not (str_eq s.digest digest)) digest_mismatch

pub record AppliedView : Type 0 where
  pub revision : ℕ
  pub digest : String
  pub config : View

unfoldable pub show : Texts → AppliedSnapshot → Result WorkflowError AppliedView
unfolding validate
show t s =
    validate t s
    >> ok (record { revision = s.revision; digest = s.digest; config = new_view t s.config })

-- The fields that configFields lists, and their values.
pub data Field : Type 0 where
  endpoint protocol family port client_to_client network dynamic_pool_size nat_enabled : Field
  nat_interface redirect_gateway dns routes max_bytes backups : Field

pub data Value : Type 0 where
  text : String → Value
  number : ℕ → Value
  flag : Bool → Value
  texts : List String → Value

pub record Change : Type 0 where
  pub field : Field
  pub before : Option Value
  pub after : Value

pub record Impact : Type 0 where
  pub restart_required : Bool
  pub address_remap : Bool
  pub firewall_reconcile : Bool
  pub profile_redistribution : Bool
  pub derived_artifacts : List String

pub record Plan : Type 0 where
  pub initial : Bool
  pub current_revision : ℕ
  pub target_revision : ℕ
  pub current_digest : String
  pub desired_digest : String
  pub in_sync : Bool
  pub changes : List Change
  pub impact : Impact

-- The JSON name of a field.
abbrev pub field_name : Field → String
field_name Field.endpoint = "server.endpoint"
field_name Field.protocol = "server.transport.protocol"
field_name Field.family = "server.transport.family"
field_name Field.port = "server.transport.port"
field_name Field.client_to_client = "server.clientToClient"
field_name Field.network = "ipv4.network"
field_name Field.dynamic_pool_size = "ipv4.dynamicPoolSize"
field_name Field.nat_enabled = "ipv4.nat.enabled"
field_name Field.nat_interface = "ipv4.nat.interface"
field_name Field.redirect_gateway = "ipv4.redirectGateway"
field_name Field.dns = "ipv4.dns"
field_name Field.routes = "ipv4.routes"
field_name Field.max_bytes = "logging.maxBytes"
field_name Field.backups = "logging.backups"

pub record FieldValue : Type 0 where
  pub name : Field
  pub value : Value

abbrev field : Field → Value → FieldValue
field name value = record { name = name; value = value }

unfoldable pub config_fields : View → List FieldValue
config_fields v =
    field Field.endpoint (text v.server.endpoint)
    ∷ field Field.protocol (text v.server.protocol)
    ∷ field Field.family (text v.server.family)
    ∷ field Field.port (number v.server.port)
    ∷ field Field.client_to_client (flag v.server.client_to_client)
    ∷ field Field.network (text v.ipv4.network)
    ∷ field Field.dynamic_pool_size (number v.ipv4.dynamic_pool_size)
    ∷ field Field.nat_enabled (flag v.ipv4.nat_enabled)
    ∷ field Field.nat_interface (text v.ipv4.nat_interface)
    ∷ field Field.redirect_gateway (flag v.ipv4.redirect_gateway)
    ∷ field Field.dns (texts v.ipv4.dns)
    ∷ field Field.routes (texts v.ipv4.routes)
    ∷ field Field.max_bytes (number v.logging.max_bytes)
    ∷ field Field.backups (number v.logging.backups)
    ∷ []

abbrev pub texts_eq : List String → List String → Bool
texts_eq [] [] = true
texts_eq (s ∷ ss) (t ∷ ts) = str_eq s t && texts_eq ss ts
texts_eq _ _ = false

abbrev pub flag_eq : Bool → Bool → Bool
flag_eq true b = b
flag_eq false b = not b

-- reflect.DeepEqual on two values of one field.
abbrev pub value_eq : Value → Value → Bool
value_eq (text s) (text t) = str_eq s t
value_eq (number m) (number n) = m == n
value_eq (flag a) (flag b) = flag_eq a b
value_eq (texts ss) (texts ts) = texts_eq ss ts
value_eq _ _ = false

abbrev pub is_listed : List String → String → Bool
is_listed [] s = false
is_listed (t ∷ ts) s = str_eq t s || is_listed ts s

abbrev pub add_artifact : String → List String → List String
add_artifact s listed = if is_listed listed s then listed else listed ++ s ∷ []

abbrev with_artifact : String → Impact → Impact
with_artifact s i = record i { derived_artifacts = add_artifact s i.derived_artifacts }

abbrev redistribute : Impact → Impact
redistribute i = record i { profile_redistribution = true }

abbrev reconcile : Impact → Impact
reconcile i = record i { firewall_reconcile = true }

abbrev transport_impact : Impact → Impact
transport_impact i =
    with_artifact "client_profiles" (with_artifact "server_config" (redistribute i))

abbrev pool_impact : Impact → Impact
pool_impact i =
    with_artifact "ccd"
      (with_artifact "server_config" (record i { address_remap = true; firewall_reconcile = true }))

unfoldable pub apply_impact : Impact → Field → Impact
apply_impact i Field.endpoint = with_artifact "client_profiles" (redistribute i)
apply_impact i Field.protocol = transport_impact i
apply_impact i Field.family = transport_impact i
apply_impact i Field.port = transport_impact i
apply_impact i Field.network = pool_impact i
apply_impact i Field.dynamic_pool_size = pool_impact i
apply_impact i Field.nat_enabled = reconcile i
apply_impact i Field.nat_interface = reconcile i
apply_impact i Field.redirect_gateway = with_artifact "server_config" (reconcile i)
apply_impact i Field.routes = with_artifact "server_config" (reconcile i)
apply_impact i Field.client_to_client = with_artifact "server_config" i
apply_impact i Field.dns = with_artifact "server_config" i
apply_impact i Field.max_bytes = i
apply_impact i Field.backups = i

-- The value of `before[index]` and the values behind it; nothing is there without a snapshot.
abbrev pub previous : Option (List FieldValue) → Option Value
previous none = none
previous (some []) = none
previous (some (f ∷ fs)) = some f.value

abbrev pub later : Option (List FieldValue) → Option (List FieldValue)
later none = none
later (some []) = some []
later (some (f ∷ fs)) = some fs

abbrev pub is_changed : Option Value → Value → Bool
is_changed none v = true
is_changed (some w) v = not (value_eq w v)

abbrev pub note : Option Value → FieldValue → List Change × Impact → List Change × Impact
note old f (changes, impact) =
    if is_changed old f.value
    then (
      changes ++ record { field = f.name; before = old; after = f.value } ∷ [],
      apply_impact impact f.name,
    )
    else (changes, impact)

-- The loop of BuildPlan over the desired fields.
unfoldable pub compare_fields :
    Option (List FieldValue) → List FieldValue → List Change × Impact → List Change × Impact
compare_fields before [] noted = noted
compare_fields before (f ∷ fs) noted =
    compare_fields (later before) fs (note (previous before) f noted)

abbrev pub no_impact : Impact
no_impact = record {
  restart_required = false;
  address_remap = false;
  firewall_reconcile = false;
  profile_redistribution = false;
  derived_artifacts = [];
}

abbrev pub is_nil : List Change → Bool
is_nil [] = true
is_nil _ = false

-- The plan behind the loop, for the revisions and the digest of the snapshot, if there is one.
abbrev pub finish : Bool → ℕ → ℕ → String → String → List Change × Impact → Plan
finish initial current target current_digest desired_digest (changes, impact) = record {
  initial = initial;
  current_revision = current;
  target_revision = target;
  current_digest = current_digest;
  desired_digest = desired_digest;
  in_sync = is_nil changes;
  changes = changes;
  impact = if is_nil changes then impact else record impact { restart_required = true };
}

abbrev pub compared : Texts → AppliedSnapshot → Config → List Change × Impact
compared t s desired =
    compare_fields (some (config_fields (new_view t s.config))) (config_fields (new_view t desired))
      ([], no_impact)

abbrev pub against : String → AppliedSnapshot → List Change × Impact → Result WorkflowError Plan
against desired_digest s noted =
    if is_nil noted.0
    then ok (finish false s.revision s.revision s.digest desired_digest noted)
    else if s.revision == 2 ^ 64 - 1
    then err revision_overflow
    else ok (finish false s.revision (s.revision + 1) s.digest desired_digest noted)

unfoldable pub build_plan : Texts → Option AppliedSnapshot → Config → Result WorkflowError Plan
unfolding validate
build_plan t none desired = do
  desired_digest ← digest_of t desired
  ok (
      finish true 0 1 "" desired_digest
        (compare_fields none (config_fields (new_view t desired)) ([], no_impact)))
build_plan t (some s) desired = do
  desired_digest ← digest_of t desired
  validate t s
  against desired_digest s (compared t s desired)
