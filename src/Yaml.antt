-- ===== src/Yaml.antt =====
-- internal/config/yaml.go: normalize, which checks a decoded YAML document and fills in what it leaves
-- out, normalizeEndpoint and FromView.
pub mod Endpoint
pub mod Stable
pub mod Servable
mod Tests
use openvpn_docker.Prelude.{
  ℕ, suc, ◌*◌, ◌/◌, String, Bool, true, false, not, ◌&&◌, ◌||◌, Option, none, some, List, [], ◌∷◌,
  leb, ◌==◌, if◌then◌else◌, str_eq, length, Result, ok, err, ◌>>=◌, ◌>>◌, refuse_if,
}
use openvpn_docker.Domain.{
  Addr, Prefix, Address, Network, zone, family, network_family, new_address, new_network,
  DomainError,
}
use openvpn_docker.Domain.Config.{Config, Protocol, TransportFamily, IPv4Config}
use openvpn_docker.Domain.Ids.{codes, is_alnum, all_name_chars}
use openvpn_docker.Ipam.{IpamError, is_ipv4, client_capacity, new_ipv4_layout}
use openvpn_docker.Workflow.{View, Texts}

pub data YamlError : Type 0 where
  bad_version endpoint_missing endpoint_lines endpoint_zone bad_endpoint : YamlError
  bad_protocol bad_family bad_port bad_network network_not_ipv4 bad_interface bad_max_bytes :
      YamlError
  network_refused pool_refused : IpamError → YamlError
  bad_dns bad_route : ℕ → YamlError

-- Functions of Go's library: net/netip on text, strings.ToLower, and the digest of a view.
pub record Library : Type 0 where
  pub parse_addr : String → Option Addr
  pub show_addr : Addr → String
  pub parse_prefix : String → Option Prefix
  pub show_prefix : Prefix → String
  pub lower : String → String
  pub digest : View → Option String

abbrev pub texts_of : Library → Texts
texts_of lib = record {
  show_address = λ a. lib.show_addr a.value;
  show_network = λ n. lib.show_prefix n.value;
  digest = lib.digest;
}

-- yamlConfig and the types of its parts: a pointer is an Option.
pub record YamlTransport : Type 0 where
  pub protocol : Option String
  pub family : Option String
  pub port : Option ℕ  -- uint16

pub record YamlServer : Type 0 where
  pub endpoint : String
  pub transport : YamlTransport
  pub client_to_client : Option Bool

pub record YamlNat : Type 0 where
  pub enabled : Bool
  pub interface : Option String

pub record YamlIPv4 : Type 0 where
  pub network : String
  pub dynamic_pool_size : Option ℕ  -- uint64
  pub nat : YamlNat
  pub redirect_gateway : Bool
  pub dns : List String
  pub routes : List String

pub record YamlLogging : Type 0 where
  pub max_bytes : Option ℕ  -- uint64
  pub backups : Option ℕ  -- uint32

pub record YamlConfig : Type 0 where
  pub version : ℕ
  pub server : YamlServer
  pub ipv4 : YamlIPv4
  pub logging : YamlLogging

abbrev pub or_default {ℓ} : {A : Type ℓ} → A → Option A → A
or_default d none = d
or_default d (some a) = a

-- An alphanumeric character, and up to `most` of letters, digits, dots, underscores and dashes.
abbrev pub matches_pattern : ℕ → List ℕ → Bool
matches_pattern most [] = false
matches_pattern most (c ∷ cs) = is_alnum c && (all_name_chars cs && leb (length cs) most)

-- endpointPattern and interfacePattern
abbrev pub matches_endpoint : List ℕ → Bool
matches_endpoint cs = matches_pattern 252 cs

abbrev pub matches_interface : List ℕ → Bool
matches_interface cs = matches_pattern 14 cs

-- strings.ContainsAny(input, "\r\n")
unfoldable pub has_break : List ℕ → Bool
has_break [] = false
has_break (c ∷ cs) = (c == 10 || c == 13) || has_break cs

abbrev starts_dot : List ℕ → Bool
starts_dot [] = false
starts_dot (c ∷ cs) = c == b'.'

-- strings.Contains(input, "..")
unfoldable pub has_dots : List ℕ → Bool
has_dots [] = false
has_dots (c ∷ cs) = (c == b'.' && starts_dot cs) || has_dots cs

abbrev pub name_endpoint : Library → String → Result YamlError String
name_endpoint lib input =
    if not (matches_endpoint (codes input)) || has_dots (codes input)
    then err bad_endpoint
    else ok (lib.lower input)

abbrev pub address_endpoint : Library → Addr → Result YamlError String
address_endpoint lib a =
    if not (str_eq (zone a) "") then err endpoint_zone else ok (lib.show_addr a)

abbrev pub parsed_endpoint : Library → String → Option Addr → Result YamlError String
parsed_endpoint lib input none = name_endpoint lib input
parsed_endpoint lib input (some a) = address_endpoint lib a

-- normalizeEndpoint
unfoldable pub normalize_endpoint : Library → String → Result YamlError String
normalize_endpoint lib input = do
  refuse_if (str_eq input "") endpoint_missing
  refuse_if (has_break (codes input)) endpoint_lines
  parsed_endpoint lib input (lib.parse_addr input)

unfoldable pub check_protocol : String → Result YamlError Protocol
check_protocol s =
    if str_eq s "udp"
    then ok Protocol.udp
    else if str_eq s "tcp"
    then ok Protocol.tcp
    else err bad_protocol

unfoldable pub check_family : String → Result YamlError TransportFamily
check_family s =
    if str_eq s "auto"
    then ok TransportFamily.auto
    else if str_eq s "ipv4"
    then ok TransportFamily.ipv4
    else if str_eq s "ipv6"
    then ok TransportFamily.ipv6
    else err bad_family

abbrev pub default_port : ℕ
default_port = 1194

abbrev pub check_port : Option ℕ → Result YamlError ℕ
check_port none = ok default_port
check_port (some port) = if port == 0 then err bad_port else ok port

abbrev pub or_error : {A : Type 0} → YamlError → Result DomainError A → Result YamlError A
or_error e (ok a) = ok a
or_error e (err _) = err e

abbrev pub parsed_network : YamlError → Option Prefix → Result YamlError Network
parsed_network e none = err e
parsed_network e (some p) = or_error e (new_network p)

-- domain.ParseNetwork
abbrev pub parse_network : Library → YamlError → String → Result YamlError Network
parse_network lib e s = parsed_network e (lib.parse_prefix s)

unfoldable pub ipv4_network : Library → String → Result YamlError Network
ipv4_network lib s = do
  n ← parse_network lib bad_network s
  refuse_if (not (is_ipv4 (network_family n))) network_not_ipv4
  ok n

abbrev pub or_refuse {ℓ} :
    {A : Type ℓ} → (IpamError → YamlError) → Result IpamError A → Result YamlError A
or_refuse f (ok a) = ok a
or_refuse f (err e) = err (f e)

unfoldable pub pool_size : Network → Option ℕ → Result YamlError ℕ
pool_size n size = do
  capacity ← or_refuse network_refused (client_capacity n)
  layout ← or_refuse pool_refused (new_ipv4_layout n (or_default (capacity / 2) size))
  ok (or_default (capacity / 2) size)

unfoldable pub check_interface : String → Result YamlError String
check_interface s =
    if not (str_eq s "auto") && not (matches_interface (codes s)) then err bad_interface else ok s

abbrev pub checked_dns : YamlError → Result YamlError Address → Result YamlError Address
checked_dns e (err _) = err e
checked_dns e (ok a) = if not (is_ipv4 (family a)) then err e else ok a

abbrev pub parsed_address : YamlError → Option Addr → Result YamlError Address
parsed_address e none = err e
parsed_address e (some a) = or_error e (new_address a)

unfoldable pub dns_address : Library → ℕ → String → Result YamlError Address
dns_address lib i s = checked_dns (bad_dns i) (parsed_address (bad_dns i) (lib.parse_addr s))

unfoldable pub dns_from : Library → ℕ → List String → Result YamlError (List Address)
unfolding dns_address
dns_from lib i [] = ok []
dns_from lib i (s ∷ ss) = do
  a ← dns_address lib i s
  others ← dns_from lib (suc i) ss
  ok (a ∷ others)

unfoldable pub route_network : Library → ℕ → String → Result YamlError Network
route_network lib i s = do
  n ← parse_network lib (bad_route i) s
  refuse_if (not (is_ipv4 (network_family n))) (bad_route i)
  ok n

unfoldable pub routes_from : Library → ℕ → List String → Result YamlError (List Network)
unfolding route_network
routes_from lib i [] = ok []
routes_from lib i (s ∷ ss) = do
  n ← route_network lib i s
  others ← routes_from lib (suc i) ss
  ok (n ∷ others)

abbrev pub default_max_bytes : ℕ
default_max_bytes = 10 * 1024 * 1024

abbrev pub default_backups : ℕ
default_backups = 5

abbrev pub check_max_bytes : Option ℕ → Result YamlError ℕ
check_max_bytes raw =
    if or_default default_max_bytes raw == 0
    then err bad_max_bytes
    else ok (or_default default_max_bytes raw)

-- The checks of the server section, up to clientToClient.
pub record Server : Type 0 where
  pub endpoint : String
  pub protocol : Protocol
  pub transport_family : TransportFamily
  pub port : ℕ
  pub client_to_client : Bool

unfoldable pub normalize_server : Library → YamlServer → Result YamlError Server
unfolding normalize_endpoint check_protocol check_family
normalize_server lib raw = do
  endpoint ← normalize_endpoint lib raw.endpoint
  protocol ← check_protocol (or_default "udp" raw.transport.protocol)
  transport_family ← check_family (or_default "auto" raw.transport.family)
  port ← check_port raw.transport.port
  ok (record {
    endpoint = endpoint;
    protocol = protocol;
    transport_family = transport_family;
    port = port;
    client_to_client = or_default true raw.client_to_client;
  })

-- Those of the ipv4 section.
unfoldable pub normalize_ipv4 : Library → YamlIPv4 → Result YamlError IPv4Config
unfolding ipv4_network pool_size check_interface dns_from routes_from
normalize_ipv4 lib raw = do
  network ← ipv4_network lib raw.network
  size ← pool_size network raw.dynamic_pool_size
  interface ← check_interface (or_default "auto" raw.nat.interface)
  dns ← dns_from lib 0 raw.dns
  routes ← routes_from lib 0 raw.routes
  ok (record {
    network = network;
    dynamic_pool_size = size;
    nat_enabled = raw.nat.enabled;
    nat_interface = interface;
    redirect_gateway = raw.redirect_gateway;
    dns = dns;
    routes = routes;
  })

abbrev pub config_of : Server → IPv4Config → ℕ → ℕ → Config
config_of s ipv4 max_bytes backups = record {
  endpoint = s.endpoint;
  protocol = s.protocol;
  transport_family = s.transport_family;
  port = s.port;
  client_to_client = s.client_to_client;
  ipv4 = ipv4;
  logging = record { max_bytes = max_bytes; backups = backups };
}

unfoldable pub normalize : Library → YamlConfig → Result YamlError Config
unfolding normalize_server normalize_ipv4
normalize lib raw = do
  refuse_if (not (raw.version == 1)) bad_version
  server ← normalize_server lib raw.server
  ipv4 ← normalize_ipv4 lib raw.ipv4
  max_bytes ← check_max_bytes raw.logging.max_bytes
  ok (config_of server ipv4 max_bytes (or_default default_backups raw.logging.backups))

abbrev pub yaml_of : View → YamlConfig
yaml_of v = record {
  version = v.version;
  server = record {
    endpoint = v.server.endpoint;
    transport = record {
      protocol = some v.server.protocol;
      family = some v.server.family;
      port = some v.server.port;
    };
    client_to_client = some v.server.client_to_client;
  };
  ipv4 = record {
    network = v.ipv4.network;
    dynamic_pool_size = some v.ipv4.dynamic_pool_size;
    nat = record { enabled = v.ipv4.nat_enabled; interface = some v.ipv4.nat_interface };
    redirect_gateway = v.ipv4.redirect_gateway;
    dns = v.ipv4.dns;
    routes = v.ipv4.routes;
  };
  logging = record { max_bytes = some v.logging.max_bytes; backups = some v.logging.backups };
}

-- FromView
unfoldable pub from_view : Library → View → Result YamlError Config
unfolding normalize
from_view lib v = normalize lib (yaml_of v)
