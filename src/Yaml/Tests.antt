-- ===== src/Yaml/Tests.antt =====
-- A small document, and a library that knows one address and one network.
use mathlib.Core.Path.{subst}
use openvpn_docker.Prelude.{
  ◌≡◌, refl, inl, inr, String, true, false, Option, none, some, [], ◌∷◌, if◌then◌else◌, str_eq, ok,
  Bool-cases, sym, ap, ok-injective,
}
use openvpn_docker.Domain.{new_address, Addr, Prefix, Network, v4, prefix, new_network, unmap}
use openvpn_docker.Domain.Ids.{all_name_chars}
use openvpn_docker.Ipam.{client_capacity, new_ipv4_layout}
use openvpn_docker.Domain.Config.{Config, Protocol, TransportFamily}
use openvpn_docker.Workflow.{new_view}
use openvpn_docker.Yaml.{
  Library, YamlConfig, texts_of, normalize, from_view, normalize_server, normalize_ipv4,
  normalize_endpoint, check_protocol, check_family, ipv4_network, pool_size, check_interface,
  dns_from, dns_address, routes_from, route_network, has_break, has_dots,
}
use openvpn_docker.Yaml.Endpoint.{Documented}
use openvpn_docker.Yaml.Servable.{IsServable, normalize-IsServable}
use openvpn_docker.Yaml.Stable.{from_view-new_view}

abbrev parse_addr : String → Option Addr
parse_addr s = if str_eq s "10.0.0.53" then some (v4 167772213) else none

abbrev parse_prefix : String → Option Prefix
parse_prefix s = if str_eq s "10.8.0.0/24" then some (prefix (v4 168296448) 24) else none

abbrev library : Library
library = record {
  parse_addr = parse_addr;
  show_addr = λ a. "10.0.0.53";
  parse_prefix = parse_prefix;
  show_prefix = λ p. "10.8.0.0/24";
  lower = λ s. s;
  digest = λ v. none;
}

parse_addr-only : (s : String) (a : Addr) → parse_addr s ≡ some a → v4 167772213 ≡ a
parse_addr-only s a h = elim (Bool-cases (str_eq s "10.0.0.53")) [
  | inl e ↦ cc (rw e at h)
  | inr e ↦ absurd (cc (rw e at h))
]

parse_prefix-only :
    (s : String) (p : Prefix) → parse_prefix s ≡ some p → prefix (v4 168296448) 24 ≡ p
parse_prefix-only s p h = elim (Bool-cases (str_eq s "10.8.0.0/24")) [
  | inl e ↦ cc (rw e at h)
  | inr e ↦ absurd (cc (rw e at h))
]

the_network :
    (s : String) (p : Prefix) (n : Network)
    → parse_prefix s ≡ some p
    → new_network p ≡ ok n
    → some (prefix (v4 168296448) 24) ≡ some n.value
unfolding new_network unmap
the_network s p n h made =
    let same = parse_prefix-only s p h in
    let k : new_network (prefix (v4 168296448) 24) ≡ ok n =
      subst (λ x. new_network x ≡ ok n) (sym same) made in
    ap (λ (m : Network). some m.value) (ok-injective k)

library-Documented : Documented library
unfolding unmap has_break
library-Documented = record {
  no_address = refl;
  address_text = λ s a h _. ap (λ x. some x) (parse_addr-only s a h);
  unmapped_text = λ s a h _. ap (λ x. some (unmap x)) (parse_addr-only s a h);
  address_line = λ s a h _. refl;
  network_text = the_network;
  lower_text = λ s h. refl;
  lower_twice = λ s. refl;
  lower_address = λ s h. h;
}

abbrev document : YamlConfig
document = record {
  version = 1;
  server = record {
    endpoint = "vpn.example.org";
    transport = record { protocol = none; family = some "ipv4"; port = none };
    client_to_client = none;
  };
  ipv4 = record {
    network = "10.8.0.0/24";
    dynamic_pool_size = none;
    nat = record { enabled = true; interface = none };
    redirect_gateway = false;
    dns = "10.0.0.53" ∷ [];
    routes = "10.8.0.0/24" ∷ [];
  };
  logging = record { max_bytes = none; backups = some 3 };
}

abbrev config : Config
config = record {
  endpoint = "vpn.example.org";
  protocol = Protocol.udp;
  transport_family = TransportFamily.ipv4;
  port = 1194;
  client_to_client = true;
  ipv4 = record {
    network = record { value = prefix (v4 168296448) 24 };
    dynamic_pool_size = 126;
    nat_enabled = true;
    nat_interface = "auto";
    redirect_gateway = false;
    dns = record { value = v4 167772213 } ∷ [];
    routes = record { value = prefix (v4 168296448) 24 } ∷ [];
  };
  logging = record { max_bytes = 10485760; backups = 3 };
}

normalize-document : normalize library document ≡ ok config
unfolding normalize normalize_server normalize_ipv4 normalize_endpoint check_protocol check_family
    ipv4_network pool_size check_interface dns_from dns_address routes_from route_network has_break
    has_dots new_network unmap new_ipv4_layout all_name_chars client_capacity new_address
normalize-document = refl

from_view-new_view_example : from_view library (new_view (texts_of library) config) ≡ ok config
from_view-new_view_example =
    from_view-new_view library library-Documented document config normalize-document

normalize-IsServable_example : IsServable config
normalize-IsServable_example = normalize-IsServable library document config normalize-document
