-- ===== src/Yaml/Servable.antt =====
-- What normalize promises of the configuration that it returns.
use openvpn_docker.Prelude.{
  ℕ, suc, ◌/◌, ◌≡◌, refl, inl, inr, String, true, false, not, Option, none, some, List, [], ◌∷◌,
  ◌==◌, Result, ok, err, All, refuse_if, arith, Bool-cases, >>=-eq-ok, refuse_if-ok, ok-injective,
}
use mathlib.Core.Path.{subst}
use openvpn_docker.Domain.{Network, Address, family, network_family}
use openvpn_docker.Domain.Config.{Config, IPv4Config}
use openvpn_docker.Ipam.{Layout, is_ipv4, client_capacity, new_ipv4_layout, IpamError}
use openvpn_docker.Yaml.{
  Library, YamlError, YamlConfig, normalize, normalize_server, normalize_ipv4, check_port,
  ipv4_network, pool_size, dns_from, dns_address, routes_from, route_network, check_max_bytes,
  or_default, bad_route, parse_network, checked_dns, or_refuse, normalize_endpoint, check_protocol,
  check_family, check_interface, default_max_bytes, YamlIPv4, bad_version, Server, bad_network,
  network_not_ipv4, network_refused, pool_refused,
}

abbrev pub IsIPv4Address : Address → Type 0
IsIPv4Address a = is_ipv4 (family a) ≡ true

abbrev pub IsIPv4Network : Network → Type 0
IsIPv4Network n = is_ipv4 (network_family n) ≡ true

-- The server has a port, an IPv4 network that Ipam can lay out with the dynamic pool, IPv4 addresses and
-- routes to push, and logs that can hold something.
pub record IsServable (c : Config) : Type 0 where
  pub port : c.port == 0 ≡ false
  pub network : IsIPv4Network c.ipv4.network
  pub layout : (l : Layout) × (new_ipv4_layout c.ipv4.network c.ipv4.dynamic_pool_size ≡ ok l)
  pub dns : All IsIPv4Address c.ipv4.dns
  pub routes : All IsIPv4Network c.ipv4.routes
  pub max_bytes : c.logging.max_bytes == 0 ≡ false

or_refuse-ok :
    {A : Type 0} (f : IpamError → YamlError) (r : Result IpamError A) (a : A)
    → or_refuse f r ≡ ok a
    → r ≡ ok a
or_refuse-ok f (ok b) a h = cc
or_refuse-ok f (err e) a h = absurd (cc)

check_port-ok : (raw : Option ℕ) (p : ℕ) → check_port raw ≡ ok p → p == 0 ≡ false
check_port-ok none p h = let same : 1194 ≡ p = ok-injective h in rw (← same) refl
check_port-ok (some q) p h = elim (Bool-cases (q == 0)) [
  | inl e ↦ absurd (cc (rw e at h))
  | inr e ↦ let same : q ≡ p = ok-injective (rw e at h) in rw (← same) e
]

check_max_bytes-ok : (raw : Option ℕ) (m : ℕ) → check_max_bytes raw ≡ ok m → m == 0 ≡ false
check_max_bytes-ok raw m h = elim (Bool-cases (or_default default_max_bytes raw == 0)) [
  | inl e ↦ absurd (cc (rw e at h))
  | inr e ↦
      let same : or_default default_max_bytes raw ≡ m = ok-injective (rw e at h) in rw (← same) e
]

checked_dns-ok :
    (e : YamlError) (r : Result YamlError Address) (a : Address)
    → checked_dns e r ≡ ok a
    → IsIPv4Address a
checked_dns-ok e (err x) a h = absurd (cc)
checked_dns-ok e (ok b) a h = elim (Bool-cases (not (is_ipv4 (family b)))) [
  | inl t ↦ absurd (cc (rw t at h))
  | inr t ↦ let same : b ≡ a = ok-injective (rw t at h) in rw (← same) (ground (arith, t))
]

dns_from-IsIPv4Address :
    (lib : Library) (i : ℕ) (ss : List String) (found : List Address)
    → dns_from lib i ss ≡ ok found
    → All IsIPv4Address found
unfolding dns_from dns_address
dns_from-IsIPv4Address lib i [] found h = let same : [] ≡ found = ok-injective h in rw (← same) tt
dns_from-IsIPv4Address lib i (s ∷ ss) found h =
    let (a, p, h1) = >>=-eq-ok (dns_address lib i s) _ h in
    let (rest, q, h2) = >>=-eq-ok (dns_from lib (suc i) ss) _ h1 in
    let same : a ∷ rest ≡ found = ok-injective h2 in
    rw (← same) (checked_dns-ok _ _ a p, dns_from-IsIPv4Address lib (suc i) ss rest q)

routes_from-IsIPv4Network :
    (lib : Library) (i : ℕ) (ss : List String) (found : List Network)
    → routes_from lib i ss ≡ ok found
    → All IsIPv4Network found
unfolding routes_from route_network
routes_from-IsIPv4Network lib i [] found h =
    let same : [] ≡ found = ok-injective h in rw (← same) tt
routes_from-IsIPv4Network lib i (s ∷ ss) found h =
    let (n, p, h1) = >>=-eq-ok (route_network lib i s) _ h in
    let (rest, q, h2) = >>=-eq-ok (routes_from lib (suc i) ss) _ h1 in
    let same : n ∷ rest ≡ found = ok-injective h2 in
    let (m, _, g1) = >>=-eq-ok (parse_network lib (bad_route i) s) _ p in
    let (_, g, g2) = >>=-eq-ok (refuse_if (not (is_ipv4 (network_family m))) (bad_route i)) _ g1 in
    let here : m ≡ n = ok-injective g2 in
    let four = refuse_if-ok _ _ g in
    rw (← same)
      (rw (← here) (ground (arith, four)), routes_from-IsIPv4Network lib (suc i) ss rest q)

checked_ipv4 :
    (lib : Library) (raw : YamlIPv4) (c : IPv4Config)
    → normalize_ipv4 lib raw ≡ ok c
    → IsIPv4Network c.network
      × (((l : Layout) × (new_ipv4_layout c.network c.dynamic_pool_size ≡ ok l))
          × (All IsIPv4Address c.dns × All IsIPv4Network c.routes))
unfolding normalize_ipv4 ipv4_network pool_size
checked_ipv4 lib raw c h =
    let (network, p1, h1) = >>=-eq-ok (ipv4_network lib raw.network) _ h in
    let (size, p2, h2) = >>=-eq-ok (pool_size network raw.dynamic_pool_size) _ h1 in
    let (interface, p3, h3) =
      >>=-eq-ok (check_interface (or_default "auto" raw.nat.interface)) _ h2 in
    let (dns, p4, h4) = >>=-eq-ok (dns_from lib 0 raw.dns) _ h3 in
    let (routes, p5, h5) = >>=-eq-ok (routes_from lib 0 raw.routes) _ h4 in
    let (n, _, g1) = >>=-eq-ok (parse_network lib bad_network raw.network) _ p1 in
    let (_, g, g2) =
      >>=-eq-ok (refuse_if (not (is_ipv4 (network_family n))) network_not_ipv4) _ g1 in
    let here : n ≡ network = ok-injective g2 in
    let four = refuse_if-ok _ _ g in
    let (capacity, _, k1) = >>=-eq-ok (or_refuse network_refused (client_capacity network)) _ p2 in
    let chosen = or_default (capacity / 2) raw.dynamic_pool_size in
    let (layout, k, k2) =
      >>=-eq-ok (or_refuse pool_refused (new_ipv4_layout network chosen)) _ k1 in
    let sized : chosen ≡ size = ok-injective k2 in
    subst
      (λ (x : IPv4Config).
        IsIPv4Network x.network
        × (((l : Layout) × (new_ipv4_layout x.network x.dynamic_pool_size ≡ ok l))
            × (All IsIPv4Address x.dns × All IsIPv4Network x.routes)))
      (ok-injective h5)
      (
        subst IsIPv4Network here (ground (arith, four)),
        (
          (
            layout,
            subst (λ y. new_ipv4_layout network y ≡ ok layout) sized
                (or_refuse-ok pool_refused _ layout k),
          ),
          (
            dns_from-IsIPv4Address lib 0 raw.dns dns p4,
            routes_from-IsIPv4Network lib 0 raw.routes routes p5,
          ),
        ),
      )

-- A configuration that normalize returns can be served, whatever the text functions of the library do:
-- its port is not zero, its network is IPv4 and has a layout with its dynamic pool, its DNS addresses
-- and its routes are IPv4, and its logs have a positive size.
pub normalize-IsServable :
    (lib : Library) (raw : YamlConfig) (c : Config) → normalize lib raw ≡ ok c → IsServable c
unfolding normalize normalize_server
normalize-IsServable lib raw c h =
    let (_, _, h1) = >>=-eq-ok (refuse_if (not (raw.version == 1)) bad_version) _ h in
    let (server, s0, h2) = >>=-eq-ok (normalize_server lib raw.server) _ h1 in
    let (ipv4, i0, h3) = >>=-eq-ok (normalize_ipv4 lib raw.ipv4) _ h2 in
    let (max_bytes, m0, h4) = >>=-eq-ok (check_max_bytes raw.logging.max_bytes) _ h3 in
    let (_, _, s1) = >>=-eq-ok (normalize_endpoint lib raw.server.endpoint) _ s0 in
    let (_, _, s2) =
      >>=-eq-ok (check_protocol (or_default "udp" raw.server.transport.protocol)) _ s1 in
    let (_, _, s3) =
      >>=-eq-ok (check_family (or_default "auto" raw.server.transport.family)) _ s2 in
    let (port, p, s4) = >>=-eq-ok (check_port raw.server.transport.port) _ s3 in
    subst IsServable (ok-injective h4) (record {
      port =
          subst (λ (x : Server). x.port == 0 ≡ false) (ok-injective s4)
            (check_port-ok raw.server.transport.port port p);
      network = (checked_ipv4 lib raw.ipv4 ipv4 i0).0;
      layout = (checked_ipv4 lib raw.ipv4 ipv4 i0).1.0;
      dns = (checked_ipv4 lib raw.ipv4 ipv4 i0).1.1.0;
      routes = (checked_ipv4 lib raw.ipv4 ipv4 i0).1.1.1;
      max_bytes = check_max_bytes-ok raw.logging.max_bytes max_bytes m0;
    })
