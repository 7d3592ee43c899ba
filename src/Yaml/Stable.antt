-- ===== src/Yaml/Stable.antt =====
-- FromView gives back the configuration that normalize has made.
use openvpn_docker.Domain.Networks.{new_network_stable, new_address_stable}
use openvpn_docker.Domain.Ids.{codes}
use openvpn_docker.Prelude.{
  ℕ, suc, ◌/◌, ◌≡◌, refl, inl, inr, String, true, not, ◌&&◌, Option, none, some, List, [], ◌∷◌, map,
  ◌==◌, str_eq, ok, refuse_if, arith, Bool-cases, Option-cases, Result-cases, >>=-eq-ok,
  refuse_if-ok, ok-injective, >>=-ok,
}
use mathlib.Core.Path.{subst}
use openvpn_docker.Domain.{
  Addr, Prefix, Network, Address, new_network, new_address, family, network_family,
}
use openvpn_docker.Domain.Config.{Config, Protocol, TransportFamily, IPv4Config}
use openvpn_docker.Ipam.{is_ipv4, client_capacity, new_ipv4_layout}
use openvpn_docker.Workflow.{new_view, protocol_text, family_text}
use openvpn_docker.Yaml.{
  Library, YamlError, YamlConfig, texts_of, normalize, from_view, yaml_of, normalize_endpoint,
  check_protocol, check_family, check_port, ipv4_network, pool_size, check_interface, dns_from,
  dns_address, routes_from, route_network, check_max_bytes, or_default, bad_dns, bad_route,
  parsed_network, parse_network, parsed_address, checked_dns, or_refuse, matches_interface,
  default_max_bytes, network_refused, pool_refused, codes, bad_network, network_not_ipv4,
  bad_version, normalize_server, Server, normalize_ipv4, YamlServer, YamlIPv4,
}
use openvpn_docker.Yaml.Endpoint.{Documented, normalize_endpoint_stable}

check_protocol_stable :
    (s : String) (p : Protocol) → check_protocol s ≡ ok p → check_protocol (protocol_text p) ≡ ok p
unfolding check_protocol
check_protocol_stable s Protocol.udp h = refl
check_protocol_stable s Protocol.tcp h = refl

check_family_stable :
    (s : String) (f : TransportFamily) → check_family s ≡ ok f → check_family (family_text f) ≡ ok f
unfolding check_family
check_family_stable s TransportFamily.auto h = refl
check_family_stable s TransportFamily.ipv4 h = refl
check_family_stable s TransportFamily.ipv6 h = refl

check_port_stable : (raw : Option ℕ) (p : ℕ) → check_port raw ≡ ok p → check_port (some p) ≡ ok p
check_port_stable none p h = ground (arith, h)
check_port_stable (some q) p h = elim (Bool-cases (q == 0)) [
  | inl e ↦ absurd (cc (rw e at h))
  | inr e ↦ let same : q ≡ p = ok-injective (rw e at h) in rw (← same) (rw e refl)
]

check_max_bytes_stable :
    (raw : Option ℕ) (m : ℕ) → check_max_bytes raw ≡ ok m → check_max_bytes (some m) ≡ ok m
check_max_bytes_stable raw m h = elim (Bool-cases (or_default default_max_bytes raw == 0)) [
  | inl e ↦ absurd (cc (rw e at h))
  | inr e ↦
      let same : or_default default_max_bytes raw ≡ m = ok-injective (rw e at h) in
      rw (← same) (rw e refl)
]

check_interface_stable : (s t : String) → check_interface s ≡ ok t → check_interface t ≡ ok t
unfolding check_interface
check_interface_stable s t h =
    elim (Bool-cases (not (str_eq s "auto") && not (matches_interface (codes s)))) [
      | inl e ↦ absurd (cc (rw e at h))
      | inr e ↦ let same : s ≡ t = ok-injective (rw e at h) in rw (← same) (rw e refl)
    ]

pool_size_stable :
    (n : Network) (raw : Option ℕ) (size : ℕ)
    → pool_size n raw ≡ ok size
    → pool_size n (some size) ≡ ok size
unfolding pool_size
pool_size_stable n raw size h =
    let (capacity, p, h1) = >>=-eq-ok (or_refuse network_refused (client_capacity n)) _ h in
    let (layout, q, h2) =
      >>=-eq-ok (or_refuse pool_refused (new_ipv4_layout n (or_default (capacity / 2) raw))) _ h1 in
    let same : or_default (capacity / 2) raw ≡ size = ok-injective h2 in
    rw p (rw (← same) (rw q refl))

module _ (lib : Library) (doc : Documented lib) where
  parse_network_stable :
      (e e' : YamlError) (s : String) (n : Network)
      → parse_network lib e s ≡ ok n
      → parse_network lib e' (lib.show_prefix n.value) ≡ ok n
  parse_network_stable e e' s n h = elim (Option-cases (lib.parse_prefix s)) [
    | inl absent ↦ absurd (cc (rw absent at h))
    | inr (p, parsed) ↦ from_prefix p parsed (rw parsed at h)
  ]
    where
      from_prefix :
          (p : Prefix)
          → lib.parse_prefix s ≡ some p
          → parsed_network e (some p) ≡ ok n
          → parse_network lib e' (lib.show_prefix n.value) ≡ ok n
      from_prefix p parsed g = elim (Result-cases (new_network p)) [
        | inr (x, refused) ↦ absurd (cc (rw refused at g))
        | inl (m, made) ↦
            let same : m ≡ n = ok-injective (rw made at g) in
            let made' : new_network p ≡ ok n = rw (← same) made in
            rw (doc.network_text s p n parsed made', new_network_stable p n made') refl
      ]

  ipv4_network_stable :
      (s : String) (n : Network)
      → ipv4_network lib s ≡ ok n
      → ipv4_network lib (lib.show_prefix n.value) ≡ ok n
  unfolding ipv4_network
  ipv4_network_stable s n h =
      let (m, p, h1) = >>=-eq-ok (parse_network lib bad_network s) _ h in
      let (u, q, h2) =
        >>=-eq-ok (refuse_if (not (is_ipv4 (network_family m))) network_not_ipv4) _ h1 in
      let same : m ≡ n = ok-injective h2 in
      rw (parse_network_stable bad_network bad_network s n (rw (← same) p))
        (rw (← same) (rw q refl))

  route_network_stable :
      (i j : ℕ) (s : String) (n : Network)
      → route_network lib i s ≡ ok n
      → route_network lib j (lib.show_prefix n.value) ≡ ok n
  unfolding route_network
  route_network_stable i j s n h =
      let (m, p, h1) = >>=-eq-ok (parse_network lib (bad_route i) s) _ h in
      let (u, q, h2) =
        >>=-eq-ok (refuse_if (not (is_ipv4 (network_family m))) (bad_route i)) _ h1 in
      let same : m ≡ n = ok-injective h2 in
      rw (parse_network_stable (bad_route i) (bad_route j) s n (rw (← same) p))
        (rw (← same) (rw (refuse_if-ok _ _ q) refl))

  routes_from_stable :
      (i j : ℕ) (ss : List String) (ns : List Network)
      → routes_from lib i ss ≡ ok ns
      → routes_from lib j (map (texts_of lib).show_network ns) ≡ ok ns
  unfolding routes_from
  routes_from_stable i j [] ns h = let same : [] ≡ ns = ok-injective h in rw (← same) refl
  routes_from_stable i j (s ∷ ss) ns h =
      let (n, p, h1) = >>=-eq-ok (route_network lib i s) _ h in
      let (rest, q, h2) = >>=-eq-ok (routes_from lib (suc i) ss) _ h1 in
      let same : n ∷ rest ≡ ns = ok-injective h2 in
      rw (← same)
        (rw (route_network_stable i j s n p, routes_from_stable (suc i) (suc j) ss rest q) refl)

  dns_address_stable :
      (i j : ℕ) (s : String) (a : Address)
      → dns_address lib i s ≡ ok a
      → dns_address lib j (lib.show_addr a.value) ≡ ok a
  unfolding dns_address
  dns_address_stable i j s a h = elim (Option-cases (lib.parse_addr s)) [
    | inl absent ↦ absurd (cc (rw absent at h))
    | inr (x, parsed) ↦ from_addr x parsed (rw parsed at h)
  ]
    where
      again :
          (x : Addr)
          → lib.parse_addr s ≡ some x
          → new_address x ≡ ok a
          → is_ipv4 (family a) ≡ true
          → dns_address lib j (lib.show_addr a.value) ≡ ok a
      again x parsed made four =
          let (plain, same, made') = new_address_stable x a made in
          let t : lib.parse_addr (lib.show_addr a.value) ≡ some a.value =
            rw (← same) (doc.unmapped_text s x parsed plain) in
          rw (t, made', four) refl

      from_addr :
          (x : Addr)
          → lib.parse_addr s ≡ some x
          → checked_dns (bad_dns i) (parsed_address (bad_dns i) (some x)) ≡ ok a
          → dns_address lib j (lib.show_addr a.value) ≡ ok a
      from_addr x parsed g = elim (Result-cases (new_address x)) [
        | inr (e, refused) ↦ absurd (cc (rw refused at g))
        | inl (b, made) ↦ elim (Bool-cases (not (is_ipv4 (family b)))) [
          | inl other ↦ absurd (cc (rw (made, other) at g))
          | inr four ↦
              let same : b ≡ a = ok-injective (rw (made, four) at g) in
              again x parsed (rw (← same) made) (rw (← same) (ground (arith, four)))
        ]
      ]

  dns_from_stable :
      (i j : ℕ) (ss : List String) (found : List Address)
      → dns_from lib i ss ≡ ok found
      → dns_from lib j (map (texts_of lib).show_address found) ≡ ok found
  unfolding dns_from
  dns_from_stable i j [] found h = let same : [] ≡ found = ok-injective h in rw (← same) refl
  dns_from_stable i j (s ∷ ss) found h =
      let (a, p, h1) = >>=-eq-ok (dns_address lib i s) _ h in
      let (rest, q, h2) = >>=-eq-ok (dns_from lib (suc i) ss) _ h1 in
      let same : a ∷ rest ≡ found = ok-injective h2 in
      rw (← same)
        (rw (dns_address_stable i j s a p, dns_from_stable (suc i) (suc j) ss rest q) refl)

  -- The server section that FromView makes of a configuration.
  abbrev server_of : Server → YamlServer
  server_of s = record {
    endpoint = s.endpoint;
    transport = record {
      protocol = some (protocol_text s.protocol);
      family = some (family_text s.transport_family);
      port = some s.port;
    };
    client_to_client = some s.client_to_client;
  }

  normalize_server_stable :
      (raw : YamlServer) (s : Server)
      → normalize_server lib raw ≡ ok s
      → normalize_server lib (server_of s) ≡ ok s
  unfolding normalize_server
  normalize_server_stable raw s h =
      let (endpoint, p1, h1) = >>=-eq-ok (normalize_endpoint lib raw.endpoint) _ h in
      let (protocol, p2, h2) =
        >>=-eq-ok (check_protocol (or_default "udp" raw.transport.protocol)) _ h1 in
      let (family, p3, h3) =
        >>=-eq-ok (check_family (or_default "auto" raw.transport.family)) _ h2 in
      let (port, p4, h4) = >>=-eq-ok (check_port raw.transport.port) _ h3 in
      subst (λ x. normalize_server lib (server_of x) ≡ ok x) (ok-injective h4)
        (>>=-ok (normalize_endpoint lib endpoint) _
          (normalize_endpoint_stable lib doc raw.endpoint endpoint p1)
          (>>=-ok (check_protocol (protocol_text protocol)) _
            (check_protocol_stable (or_default "udp" raw.transport.protocol) protocol p2)
            (>>=-ok (check_family (family_text family)) _
              (check_family_stable (or_default "auto" raw.transport.family) family p3)
              (>>=-ok (check_port (some port)) _ (check_port_stable raw.transport.port port p4)
                refl))))

  abbrev ipv4_of : IPv4Config → YamlIPv4
  ipv4_of c = record {
    network = lib.show_prefix c.network.value;
    dynamic_pool_size = some c.dynamic_pool_size;
    nat = record { enabled = c.nat_enabled; interface = some c.nat_interface };
    redirect_gateway = c.redirect_gateway;
    dns = map (texts_of lib).show_address c.dns;
    routes = map (texts_of lib).show_network c.routes;
  }

  normalize_ipv4_stable :
      (raw : YamlIPv4) (c : IPv4Config)
      → normalize_ipv4 lib raw ≡ ok c
      → normalize_ipv4 lib (ipv4_of c) ≡ ok c
  unfolding normalize_ipv4
  normalize_ipv4_stable raw c h =
      let (network, p1, h1) = >>=-eq-ok (ipv4_network lib raw.network) _ h in
      let (size, p2, h2) = >>=-eq-ok (pool_size network raw.dynamic_pool_size) _ h1 in
      let (interface, p3, h3) =
        >>=-eq-ok (check_interface (or_default "auto" raw.nat.interface)) _ h2 in
      let (dns, p4, h4) = >>=-eq-ok (dns_from lib 0 raw.dns) _ h3 in
      let (routes, p5, h5) = >>=-eq-ok (routes_from lib 0 raw.routes) _ h4 in
      subst (λ x. normalize_ipv4 lib (ipv4_of x) ≡ ok x) (ok-injective h5)
        (>>=-ok (ipv4_network lib (lib.show_prefix network.value)) _
          (ipv4_network_stable raw.network network p1)
          (>>=-ok (pool_size network (some size)) _
            (pool_size_stable network raw.dynamic_pool_size size p2)
            (>>=-ok (check_interface interface) _
              (check_interface_stable (or_default "auto" raw.nat.interface) interface p3)
              (>>=-ok (dns_from lib 0 (map (texts_of lib).show_address dns)) _
                (dns_from_stable 0 0 raw.dns dns p4)
                (>>=-ok (routes_from lib 0 (map (texts_of lib).show_network routes)) _
                  (routes_from_stable 0 0 raw.routes routes p5) refl)))))

  -- A configuration that normalize makes of a YAML document is stable: NewView writes it in the form of
  -- the applied configuration, and FromView reads it back as the same configuration. The text
  -- functions of net/netip and strings.ToLower are assumed to do what they document.
  pub from_view-new_view :
      (raw : YamlConfig) (c : Config)
      → normalize lib raw ≡ ok c
      → from_view lib (new_view (texts_of lib) c) ≡ ok c
  unfolding from_view normalize new_view
  from_view-new_view raw c h =
      let (_, _, h1) = >>=-eq-ok (refuse_if (not (raw.version == 1)) bad_version) _ h in
      let (server, p2, h2) = >>=-eq-ok (normalize_server lib raw.server) _ h1 in
      let (ipv4, p3, h3) = >>=-eq-ok (normalize_ipv4 lib raw.ipv4) _ h2 in
      let (max_bytes, p4, h4) = >>=-eq-ok (check_max_bytes raw.logging.max_bytes) _ h3 in
      subst (λ x. normalize lib (yaml_of (new_view (texts_of lib) x)) ≡ ok x) (ok-injective h4)
        (>>=-ok (normalize_server lib (server_of server)) _
          (normalize_server_stable raw.server server p2)
          (>>=-ok (normalize_ipv4 lib (ipv4_of ipv4)) _ (normalize_ipv4_stable raw.ipv4 ipv4 p3) (
            >>=-ok (check_max_bytes (some max_bytes)) _
              (check_max_bytes_stable raw.logging.max_bytes max_bytes p4) refl)))
