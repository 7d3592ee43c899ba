-- ===== src/Domain/Config.antt =====
-- internal/domain/config.go and the client record of internal/domain/client.go.
use openvpn_docker.Prelude.{ℕ, String, Bool, true, false, List}
use openvpn_docker.Domain.{Address, Network}

pub data Protocol : Type 0 where
  udp tcp : Protocol

pub data TransportFamily : Type 0 where
  auto ipv4 ipv6 : TransportFamily

pub record IPv4Config : Type 0 where
  pub network : Network
  pub dynamic_pool_size : ℕ
  pub nat_enabled : Bool
  pub nat_interface : String
  pub redirect_gateway : Bool
  pub dns : List Address
  pub routes : List Network

pub record LoggingConfig : Type 0 where
  pub max_bytes : ℕ
  pub backups : ℕ

pub record Config : Type 0 where
  pub endpoint : String
  pub protocol : Protocol
  pub transport_family : TransportFamily
  pub port : ℕ
  pub client_to_client : Bool
  pub ipv4 : IPv4Config
  pub logging : LoggingConfig

pub data ClientStatus : Type 0 where
  active revoked deleted : ClientStatus

pub record Client : Type 0 where
  pub id : String
  pub name : String
  pub status : ClientStatus

abbrev pub is_active : ClientStatus → Bool
is_active active = true
is_active _ = false

abbrev pub is_revoked : ClientStatus → Bool
is_revoked revoked = true
is_revoked _ = false
