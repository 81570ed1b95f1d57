-- ===== src/Domain/Outbound.antt =====
-- outbound.go: outbounds, their adapters, probes and required secrets. A latency is a signed number of
-- nanoseconds: its sign and its magnitude.
pub mod Valid
use egress_manager.Base.{
  ℕ, Bool, true, false, ◌&&◌, ◌||◌, not, Option, none, some, List, [], ◌∷◌, ltb, ◌==◌,
  if◌then◌else◌, Bytes, lit, bytes_eq, any, length,
}
use egress_manager.Inventory.{AddrText}
use egress_manager.Domain.Issue.{
  Issue, issue_if, join_errors, bad_adapter, bad_outbound_type, bad_probe_status, bad_external_ip,
  bad_outbound_latency, long_outbound_detail, too_many_secrets, duplicate_secret, missing_secret,
  no_capability, incompatible_adapter,
}
use egress_manager.Domain.Identifier.{validate_id, validate_display_name, validate_config_name}
use egress_manager.Domain.Health.{HealthStatus, unknown, validate_status}
use egress_manager.Domain.Endpoint.{Endpoint, validate_endpoint}

-- The enumerations are strings; each has a constructor for the values that are no constant.
pub data OutboundType : Type 0 where
  vless trojan shadowsocks vmess hysteria2 tuic socks5 wireguard openvpn : OutboundType
  other_outbound : Bytes → OutboundType

pub data OutboundAdapter : Type 0 where
  adapter_sing_box adapter_interface adapter_xray : OutboundAdapter
  other_adapter : Bytes → OutboundAdapter

pub data ProbeStatus : Type 0 where
  probe_unknown probe_passed probe_failed probe_unsupported probe_untestable : ProbeStatus
  other_probe : Bytes → ProbeStatus

abbrev pub validate_adapter : OutboundAdapter → List Issue
validate_adapter (other_adapter s) = bad_adapter ∷ []
validate_adapter _ = []

abbrev pub validate_type : OutboundType → List Issue
validate_type (other_outbound s) = bad_outbound_type ∷ []
validate_type _ = []

abbrev pub validate_probe : ProbeStatus → List Issue
validate_probe (other_probe s) = bad_probe_status ∷ []
validate_probe _ = []

pub record Capabilities : Type 0 where
  pub tcp : Bool
  pub udp : Bool

-- A time is a number.
pub record OutboundHealth : Type 0 where
  pub status : HealthStatus
  pub checked_at : Option ℕ
  pub configuration_valid : ProbeStatus
  pub transport_reachable : ProbeStatus
  pub internet_reachable : ProbeStatus
  pub external_ip : Bytes
  pub tcp : ProbeStatus
  pub udp : ProbeStatus
  pub latency_negative : Bool
  pub latency : ℕ
  pub detail : Bytes

unfoldable pub unknown_outbound_health : OutboundHealth
unknown_outbound_health = record {
  status = unknown;
  checked_at = none;
  configuration_valid = probe_unknown;
  transport_reachable = probe_unknown;
  internet_reachable = probe_unknown;
  external_ip = [];
  tcp = probe_unknown;
  udp = probe_unknown;
  latency_negative = false;
  latency = 0;
  detail = [];
}

-- `24 * time.Hour` in nanoseconds
abbrev pub maximum_latency : ℕ
maximum_latency = 86400000000000

pub record Outbound : Type 0 where
  pub id : Bytes
  pub name : Bytes
  pub adapter : OutboundAdapter
  pub type : OutboundType
  pub server : Endpoint
  pub capabilities : Capabilities
  pub health : OutboundHealth
  pub enabled : Bool
  pub secret_metadata : List Bytes

unfoldable pub required_secrets : OutboundType → List Bytes
required_secrets vless = lit "uuid" ∷ []
required_secrets vmess = lit "uuid" ∷ []
required_secrets trojan = lit "password" ∷ []
required_secrets shadowsocks = lit "password" ∷ []
required_secrets hysteria2 = lit "password" ∷ []
required_secrets tuic = lit "uuid" ∷ lit "password" ∷ []
required_secrets wireguard = lit "private_key" ∷ []
required_secrets openvpn = lit "profile" ∷ []
required_secrets _ = []

-- The loop over the keys; the first argument holds those seen.
unfoldable pub validate_secrets : List Bytes → List Bytes → List Issue
validate_secrets seen [] = []
validate_secrets seen (key ∷ keys) = join_errors (
    validate_config_name key
    ∷ issue_if (any (bytes_eq key) seen) duplicate_secret
    ∷ validate_secrets (key ∷ seen) keys
    ∷ [])

-- The loop over the required keys.
unfoldable pub missing_secrets : List Bytes → List Bytes → List Issue
missing_secrets present [] = []
missing_secrets present (key ∷ keys) =
    join_errors (
      issue_if (not (any (bytes_eq key) present)) missing_secret
      ∷ missing_secrets present keys
      ∷ [])

-- `adapterTypeError`
unfoldable pub adapter_supports : OutboundAdapter → OutboundType → Bool
adapter_supports adapter_sing_box openvpn = false
adapter_supports adapter_sing_box _ = true
adapter_supports adapter_interface wireguard = true
adapter_supports adapter_interface openvpn = true
adapter_supports adapter_interface _ = false
adapter_supports adapter_xray vless = true
adapter_supports adapter_xray _ = false
adapter_supports (other_adapter s) _ = true

module _ (text : AddrText) where
  abbrev external_ip_is_canonical : Bytes → Bool
  external_ip_is_canonical ip =
      length ip == 0
      || elim (text.parse_addr ip) [ none ↦ false | some a ↦ bytes_eq (text.addr_string a) ip ]

  unfoldable pub validate_outbound_health : OutboundHealth → List Issue
  validate_outbound_health health =
      if health.latency_negative || ltb maximum_latency health.latency
      then bad_outbound_latency ∷ []
      else if ltb 256 (length health.detail)
      then long_outbound_detail ∷ []
      else join_errors (
          validate_status health.status
          ∷ validate_probe health.configuration_valid
          ∷ validate_probe health.transport_reachable
          ∷ validate_probe health.internet_reachable
          ∷ validate_probe health.tcp
          ∷ validate_probe health.udp
          ∷ issue_if (not (external_ip_is_canonical health.external_ip)) bad_external_ip
          ∷ [])

  unfoldable pub validate_outbound : Outbound → List Issue
  validate_outbound outbound = join_errors (
      validate_id outbound.id
      ∷ validate_display_name outbound.name
      ∷ validate_adapter outbound.adapter
      ∷ validate_type outbound.type
      ∷ validate_endpoint text outbound.server
      ∷ validate_outbound_health outbound.health
      ∷ issue_if (not outbound.capabilities.tcp && not outbound.capabilities.udp) no_capability
      ∷ issue_if (not (adapter_supports outbound.adapter outbound.type)) incompatible_adapter
      ∷ issue_if (ltb 32 (length outbound.secret_metadata)) too_many_secrets
      ∷ validate_secrets [] outbound.secret_metadata
      ∷ missing_secrets outbound.secret_metadata (required_secrets outbound.type)
      ∷ [])
