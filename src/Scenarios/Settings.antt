-- ===== src/Scenarios/Settings.antt =====
-- Settings of the domain at concrete values.
use egress_manager.Domain.Identifier.{matches_config_name}
use egress_manager.Domain.Outbound.{missing_secrets, required_secrets}
use egress_manager.Domain.Identifier.{
  is_trimmed, matches_id, matches_linux_name, validate_config_name, validate_display_name,
  validate_id, validate_linux_name,
}
use egress_manager.Domain.Route.{
  dns_servers_error, fallback_error, kill_switch_error, mss_error, mtu_error, validate_source,
}
use egress_manager.Domain.Endpoint.{fold_letters, is_label, matches_hostname, validate_endpoint}
use egress_manager.Base.{split_on}
use egress_manager.Domain.Relay.{validate_relay_sources}
use egress_manager.Domain.Outbound.{adapter_supports, validate_outbound_health, validate_secrets}
use egress_manager.Domain.Health.{validate_status}
use egress_manager.Base.{◌≡◌, refl, true, [], ◌∷◌, lit}
use egress_manager.Net.{prefix4, no_prefix}
use egress_manager.Domain.Issue.{join_errors}
use egress_manager.Domain.Route.{
  Route, source_interface, failure_block, dns_system, ipv4_follow_outbound, ipv6_block,
  validate_route,
}
use egress_manager.Domain.Route.Valid as RouteValid
use egress_manager.Domain.Outbound.{
  Outbound, adapter_interface, wireguard, unknown_outbound_health, validate_outbound,
}
use egress_manager.Domain.Outbound.Valid as OutboundValid
use egress_manager.Domain.Relay.{Relay, relay_tcp, validate_relay}
use egress_manager.Scenarios.Planning.{text}

abbrev route : Route
route = record {
  id = lit "r1";
  name = lit "office";
  source = record {
    kind = source_interface;
    interface_name = lit "wg0";
    subnet = no_prefix;
    listener = 0;
    xray_tag = [];
  };
  outbound_id = lit "o1";
  fallback_outbound_id = [];
  failure_policy = failure_block;
  dns_policy = dns_system;
  dns_servers = [];
  ipv4_policy = ipv4_follow_outbound;
  ipv6_policy = ipv6_block;
  kill_switch = true;
  mtu = 1420;
  tcp_mss = 1380;
  enabled = true;
}

route_valid : validate_route route ≡ []
unfolding validate_route join_errors validate_id matches_id validate_display_name is_trimmed
    validate_source validate_linux_name matches_linux_name fallback_error dns_servers_error
    mtu_error mss_error kill_switch_error
route_valid = refl

validate_route-IsValid_example : RouteValid.IsValid route
validate_route-IsValid_example = RouteValid.validate_route-IsValid route route_valid

abbrev outbound : Outbound
outbound = record {
  id = lit "o1";
  name = lit "exit";
  adapter = adapter_interface;
  type = wireguard;
  server = record { host = lit "vpn.example.org"; port = 51820 };
  capabilities = record { tcp = true; udp = true };
  health = unknown_outbound_health;
  enabled = true;
  secret_metadata = lit "private_key" ∷ [];
}

outbound_valid : validate_outbound text outbound ≡ []
unfolding validate_outbound text join_errors validate_id matches_id validate_display_name is_trimmed
    validate_endpoint matches_hostname split_on fold_letters is_label validate_outbound_health
    unknown_outbound_health validate_status adapter_supports validate_secrets validate_config_name
    matches_config_name missing_secrets required_secrets
outbound_valid = refl

validate_outbound-IsValid_example : OutboundValid.IsValid outbound
validate_outbound-IsValid_example =
    OutboundValid.validate_outbound-IsValid text outbound outbound_valid

-- An address of version 4 in the text form of `text`, and a destination with a name.
abbrev relay : Relay
relay = record {
  id = lit "relay";
  name = lit "relay";
  listen_address = 0 ∷ 127 ∷ [];
  listen_port = 8443;
  network = relay_tcp;
  destination = record { host = lit "example.org"; port = 443 };
  outbound_id = lit "o1";
  source_cidrs = prefix4 3221225984 24 ∷ [];
  enabled = true;
}

relay_valid : validate_relay text relay ≡ []
unfolding validate_relay text join_errors validate_id matches_id validate_display_name is_trimmed
    validate_endpoint matches_hostname split_on fold_letters is_label validate_relay_sources
relay_valid = refl
