-- ===== src/Domain/Route.antt =====
-- route.go: the sources of routes, their policies, and `Route.Validate`.
pub mod Valid
use egress_manager.Base.{
  ℕ, Bool, true, false, ◌&&◌, ◌||◌, not, List, [], ◌∷◌, ◌++◌, ltb, leb, ◌==◌, if◌then◌else◌, Bytes,
  bytes_eq, any, length,
}
use egress_manager.Net.{
  Addr, Prefix, is_valid, is_unspecified, is_loopback, is_multicast, is_link_local_unicast, unmap,
  addr_eq, prefix_is_valid, prefix_eq, masked,
}
use egress_manager.Domain.Issue.{
  Issue, issue_if, join_errors, or_else, other_source_fields, bad_source_subnet, bad_source_port,
  bad_source_kind, bad_failure_policy, bad_dns_policy, bad_ipv4_policy, bad_ipv6_policy,
  fallback_is_primary, unexpected_fallback, bad_mtu, bad_mss, mss_exceeds_mtu,
  direct_with_kill_switch, no_kill_switch, bad_dns_count, bad_dns_server, duplicate_dns_server,
  unexpected_dns_servers,
}
use egress_manager.Domain.Identifier.{
  validate_id, validate_display_name, validate_linux_name, validate_config_name,
}

-- The enumerations are strings; each has a constructor for the values that are no constant.
pub data RouteSourceKind : Type 0 where
  source_interface source_subnet source_listener source_xray_inbound : RouteSourceKind
  other_source : Bytes → RouteSourceKind

pub data FailurePolicy : Type 0 where
  failure_block failure_failover failure_direct : FailurePolicy
  other_failure : Bytes → FailurePolicy

pub data DnsPolicy : Type 0 where
  dns_follow_outbound dns_system dns_block : DnsPolicy
  other_dns : Bytes → DnsPolicy

pub data Ipv4Policy : Type 0 where
  ipv4_follow_outbound ipv4_block ipv4_direct : Ipv4Policy
  other_ipv4 : Bytes → Ipv4Policy

pub data Ipv6Policy : Type 0 where
  ipv6_follow_outbound ipv6_block ipv6_direct : Ipv6Policy
  other_ipv6 : Bytes → Ipv6Policy

-- The zero prefix, an empty string and the port 0 stand for a field that is not set.
pub record RouteSource : Type 0 where
  pub kind : RouteSourceKind
  pub interface_name : Bytes
  pub subnet : Prefix
  pub listener : ℕ
  pub xray_tag : Bytes

abbrev pub is_set : Bytes → Bool
is_set text = not (length text == 0)

-- The local function `unexpected`.
abbrev pub unexpected : Bool → Bool → Bool → Bool → List Issue
unexpected interface_set subnet_set listener_set xray_set =
    issue_if (interface_set || subnet_set || listener_set || xray_set) other_source_fields

abbrev pub validate_source_of_kind : RouteSourceKind → RouteSource → List Issue
validate_source_of_kind source_interface source = join_errors (
    validate_linux_name source.interface_name
    ∷ unexpected false (prefix_is_valid source.subnet) (not (source.listener == 0))
        (is_set source.xray_tag)
    ∷ [])
validate_source_of_kind source_subnet source =
    if not (prefix_is_valid source.subnet) || not (prefix_eq source.subnet (masked source.subnet))
    then bad_source_subnet ∷ []
    else unexpected (is_set source.interface_name) false (not (source.listener == 0))
        (is_set source.xray_tag)
validate_source_of_kind source_listener source =
    if source.listener == 0
    then bad_source_port ∷ []
    else unexpected (is_set source.interface_name) (prefix_is_valid source.subnet) false
        (is_set source.xray_tag)
validate_source_of_kind source_xray_inbound source = join_errors (
    validate_config_name source.xray_tag
    ∷ unexpected (is_set source.interface_name) (prefix_is_valid source.subnet)
        (not (source.listener == 0)) false
    ∷ [])
validate_source_of_kind (other_source s) source = bad_source_kind ∷ []

unfoldable pub validate_source : RouteSource → List Issue
validate_source source = validate_source_of_kind source.kind source

abbrev pub validate_failure_policy : FailurePolicy → List Issue
validate_failure_policy (other_failure s) = bad_failure_policy ∷ []
validate_failure_policy _ = []

abbrev pub validate_dns_policy : DnsPolicy → List Issue
validate_dns_policy (other_dns s) = bad_dns_policy ∷ []
validate_dns_policy _ = []

abbrev pub validate_ipv4_policy : Ipv4Policy → List Issue
validate_ipv4_policy (other_ipv4 s) = bad_ipv4_policy ∷ []
validate_ipv4_policy _ = []

abbrev pub validate_ipv6_policy : Ipv6Policy → List Issue
validate_ipv6_policy (other_ipv6 s) = bad_ipv6_policy ∷ []
validate_ipv6_policy _ = []

pub record Route : Type 0 where
  pub id : Bytes
  pub name : Bytes
  pub source : RouteSource
  pub outbound_id : Bytes
  pub fallback_outbound_id : Bytes
  pub failure_policy : FailurePolicy
  pub dns_policy : DnsPolicy
  pub dns_servers : List Addr
  pub ipv4_policy : Ipv4Policy
  pub ipv6_policy : Ipv6Policy
  pub kill_switch : Bool
  pub mtu : ℕ
  pub tcp_mss : ℕ
  pub enabled : Bool

-- `fallbackError`, for the policy, the fallback and the primary outbound
unfoldable pub fallback_error : FailurePolicy → Bytes → Bytes → List Issue
fallback_error failure_failover fallback primary =
    or_else (validate_id fallback) (issue_if (bytes_eq fallback primary) fallback_is_primary)
fallback_error _ fallback primary = issue_if (is_set fallback) unexpected_fallback

unfoldable pub mtu_error : ℕ → List Issue
mtu_error mtu = issue_if (not (mtu == 0) && (ltb mtu 576 || ltb 9000 mtu)) bad_mtu

unfoldable pub mss_error : ℕ → ℕ → List Issue
mss_error mtu mss =
    if mss == 0
    then []
    else if ltb mss 536 || ltb 8960 mss
    then bad_mss ∷ []
    else issue_if (not (mtu == 0) && leb mtu mss) mss_exceeds_mtu

unfoldable pub kill_switch_error : FailurePolicy → Bool → List Issue
kill_switch_error failure_direct kill_switch = issue_if kill_switch direct_with_kill_switch
kill_switch_error failure_block kill_switch = issue_if (not kill_switch) no_kill_switch
kill_switch_error failure_failover kill_switch = issue_if (not kill_switch) no_kill_switch
kill_switch_error (other_failure s) kill_switch = []

abbrev pub is_resolver : Addr → Bool
is_resolver a =
    is_valid a
    && addr_eq a (unmap a)
    && not (is_unspecified a || is_loopback a || is_multicast a || is_link_local_unicast a)

-- The loop over the servers, which stops at the first complaint; the first argument holds those seen.
unfoldable pub check_resolvers : List Addr → List Addr → List Issue
check_resolvers seen [] = []
check_resolvers seen (a ∷ rest) =
    let others = check_resolvers (a ∷ seen) rest in
    if not (is_resolver a)
    then bad_dns_server ∷ []
    else if any (addr_eq a) seen
    then duplicate_dns_server ∷ []
    else others

unfoldable pub dns_servers_error : DnsPolicy → List Addr → List Issue
dns_servers_error dns_follow_outbound servers =
    if ltb (length servers) 1 || ltb 4 (length servers)
    then bad_dns_count ∷ []
    else check_resolvers [] servers
dns_servers_error _ servers = issue_if (not (length servers == 0)) unexpected_dns_servers

unfoldable pub validate_route : Route → List Issue
validate_route route = join_errors (
    validate_id route.id
    ∷ validate_display_name route.name
    ∷ validate_source route.source
    ∷ validate_id route.outbound_id
    ∷ validate_failure_policy route.failure_policy
    ∷ fallback_error route.failure_policy route.fallback_outbound_id route.outbound_id
    ∷ validate_dns_policy route.dns_policy
    ∷ dns_servers_error route.dns_policy route.dns_servers
    ∷ validate_ipv4_policy route.ipv4_policy
    ∷ validate_ipv6_policy route.ipv6_policy
    ∷ mtu_error route.mtu
    ∷ mss_error route.mtu route.tcp_mss
    ∷ kill_switch_error route.failure_policy route.kill_switch
    ∷ [])
