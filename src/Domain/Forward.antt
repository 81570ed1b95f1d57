-- ===== src/Domain/Forward.antt =====
-- forward.go: transport protocols, port ranges and port forwards. A uint16 is a number below 2 ^ 16.
pub mod Valid
use egress_manager.Base.{
  ℕ, ◌+◌, ◌-◌, ◌%◌, ◌^◌, ◌≤◌, Bool, true, false, ◌&&◌, ◌||◌, not, List, [], ◌∷◌, ◌++◌, ltb, leb,
  ◌==◌, if◌then◌else◌, Bytes, lit, bytes_eq, any, length,
}
use egress_manager.Net.{
  Addr, Prefix, is_valid, is_unspecified, bit_len, prefix_is_valid, prefix_eq, masked, prefix_addr,
}
use egress_manager.Domain.Issue.{
  Issue, issue_if, join_errors, no_protocol, bad_protocol, duplicate_protocol, bad_listen_address,
  bad_remote_address, family_mismatch, no_ports, both_port_modes, too_many_ranges, bad_range,
  remap_needs_one_range, remap_overflow, too_many_sources, source_not_canonical,
  source_family_mismatch,
}
use egress_manager.Domain.Identifier.{validate_id, validate_display_name}

abbrev pub TransportProtocol : Type 0
TransportProtocol = Bytes

abbrev pub protocol_tcp : TransportProtocol
protocol_tcp = lit "tcp"

abbrev pub protocol_udp : TransportProtocol
protocol_udp = lit "udp"

unfoldable pub validate_protocol : TransportProtocol → List Issue
validate_protocol p =
    issue_if (not (bytes_eq p protocol_tcp) && not (bytes_eq p protocol_udp)) bad_protocol

pub record PortRange : Type 0 where
  pub from : ℕ
  pub to : ℕ

unfoldable pub validate_range : PortRange → List Issue
validate_range r = issue_if (r.from == 0 || r.to == 0 || ltb r.to r.from) bad_range

-- A range of real ports: both ends are ports and in order.
abbrev pub IsRange : PortRange → Type 0
IsRange r = (1 ≤ r.from) × (r.from ≤ r.to) × (r.to ≤ 65535)

abbrev pub range_contains : PortRange → ℕ → Bool
range_contains r port = leb r.from port && leb port r.to

pub record PortForward : Type 0 where
  pub id : Bytes
  pub name : Bytes
  pub protocols : List TransportProtocol
  pub listen_address : Addr
  pub listen_ports : List PortRange
  pub all_ports_except : List PortRange
  pub remote_address : Addr
  pub remote_port_start : ℕ
  pub source_cidrs : List Prefix
  pub enabled : Bool

abbrev pub maximum_port_ranges : ℕ
maximum_port_ranges = 64

abbrev pub maximum_source_cidrs : ℕ
maximum_source_cidrs = 64

-- The loop over the protocols; the first argument holds those before the index.
unfoldable pub validate_protocols : List TransportProtocol → List TransportProtocol → List Issue
validate_protocols before [] = []
validate_protocols before (p ∷ ps) = join_errors (
    validate_protocol p
    ∷ issue_if (any (bytes_eq p) before) duplicate_protocol
    ∷ validate_protocols (before ++ p ∷ []) ps
    ∷ [])

unfoldable pub validate_ranges : List PortRange → List Issue
validate_ranges [] = []
validate_ranges (r ∷ rs) = join_errors (validate_range r ∷ validate_ranges rs ∷ [])

unfoldable pub validate_sources : Addr → List Prefix → List Issue
validate_sources listen [] = []
validate_sources listen (p ∷ ps) = join_errors (
    issue_if (not (prefix_is_valid p) || not (prefix_eq p (masked p))) source_not_canonical
    ∷ issue_if
        (prefix_is_valid p && is_valid listen && not (bit_len (prefix_addr p) == bit_len listen))
        source_family_mismatch
    ∷ validate_sources listen ps
    ∷ [])

-- `uint32(To) - uint32(From)`
abbrev pub range_width : PortRange → ℕ
range_width r = (r.to + 2 ^ 32 - r.from) % 2 ^ 32

-- The two checks on a remapped range; the sum is taken as a uint32.
unfoldable pub validate_remap : ℕ → List PortRange → List Issue
validate_remap start (r ∷ []) =
    issue_if (not (start == 0) && ltb 65535 ((start + range_width r) % 2 ^ 32)) remap_overflow
validate_remap start ranges = issue_if (not (start == 0)) remap_needs_one_range

unfoldable pub validate_forward : PortForward → List Issue
validate_forward forward = join_errors (
    validate_id forward.id
    ∷ validate_display_name forward.name
    ∷ issue_if (length forward.protocols == 0) no_protocol
    ∷ validate_protocols [] forward.protocols
    ∷ issue_if (not (is_valid listen_address) || is_unspecified listen_address) bad_listen_address
    ∷ issue_if (not (is_valid remote_address) || is_unspecified remote_address) bad_remote_address
    ∷ issue_if
        (is_valid listen_address
          && is_valid remote_address
          && not (bit_len listen_address == bit_len remote_address))
        family_mismatch
    ∷ issue_if (length listen_ports == 0 && length all_ports_except == 0) no_ports
    ∷ issue_if (ltb 0 (length listen_ports) && ltb 0 (length all_ports_except)) both_port_modes
    ∷ issue_if
        (ltb maximum_port_ranges (length listen_ports)
          || ltb maximum_port_ranges (length all_ports_except))
        too_many_ranges
    ∷ validate_ranges (listen_ports ++ all_ports_except)
    ∷ validate_remap forward.remote_port_start listen_ports
    ∷ issue_if (ltb maximum_source_cidrs (length forward.source_cidrs)) too_many_sources
    ∷ validate_sources listen_address forward.source_cidrs
    ∷ [])
  where
    open forward use {listen_address, remote_address, listen_ports, all_ports_except}
