-- ===== src/Domain/Relay.antt =====
-- relay.go: relays through Xray.
pub mod Valid
use egress_manager.Base.{
  ℕ, Bool, true, false, ◌&&◌, ◌||◌, not, Option, none, some, List, [], ◌∷◌, ltb, ◌==◌,
  if◌then◌else◌, Bytes, bytes_eq, any, length,
}
use egress_manager.Net.{Addr, Prefix, is_valid, prefix_is_valid, prefix_eq, masked}
use egress_manager.Inventory.{AddrText}
use egress_manager.Domain.Issue.{
  Issue, issue_if, join_errors, bad_relay_network, bad_relay_address, bad_relay_port,
  too_many_relay_sources, relay_source_not_canonical, duplicate_relay_source,
  untrimmed_relay_address,
}
use egress_manager.Domain.Identifier.{validate_id, validate_display_name, is_trimmed}
use egress_manager.Domain.Endpoint.{Endpoint, validate_endpoint}

-- A network is a string; `other_network` holds what is none of the three constants.
pub data RelayNetwork : Type 0 where
  relay_tcp relay_udp relay_tcp_udp : RelayNetwork
  other_network : Bytes → RelayNetwork

abbrev pub validate_network : RelayNetwork → List Issue
validate_network (other_network s) = bad_relay_network ∷ []
validate_network _ = []

abbrev pub requires_tcp : RelayNetwork → Bool
requires_tcp relay_tcp = true
requires_tcp relay_tcp_udp = true
requires_tcp _ = false

abbrev pub requires_udp : RelayNetwork → Bool
requires_udp relay_udp = true
requires_udp relay_tcp_udp = true
requires_udp _ = false

pub record Relay : Type 0 where
  pub id : Bytes
  pub name : Bytes
  pub listen_address : Bytes
  pub listen_port : ℕ
  pub network : RelayNetwork
  pub destination : Endpoint
  pub outbound_id : Bytes
  pub source_cidrs : List Prefix
  pub enabled : Bool

abbrev pub maximum_relay_sources : ℕ
maximum_relay_sources = 32

abbrev pub is_canonical : Prefix → Bool
is_canonical p = prefix_is_valid p && prefix_eq p (masked p)

module _ (text : AddrText) where
  -- It parses, and prints as it was written.
  abbrev pub is_canonical_address : Bytes → Bool
  is_canonical_address address = elim (text.parse_addr address) [
    | none ↦ false
    | some a ↦ is_valid a && bytes_eq (text.addr_string a) address
  ]

  -- The loop over the sources; the first argument holds the texts seen.
  unfoldable pub validate_relay_sources : List Bytes → List Prefix → List Issue
  validate_relay_sources seen [] = []
  validate_relay_sources seen (p ∷ ps) =
      let key = text.prefix_string p in
      let rest = validate_relay_sources (if is_canonical p then key ∷ seen else seen) ps in
      join_errors (
        (if is_canonical p
          then issue_if (any (bytes_eq key) seen) duplicate_relay_source
          else relay_source_not_canonical ∷ [])
        ∷ rest
        ∷ [])

  unfoldable pub validate_relay : Relay → List Issue
  validate_relay relay = join_errors (
      validate_id relay.id
      ∷ validate_display_name relay.name
      ∷ validate_network relay.network
      ∷ validate_endpoint text relay.destination
      ∷ validate_id relay.outbound_id
      ∷ issue_if (not (is_canonical_address relay.listen_address)) bad_relay_address
      ∷ issue_if (relay.listen_port == 0) bad_relay_port
      ∷ issue_if (ltb maximum_relay_sources (length relay.source_cidrs)) too_many_relay_sources
      ∷ validate_relay_sources [] relay.source_cidrs
      ∷ issue_if (not (is_trimmed relay.listen_address)) untrimmed_relay_address
      ∷ [])
