-- ===== src/Domain/Firewall.antt =====
-- forward.go: firewall rules.
use egress_manager.Base.{
  Bool, true, false, ◌&&◌, ◌||◌, not, Option, none, some, List, [], ◌∷◌, ltb, Bytes, lit,
  has_prefix, length,
}
use egress_manager.Net.{Prefix, prefix_is_valid, prefix_eq, masked}
use egress_manager.Inventory.Conflict.{to_lower}
use egress_manager.Domain.Issue.{
  Issue, issue_if, join_errors, bad_firewall_prefix, bad_firewall_action,
  firewall_source_not_canonical, long_comment,
}
use egress_manager.Domain.Identifier.{validate_id, validate_config_name}
use egress_manager.Domain.Forward.{TransportProtocol, PortRange, validate_protocol, validate_ranges}

-- An action is a string; `other_action` holds what is none of the three constants.
pub data FirewallAction : Type 0 where
  firewall_accept firewall_drop firewall_reject : FirewallAction
  other_action : Bytes → FirewallAction

pub record FirewallRule : Type 0 where
  pub id : Bytes
  pub table : Bytes
  pub chain : Bytes
  pub protocol : TransportProtocol
  pub source_cidr : Option Prefix
  pub destination_ports : List PortRange
  pub action : FirewallAction
  pub comment : Bytes
  pub enabled : Bool

-- `strings.HasPrefix(strings.ToLower(name), "egm_")`; the letters of the prefix are ASCII.
abbrev is_owned : Bytes → Bool
is_owned name = has_prefix (to_lower name) (lit "egm_")

abbrev action_is_known : FirewallAction → Bool
action_is_known (other_action s) = false
action_is_known _ = true

abbrev source_is_canonical : Option Prefix → Bool
source_is_canonical none = true
source_is_canonical (some p) = prefix_is_valid p && prefix_eq p (masked p)

unfoldable pub validate_firewall_rule : FirewallRule → List Issue
validate_firewall_rule rule = join_errors (
    validate_id rule.id
    ∷ validate_config_name rule.table
    ∷ validate_config_name rule.chain
    ∷ validate_protocol rule.protocol
    ∷ issue_if (not (is_owned rule.table) || not (is_owned rule.chain)) bad_firewall_prefix
    ∷ issue_if (not (action_is_known rule.action)) bad_firewall_action
    ∷ issue_if (not (source_is_canonical rule.source_cidr)) firewall_source_not_canonical
    ∷ validate_ranges rule.destination_ports
    ∷ issue_if (ltb 128 (length rule.comment)) long_comment
    ∷ [])
