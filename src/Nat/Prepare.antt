-- ===== src/Nat/Prepare.antt =====
-- plan.go: the safety policy, and `prepareForwards` with what it calls. An error is an option of a
-- reason; the text of the messages is left out.
pub mod Sources
pub mod Safe
pub mod Exclusive
pub mod Result
use egress_manager.Base.{
  ℕ, ◌+◌, Bool, true, false, ◌&&◌, ◌||◌, not, Option, none, some, List, [], ◌∷◌, ◌++◌, map, ltb,
  leb, ◌==◌, if◌then◌else◌, Bytes, lit, bytes_eq, bytes_lt, any, length, sort_by,
}
use egress_manager.Net.{
  Addr, Prefix, addr_eq, unmap, is4, is6, is_loopback, contains, prefix_addr, prefix_is_valid,
  prefix_eq, masked,
}
use egress_manager.Domain.Issue.{Issue}
use egress_manager.Domain.Forward.{PortRange, PortForward, TransportProtocol, validate_forward}
use egress_manager.Inventory.{AddrText}
use egress_manager.Inventory.Conflict.{Listener, Binding, Conflict, to_lower, detect_conflicts}
use egress_manager.Nat.Ranges.{
  normalize_ranges, ranges_contain, matches_port, allowed_ranges, ranges_overlap,
}

abbrev pub maximum_forwards : ℕ
maximum_forwards = 16

-- A family is a string; `other` is neither constant.
pub data AddressFamily : Type 0 where
  ipv4 ipv6 : AddressFamily
  other : Bytes → AddressFamily

-- The family and the table as nftables names them.
unfoldable pub native_name : AddressFamily → Option (Bytes × Bytes)
native_name ipv4 = some (lit "ip", lit "egm_nat4")
native_name ipv6 = some (lit "ip6", lit "egm_nat6")
native_name (other s) = none

pub record SafetyPolicy : Type 0 where
  pub ssh_ports : List ℕ
  pub panel_port : ℕ
  pub protected_local_prefixes : List Prefix

pub data PolicyIssue : Type 0 where
  no_panel_port no_ssh_port zero_port duplicate_port prefix_not_canonical : PolicyIssue

abbrev policy_issue_if : Bool → PolicyIssue → List PolicyIssue
policy_issue_if b i = if b then i ∷ [] else []

-- The loop over the protected ports, with those seen so far.
unfoldable pub policy_ports : List ℕ → List ℕ → List PolicyIssue
policy_ports seen [] = []
policy_ports seen (port ∷ rest) =
    policy_issue_if (port == 0) zero_port
    ++ policy_issue_if (any (λ s. s == port) seen) duplicate_port
    ++ policy_ports (port ∷ seen) rest

unfoldable pub policy_prefixes : List Prefix → List PolicyIssue
policy_prefixes [] = []
policy_prefixes (p ∷ ps) =
    policy_issue_if (not (prefix_is_valid p) || not (prefix_eq p (masked p))) prefix_not_canonical
    ++ policy_prefixes ps

unfoldable pub validate_policy : SafetyPolicy → List PolicyIssue
validate_policy policy =
    policy_issue_if (policy.panel_port == 0) no_panel_port
    ++ policy_issue_if (length policy.ssh_ports == 0) no_ssh_port
    ++ policy_ports [] (policy.ssh_ports ++ policy.panel_port ∷ [])
    ++ policy_prefixes policy.protected_local_prefixes

unfoldable pub protected_ports : SafetyPolicy → List ℕ
protected_ports policy = sort_by ltb (policy.ssh_ports ++ policy.panel_port ∷ [])

pub data PlanError : Type 0 where
  unsupported_family invalid_policy too_many_forwards invalid_forward : PlanError
  captures_loopback captures_protected_prefix captures_protected_port : PlanError
  protected_port_not_excluded bad_listener_binding listener_conflict forwards_overlap : PlanError

-- `errors` of a sequence of checks: the first that fails.
infixr 20 ◌orelse◌
abbrev pub ◌orelse◌ : Option PlanError → Option PlanError → Option PlanError
none orelse next = next
some e orelse next = some e

abbrev pub fail_if : Bool → PlanError → Option PlanError
fail_if b e = if b then some e else none

-- The loop over the protected ports in `enforceSafety`.
unfoldable pub check_protected : PortForward → List ℕ → Option PlanError
check_protected forward [] = none
check_protected forward (port ∷ rest) =
    let others = check_protected forward rest in
    if matches_port forward port
    then some captures_protected_port
    else if ltb 0 (length forward.all_ports_except)
        && not (ranges_contain forward.all_ports_except port)
    then some protected_port_not_excluded
    else others

module _ (text : AddrText) where
  -- One protocol of the forward against one listener.
  unfoldable pub check_protocol : PortForward → Listener → TransportProtocol → Option PlanError
  check_protocol forward l protocol =
      if bytes_eq protocol (to_lower l.protocol)
      then elim (detect_conflicts text (binding ∷ []) (l ∷ [])) [
        | none ↦ some bad_listener_binding
        | some [] ↦ none
        | some (c ∷ cs) ↦ some listener_conflict
      ]
      else none
    where
      binding : Binding
      binding = record {
        protocol = protocol;
        address = text.addr_string forward.listen_address;
        port = l.port;
      }

  unfoldable pub check_protocols :
      PortForward → Listener → List TransportProtocol → Option PlanError
  unfolding check_protocol
  check_protocols forward l [] = none
  check_protocols forward l (p ∷ ps) =
      check_protocol forward l p orelse check_protocols forward l ps

  unfoldable pub check_listeners : PortForward → List Listener → Option PlanError
  unfolding check_protocols
  check_listeners forward [] = none
  check_listeners forward (l ∷ ls) =
      (if matches_port forward l.port then check_protocols forward l forward.protocols else none)
      orelse check_listeners forward ls

  unfoldable pub enforce_safety : PortForward → List Listener → SafetyPolicy → Option PlanError
  unfolding check_protected check_listeners
  enforce_safety forward listeners policy =
      fail_if (is_loopback forward.listen_address || is_loopback forward.remote_address)
        captures_loopback
      orelse fail_if (any (λ p. contains p forward.listen_address) policy.protected_local_prefixes)
          captures_protected_prefix
      orelse check_protected forward (protected_ports policy)
      orelse (if forward.enabled then check_listeners forward listeners else none)

unfoldable pub sources_overlap : List Prefix → List Prefix → Bool
sources_overlap first second =
    if length first == 0 || length second == 0
    then true
    else any (λ l. any (λ r. contains l (prefix_addr r) || contains r (prefix_addr l)) second) first

unfoldable pub protocols_overlap : List TransportProtocol → List TransportProtocol → Bool
protocols_overlap first second = any (λ l. any (λ r. bytes_eq l r) second) first

-- Two enabled forwards that could take the same packet.
unfoldable pub forwards_clash : PortForward → PortForward → Bool
forwards_clash first second =
    if not second.enabled
      || not (addr_eq first.listen_address second.listen_address)
      || not (sources_overlap first.source_cidrs second.source_cidrs)
      || not (protocols_overlap first.protocols second.protocols)
    then false
    else elim (ranges_overlap (allowed_ranges first) (allowed_ranges second)) [
      | none ↦ false
      | some port ↦ true
    ]

unfoldable pub reject_duplicates : List PortForward → Option PlanError
reject_duplicates [] = none
reject_duplicates (first ∷ rest) =
    fail_if (first.enabled && any (forwards_clash first) rest) forwards_overlap
    orelse reject_duplicates rest

pub data Prepared : Type 0 where
  ok : List PortForward → Prepared
  err : PlanError → Prepared

abbrev is_other : AddressFamily → Bool
is_other (other s) = true
is_other _ = false

-- The forwards that the loop passes over.
abbrev pub foreign_family : AddressFamily → Addr → Bool
foreign_family ipv4 a = not (is4 a)
foreign_family ipv6 a = not (is6 a)
foreign_family (other s) a = false

-- An error of the rest comes after one of the head.
abbrev pub cons_prepared : PortForward → Prepared → Prepared
cons_prepared forward (ok rest) = ok (forward ∷ rest)
cons_prepared forward (err e) = err e

abbrev pub forward_less : PortForward → PortForward → Bool
forward_less a b = bytes_lt a.id b.id

module _ (text : AddrText) where
  abbrev source_less : Prefix → Prefix → Bool
  source_less a b = bytes_lt (text.prefix_string a) (text.prefix_string b)

  unfoldable pub normalize_forward : PortForward → PortForward
  normalize_forward forward = record forward {
    protocols = sort_by bytes_lt forward.protocols;
    listen_address = unmap forward.listen_address;
    listen_ports = normalize_ranges forward.listen_ports;
    all_ports_except = normalize_ranges forward.all_ports_except;
    remote_address = unmap forward.remote_address;
    source_cidrs = sort_by source_less forward.source_cidrs;
  }

  module _ (family : AddressFamily) (listeners : List Listener) (policy : SafetyPolicy) where
    -- One round of the loop, before the forwards that follow.
    unfoldable pub prepare_one : PortForward → Prepared → Prepared
    prepare_one forward rest = elim (validate_forward forward) [
      | issue ∷ issues ↦ err invalid_forward
      | [] ↦
          if foreign_family family forward.listen_address
          then rest
          else elim (enforce_safety text (normalize_forward forward) listeners policy) [
            | some e ↦ err e
            | none ↦ cons_prepared (normalize_forward forward) rest
          ]
    ]

    unfoldable pub prepare_all : List PortForward → Prepared
    prepare_all [] = ok []
    prepare_all (forward ∷ rest) = prepare_one forward (prepare_all rest)

    -- `rejectDuplicates`, then the sort by identifier.
    unfoldable pub finish_prepared : Prepared → Prepared
    finish_prepared (err e) = err e
    finish_prepared (ok forwards) = elim (reject_duplicates forwards) [
      | some e ↦ err e
      | none ↦ ok (sort_by forward_less forwards)
    ]

    unfoldable pub prepare_forwards : List PortForward → Prepared
    prepare_forwards desired =
        if is_other family then err unsupported_family else elim (validate_policy policy) [
          | issue ∷ issues ↦ err invalid_policy
          | [] ↦
              if ltb maximum_forwards (length desired)
              then err too_many_forwards
              else finish_prepared (prepare_all desired)
        ]
