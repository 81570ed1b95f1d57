-- ===== src/Scenarios/Planning.antt =====
-- Two forwards of one address, planned beside a listener.
use egress_manager.Base.{
  not, has_infix, join, ℕ, ◌≡◌, ◌≤◌, refl, true, false, Option, none, some, List, [], ◌∷◌, Bytes,
  lit, bytes_lt, sort_by, insert_by, length, arith, All, Pairs, zero, suc,
}
use egress_manager.Net.{Addr, invalid, v4, v6, is_valid}
use egress_manager.Inventory.{AddrText}
use egress_manager.Inventory.Conflict.{Listener, to_lower}
use egress_manager.Domain.Issue.{join_errors}
use egress_manager.Domain.Identifier.{matches_id, validate_id, is_trimmed, validate_display_name}
use egress_manager.Domain.Forward.{
  PortRange, PortForward, validate_protocol, validate_forward, validate_protocols, validate_ranges,
  validate_range, validate_sources, validate_remap,
}
use egress_manager.Domain.Forward.Valid.{Fits, IsValid, validate_forward-IsValid}
use egress_manager.Nat.Ranges.{
  ranges_contain, matches_port, allowed_ranges, normalize_ranges, ranges_overlap, allowed_from,
  merge_ranges, merge_onto, overlap_with,
}
use egress_manager.Nat.Ranges.Normal.{normalize_ranges-contain}
use egress_manager.Nat.Ranges.Allowed.{allowed_ranges-matches_port}
use egress_manager.Nat.Ranges.Overlap.{IsReport, ranges_overlap-IsReport}
use egress_manager.Nat.Prepare.{
  policy_ports, policy_prefixes, validate_policy, native_name, SafetyPolicy, ipv4, ok,
  prepare_forwards, maximum_forwards, finish_prepared, prepare_all, prepare_one, normalize_forward,
  enforce_safety, check_listeners, check_protected, check_protocols, check_protocol,
  protected_ports, reject_duplicates, forwards_clash, protocols_overlap, sources_overlap,
}
use egress_manager.Nat.Plan.{Plan, validate_executable_plan}
use egress_manager.Nat.Render.{
  digits, format_range, format_ranges, format_prefixes, nft_match, nft_destination, dnat_rule,
  chains, render_nft, plan_of, sized, finish_plan, build_nft_plan,
}
use egress_manager.Nat.Render.Candidate.{build_nft_plan-validate_executable_plan}
use egress_manager.Nat.Prepare.Safe.{IsSafe}
use egress_manager.Nat.Prepare.Exclusive.{Exclusive}
use egress_manager.Nat.Prepare.Result.{
  prepare_forwards-IsSafe, prepare_forwards-Exclusive, prepare_forwards-ordered,
}

-- An address in a text form that names its version.
unfoldable pub text : AddrText
text = record {
  parse_addr = parsed;
  addr_string = printed;
  prefix_string = λ p. [];
  parse-string = round_trip;
}
  where
    parsed : Bytes → Option Addr
    parsed (zero ∷ n ∷ []) = some (v4 n)
    parsed (suc zero ∷ n ∷ zone) = some (v6 n zone)
    parsed _ = none

    printed : Addr → Bytes
    printed invalid = []
    printed (v4 n) = 0 ∷ n ∷ []
    printed (v6 n zone) = 1 ∷ n ∷ zone

    round_trip : (a : Addr) → is_valid a ≡ true → parsed (printed a) ≡ some a
    round_trip invalid h = absurd (ground arith)
    round_trip (v4 n) h = refl
    round_trip (v6 n zone) h = refl

abbrev ports : ℕ → ℕ → PortRange
ports a b = record { from = a; to = b }

abbrev forward : Bytes → List PortRange → PortForward
forward id listen = record {
  id = id;
  name = lit "web";
  protocols = lit "tcp" ∷ [];
  listen_address = v4 3221225985;
  listen_ports = listen;
  all_ports_except = [];
  remote_address = v4 3325256705;
  remote_port_start = 0;
  source_cidrs = [];
  enabled = true;
}

abbrev pub first_forward : PortForward
first_forward = forward (lit "b") (ports 80 90 ∷ [])

abbrev pub second_forward : PortForward
second_forward = forward (lit "a") (ports 8000 8000 ∷ [])

abbrev listeners : List Listener
listeners = []

abbrev policy : SafetyPolicy
policy = record { ssh_ports = 22 ∷ []; panel_port = 20000; protected_local_prefixes = [] }

fits : (id : Bytes) (a b : ℕ) → a ≤ 65535 → b ≤ 65535 → Fits (forward id (ports a b ∷ []))
fits id a b ha hb = record {
  listen_fits = ((ha, hb), tt);
  except_fits = tt;
  start_fits = omega arith;
}

both_fit : All Fits (first_forward ∷ second_forward ∷ [])
both_fit = (
  fits (lit "b") 80 90 (omega arith) (omega arith),
  (fits (lit "a") 8000 8000 (omega arith) (omega arith), tt),
)

first_valid : validate_forward first_forward ≡ []
unfolding validate_forward join_errors validate_id matches_id validate_display_name is_trimmed
    validate_protocols validate_protocol validate_ranges validate_range validate_remap
    validate_sources
first_valid = refl

planned :
    prepare_forwards text ipv4 listeners policy (first_forward ∷ second_forward ∷ [])
    ≡ ok (second_forward ∷ first_forward ∷ [])
unfolding prepare_forwards validate_policy policy_ports policy_prefixes finish_prepared prepare_all
    prepare_one text validate_forward join_errors validate_id matches_id validate_display_name
    is_trimmed validate_protocols validate_protocol validate_ranges validate_range validate_remap
    validate_sources insert_by sort_by check_listeners check_protected check_protocol
    check_protocols enforce_safety forwards_clash normalize_forward protected_ports
    protocols_overlap reject_duplicates sources_overlap allowed_from allowed_ranges matches_port
    merge_onto merge_ranges normalize_ranges overlap_with ranges_overlap
planned = refl

prepare_forwards-IsSafe_example :
    All (IsSafe text listeners policy) (second_forward ∷ first_forward ∷ [])
prepare_forwards-IsSafe_example =
    prepare_forwards-IsSafe text ipv4 listeners policy (first_forward ∷ second_forward ∷ [])
      (second_forward ∷ first_forward ∷ []) both_fit planned

prepare_forwards-Exclusive_example : Pairs Exclusive (second_forward ∷ first_forward ∷ [])
prepare_forwards-Exclusive_example =
    prepare_forwards-Exclusive text ipv4 listeners policy (first_forward ∷ second_forward ∷ [])
      (second_forward ∷ first_forward ∷ []) both_fit planned

prepare_forwards-ordered_example :
    Pairs (λ a b. bytes_lt b.id a.id ≡ false) (second_forward ∷ first_forward ∷ [])
    × (length (second_forward ∷ first_forward ∷ []) ≤ maximum_forwards)
prepare_forwards-ordered_example =
    prepare_forwards-ordered text ipv4 listeners policy (first_forward ∷ second_forward ∷ [])
      (second_forward ∷ first_forward ∷ []) planned

validate_forward-IsValid_example : IsValid first_forward
validate_forward-IsValid_example =
    validate_forward-IsValid first_forward (fits (lit "b") 80 90 (omega arith) (omega arith))
      first_valid

abbrev scattered : List PortRange
scattered = ports 100 200 ∷ ports 10 20 ∷ ports 15 30 ∷ ports 31 40 ∷ []

normalize_ranges-contain_example :
    ranges_contain (normalize_ranges scattered) 35 ≡ ranges_contain scattered 35
normalize_ranges-contain_example = normalize_ranges-contain scattered 35

abbrev all_but : PortForward
all_but = record first_forward {
  listen_ports = [];
  all_ports_except = ports 22 22 ∷ ports 20000 20010 ∷ [];
}

allowed_ranges-matches_port_example :
    ranges_contain (allowed_ranges all_but) 443 ≡ matches_port all_but 443
allowed_ranges-matches_port_example =
    allowed_ranges-matches_port all_but 443
      ((omega arith, omega arith, omega arith), ((omega arith, omega arith, omega arith), tt))
      (omega arith, tt) (omega arith) (omega arith)

they_overlap : ranges_overlap scattered (ports 200 300 ∷ []) ≡ some 200
unfolding ranges_overlap overlap_with
they_overlap = refl

none_overlap : ranges_overlap scattered (ports 201 300 ∷ []) ≡ none
unfolding ranges_overlap overlap_with
none_overlap = refl

ranges_overlap-IsReport_example :
    IsReport scattered (ports 200 300 ∷ []) 35 (ranges_overlap scattered (ports 200 300 ∷ []))
ranges_overlap-IsReport_example = ranges_overlap-IsReport scattered (ports 200 300 ∷ []) 35

abbrev made : Plan
made = plan_of text (lit "ip", lit "egm_nat4") (second_forward ∷ first_forward ∷ []) true

small : sized text made ≡ some made
unfolding sized render_nft chains dnat_rule nft_match nft_destination format_prefixes format_ranges
    format_range digits text join
small = refl

built :
    build_nft_plan text ipv4 (first_forward ∷ second_forward ∷ []) listeners policy true ≡ some made
unfolding build_nft_plan finish_plan native_name
built = rw planned small

build_nft_plan-validate_executable_plan_example :
    validate_executable_plan made ≡ not (has_infix (to_lower made.candidate) (lit "flush ruleset"))
build_nft_plan-validate_executable_plan_example =
    build_nft_plan-validate_executable_plan text ipv4 (first_forward ∷ second_forward ∷ [])
      listeners policy true made built
