-- ===== src/Nat/Render.antt =====
-- nft.go: the text of a candidate; and `BuildNFTPlan` of plan.go, which makes a plan of it.
pub mod Candidate
use egress_manager.Base.{
  ℕ, zero, suc, ◌+◌, ◌-◌, ◌*◌, ◌/◌, ◌%◌, ◌^◌, Bool, true, false, ◌&&◌, ◌||◌, not, Option, none,
  some, List, [], ◌∷◌, ◌++◌, ◌==◌, ltb, if◌then◌else◌, Bytes, lit, bytes_eq, length, any, map, join,
}
use egress_manager.Net.{Addr, Prefix, is6}
use egress_manager.Domain.Forward.{PortRange, PortForward, TransportProtocol}
use egress_manager.Inventory.{AddrText}
use egress_manager.Inventory.Conflict.{Listener}
use egress_manager.Nat.Plan.{Plan}
use egress_manager.Nat.Prepare.{
  AddressFamily, SafetyPolicy, Prepared, native_name, prepare_forwards, ok, err,
}

-- `strconv.Itoa` of a number of at most as many digits as the first argument says
unfoldable pub digits : ℕ → ℕ → Bytes
digits zero n = []
digits (suc k) n =
    let rest = digits k (n / 10) in (if n / 10 == 0 then [] else rest) ++ (b'0' + n % 10) ∷ []

-- A port has at most five digits.
abbrev pub itoa : ℕ → Bytes
itoa n = digits 5 n

unfoldable pub format_range : PortRange → Bytes
format_range r = if r.from == r.to then itoa r.from else itoa r.from ++ (lit "-" ++ itoa r.to)

-- A value alone, or a set.
abbrev set_of : List Bytes → Bytes
set_of (value ∷ []) = value
set_of values = lit "{ " ++ (join (lit ", ") values ++ lit " }")

unfoldable pub format_ranges : List PortRange → Bytes
format_ranges ranges = set_of (map format_range ranges)

-- The range that a remapped listen range goes to, in uint32 and then uint16.
abbrev remapped : ℕ → PortRange → PortRange
remapped start r = record {
  from = start;
  to = (start + (r.to + 2 ^ 32 - r.from) % 2 ^ 32) % 2 ^ 16;
}

-- The index 0 of the listen ports; a forward that remaps has one listen range.
abbrev remote_ports : ℕ → List PortRange → List PortRange
remote_ports zero ranges = ranges
remote_ports (suc n) [] = []
remote_ports (suc n) (r ∷ rs) = remapped (suc n) r ∷ []

abbrev keyword : Addr → Bytes
keyword a = if is6 a then lit "ip6" else lit "ip"

abbrev when : Bool → Bytes → List Bytes
when b part = if b then part ∷ [] else []

module _ (text : AddrText) where
  unfoldable pub format_prefixes : List Prefix → Bytes
  format_prefixes prefixes = set_of (map text.prefix_string prefixes)

  unfoldable pub nft_match : PortForward → TransportProtocol → Bool → Bool → Bytes
  nft_match f protocol translated include_source = join (lit " ") (
      when translated (lit "ct original daddr " ++ text.addr_string f.listen_address)
      ++ ((family ++ (lit " daddr " ++ text.addr_string address)) ∷ [])
      ++ when (include_source && ltb 0 (length f.source_cidrs))
          (family ++ (lit " saddr " ++ format_prefixes f.source_cidrs))
      ++ (protocol ++ dport) ∷ [])
    where
      family : Bytes
      family = keyword f.listen_address

      address : Addr
      address = if translated then f.remote_address else f.listen_address

      ports : List PortRange
      ports = if translated then remote_ports f.remote_port_start f.listen_ports else f.listen_ports

      dport : Bytes
      dport =
          if ltb 0 (length f.all_ports_except)
          then lit " dport != " ++ format_ranges f.all_ports_except
          else lit " dport " ++ format_ranges ports

  abbrev destination_ports : ℕ → List PortRange → Bytes
  destination_ports start [] = []
  destination_ports start (r ∷ rs) = lit ":" ++ format_range (remapped start r)

  unfoldable pub nft_destination : PortForward → Bytes
  nft_destination f =
      let address = text.addr_string f.remote_address in
      if f.remote_port_start == 0
      then address
      else (if is6 f.remote_address then lit "[" ++ (address ++ lit "]") else address)
        ++ destination_ports f.remote_port_start f.listen_ports

  -- The rules of one chain: a line for each protocol of each enabled forward that passes the test.
  abbrev rule_lines :
      (PortForward → Bool) → (PortForward → TransportProtocol → Bytes) → List PortForward → Bytes
  rule_lines test line [] = []
  rule_lines test line (f ∷ fs) =
      let rest = rule_lines test line fs in
      (if f.enabled && test f then join [] (map (line f) f.protocols) else []) ++ rest

  abbrev comment : PortForward → Bytes → Bytes
  comment f suffix = lit " comment \"egm_pf_" ++ (f.id ++ (lit "_" ++ (suffix ++ lit "\"\n")))

  unfoldable pub dnat_rule : PortForward → TransportProtocol → Bytes
  dnat_rule f p =
      lit "    "
      ++ (nft_match f p false false
          ++ (lit " counter dnat to " ++ (nft_destination f ++ comment f (lit "dnat"))))

  unfoldable pub chains : List PortForward → Bytes
  chains forwards =
      lit "  comment \"Egress Manager owned NAT table\"\n"
      ++ lit "  chain prerouting {\n    type nat hook prerouting priority dstnat; policy accept;\n"
      ++ rule_lines (λ f. true) dnat_rule forwards
      ++ lit "  }\n"
      ++ lit "  chain forward {\n    type filter hook forward priority filter; policy accept;\n"
      ++ lit "    ct state established,related counter accept comment \"egm_established\"\n"
      ++ rule_lines (λ f. true)
          (λ f p.
            lit "    "
            ++ (nft_match f p true true ++ (lit " counter accept" ++ comment f (lit "allow"))))
          forwards
      ++ rule_lines (λ f. not (length f.source_cidrs == 0))
          (λ f p.
            lit "    "
            ++ (nft_match f p true false ++ (lit " counter drop" ++ comment f (lit "source_drop"))))
          forwards
      ++ lit "  }\n"
      ++ lit
          "  chain postrouting {\n    type nat hook postrouting priority srcnat; policy accept;\n"
      ++ rule_lines (λ f. true)
          (λ f p.
            lit "    "
            ++ (nft_match f p true true
                ++ (lit " counter masquerade" ++ comment f (lit "masquerade"))))
          forwards
      ++ lit "  }\n}\n"

  unfoldable pub render_nft : Bytes → Bytes → List PortForward → Bool → Bytes
  render_nft family table forwards table_existed =
      (if table_existed
        then lit "delete table " ++ (family ++ (lit " " ++ (table ++ lit "\n")))
        else [])
      ++ (lit "table " ++ (family ++ (lit " " ++ (table ++ lit " {\n"))))
      ++ chains forwards

  -- `appendVerificationTarget`
  abbrev append_target : List Bytes → Bytes → List Bytes
  append_target targets address =
      if any (bytes_eq address) targets then targets else targets ++ address ∷ []

  abbrev targets_from : List Bytes → List PortForward → List Bytes
  targets_from targets [] = targets
  targets_from targets (f ∷ fs) =
      targets_from
        (if f.enabled then append_target targets (text.addr_string f.remote_address) else targets)
        fs

  abbrev pub plan_of : Bytes × Bytes → List PortForward → Bool → Plan
  plan_of (family, table) forwards table_existed = record {
    engine = lit "nftables";
    owned_table = family ++ (lit " " ++ table);
    table_existed = table_existed;
    targets = targets_from [] forwards;
    candidate = render_nft family table forwards table_existed;
    state_hash = [];
  }

  -- The test of the size.
  unfoldable pub sized : Plan → Option Plan
  sized plan = if ltb (20 * 2 ^ 10) (length plan.candidate) then none else some plan

  unfoldable pub finish_plan : Bytes × Bytes → Prepared → Bool → Option Plan
  finish_plan owned (err e) table_existed = none
  finish_plan owned (ok forwards) table_existed = sized (plan_of owned forwards table_existed)

  -- `BuildNFTPlan`; `none` is its error.
  unfoldable pub build_nft_plan :
      AddressFamily → List PortForward → List Listener → SafetyPolicy → Bool → Option Plan
  build_nft_plan family desired listeners policy table_existed = elim (native_name family) [
    | none ↦ none
    | some owned ↦
        finish_plan owned (prepare_forwards text family listeners policy desired) table_existed
  ]
