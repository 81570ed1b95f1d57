-- ===== src/Domain/Relay/Valid.antt =====
-- What `Relay.Validate` guarantees when it has no complaint.
use egress_manager.Base.{
  ◌≤◌, ◌≡◌, ◌||◌, refl, true, false, some, List, [], ◌∷◌, Bytes, bytes_eq, bytes_eq→eq, any, length,
  All, Pairs, Fresh, Fresh-nil, Fresh-cons, map, arith, subst, if◌then◌else◌, Option-cases, inl,
  inr,
}
use egress_manager.Net.{Addr, Prefix, is_valid}
use egress_manager.Inventory.{AddrText}
use egress_manager.Domain.Issue.{
  issue_if, duplicate_relay_source, relay_source_not_canonical, join_errors-nil, issue_if-nil,
}
use egress_manager.Domain.Relay.{
  RelayNetwork, relay_tcp, relay_udp, relay_tcp_udp, other_network, requires_tcp, requires_udp,
  validate_network, Relay, maximum_relay_sources, is_canonical, is_canonical_address,
  validate_relay_sources, validate_relay,
}

module _ (text : AddrText) where
  pub record IsValid (r : Relay) : Type 0 where
    pub listens :
        (a : Addr) × (text.parse_addr r.listen_address ≡ some a)
        × (is_valid a ≡ true)
        × (text.addr_string a ≡ r.listen_address)
    pub listen_port_set : 1 ≤ r.listen_port
    pub carries : (requires_tcp r.network || requires_udp r.network) ≡ true
    pub sources_canonical : All (λ p. is_canonical p ≡ true) r.source_cidrs
    pub sources_distinct :
        Pairs (λ a b. bytes_eq b a ≡ false) (map text.prefix_string r.source_cidrs)
    pub few_sources : length r.source_cidrs ≤ maximum_relay_sources

  validate_relay_sources-Fresh :
      (seen : List Bytes) (ps : List Prefix)
      → validate_relay_sources text seen ps ≡ []
      → All (λ p. is_canonical p ≡ true) ps × Fresh bytes_eq seen (map text.prefix_string ps)
  unfolding validate_relay_sources
  validate_relay_sources-Fresh seen [] h = (tt, Fresh-nil bytes_eq seen)
  validate_relay_sources-Fresh seen (p ∷ ps) h =
      let key = text.prefix_string p in
      let e = join_errors-nil _ h in
      let c : is_canonical p ≡ true = ground arith in
      let first =
        subst
          (λ b.
            (if b
              then issue_if (any (bytes_eq key) seen) duplicate_relay_source
              else relay_source_not_canonical ∷ [])
            ≡ [])
          c e.0 in
      let others =
        subst (λ b. validate_relay_sources text (if b then key ∷ seen else seen) ps ≡ []) c e.1.0 in
      let (canonical, fresh) = validate_relay_sources-Fresh (key ∷ seen) ps others in
      (
        (c, canonical),
        Fresh-cons bytes_eq key seen (map text.prefix_string ps) (issue_if-nil _ _ first) fresh,
      )

  listens_lem :
      (address : Bytes)
      → is_canonical_address text address ≡ true
      → (a : Addr) × (text.parse_addr address ≡ some a)
        × (is_valid a ≡ true)
        × (text.addr_string a ≡ address)
  listens_lem address h = elim (Option-cases (text.parse_addr address)) [
    | inl e ↦ absurd (ground arith)
    | inr (a, e) ↦
        let same : bytes_eq (text.addr_string a) address ≡ true = ground arith in
        (a, e, ground arith, bytes_eq→eq _ _ same)
  ]

  carries_lem :
      (n : RelayNetwork) → validate_network n ≡ [] → (requires_tcp n || requires_udp n) ≡ true
  carries_lem relay_tcp h = refl
  carries_lem relay_udp h = refl
  carries_lem relay_tcp_udp h = refl
  carries_lem (other_network s) h = absurd (cc)

  -- A relay without a complaint listens at an address in its canonical form and at a port, carries
  -- TCP or UDP, and has at most 32 sources, which are canonical and print as different texts.
  pub validate_relay-IsValid : (r : Relay) → validate_relay text r ≡ [] → IsValid r
  unfolding validate_relay
  validate_relay-IsValid r h =
      let e = join_errors-nil _ h in
      let rest = e.1.1.1.1.1 in
      let (canonical, fresh) = validate_relay_sources-Fresh [] r.source_cidrs rest.1.1.1.0 in
      record {
        listens = listens_lem r.listen_address (ground (arith, issue_if-nil _ _ rest.0));
        listen_port_set = ground (arith, issue_if-nil _ _ rest.1.0);
        carries = carries_lem r.network e.1.1.0;
        sources_canonical = canonical;
        sources_distinct = fresh.distinct;
        few_sources = ground (arith, issue_if-nil _ _ rest.1.1.0);
      }
