-- ===== src/Nat/Prepare/Safe.antt =====
-- What `enforceSafety` guarantees when it reports no error.
use egress_manager.Base.{
  ℕ, ◌≡◌, refl, sym, ◌∙◌, ap, true, false, none, some, List, [], ◌∷◌, ◌++◌, ltb, ◌==◌, any,
  any-sort_by, any-false, All, arith, Bytes, bytes_eq, bytes_eq→eq, eq→bytes_eq, sort_by,
}
use egress_manager.Net.{is_loopback, contains}
use egress_manager.Domain.Forward.{PortForward}
use egress_manager.Inventory.{AddrText}
use egress_manager.Inventory.Conflict.{
  Listener, Binding, to_lower_byte, to_lower, detect_conflicts, is_conflict, addresses_overlap,
}
use egress_manager.Nat.Ranges.{matches_port}
use egress_manager.Nat.Prepare.{
  SafetyPolicy, protected_ports, check_protected, check_protocol, check_protocols, check_listeners,
  enforce_safety,
}

to_lower_byte_idem : (c : ℕ) → to_lower_byte (to_lower_byte c) ≡ to_lower_byte c
to_lower_byte_idem c = ground arith

to_lower_idem : (s : Bytes) → to_lower (to_lower s) ≡ to_lower s
to_lower_idem [] = refl
to_lower_idem (c ∷ cs) = cc (to_lower_byte_idem c, to_lower_idem cs)

-- A protocol that equals a lowered one is its own lowering.
same_protocol :
    (p q : Bytes) → bytes_eq p (to_lower q) ≡ true → bytes_eq (to_lower q) (to_lower p) ≡ true
same_protocol p q k =
    eq→bytes_eq (to_lower q) (to_lower p)
      (sym (ap (λ s. to_lower s) (bytes_eq→eq p (to_lower q) k) ∙ to_lower_idem q))

check_protected-none :
    (f : PortForward) (ports : List ℕ) (p : ℕ)
    → check_protected f ports ≡ none
    → any (λ q. q == p) ports ≡ true
    → matches_port f p ≡ false
unfolding check_protected
check_protected-none f [] p h k = ground arith
check_protected-none f (q ∷ ports) p h k = ground (arith, check_protected-none f ports p)

module _ (text : AddrText) where
  detect_one :
      (b : Binding) (l : Listener)
      → detect_conflicts text (b ∷ []) (l ∷ []) ≡ some []
      → is_conflict text (record b { protocol = to_lower b.protocol }) l ≡ false
  unfolding detect_conflicts sort_by
  detect_one b l h = ground arith

  -- The listener holds none of the forward's address, under one of its protocols.
  abbrev pub IsClear : PortForward → Listener → Type 0
  IsClear f l =
      any (λ p. bytes_eq p (to_lower l.protocol)) f.protocols ≡ true
      → addresses_overlap text (text.addr_string f.listen_address) l.address ≡ false

  check_protocol-none :
      (f : PortForward) (l : Listener) (p : Bytes)
      → check_protocol text f l p ≡ none
      → bytes_eq p (to_lower l.protocol) ≡ true
      → addresses_overlap text (text.addr_string f.listen_address) l.address ≡ false
  unfolding check_protocol is_conflict
  check_protocol-none f l p h k =
      let binding : Binding = record {
        protocol = p;
        address = text.addr_string f.listen_address;
        port = l.port;
      } in
      ground (arith, detect_one binding l, same_protocol p l.protocol k)

  check_protocols-none :
      (f : PortForward) (l : Listener) (ps : List Bytes)
      → check_protocols text f l ps ≡ none
      → any (λ p. bytes_eq p (to_lower l.protocol)) ps ≡ true
      → addresses_overlap text (text.addr_string f.listen_address) l.address ≡ false
  unfolding check_protocols
  check_protocols-none f l [] h k = ground arith
  check_protocols-none f l (p ∷ ps) h k =
      ground (arith, check_protocol-none f l p, check_protocols-none f l ps)

  check_listeners-none :
      (f : PortForward) (ls : List Listener)
      → check_listeners text f ls ≡ none
      → All (λ l. matches_port f l.port ≡ true → IsClear f l) ls
  unfolding check_listeners
  check_listeners-none f [] h = tt
  check_listeners-none f (l ∷ ls) h = (
    λ m. check_protocols-none f l f.protocols (ground arith),
    check_listeners-none f ls (ground arith),
  )

  -- A forward that may be installed on the host.
  pub record IsSafe (listeners : List Listener) (policy : SafetyPolicy) (f : PortForward)
      : Type 0 where
    pub listen_not_loopback : is_loopback f.listen_address ≡ false
    pub remote_not_loopback : is_loopback f.remote_address ≡ false
    pub prefixes_clear :
        All (λ p. contains p f.listen_address ≡ false) policy.protected_local_prefixes
    pub ports_clear :
        (p : ℕ)
        → any (λ q. q == p) (policy.ssh_ports ++ policy.panel_port ∷ []) ≡ true
        → matches_port f p ≡ false
    pub listeners_clear :
        f.enabled ≡ true → All (λ l. matches_port f l.port ≡ true → IsClear f l) listeners

  -- A forward that `enforceSafety` passes neither listens on nor targets a loopback address, lies
  -- in no protected prefix, matches neither an SSH port nor the panel's port, and, if enabled,
  -- overlaps with the address of no listener whose port and protocol it matches.
  pub enforce_safety-IsSafe :
      (f : PortForward) (listeners : List Listener) (policy : SafetyPolicy)
      → enforce_safety text f listeners policy ≡ none
      → IsSafe listeners policy f
  unfolding enforce_safety protected_ports
  enforce_safety-IsSafe f listeners policy h = record {
    listen_not_loopback = ground arith;
    remote_not_loopback = ground arith;
    prefixes_clear =
        any-false (λ p. contains p f.listen_address) policy.protected_local_prefixes (λ p e. e)
          (ground arith);
    ports_clear = λ p k.
        check_protected-none f (protected_ports policy) p (ground arith)
          (any-sort_by ltb (λ q. q == p) (policy.ssh_ports ++ policy.panel_port ∷ []) ∙ k);
    listeners_clear = λ e. check_listeners-none f listeners (ground arith);
  }
