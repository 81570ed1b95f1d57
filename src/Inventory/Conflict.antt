-- ===== src/Inventory/Conflict.antt =====
-- conflict.go: `DetectConflicts`. An error is `none`.
use egress_manager.Base.{
  ℕ, ◌+◌, Bool, true, false, ◌&&◌, ◌||◌, not, Option, none, some, List, [], ◌∷◌, ◌++◌, ltb, leb,
  ◌==◌, if◌then◌else◌, Bytes, lit, bytes_eq, bytes_lt, sort_by,
}
use egress_manager.Net.{Addr, addr_eq, unmap}
use egress_manager.Inventory.{AddrText}

-- Of a listener's process only the name is used.
pub record Listener : Type 0 where
  pub protocol : Bytes
  pub address : Bytes
  pub port : ℕ
  pub process : Bytes

pub record Binding : Type 0 where
  pub protocol : Bytes
  pub address : Bytes
  pub port : ℕ

pub record Conflict : Type 0 where
  pub requested : Binding
  pub existing : Listener

-- `strings.ToLower`, on the ASCII letters; no other letter is folded into one of tcp or udp.
abbrev pub to_lower_byte : ℕ → ℕ
to_lower_byte c = if leb b'A' c && leb c b'Z' then c + 32 else c

abbrev pub to_lower : Bytes → Bytes
to_lower [] = []
to_lower (c ∷ cs) = to_lower_byte c ∷ to_lower cs

abbrev is_wildcard : Bytes → Bool
is_wildcard a = bytes_eq a (lit "*") || bytes_eq a (lit "0.0.0.0") || bytes_eq a (lit "::")

abbrev pub conflict_less : Conflict → Conflict → Bool
conflict_less a b =
    if a.requested.port == b.requested.port
    then bytes_lt a.requested.protocol b.requested.protocol
    else ltb a.requested.port b.requested.port

module _ (text : AddrText) where
  open text use {parse_addr}

  pub valid_bind_address : Bytes → Bool
  valid_bind_address address =
      if bytes_eq address (lit "*")
      then true
      else elim (parse_addr address) [ none ↦ false | some a ↦ true ]

  -- Both parse, to one address after unmapping.
  same_address : Option Addr → Option Addr → Bool
  same_address (some a) (some b) = addr_eq (unmap a) (unmap b)
  same_address _ _ = false

  unfoldable pub addresses_overlap : Bytes → Bytes → Bool
  unfolding same_address
  addresses_overlap first second =
      if is_wildcard first || is_wildcard second
      then true
      else same_address (parse_addr first) (parse_addr second)

  unfoldable pub is_conflict : Binding → Listener → Bool
  is_conflict binding listener =
      bytes_eq (to_lower listener.protocol) binding.protocol
      && listener.port == binding.port
      && addresses_overlap binding.address listener.address

  -- The inner loop over the listeners, for a binding in lower case.
  unfoldable pub conflicts_of : Binding → List Listener → List Conflict
  unfolding is_conflict
  conflicts_of binding [] = []
  conflicts_of binding (l ∷ ls) =
      let rest = conflicts_of binding ls in
      if is_conflict binding l then (record { requested = binding; existing = l }) ∷ rest else rest

  unfoldable pub binding_is_valid : Binding → Bool
  unfolding valid_bind_address
  binding_is_valid binding =
      (bytes_eq (to_lower binding.protocol) (lit "tcp")
        || bytes_eq (to_lower binding.protocol) (lit "udp"))
      && not (binding.port == 0)
      && valid_bind_address binding.address

  -- The outer loop.
  unfoldable pub collect_conflicts : List Binding → List Listener → Option (List Conflict)
  unfolding conflicts_of binding_is_valid
  collect_conflicts [] listeners = some []
  collect_conflicts (b ∷ bs) listeners =
      if binding_is_valid b
      then elim (collect_conflicts bs listeners) [
        | none ↦ none
        | some rest ↦
            some (conflicts_of (record b { protocol = to_lower b.protocol }) listeners ++ rest)
      ]
      else none

  unfoldable pub detect_conflicts : List Binding → List Listener → Option (List Conflict)
  unfolding collect_conflicts
  detect_conflicts requested listeners = elim (collect_conflicts requested listeners) [
    | none ↦ none
    | some conflicts ↦ some (sort_by conflict_less conflicts)
  ]
