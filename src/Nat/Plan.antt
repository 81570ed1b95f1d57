-- ===== src/Nat/Plan.antt =====
-- plan.go's `Plan`, the tests that `Execute` makes of it, and the errors of the executor.
use egress_manager.Base.{
  ◌^◌, Bool, false, ◌&&◌, ◌||◌, not, Option, none, some, List, [], ◌∷◌, ◌++◌, ltb, ◌==◌,
  if◌then◌else◌, Bytes, lit, bytes_eq, length, fields, split_lines, has_infix,
}
use egress_manager.Inventory.Conflict.{to_lower}

-- What the executor reads of a plan; the family, the actions and the number of rules are shown to
-- the operator only.
pub record Plan : Type 0 where
  pub engine : Bytes
  pub owned_table : Bytes
  pub table_existed : Bool
  pub targets : List Bytes
  pub candidate : Bytes
  pub state_hash : Bytes

pub data NatError : Type 0 where
  invalid_plan no_requested_change invalid_owned_table list_failed : NatError
  snapshot_failed empty_snapshot host_state_changed protect_failed : NatError
  journal_failed nft_failed verify_failed open_failed not_eligible : NatError
  protection_inconsistent invalid_snapshot no_owned_table : NatError
  both : NatError → NatError → NatError

abbrev pub is_owned_line : Bytes → Bytes → Bool
is_owned_line family table =
    (bytes_eq family (lit "ip") || bytes_eq family (lit "ip6"))
    && (bytes_eq table (lit "egm_nat4") || bytes_eq table (lit "egm_nat6"))

abbrev owned_words : List Bytes → Option (Bytes × Bytes)
owned_words (a ∷ b ∷ c ∷ rest) =
    if bytes_eq a (lit "table") && is_owned_line b c then some (b, c) else none
owned_words _ = none

abbrev pub first_owned : List Bytes → Option (Bytes × Bytes)
first_owned [] = none
first_owned (line ∷ lines) = elim (owned_words (fields line)) [
  | some owned ↦ some owned
  | none ↦ first_owned lines
]

unfoldable pub owned_table_from_candidate : Bytes → Option (Bytes × Bytes)
owned_table_from_candidate candidate = first_owned (split_lines candidate)

-- `validateExecutablePlan`: `true` is the nil error.
unfoldable pub validate_executable_plan : Plan → Bool
validate_executable_plan plan =
    if length plan.candidate == 0
      || ltb (2 ^ 20) (length plan.candidate)
      || has_infix (to_lower plan.candidate) (lit "flush ruleset")
    then false
    else if bytes_eq plan.engine (lit "iptables")
    then bytes_eq plan.owned_table (lit "nat/EGM_PREROUTING nat/EGM_POSTROUTING filter/EGM_FORWARD")
      && not (bytes_eq plan.state_hash [])
      && not (has_infix plan.candidate (lit "-F PREROUTING"))
      && not (has_infix plan.candidate (lit "-F POSTROUTING"))
      && not (has_infix plan.candidate (lit "-F FORWARD"))
    else elim (owned_table_from_candidate plan.candidate) [
      | none ↦ false
      | some (family, table) ↦
          bytes_eq plan.engine (lit "nftables")
          && bytes_eq plan.owned_table (family ++ (lit " " ++ table))
    ]
