-- ===== src/Nat/Executor/Undo.antt =====
-- rollback.go for the nftables engine: an operator rolls a committed operation back.
use egress_manager.Base.{
  ℕ, zero, suc, Bool, true, false, ◌&&◌, not, Option, none, some, List, [], ◌∷◌, ◌++◌,
  if◌then◌else◌, Bytes, lit, bytes_eq, fields, split_lines, map, select, join,
}
use egress_manager.Effect.{raise, lift, on_error, require, ◌>>=◌, ◌>>◌}
use egress_manager.Domain.Transaction.{
  Transaction, TransactionState, committed, rolling_back, rolled_back,
}
use egress_manager.Nat.Plan.{
  no_owned_table, host_state_changed, not_eligible, owned_table_from_candidate,
}
use egress_manager.Nat.Executor.{
  Executor, Act, rollback_candidate, open_nft_journal, transition, inspect, run_nft,
  restore_snapshot,
}

abbrev pub is_committed : TransactionState → Bool
is_committed committed = true
is_committed _ = false

-- `counter packets N bytes N`
abbrev heads_counter : List Bytes → Bool
heads_counter (a ∷ b ∷ c ∷ d ∷ f ∷ rest) =
    bytes_eq a (lit "counter") && bytes_eq b (lit "packets") && bytes_eq d (lit "bytes")
heads_counter words = false

-- The words without the values of their counters; the number is that of the words to drop.
abbrev strip_counters : ℕ → List Bytes → List Bytes
strip_counters k [] = []
strip_counters (suc k) (a ∷ words) = strip_counters k words
strip_counters zero (a ∷ words) =
    a ∷ strip_counters (if heads_counter (a ∷ words) then 4 else 0) words

-- A line that stays: it has words, and they do not delete a table.
abbrev stays : List Bytes → Bool
stays [] = false
stays (a ∷ []) = true
stays (a ∷ b ∷ rest) = not (bytes_eq a (lit "delete") && bytes_eq b (lit "table"))

-- `canonicalNFTTable`
unfoldable pub canonical_nft_table : Bytes → Bytes
canonical_nft_table value = join (lit "\n") (
    map (λ words. join (lit " ") (strip_counters 0 words))
      (select stays (map (λ l. fields l) (split_lines value))))

abbrev pub is_applied : Bytes → Option Bytes → Bool
is_applied candidate none = false
is_applied candidate (some current) =
    bytes_eq (canonical_nft_table current) (canonical_nft_table candidate)

module _ {H J : Type 0} (e : Executor H J) where
  -- `rollbackCommittedNFT` behind the inspection of the host.
  unfoldable pub undo_committed : Transaction → Bytes → Bytes → Bytes → Act e (Unit {0})
  undo_committed operation snapshot family table = do
    run_nft e true (rollback_candidate family table snapshot true)
    transition e operation.id committed rolling_back (lit "operator_requested")
    restore_snapshot e operation
    transition e operation.id rolling_back rolled_back (lit "operator_requested")

  abbrev pub rollback_owned :
      Transaction → Bytes → Bytes → Option (Bytes × Bytes) → Act e (Unit {0})
  rollback_owned operation snapshot candidate none = raise no_owned_table
  rollback_owned operation snapshot candidate (some (family, table)) = do
    current ← on_error (inspect e (family ++ (lit " " ++ table))) (λ _. raise host_state_changed)
    require (is_applied candidate current) host_state_changed
    undo_committed operation snapshot family table

  -- `RollbackCommitted` for this engine: `rollbackCommittedNFT` behind the test of the state
  unfoldable pub rollback_committed : Transaction → Act e (Unit {0})
  rollback_committed operation = do
    require (is_committed operation.state && bytes_eq operation.operation (lit "nat_apply"))
        not_eligible
    (snapshot, candidate, protected) ←
        on_error (lift (open_nft_journal e operation false)) (λ _. raise not_eligible)
    require protected not_eligible
    rollback_owned operation snapshot candidate (owned_table_from_candidate candidate)
