-- ===== src/Scenarios/Executing.antt =====
-- The executor on the host with one table.
use egress_manager.Base.{◌∙◌, ◌≡◌, refl, true, false, none, some, lit, fields, split_lines, inr}
use egress_manager.Effect.{ok, pure}
use egress_manager.Domain.Transaction.{TransactionState, applying, committed}
use egress_manager.Database.{find_row}
use egress_manager.Database.Ledger.{ledger-state_of}
use egress_manager.Database.Rows.{state_in}
use egress_manager.Nat.Plan.{owned_table_from_candidate}
use egress_manager.Nat.Executor.{execute, open_nft_journal, opened_journal, open_field}
use egress_manager.Nat.Executor.Recovery.{recover_one}
use egress_manager.Nat.Executor.Undo.{rollback_committed}
use egress_manager.Nat.Executor.Contract.{state_of}
use egress_manager.Nat.Executor.Execute.{execute-Outcome}
use egress_manager.Nat.Executor.Restore.{Holds}
use egress_manager.Nat.Executor.Rollback.{Outcome}
use egress_manager.Nat.Executor.Recovered.{Recovered, recover_one-Recovered}
use egress_manager.Nat.Executor.Undone.{Undone, rollback_committed-Undone}
use egress_manager.Scenarios.{
  family, table, listing, owned, executor, nft, seal, plan, entry_at, empty_world, world_at,
  no_fault,
}

listing_owned : owned_table_from_candidate listing ≡ some (family, table)
unfolding owned_table_from_candidate split_lines fields
listing_owned = refl

entry_opens :
    (s : TransactionState)
    → open_nft_journal executor (entry_at s) true ≡ ok (lit "absent", listing, false)
unfolding open_nft_journal opened_journal open_field owned_table_from_candidate split_lines fields
entry_opens s = refl

stored : (s : TransactionState) → state_in (lit "op1") (world_at s).journal.store.rows ≡ some s
unfolding find_row
stored s = refl

in_state : (s : TransactionState) → state_of executor (lit "op1") (world_at s) ≡ some s
in_state s = ledger-state_of no_fault (lit "op1") (world_at s).journal ∙ stored s

-- The entry holds the snapshot of a host without the table.
entry_at-Holds : (s : TransactionState) → Holds executor family table owned nft (entry_at s) none
entry_at-Holds s = record {
  candidate = listing;
  protected = false;
  opens = entry_opens s;
  of_table = listing_owned;
  listing = tt;
  named = refl;
}

execute-Outcome_example :
    let m = execute executor (λ id change p. pure tt) (lit "op1") (lit "{}") plan in
    Outcome executor family table owned nft plan none
      (lit "op1")
      (state_of executor (lit "op1") empty_world)
      (m empty_world).0
      (m empty_world).1
execute-Outcome_example =
    execute-Outcome executor family table owned nft seal (lit "op1") (lit "{}") plan listing_owned
      refl (λ id change p. pure tt) empty_world

recover_one-Recovered_example :
    let m = recover_one executor (λ t. pure tt) (entry_at applying) in
    Recovered executor family table owned nft applying none
      (some listing)
      (entry_at applying)
      (m (world_at applying)).0
      (m (world_at applying)).1
recover_one-Recovered_example =
    recover_one-Recovered executor family table owned nft (λ t. pure tt) (entry_at applying) none
      (world_at applying) refl (entry_at-Holds applying) (inr tt) (in_state applying)

rollback_committed-Undone_example :
    let m = rollback_committed executor (entry_at committed) in
    Undone executor family table owned nft none
      (some listing)
      (lit "op1")
      (m (world_at committed)).0
      (m (world_at committed)).1
rollback_committed-Undone_example =
    rollback_committed-Undone executor family table owned nft (entry_at committed) none
      (entry_at-Holds committed) (world_at committed) (in_state committed)
