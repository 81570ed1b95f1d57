-- ===== src/Database/History.antt =====
-- operation.go: the list of committed operations and the clean-up of finished ones.
pub mod Kept
pub mod Refines
use egress_manager.Base.{
  ℕ, ◌+◌, ◌/◌, Bool, true, false, ◌&&◌, ◌||◌, not, Option, none, some, List, [], ltb, ◌==◌,
  if◌then◌else◌, Bytes, bytes_eq, length, any, select, take, sort_by,
}
use mathlib.Core.List.{reverse}
use egress_manager.Effect.{Result, ok, err}
use egress_manager.Domain.Transaction.{Transaction, committed, state_eq}
use egress_manager.Database.{
  Row, Store, StoreError, statement_failed, out_of_limits, second, before, is_finished, scan_all,
}

-- `ORDER BY updated_at DESC, created_at DESC`; a stable sort of the reversed rows adds `rowid DESC`.
abbrev later : Row → Row → Bool
later r q =
    ltb q.updated_at r.updated_at || q.updated_at == r.updated_at && ltb q.created_at r.created_at

-- The finished rows that were last written before the time.
abbrev pub is_expired : ℕ → Row → Bool
is_expired time r = is_finished r.state && ltb r.updated_at time

-- The rows of the sub-query of `DELETE`.
unfoldable pub doomed_rows : ℕ → ℕ → List Row → List Row
doomed_rows time limit rows = take limit (sort_by before (select (is_expired time) rows))

abbrev pub is_doomed : List Row → Bytes → Bool
is_doomed doomed id = any (λ d. bytes_eq d.id id) doomed

unfoldable pub kept_rows : List Row → List Row → List Row
kept_rows doomed rows = select (λ r. not (is_doomed doomed r.id)) rows

module _ (fault : ℕ → Bool) where
  -- `CommittedOperations`
  unfoldable pub committed_operations : ℕ → Store → Option (List Transaction) × Store
  committed_operations limit store =
      let counted = record store { statements = store.statements + 1 } in
      let rows = select (λ r. state_eq r.state committed) store.rows in
      if ltb limit 1 || ltb 1000 limit
      then (none, store)
      else if fault store.statements
      then (none, counted)
      else (scan_all (take limit (sort_by later (reverse rows))), counted)

  -- `DeleteFinishedOperationsBefore`: the number of rows that are deleted, or an error.
  unfoldable pub delete_finished : ℕ → ℕ → Store → Result StoreError ℕ × Store
  delete_finished time limit store =
      let counted = record store { statements = store.statements + 1 } in
      let doomed = doomed_rows (time / second) limit store.rows in
      if ltb limit 1 || ltb 10000 limit
      then (err out_of_limits, store)
      else if fault store.statements
      then (err statement_failed, counted)
      else (ok (length doomed), record counted { rows = kept_rows doomed store.rows })
