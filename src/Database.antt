-- ===== src/Database.antt =====
-- database/operation.go: the table of the operation journal and its statements. SQLite runs a
-- statement as a whole or not at all; `fault n` says that it refuses the statement numbered `n` of
-- the run. Times are stored as seconds, and the rows stand in the order of their insertion.
pub mod Keyed
pub mod Rows
pub mod Ledger
pub mod Clock
pub mod Accounts
pub mod History
pub mod Forwards
use egress_manager.Base.{
  ℕ, ◌+◌, ◌*◌, ◌/◌, ◌^◌, Bool, true, false, ◌&&◌, ◌||◌, not, Option, none, some, List, [], ◌∷◌,
  ◌++◌, ltb, ◌==◌, if◌then◌else◌, Bytes, bytes_eq, length, any, select, take, sort_by,
}
use egress_manager.Domain.Issue.{Issue}
use egress_manager.Domain.Identifier.{validate_id}
use egress_manager.Domain.Transaction.{
  Transaction, TransactionState, prepared, validated, applying, verifying, committed, rolling_back,
  rolled_back, failed, other, state_eq, can_transition_to, validate_transaction,
}

pub record Row : Type 0 where
  pub id : Bytes
  pub operation : Bytes
  pub requested_change : Bytes
  pub previous_snapshot : Bytes
  pub candidate_config : Bytes
  pub state : TransactionState
  pub created_at : ℕ
  pub updated_at : ℕ
  pub failure_detail : Option Bytes

pub record Store : Type 0 where
  pub rows : List Row
  pub statements : ℕ

pub data StoreError : Type 0 where
  invalid conflict statement_failed not_found out_of_limits : StoreError

abbrev pub second : ℕ
second = 10 ^ 9

-- `Unix` of a time that is not the zero time
abbrev seconds : Option ℕ → ℕ
seconds none = 0
seconds (some at) = at / second

abbrev pub is_nil : List Issue → Bool
is_nil [] = true
is_nil (x ∷ xs) = false

abbrev pub row_of : Transaction → Row
row_of t = record {
  id = t.id;
  operation = t.operation;
  requested_change = t.requested_change;
  previous_snapshot = t.previous_snapshot;
  candidate_config = t.candidate_config;
  state = t.state;
  created_at = seconds t.created_at;
  updated_at = seconds t.updated_at;
  failure_detail = none;
}

abbrev pub has_id : Bytes → Row → Bool
has_id id r = bytes_eq r.id id

-- `WHERE id = ? AND state = ?`
abbrev pub is_at : Bytes → TransactionState → Row → Bool
is_at id from r = has_id id r && state_eq r.state from

abbrev pub stamp : TransactionState → ℕ → Option Bytes → Row → Row
stamp to at detail r = record r { state = to; updated_at = at; failure_detail = detail }

-- The rows after the update.
unfoldable pub update :
    Bytes → TransactionState → TransactionState → ℕ → Option Bytes → List Row → List Row
update id from to at detail [] = []
update id from to at detail (r ∷ rs) =
    let rest = update id from to at detail rs in
    (if is_at id from r then stamp to at detail r else r) ∷ rest

-- An empty detail is stored as NULL.
abbrev pub stored_detail : Bytes → Option Bytes
stored_detail [] = none
stored_detail (c ∷ cs) = some (c ∷ cs)

abbrev text_of : Option Bytes → Bytes
text_of none = []
text_of (some text) = text

abbrev transaction_of : Row → Transaction
transaction_of r = record {
  id = r.id;
  operation = r.operation;
  state = r.state;
  requested_change = r.requested_change;
  previous_snapshot = r.previous_snapshot;
  candidate_config = r.candidate_config;
  failure_detail = text_of r.failure_detail;
  created_at = some (r.created_at * second);
  updated_at = some (r.updated_at * second);
}

-- `scanOperation` of a row: `none` is its error.
unfoldable pub scan_operation : Row → Option Transaction
scan_operation r =
    if is_nil (validate_transaction (transaction_of r)) then some (transaction_of r) else none

-- The loop over the rows; the first error ends it.
unfoldable pub scan_all : List Row → Option (List Transaction)
scan_all [] = some []
scan_all (r ∷ rs) =
    let rest = scan_all rs in
    elim (scan_operation r) [
      | none ↦ none
      | some t ↦ elim rest [ none ↦ none | some ts ↦ some (t ∷ ts) ]
    ]

abbrev pub is_finished : TransactionState → Bool
is_finished committed = true
is_finished rolled_back = true
is_finished failed = true
is_finished _ = false

-- `ORDER BY updated_at`
abbrev pub before : Row → Row → Bool
before r q = ltb r.updated_at q.updated_at

unfoldable pub find_row : Bytes → List Row → Option Row
find_row id [] = none
find_row id (r ∷ rs) = let rest = find_row id rs in if has_id id r then some r else rest

-- The tests of `TransitionOperation` on its arguments, but for that of the time.
abbrev pub refused : Bytes → TransactionState → TransactionState → Bytes → Bool
refused id from to detail =
    not (is_nil (validate_id id)) || not (can_transition_to from to) || ltb 512 (length detail)

module _ (fault : ℕ → Bool) where
  -- `CreateOperation`: `none` is the nil error.
  unfoldable pub create_operation : Transaction → Store → Option StoreError × Store
  create_operation operation store =
      let counted = record store { statements = store.statements + 1 } in
      if not (is_nil (validate_transaction operation))
      then (some invalid, store)
      else if fault store.statements
      then (some statement_failed, counted)
      else if any (has_id operation.id) store.rows
      then (some conflict, counted)
      else (none, record counted { rows = store.rows ++ row_of operation ∷ [] })

  -- `TransitionOperation`
  unfoldable pub transition_operation :
      Bytes
      → TransactionState
      → TransactionState
      → Option ℕ
      → Bytes
      → Store
      → Option StoreError × Store
  transition_operation id from to none detail store = (some invalid, store)
  transition_operation id from to (some at) detail store =
      let counted = record store { statements = store.statements + 1 } in
      let rows = update id from to (at / second) (stored_detail detail) store.rows in
      if refused id from to detail
      then (some invalid, store)
      else if fault store.statements
      then (some statement_failed, counted)
      else if length (select (is_at id from) store.rows) == 1
      then (none, record counted { rows = rows })
      else (some conflict, record counted { rows = rows })

  -- `Operation`
  unfoldable pub operation : Bytes → Store → Option Transaction × Store
  operation id store =
      let counted = record store { statements = store.statements + 1 } in
      if not (is_nil (validate_id id))
      then (none, store)
      else if fault store.statements
      then (none, counted)
      else (elim (find_row id store.rows) [ none ↦ none | some r ↦ scan_operation r ], counted)

  -- `UnfinishedOperations`
  unfoldable pub unfinished_operations : ℕ → Store → Option (List Transaction) × Store
  unfinished_operations limit store =
      let counted = record store { statements = store.statements + 1 } in
      if ltb limit 1 || ltb 1000 limit
      then (none, store)
      else if fault store.statements
      then (none, counted)
      else (
        scan_all (take limit (sort_by before (select (λ r. not (is_finished r.state)) store.rows))),
        counted,
      )
