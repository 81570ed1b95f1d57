-- ===== src/Nat/Executor.antt =====
-- executor.go, journal.go and rollback.go for the nftables engine: applying a plan, recovering what
-- a crash has left, and rolling a committed operation back. The dependencies are present (the tests
-- for nil are left out), and a context's time limit is one of the ways in which a command fails.
pub mod Contract
pub mod Inspect
pub mod Restore
pub mod Rollback
pub mod Outcome
pub mod Execute
pub mod Recovery
pub mod Undo
pub mod Recovered
pub mod Undone
use egress_manager.Base.{
  ℕ, Bool, true, false, ◌&&◌, ◌||◌, not, Option, none, some, List, [], ◌∷◌, ◌++◌, ltb, leb, ◌==◌,
  if◌then◌else◌, Bytes, lit, bytes_eq, length, any, fields, split_lines, ends_line,
}
use egress_manager.Effect.{
  Result, ok, err, Step, pure, raise, lift, handle, on_error, ignoring, require, ◌>>=◌, ◌>>◌,
}
use egress_manager.System.{Command, CommandResult, Runner}
use egress_manager.Secrets.{Envelope}
use egress_manager.Journal.{Journal}
use egress_manager.Journal.Protocol as Protocol
pub use egress_manager.Journal.{World}
use egress_manager.Domain.Transaction.{
  Transaction, TransactionState, prepared, validated, applying, verifying, committed, rolling_back,
  rolled_back, failed, other,
}
use egress_manager.Nat.Plan.{
  Plan, NatError, invalid_plan, no_requested_change, invalid_owned_table, list_failed,
  snapshot_failed, empty_snapshot, host_state_changed, protect_failed, journal_failed, nft_failed,
  verify_failed, open_failed, not_eligible, protection_inconsistent, invalid_snapshot,
  no_owned_table, both, is_owned_line, validate_executable_plan, owned_table_from_candidate,
}

-- `Executor`, with the codec of the journal's envelopes: `decode` returns those with a nonce and a
-- cipher text.
pub record Executor (H J : Type 0) : Type 0 where
  pub runner : Runner H
  pub log : Journal J
  pub verify : Plan → H → Bool × H
  pub seal : H → Bytes → Bytes → Option Envelope
  pub open_envelope : Bytes → Envelope → Option Bytes
  pub encode : Envelope → Bytes
  pub decode : Bytes → Option Envelope
  pub now : World H J → Option ℕ

abbrev pub absent : Bytes
absent = lit "absent"

-- `natJournalContext`
abbrev pub journal_context : Bytes → Bytes → Bytes
journal_context id purpose = lit "nat/" ++ (id ++ (lit "/" ++ (purpose ++ lit "/v1")))

-- The document that puts a snapshot back.
unfoldable pub rollback_candidate : Bytes → Bytes → Bytes → Bool → Bytes
rollback_candidate family table snapshot current_exists =
    (if current_exists
      then lit "delete table " ++ (family ++ (lit " " ++ (table ++ lit "\n")))
      else [])
    ++ (if bytes_eq snapshot absent
        then []
        else if ends_line snapshot
        then snapshot
        else snapshot ++ lit "\n")

-- A snapshot is of the table that the candidate defines.
abbrev pub same_table : Option (Bytes × Bytes) → Bytes × Bytes → Bool
same_table none owned = false
same_table (some (f, t)) (family, table) = bytes_eq f family && bytes_eq t table

-- `openNFTJournal` on its two opened fields.
unfoldable pub opened_journal :
    Result NatError (Bytes × Bool)
    → Result NatError (Bytes × Bool)
    → Result NatError (Bytes × Bytes × Bool)
opened_journal (err x) c = err x
opened_journal (ok s) (err x) = err x
opened_journal (ok (snapshot, s)) (ok (candidate, c)) =
    if (if s then c else not c)
    then elim (owned_table_from_candidate candidate) [
      | none ↦ err no_owned_table
      | some owned ↦
          if bytes_eq snapshot absent || same_table (owned_table_from_candidate snapshot) owned
          then ok (snapshot, candidate, s)
          else err invalid_snapshot
    ]
    else err protection_inconsistent

-- A command that ran and left with code 0 gives its output.
abbrev pub command_output : Option CommandResult → NatError → Result NatError Bytes
command_output none failure = err failure
command_output (some r) failure = if r.exit_code == 0 then ok r.stdout else err failure

abbrev pub snapshot_text : Option Bytes → Bytes
snapshot_text none = absent
snapshot_text (some s) = s

-- The entry, stamped twice with one reading of the clock.
abbrev pub entry : Bytes → Bytes → Bytes → Bytes → Option ℕ → Transaction
entry id requested_change snapshot candidate now = record {
  id = id;
  operation = lit "nat_apply";
  state = prepared;
  requested_change = requested_change;
  previous_snapshot = snapshot;
  candidate_config = candidate;
  failure_detail = [];
  created_at = now;
  updated_at = now;
}

-- A line `table FAMILY TABLE`, perhaps with more words.
abbrev names_table : Bytes → Bytes → List Bytes → Bool
names_table family table (a ∷ b ∷ c ∷ rest) =
    bytes_eq a (lit "table") && bytes_eq b family && bytes_eq c table
names_table family table _ = false

unfoldable pub lists_table : Bytes → Bytes → Bytes → Bool
lists_table family table stdout =
    any (λ l. names_table family table (fields l)) (split_lines stdout)

abbrev pub is_some : Option Bytes → Bool
is_some none = false
is_some (some s) = true

module _ {H J : Type 0} (e : Executor H J) where
  -- An action of the executor.
  abbrev pub Act : Type 0 → Type 0
  Act A = Step (World H J) NatError A

  unfoldable pub run : Command → NatError → Act Bytes
  run command failure w =
      let (r, h) = e.runner command w.host in (command_output r failure, record w { host = h })

  unfoldable pub run_nft : Bool → Bytes → Act Bytes
  run_nft check candidate =
      run (record { name = lit "nft"; args = arguments; stdin = candidate }) nft_failed
    where
      arguments : List Bytes
      arguments =
          if check then lit "--check" ∷ lit "--file" ∷ lit "-" ∷ [] else lit "--file" ∷ lit "-" ∷ []

  -- `inspectOwnedTablePresence`
  unfoldable pub inspect_presence : Bytes → Bytes → Act Bool
  inspect_presence family table = do
    stdout ←
        run (record { name = lit "nft"; args = lit "list" ∷ lit "tables" ∷ []; stdin = [] })
          list_failed
    pure (lists_table family table stdout)

  -- The listing of a table that is there.
  unfoldable pub snapshot_table : Bytes → Bytes → Act (Option Bytes)
  snapshot_table family table = do
    stdout ←
        run
          (record {
            name = lit "nft";
            args = lit "list" ∷ lit "table" ∷ family ∷ table ∷ [];
            stdin = [];
          })
          snapshot_failed
    require (ltb 0 (length (fields stdout))) empty_snapshot
    pure (some stdout)

  -- The part of `inspect` behind its test of the table's name; `none` is an absent table.
  unfoldable pub inspect_table : Bytes → Bytes → Act (Option Bytes)
  inspect_table family table = do
    present ← inspect_presence family table
    if present then snapshot_table family table else pure none

  -- `inspect`, by the words of the table's name.
  unfoldable pub inspect_words : List Bytes → Act (Option Bytes)
  inspect_words (family ∷ table ∷ []) = do
    require (is_owned_line family table) invalid_owned_table
    inspect_table family table
  inspect_words _ = raise invalid_owned_table

  unfoldable pub inspect : Bytes → Act (Option Bytes)
  inspect owned_table = inspect_words (fields owned_table)

  -- `protectJournal`
  unfoldable pub protect : Bytes → Bytes → Bytes → Act Bytes
  protect id purpose plaintext w = elim (e.seal w.host (journal_context id purpose) plaintext) [
    | none ↦ (err protect_failed, w)
    | some envelope ↦ (ok (e.encode envelope), w)
  ]

  -- `openJournalField`: the plain text, and whether it was protected.
  unfoldable pub open_field : Bytes → Bytes → Bytes → Bool → Result NatError (Bytes × Bool)
  open_field id purpose value allow_legacy = elim (e.decode value) [
    | none ↦ if allow_legacy then ok (value, false) else err not_eligible
    | some envelope ↦ elim (e.open_envelope (journal_context id purpose) envelope) [
      | none ↦ err open_failed
      | some text ↦ ok (text, true)
    ]
  ]

  abbrev pub create_operation : Transaction → Act (Unit {0})
  create_operation = Protocol.create_operation e.log e.now journal_failed both

  -- `transition`, and the calls of `TransitionOperation` that do not go through it
  abbrev pub transition : Bytes → TransactionState → TransactionState → Bytes → Act (Unit {0})
  transition = Protocol.transition e.log e.now journal_failed both

  -- `openNFTJournal`: the snapshot, the candidate, and whether they were protected.
  unfoldable pub open_nft_journal : Transaction → Bool → Result NatError (Bytes × Bytes × Bool)
  open_nft_journal operation allow_legacy =
      opened_journal
        (open_field operation.id (lit "snapshot") operation.previous_snapshot allow_legacy)
        (open_field operation.id (lit "candidate") operation.candidate_config allow_legacy)

  -- The end of `restoreSnapshot`: the document is checked and then loaded.
  unfoldable pub put_back : Bytes → Act (Unit {0})
  put_back document =
      if length document == 0
      then pure tt
      else (do run_nft true document; run_nft false document; pure tt)

  -- The part of `restoreSnapshot` behind the opening of the journal.
  unfoldable pub restore_table : Bytes → Bytes → Bytes → Act (Unit {0})
  restore_table snapshot family table = do
    current ← inspect (family ++ (lit " " ++ table))
    if bytes_eq snapshot absent && not (is_some current)
        then pure tt
        else put_back (rollback_candidate family table snapshot (is_some current))

  abbrev pub restore_owned : Bytes → Option (Bytes × Bytes) → Act (Unit {0})
  restore_owned snapshot none = raise no_owned_table
  restore_owned snapshot (some (family, table)) = restore_table snapshot family table

  unfoldable pub restore_snapshot : Transaction → Act (Unit {0})
  restore_snapshot operation = do
    (snapshot, candidate, protected) ← lift (open_nft_journal operation true)
    restore_owned snapshot (owned_table_from_candidate candidate)

  -- `restoreSnapshot`, and the mark of its failure in the journal.
  abbrev pub restore_or_fail : Transaction → Act (Unit {0})
  restore_or_fail operation =
      Protocol.restore_or_fail e.log e.now journal_failed both operation.id
        (restore_snapshot operation)

  abbrev pub rollback : Transaction → TransactionState → Bytes → Act (Unit {0})
  rollback operation =
      Protocol.rollback e.log e.now journal_failed both operation.id (restore_snapshot operation)

  -- `failWithRollback`
  abbrev pub fail_with_rollback :
      {A : Type 0} → Transaction → TransactionState → Bytes → NatError → Act A
  fail_with_rollback operation =
      Protocol.fail_with_rollback e.log e.now journal_failed both operation.id
        (restore_snapshot operation)

  -- A failure before the table is touched.
  abbrev pub fail_early : {A : Type 0} → Transaction → TransactionState → Bytes → NatError → Act A
  fail_early operation = Protocol.fail_early e.log e.now journal_failed both operation.id

  unfoldable pub verify_plan : Plan → Act (Unit {0})
  verify_plan plan w =
      let (passed, h) = e.verify plan w.host in
      (if passed then ok tt else err verify_failed, record w { host = h })

  -- `Execute` from the state APPLYING on.
  unfoldable pub commit_operation : Transaction → Plan → Act (Unit {0})
  commit_operation operation plan = do
    on_error (run_nft false plan.candidate)
        (fail_with_rollback operation applying (lit "apply_failed"))
    on_error (transition operation.id applying verifying [])
        (fail_with_rollback operation applying (lit "journal_transition_failed"))
    on_error (verify_plan plan) (fail_with_rollback operation verifying (lit "verification_failed"))
    on_error (transition operation.id verifying committed [])
        (fail_with_rollback operation verifying (lit "journal_transition_failed"))

  -- `Execute` behind the entry in the journal.
  unfoldable pub apply_operation : Transaction → Plan → Act (Unit {0})
  apply_operation operation plan = do
    on_error (run_nft true plan.candidate)
        (fail_early operation prepared (lit "native_validation_failed"))
    transition operation.id prepared validated []
    on_error (transition operation.id validated applying [])
        (fail_early operation validated (lit "journal_transition_failed"))
    commit_operation operation plan

  -- `Execute` up to the entry in the journal: the entry.
  unfoldable pub prepare_operation : Bytes → Bytes → Plan → Act Transaction
  prepare_operation id requested_change plan = do
    require (validate_executable_plan plan) invalid_plan
    require (ltb 0 (length requested_change)) no_requested_change
    current ← inspect plan.owned_table
    require (if is_some current then plan.table_existed else not plan.table_existed)
        host_state_changed
    snapshot ← protect id (lit "snapshot") (snapshot_text current)
    candidate ← protect id (lit "candidate") plan.candidate
    λ w. pure (entry id requested_change snapshot candidate (e.now w)) w

  -- `Execute`; the other engine's `executeIPTables` is an argument.
  unfoldable pub execute :
      (Bytes → Bytes → Plan → Act (Unit {0})) → Bytes → Bytes → Plan → Act (Unit {0})
  execute execute_iptables id requested_change plan =
      if bytes_eq plan.engine (lit "iptables")
      then execute_iptables id requested_change plan
      else (do
        operation ← prepare_operation id requested_change plan
        create_operation operation
        apply_operation operation plan)
