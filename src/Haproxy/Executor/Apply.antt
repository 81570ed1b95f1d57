-- ===== src/Haproxy/Executor/Apply.antt =====
-- executor.go: `Execute`, `restore` and `Recover`; rollback.go: `RollbackCommitted`.
use egress_manager.Base.{
  ℕ, Bool, true, false, ◌&&◌, not, Option, none, some, List, [], ◌∷◌, ◌++◌, ltb, ◌==◌,
  if◌then◌else◌, Bytes, lit, bytes_eq, has_prefix, length,
}
use egress_manager.Effect.{
  Result, ok, err, pure, raise, lift, on_error, finally, require, ◌>>=◌, ◌>>◌,
}
use egress_manager.Secrets.{Envelope}
use egress_manager.Journal.{World}
use egress_manager.Journal.Protocol as Protocol
use egress_manager.Domain.Transaction.{
  Transaction, TransactionState, prepared, validated, applying, verifying, committed, rolling_back,
  rolled_back, failed,
}
use egress_manager.Haproxy.Text.{maximum_candidate, has_byte}
use egress_manager.Haproxy.Parse.{State}
use egress_manager.Haproxy.Plan.{Plan}
use egress_manager.Haproxy.Executor.{
  HaproxyError, bad_paths, invalid_plan, no_requested_change, state_changed, protect_failed,
  journal_failed, open_failed, bad_snapshot, not_eligible, both, Snapshot, Executor, Act,
  owned_line, journal_context, check_config, terminate, paths_valid, file_call, run, parsed,
  inspect_config, write_temporary, install_temporary, remove_owned, read_pid, verify, reload,
}

-- `validateExecutablePlan`: `true` is the nil error.
abbrev pub executable : Plan → Bool
executable plan =
    bytes_eq plan.engine (lit "haproxy")
    && not (length plan.state_hash == 0)
    && not (length plan.candidate == 0)
    && not (ltb maximum_candidate (length plan.candidate))
    && has_prefix plan.candidate owned_line
    && not (has_byte 0 plan.candidate)

-- The entry, stamped twice with one reading of the clock.
abbrev pub entry : Bytes → Bytes → Bytes → Bytes → Option ℕ → Transaction
entry id requested_change snapshot candidate now = record {
  id = id;
  operation = lit "haproxy_apply";
  state = prepared;
  requested_change = requested_change;
  previous_snapshot = snapshot;
  candidate_config = candidate;
  failure_detail = [];
  created_at = now;
  updated_at = now;
}

abbrev pub errors_of : Result HaproxyError (Unit {0}) → List HaproxyError
errors_of (ok a) = []
errors_of (err x) = x ∷ []

abbrev pub is_committed : TransactionState → Bool
is_committed committed = true
is_committed _ = false

-- The error of a test of the host, which is told as a change of its state
abbrev pub is_current : Bytes → Result HaproxyError (Bytes × State) → Bool
is_current candidate (err x) = false
is_current candidate (ok (content, state)) = state.exists && bytes_eq content candidate

module _ {H J : Type 0} (e : Executor H J) where
  abbrev pub transition : Bytes → TransactionState → TransactionState → Bytes → Act e (Unit {0})
  transition = Protocol.transition e.log e.now journal_failed both

  -- The file is checked and put in its place, and the instance takes it.
  unfoldable pub reinstall : Option ℕ → Bytes → Act e (Unit {0})
  reinstall pid file = do
    run e (check_config file)
    install_temporary e file
    reload e pid
    verify e

  abbrev pub put_file : Option ℕ → Bytes → Act e (Unit {0})
  put_file pid file = finally (reinstall pid file) (file_call e (e.os.remove file))

  unfoldable pub put_back : Bytes → Option ℕ → Act e (Unit {0})
  put_back content pid = write_temporary e content >>= put_file pid

  abbrev pub terminate_old : Option ℕ → Act e (Unit {0})
  terminate_old none = pure tt
  terminate_old (some pid) = run e (terminate pid)

  unfoldable pub take_away : Option ℕ → Act e (Unit {0})
  take_away pid = do remove_owned e; terminate_old pid

  abbrev pub restore_from : Snapshot → Option ℕ → Act e (Unit {0})
  restore_from snapshot pid =
      if snapshot.exists then put_back snapshot.content pid else take_away pid

  unfoldable pub restore : Snapshot → Act e (Unit {0})
  restore snapshot = do
    lift (parsed e snapshot.content snapshot.exists)
    pid ← read_pid e
    restore_from snapshot pid

  unfoldable pub rollback : Bytes → Snapshot → TransactionState → Bytes → Act e (Unit {0})
  rollback id previous from detail =
      Protocol.rollback e.log e.now journal_failed both id (restore previous) from detail

  -- `failWithRollback`
  abbrev pub or_rollback :
      {A : Type 0} → Bytes → Snapshot → TransactionState → Bytes → Act e A → Act e A
  or_rollback id previous from detail m = on_error m (
      Protocol.fail_with_rollback e.log e.now journal_failed both id (restore previous) from detail)

  -- A failure that is marked in the journal.
  abbrev pub or_fail : {A : Type 0} → Bytes → TransactionState → Bytes → Act e A → Act e A
  or_fail id from detail m =
      on_error m (Protocol.fail_early e.log e.now journal_failed both id from detail)

  -- `Execute` from the state APPLYING on.
  unfoldable pub commit_operation : Bytes → Snapshot → Option ℕ → Bytes → Act e (Unit {0})
  commit_operation id previous pid file = do
    or_rollback id previous applying (lit "config_install_failed") (install_temporary e file)
    or_rollback id previous applying (lit "reload_failed") (reload e pid)
    or_rollback id previous applying (lit "journal_transition_failed")
        (transition id applying verifying [])
    or_rollback id previous verifying (lit "verification_failed") (verify e)
    or_rollback id previous verifying (lit "journal_transition_failed")
        (transition id verifying committed [])

  -- `Execute` behind the temporary file.
  unfoldable pub apply_file : Bytes → Snapshot → Bytes → Act e (Unit {0})
  apply_file id previous file = do
    or_fail id prepared (lit "native_validation_failed") (run e (check_config file))
    transition id prepared validated []
    pid ← or_fail id validated (lit "pid_inspection_failed") (read_pid e)
    or_fail id validated (lit "journal_transition_failed") (transition id validated applying [])
    commit_operation id previous pid file

  -- `Execute` behind the entry of the journal.
  unfoldable pub apply_operation : Bytes → Snapshot → Bytes → Act e (Unit {0})
  apply_operation id previous candidate = do
    file ← or_fail id prepared (lit "candidate_write_failed") (write_temporary e candidate)
    finally (apply_file id previous file) (file_call e (e.os.remove file))

  -- `protectJournal`
  unfoldable pub protect : Bytes → Bytes → Bytes → Act e Bytes
  protect id purpose plaintext w = elim (e.seal w.host (journal_context id purpose) plaintext) [
    | none ↦ (err protect_failed, w)
    | some envelope ↦ (ok (e.encode envelope), w)
  ]

  -- `Execute` behind the inspection of the configuration.
  unfoldable pub start_operation : Bytes → Bytes → Plan → Bytes × State → Act e (Unit {0})
  start_operation id requested_change plan (content, state) = do
    require (bytes_eq state.hash plan.state_hash) state_changed
    let previous : Snapshot = record { exists = state.exists; content = content }
    snapshot ← protect id (lit "snapshot") (e.encode_snapshot previous)
    candidate ← protect id (lit "candidate") plan.candidate
    λ w.
        Protocol.create_operation e.log e.now journal_failed both
          (entry id requested_change snapshot candidate (e.now w)) w
    apply_operation id previous plan.candidate

  unfoldable pub execute : Bytes → Bytes → Plan → Act e (Unit {0})
  execute id requested_change plan = do
    require (paths_valid e) bad_paths
    require (executable plan) invalid_plan
    require (not (length requested_change == 0)) no_requested_change
    inspected ← inspect_config e
    start_operation id requested_change plan inspected

  abbrev pub checked_snapshot : Option Snapshot → Result HaproxyError Snapshot
  checked_snapshot none = err bad_snapshot
  checked_snapshot (some s) = elim (parsed e s.content s.exists) [ ok state ↦ ok s | err x ↦ err x ]

  -- `openProtectedSnapshot`
  abbrev pub open_protected : Transaction → Envelope → Result HaproxyError Snapshot
  open_protected operation envelope =
      elim (e.open_envelope (journal_context operation.id (lit "snapshot")) envelope) [
        | none ↦ err open_failed
        | some plaintext ↦ checked_snapshot (e.decode_snapshot plaintext)
      ]

  -- `openRecoverySnapshot`
  unfoldable pub open_snapshot : Transaction → Result HaproxyError Snapshot
  open_snapshot operation = elim (e.decode operation.previous_snapshot) [
    | some envelope ↦ open_protected operation envelope
    | none ↦ checked_snapshot (e.decode_snapshot operation.previous_snapshot)
  ]

  -- The part of the loop of `Recover` behind the opening of the snapshot.
  unfoldable pub resolve : Bytes → TransactionState → Snapshot → Act e (Unit {0})
  resolve id prepared snapshot = transition id prepared failed (lit "interrupted_before_apply")
  resolve id validated snapshot = transition id validated failed (lit "interrupted_before_apply")
  resolve id applying snapshot = rollback id snapshot applying (lit "interrupted_operation")
  resolve id verifying snapshot = rollback id snapshot verifying (lit "interrupted_operation")
  resolve id rolling_back snapshot = do
    Protocol.restore_or_fail e.log e.now journal_failed both id (restore snapshot)
    transition id rolling_back rolled_back (lit "interrupted_operation")
  resolve id _ snapshot = pure tt

  unfoldable pub recover_one : Transaction → Act e (Unit {0})
  recover_one operation =
      if not (bytes_eq operation.operation (lit "haproxy_apply")) then pure tt else (do
        snapshot ← lift (open_snapshot operation)
        resolve operation.id operation.state snapshot)

  -- The loop: the errors in order; an error does not end it.
  unfoldable pub recover_each : List Transaction → World H J → List HaproxyError × World H J
  recover_each [] w = ([], w)
  recover_each (t ∷ ts) w =
      let (r, w') = recover_one t w in
      let (errors, end) = recover_each ts w' in (errors_of r ++ errors, end)

  unfoldable pub recover : World H J → List HaproxyError × World H J
  recover w =
      let (found, j) = e.log.unfinished 100 w.journal in
      if not (paths_valid e) then (bad_paths ∷ [], w) else elim found [
        | none ↦ (journal_failed ∷ [], record w { journal = j })
        | some operations ↦ recover_each operations (record w { journal = j })
      ]

  abbrev pub checked_candidate : Option Bytes → Result HaproxyError Bytes
  checked_candidate none = err open_failed
  checked_candidate (some candidate) = elim (parsed e candidate true) [
    | ok state ↦ ok candidate
    | err x ↦ err x
  ]

  -- `openProtectedCandidate`
  unfoldable pub open_candidate : Transaction → Result HaproxyError Bytes
  open_candidate operation = elim (e.decode operation.candidate_config) [
    | none ↦ err bad_snapshot
    | some envelope ↦
        checked_candidate
          (e.open_envelope (journal_context operation.id (lit "candidate")) envelope)
  ]

  -- `validateSnapshotNative`
  unfoldable pub validate_native : Snapshot → Act e (Unit {0})
  validate_native snapshot = if not snapshot.exists then pure tt else (do
    file ← write_temporary e snapshot.content
    finally (run e (check_config file)) (file_call e (e.os.remove file)))

  -- An inspection that fails or shows something else
  unfoldable pub require_current : Bytes → Act e (Unit {0})
  require_current candidate w =
      let (r, w') = inspect_config e w in
      (if is_current candidate r then ok tt else err state_changed, w')

  -- `RollbackCommitted` behind the opening of the journal
  unfoldable pub undo_committed : Bytes → Snapshot → Bytes → Act e (Unit {0})
  undo_committed id snapshot candidate = do
    require_current candidate
    on_error (verify e) (λ x. raise state_changed)
    validate_native snapshot
    transition id committed rolling_back (lit "operator_requested")
    restore snapshot
    transition id rolling_back rolled_back (lit "operator_requested")

  abbrev pub protected_snapshot : Transaction → Option Envelope → Result HaproxyError Snapshot
  protected_snapshot operation none = err not_eligible
  protected_snapshot operation (some envelope) = open_protected operation envelope

  unfoldable pub rollback_committed : Transaction → Act e (Unit {0})
  rollback_committed operation = do
    require (paths_valid e) bad_paths
    require (bytes_eq operation.operation (lit "haproxy_apply") && is_committed operation.state)
        not_eligible
    snapshot ← lift (protected_snapshot operation (e.decode operation.previous_snapshot))
    candidate ← lift (open_candidate operation)
    undo_committed operation.id snapshot candidate
