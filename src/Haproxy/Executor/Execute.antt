-- ===== src/Haproxy/Executor/Execute.antt =====
-- `Execute` of executor.go from the start, and how it ends.
use egress_manager.Base.{
  ◌≡◌, refl, sym, ◌∙◌, ap, subst, not, Option, some, ◌==◌, Bytes, bytes_eq, length, lit, arith,
}
use egress_manager.Effect.{Result, err, bind_rule, require_rule, require, ◌>>=◌, ◌>>◌}
use egress_manager.Domain.Transaction.{Transaction, TransactionState}
use egress_manager.Journal.{World, operation_state, journal_of}
use egress_manager.Journal.Protocol as Protocol
use egress_manager.Journal.Outcome.{Outcome, refused}
use egress_manager.Haproxy.Parse.{State}
use egress_manager.Haproxy.Plan.{Plan}
use egress_manager.Haproxy.Executor.{
  Executor, Act, HaproxyError, journal_failed, both, bad_paths, invalid_plan, no_requested_change,
  state_changed, Snapshot, inspect_config, paths_valid,
}
use egress_manager.Haproxy.Executor.Apply.{
  apply_operation, protect, entry, executable, start_operation, execute,
}
use egress_manager.Haproxy.Executor.Contract.{FilesContract, at_config, inspect_config-Leaves}
use egress_manager.Haproxy.Executor.Files.{
  journal-Reads, file-Reads, shown_by, inspect_config-shows,
}
use egress_manager.Haproxy.Executor.Restore.{IsLost}
use egress_manager.Haproxy.Executor.Early.{apply_operation-Ends}

module _ {H J : Type 0} (e : Executor H J) (content : Bytes → H → Option Bytes)
    (files : FilesContract e content) (id requested_change : Bytes) (plan : Plan) where
  -- How `Execute` can end, from a configuration `o` and the journal's state `before` of the id.
  abbrev pub Ends :
      Option Bytes → Option TransactionState → Result HaproxyError (Unit {0}) → World H J → Type 0
  Ends o before r w =
      Outcome e.log (λ h. content e.config_path h) (λ c. c ≡ some plan.candidate)
        (IsLost e content files o id) o id before r w

  protect-world : (purpose text : Bytes) (w : World H J) → (protect e id purpose text w).1 ≡ w
  unfolding protect
  protect-world purpose text w = ground arith

  journaled : Snapshot → Bytes → Bytes → Act e (Unit {0})
  journaled previous snapshot candidate = do
    λ w.
        Protocol.create_operation e.log e.now journal_failed both
          (entry id requested_change snapshot candidate (e.now w)) w
    apply_operation e id previous plan.candidate

  journaled-Ends :
      (previous : Snapshot) (snapshot candidate : Bytes) (before : Option TransactionState)
      (w : World H J)
      → operation_state e.log id w ≡ before
      → at_config e content w ≡ shown_by previous.exists previous.content
      → let m = journaled previous snapshot candidate in
        Ends (shown_by previous.exists previous.content) before (m w).0 (m w).1
  unfolding journaled
  journaled-Ends previous snapshot candidate before w s c =
      bind_rule (Ends (shown_by previous.exists previous.content) before) create
        (λ _. apply_operation e id previous plan.candidate) w
        (λ x h.
          refused tt (Protocol.create_operation-err e.log e.now journal_failed both t w x id h ∙ s)
            host)
        (λ _ h.
          apply_operation-Ends e content files id previous plan.candidate before (create w).1
            (Protocol.create_operation-ok e.log e.now journal_failed both t w h) host)
    where
      t : Transaction
      t = entry id requested_change snapshot candidate (e.now w)

      create : Act e (Unit {0})
      create w =
          Protocol.create_operation e.log e.now journal_failed both
            (entry id requested_change snapshot candidate (e.now w)) w

      host : at_config e content (create w).1 ≡ shown_by previous.exists previous.content
      host =
          ap (λ h. content e.config_path h)
            (Protocol.create_operation-host e.log e.now journal_failed both t w)
          ∙ c

  -- A seal changes nothing.
  sealed_then :
      (o : Option Bytes) (purpose text : Bytes) (rest : Bytes → Act e (Unit {0})) (w : World H J)
      → at_config e content w ≡ o
      → let ends = Ends o (operation_state e.log id w) in
        ((v : Bytes) → ends (rest v w).0 (rest v w).1)
        → let m = protect e id purpose text >>= rest in ends (m w).0 (m w).1
  sealed_then o purpose text rest w c good =
      let ends = Ends o (operation_state e.log id w) in
      let same = sym (protect-world purpose text w) in
      bind_rule ends (protect e id purpose text) rest w
        (λ x h. subst (ends (err x)) same (refused tt refl c))
        (λ v h. subst (λ w'. ends (rest v w').0 (rest v w').1) same (good v))

  start_operation-Ends :
      (text : Bytes) (state : State) (w : World H J)
      → at_config e content w ≡ shown_by state.exists text
      → let m = start_operation e id requested_change plan (text, state) in
        Ends (shown_by state.exists text) (operation_state e.log id w) (m w).0 (m w).1
  unfolding start_operation journaled
  start_operation-Ends text state w c =
      require_rule (Ends o before) (bytes_eq state.hash plan.state_hash) state_changed sealing w
        (λ h. refused tt refl c)
        (λ h.
          sealed_then o (lit "snapshot") (e.encode_snapshot previous) sealing_candidate w c
            (λ snapshot.
              sealed_then o (lit "candidate") plan.candidate (journaled previous snapshot) w c
                (λ candidate. journaled-Ends previous snapshot candidate before w refl c)))
    where
      o : Option Bytes
      o = shown_by state.exists text

      before : Option TransactionState
      before = operation_state e.log id w

      previous : Snapshot
      previous = record { exists = state.exists; content = text }

      sealing_candidate : Bytes → Act e (Unit {0})
      sealing_candidate snapshot =
          protect e id (lit "candidate") plan.candidate >>= journaled previous snapshot

      sealing : Act e (Unit {0})
      sealing = protect e id (lit "snapshot") (e.encode_snapshot previous) >>= sealing_candidate

  inspected_Ends :
      (w : World H J)
      → let m = inspect_config e >>= start_operation e id requested_change plan in
        Ends (at_config e content w) (operation_state e.log id w) (m w).0 (m w).1
  inspected_Ends w =
      bind_rule (Ends (at_config e content w) before) (inspect_config e)
        (start_operation e id requested_change plan) w (λ x h. refused tt same_state kept)
        (λ shown h.
          started shown.0 shown.1 (inspect_config-shows e content files w shown.0 shown.1 h))
    where
      before : Option TransactionState
      before = operation_state e.log id w

      after : World H J
      after = (inspect_config e w).1

      kept : at_config e content after ≡ at_config e content w
      kept =
          inspect_config-Leaves e (at_config e content) (file-Reads e content files e.config_path) w

      same_state : operation_state e.log id after ≡ before
      same_state = ap (e.log.state_of id) (inspect_config-Leaves e journal_of (journal-Reads e) w)

      started :
          (text : Bytes) (state : State)
          → at_config e content w ≡ shown_by state.exists text
          → let m = start_operation e id requested_change plan (text, state) in
            Ends (at_config e content w) before (m after).0 (m after).1
      started text state c =
          let m = start_operation e id requested_change plan (text, state) in
          subst (λ o. Ends o before (m after).0 (m after).1) (sym c)
            (subst (λ b. Ends (shown_by state.exists text) b (m after).0 (m after).1) same_state
              (start_operation-Ends text state after (kept ∙ c)))

  -- `Execute` of HAProxy, from any state of the host and of the journal, ends in one of these ways:
  -- with no error, the operation COMMITTED, and the plan's candidate as the configuration; with an
  -- error and the journal's state of the id and the configuration as before; with an error, the
  -- operation PREPARED, VALIDATED or FAILED and the configuration as before; with an error, the
  -- operation ROLLED_BACK and the configuration as before; with an error and the operation
  -- unfinished in APPLYING, VERIFYING or ROLLING_BACK, since the journal has refused the last
  -- transition from that state; or with an error, the operation FAILED and the configuration as a
  -- restoration of the previous one, which ran in ROLLING_BACK and failed, has left it.
  pub execute-Ends :
      (w : World H J)
      → let m = execute e id requested_change plan in
        Ends (at_config e content w) (operation_state e.log id w) (m w).0 (m w).1
  unfolding execute
  execute-Ends w =
      require_rule ends (paths_valid e) bad_paths planning w (λ h. nothing)
        (λ h.
          require_rule ends (executable plan) invalid_plan wanting w (λ h. nothing)
            (λ h.
              require_rule ends (not (length requested_change == 0)) no_requested_change inspecting
                w (λ h. nothing) (λ h. inspected_Ends w)))
    where
      ends : Result HaproxyError (Unit {0}) → World H J → Type 0
      ends = Ends (at_config e content w) (operation_state e.log id w)

      nothing : {x : HaproxyError} → ends (err x) w
      nothing = refused tt refl refl

      inspecting : Act e (Unit {0})
      inspecting = inspect_config e >>= start_operation e id requested_change plan

      wanting : Act e (Unit {0})
      wanting = require (not (length requested_change == 0)) no_requested_change >> inspecting

      planning : Act e (Unit {0})
      planning = require (executable plan) invalid_plan >> wanting
