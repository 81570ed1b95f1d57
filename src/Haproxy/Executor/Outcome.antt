-- ===== src/Haproxy/Executor/Outcome.antt =====
-- `Execute` of executor.go behind the entry of the journal: how it ends, whatever fails on the way.
use egress_manager.Base.{ℕ, ◌≡◌, refl, ◌∙◌, ap, Option, some, [], Bytes, lit}
use egress_manager.Effect.{Result, ok, err, ◌>>=◌, ◌>>◌}
use egress_manager.Effect.Leaves.{Leaves}
use egress_manager.Domain.Transaction.{TransactionState, applying, verifying, committed}
use egress_manager.Journal.{World, operation_state, journal_of}
use egress_manager.Journal.Protocol.{transition-ok, transition-err, transition-host}
use egress_manager.Journal.Outcome.{Outcome, IsPending, keeps_state}
use egress_manager.Journal.Guard as Guard
use egress_manager.Haproxy.Executor.{
  Executor, Act, HaproxyError, journal_failed, both, Snapshot, run, install_temporary, verify,
  reload,
}
use egress_manager.Haproxy.Executor.Apply.{transition, restore, or_rollback, commit_operation}
use egress_manager.Haproxy.Executor.Contract.{FilesContract, file, at_config, verify-Leaves}
use egress_manager.Haproxy.Executor.Files.{
  journal-Reads, file-Reads, shown_by, install_temporary-journal, install_temporary-ok,
}
use egress_manager.Haproxy.Executor.Restore.{IsLost, RestoreFailed-IsLost, restore-Restores}

module _ {H J : Type 0} (e : Executor H J) (content : Bytes → H → Option Bytes)
    (files : FilesContract e content) (id : Bytes) (previous : Snapshot) (candidate : Bytes)
    (before : Option TransactionState) where
  abbrev pub config : H → Option Bytes
  config h = content e.config_path h

  abbrev pub IsCandidate : Option Bytes → Type 0
  IsCandidate o = o ≡ some candidate

  abbrev pub o : Option Bytes
  o = shown_by previous.exists previous.content

  abbrev pub Lost : Option Bytes → Type 0
  Lost = IsLost e content files o id

  abbrev pub Ends : Result HaproxyError (Unit {0}) → World H J → Type 0
  Ends r w = Outcome e.log config IsCandidate Lost o id before r w

  abbrev pub At : TransactionState → World H J → Type 0
  At s w = operation_state e.log id w ≡ some s

  -- A step under the handler that rolls back.
  step :
      (A : Type 0) (m : Act e A) (rest : A → Act e (Unit {0})) (from : TransactionState)
      (detail : Bytes) (w : World H J)
      → IsPending from
      → Leaves journal_of m
      → At from w
      → ((a : A) → (m w).0 ≡ ok a → Ends (rest a (m w).1).0 (rest a (m w).1).1)
      → let n = or_rollback e id previous from detail m >>= rest in Ends (n w).0 (n w).1
  step A m rest from detail w p l s good =
      Guard.guarded e.log config e.now journal_failed both id IsCandidate Lost o before
        (restore e previous) (restore-Restores e content files previous)
        (RestoreFailed-IsLost e content files previous id) A m rest from detail w p
        (λ x h. keeps_state e.log id w (m w).1 (some from) (l w) s) good

  pub moved :
      (from to : TransactionState) (w : World H J)
      → (transition e id from to [] w).0 ≡ ok tt
      → At to (transition e id from to [] w).1
  moved from to w h = transition-ok e.log e.now journal_failed both id from to [] w h

  pub unmoved :
      (from to : TransactionState) (x : HaproxyError) (w : World H J)
      → (transition e id from to [] w).0 ≡ err x
      → At from w
      → At from (transition e id from to [] w).1
  unmoved from to x w h s =
      transition-err e.log e.now journal_failed both id from to [] w x id h ∙ s

  pub host_kept :
      (from to : TransactionState) (w : World H J) → (transition e id from to [] w).1.host ≡ w.host
  host_kept from to w = transition-host e.log e.now journal_failed both id from to [] w

  committing : Act e (Unit {0})
  committing =
      or_rollback e id previous verifying (lit "journal_transition_failed")
        (transition e id verifying committed [])

  checking : Act e (Unit {0})
  unfolding committing
  checking = do
    or_rollback e id previous verifying (lit "verification_failed") (verify e)
    committing

  checking-Ends :
      (w : World H J)
      → At verifying w
      → at_config e content w ≡ some candidate
      → Ends (checking w).0 (checking w).1
  unfolding checking committing
  checking-Ends w s c =
      step (Unit {0}) (verify e) (λ _. committing) verifying (lit "verification_failed") w tt
        (verify-Leaves e journal_of (journal-Reads e)) s
        (λ _ h.
          let w1 = (verify e w).1 in
          Guard.last_transition e.log config e.now journal_failed both id IsCandidate Lost o before
            (restore e previous) (restore-Restores e content files previous)
            (RestoreFailed-IsLost e content files previous id) (lit "journal_transition_failed") w1
            (keeps_state e.log id w w1 (some verifying)
              (verify-Leaves e journal_of (journal-Reads e) w) s)
            (verify-Leaves e (at_config e content) (file-Reads e content files e.config_path) w
              ∙ c))

  starting : Option ℕ → Act e (Unit {0})
  starting pid = do
    or_rollback e id previous applying (lit "reload_failed") (reload e pid)
    or_rollback e id previous applying (lit "journal_transition_failed")
        (transition e id applying verifying [])
    checking

  move_on : Act e (Unit {0})
  move_on = do
    or_rollback e id previous applying (lit "journal_transition_failed")
        (transition e id applying verifying [])
    checking

  move_on-Ends :
      (w : World H J)
      → At applying w
      → at_config e content w ≡ some candidate
      → Ends (move_on w).0 (move_on w).1
  unfolding move_on
  move_on-Ends w s c =
      Guard.guarded e.log config e.now journal_failed both id IsCandidate Lost o before
        (restore e previous) (restore-Restores e content files previous)
        (RestoreFailed-IsLost e content files previous id) (Unit {0})
        (transition e id applying verifying []) (λ _. checking) applying
        (lit "journal_transition_failed") w tt (λ x h. unmoved applying verifying x w h s)
        (λ _ h.
          checking-Ends (transition e id applying verifying [] w).1 (moved applying verifying w h)
            (ap config (host_kept applying verifying w) ∙ c))

  starting-Ends :
      (pid : Option ℕ) (w : World H J)
      → At applying w
      → at_config e content w ≡ some candidate
      → Ends (starting pid w).0 (starting pid w).1
  unfolding starting move_on reload run
  starting-Ends pid w s c =
      step (Unit {0}) (reload e pid) (λ _. move_on) applying (lit "reload_failed") w tt (λ w. refl)
        s (λ _ h. move_on-Ends (reload e pid w).1 s (files.reload_keeps pid w.host ∙ c))

  pub commit_operation-Ends :
      (pid : Option ℕ) (f : Bytes) (w : World H J)
      → At applying w
      → file e content f w ≡ some candidate
      → let m = commit_operation e id previous pid f in Ends (m w).0 (m w).1
  unfolding commit_operation starting checking committing
  commit_operation-Ends pid f w s c =
      step (Unit {0}) (install_temporary e f) (λ _. starting pid) applying
        (lit "config_install_failed") w tt (install_temporary-journal e f) s
        (λ _ h.
          let w1 = (install_temporary e f w).1 in
          starting-Ends pid w1
            (keeps_state e.log id w w1 (some applying) (install_temporary-journal e f w) s)
            (install_temporary-ok e content files f w h ∙ c))
