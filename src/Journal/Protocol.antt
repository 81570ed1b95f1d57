-- ===== src/Journal/Protocol.antt =====
-- The steps that the executors of internal/nat and internal/haproxy share: the calls of the
-- journal, `rollback` and `failWithRollback`. What restores the host is an argument. `E` is the
-- executor's type of errors, `refusal` the one that stands for those of the journal, and `both` is
-- `errors.Join`.
use egress_manager.Base.{ℕ, ◌≡◌, refl, Option, some, Bytes, lit, if◌then◌else◌, arith}
use egress_manager.Effect.{Result, ok, err, Step, raise, ignoring, on_error, ◌>>◌}
use egress_manager.Journal.{Journal, World, operation_state}
use egress_manager.Domain.Transaction.{
  Transaction, TransactionState, rolling_back, rolled_back, failed,
}

-- A call of the host.
abbrev pub call : {H J E A R : Type 0} → (H → R × H) → (R → Result E A) → Step (World H J) E A
call f read w = let (r, h) = f w.host in (read r, record w { host = h })

module _ {H J E : Type 0} (log : Journal J) (now : World H J → Option ℕ) (refusal : E)
    (both : E → E → E) where
  abbrev Act : Type 0 → Type 0
  Act A = Step (World H J) E A

  unfoldable pub create_operation : Transaction → Act (Unit {0})
  create_operation operation w =
      let (done, j) = log.create operation w.journal in
      (if done then ok tt else err refusal, record w { journal = j })

  unfoldable pub transition : Bytes → TransactionState → TransactionState → Bytes → Act (Unit {0})
  transition id from to detail w =
      let (done, j) = log.transition id from to (now w) detail w.journal in
      (if done then ok tt else err refusal, record w { journal = j })

  -- The restoration, and the mark of its failure in the journal.
  unfoldable pub restore_or_fail : Bytes → Act (Unit {0}) → Act (Unit {0})
  restore_or_fail id restore =
      on_error restore
        (λ x. do ignoring (transition id rolling_back failed (lit "rollback_failed")); raise x)

  unfoldable pub rollback : Bytes → Act (Unit {0}) → TransactionState → Bytes → Act (Unit {0})
  rollback id restore from detail = do
    transition id from rolling_back detail
    restore_or_fail id restore
    transition id rolling_back rolled_back detail

  -- `return errors.Join(cause, executor.rollback(...))`
  unfoldable pub fail_with_rollback :
      {A : Type 0} → Bytes → Act (Unit {0}) → TransactionState → Bytes → E → Act A
  fail_with_rollback id restore from detail cause = do
    on_error (rollback id restore from detail) (λ x. raise (both cause x))
    raise cause

  -- A failure before the host is touched: its mark is tried, and the error is returned.
  unfoldable pub fail_early : {A : Type 0} → Bytes → TransactionState → Bytes → E → Act A
  fail_early id from detail cause = do ignoring (transition id from failed detail); raise cause

  module _ (id : Bytes) (from to : TransactionState) (detail : Bytes) (w : World H J) where
    pub transition-ok :
        (transition id from to detail w).0 ≡ ok tt
        → operation_state log id (transition id from to detail w).1 ≡ some to
    unfolding transition
    transition-ok h = log.transition_done id from to (now w) detail w.journal (ground arith)

    pub transition-err :
        (x : E) (k : Bytes)
        → (transition id from to detail w).0 ≡ err x
        → operation_state log k (transition id from to detail w).1 ≡ operation_state log k w
    unfolding transition
    transition-err x k h =
        log.transition_refused id from to (now w) detail w.journal k (ground arith)

    pub transition-host : (transition id from to detail w).1.host ≡ w.host
    unfolding transition
    transition-host = refl

  pub create_operation-ok :
      (t : Transaction) (w : World H J)
      → (create_operation t w).0 ≡ ok tt
      → operation_state log t.id (create_operation t w).1 ≡ some t.state
  unfolding create_operation
  create_operation-ok t w h = log.create_done t w.journal (ground arith)

  pub create_operation-err :
      (t : Transaction) (w : World H J) (x : E) (k : Bytes)
      → (create_operation t w).0 ≡ err x
      → operation_state log k (create_operation t w).1 ≡ operation_state log k w
  unfolding create_operation
  create_operation-err t w x k h = log.create_refused t w.journal k (ground arith)

  pub create_operation-host :
      (t : Transaction) (w : World H J) → (create_operation t w).1.host ≡ w.host
  unfolding create_operation
  create_operation-host t w = refl
