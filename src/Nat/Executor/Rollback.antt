-- ===== src/Nat/Executor/Rollback.antt =====
-- How applying a plan can end, and how a rollback gets there.
use egress_manager.Base.{◌≡◌, true, Option, some, Bytes}
use egress_manager.Effect.{Result, ◌>>◌}
use egress_manager.Domain.Transaction.{Transaction, TransactionState, rolling_back, rolled_back}
use egress_manager.Journal.Outcome as Shared
use egress_manager.Journal.Rollback as Steps
use egress_manager.Nat.Plan.{Plan, NatError, journal_failed, both}
use egress_manager.Nat.Executor.{
  World, Executor, Act, transition, restore_snapshot, restore_or_fail, rollback,
}
use egress_manager.Nat.Executor.Contract.{NftContract, state_of, Succeeds, load_file}
use egress_manager.Nat.Executor.Restore.{Holds, restore_snapshot-Restores}

module _ {H J : Type 0} (e : Executor H J) (family table : Bytes) (owned : H → Option Bytes)
    (nft : NftContract e family table owned) where
  -- The listing `v` is what loading the candidate without an error and a verification that passed
  -- have left.
  pub record Applied (plan : Plan) (v : Option Bytes) : Type 0 where
    pub from : H
    pub loads : Succeeds (e.runner (load_file plan.candidate) from).0
    pub passes : (e.verify plan (e.runner (load_file plan.candidate) from).1).0 ≡ true
    pub shows : v ≡ owned (e.verify plan (e.runner (load_file plan.candidate) from).1).1

  -- The listing `v` is what a restoration of `o` that failed has left.
  pub record IsLost (o : Option Bytes) (id : Bytes) (v : Option Bytes) : Type 0 where
    pub operation : Transaction
    pub has_id : operation.id ≡ id
    pub holds : Holds e family table owned nft operation o
    pub failure : Shared.RestoreFailed e.log owned (restore_snapshot e operation) id v

  -- `o` is the table's listing before the operation.
  abbrev pub Outcome :
      Plan
      → Option Bytes
      → Bytes
      → Option TransactionState
      → Result NatError (Unit {0})
      → World H J
      → Type 0
  Outcome plan o id before r w =
      Shared.Outcome e.log owned (Applied plan) (IsLost o id) o id before r w

  abbrev pub Rolled : Transaction → Option Bytes → Result NatError (Unit {0}) → World H J → Type 0
  Rolled operation o r w =
      Shared.Rolled e.log owned (restore_snapshot e operation) o operation.id r w

  module _ (operation : Transaction) (o : Option Bytes)
      (holds : Holds e family table owned nft operation o) where
    pub restoring : Shared.Restores e.log owned (restore_snapshot e operation) o
    restoring = record {
      keeps = λ w. (restore_snapshot-Restores e family table owned nft operation o w holds).0;
      restores = λ w. (restore_snapshot-Restores e family table owned nft operation o w holds).1;
    }

    -- The end of a rollback, from the state ROLLING_BACK.
    pub restoring-Rolled :
        (detail : Bytes) (w : World H J)
        → state_of e operation.id w ≡ some rolling_back
        → let m : Act e (Unit {0}) =
            restore_or_fail e operation
            >> transition e operation.id rolling_back rolled_back detail in
          Rolled operation o (m w).0 (m w).1
    restoring-Rolled =
        Steps.restoring-Rolled e.log owned e.now journal_failed both operation.id
          (restore_snapshot e operation) o restoring

    -- `rollback` from a state in which the plan may have been applied: the table is restored and the
    -- operation marked so, or the operation stays unfinished, or its rollback has failed for good.
    pub rollback-Rolled :
        (from : TransactionState) (detail : Bytes) (w : World H J)
        → Shared.IsPending from
        → state_of e operation.id w ≡ some from
        → let m = rollback e operation from detail in Rolled operation o (m w).0 (m w).1
    rollback-Rolled =
        Steps.rollback-Rolled e.log owned e.now journal_failed both operation.id
          (restore_snapshot e operation) o restoring
