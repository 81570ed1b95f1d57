-- ===== src/Nat/Executor/Recovered.antt =====
-- What recovery makes of one unfinished operation.
use egress_manager.Base.{
  ◌≡◌, refl, ◌∙◌, ap, Option, some, Bytes, lit, bytes_eq, true, false, ◌⊎◌, inl, inr, bytes_eq→eq,
  false,
}
use egress_manager.Effect.{Result, ok, err}
use egress_manager.Domain.Transaction.{
  Transaction, TransactionState, prepared, validated, applying, verifying, rolling_back,
  rolled_back, failed, committed, other,
}
use egress_manager.Nat.Plan.{NatError}
use egress_manager.Nat.Executor.{World, Executor, Act, transition}
use egress_manager.Nat.Executor.Recovery.{resolve, recover_one}
use egress_manager.Nat.Executor.Contract.{
  NftContract, state_of, transition-ok, transition-err, transition-host,
}
use egress_manager.Nat.Executor.Restore.{Holds}
use egress_manager.Journal.Outcome.{IsErr, IsPending}
use egress_manager.Nat.Executor.Rollback.{Rolled, rollback-Rolled, restoring-Rolled}

-- The journal lists the operation as unfinished: nothing was applied yet.
abbrev pub IsWaiting : TransactionState → Type 0
IsWaiting prepared = Unit
IsWaiting validated = Unit
IsWaiting _ = ⊥

module _ {H J : Type 0} (e : Executor H J) (family table : Bytes) (owned : H → Option Bytes)
    (nft : NftContract e family table owned) where
  -- How the recovery of an operation found in the state `from` can end; `now` is the table before
  -- the recovery, `o` the table before the operation.
  pub data Recovered (from : TransactionState) (o now : Option Bytes) (operation : Transaction)
      (r : Result NatError (Unit {0})) (w : World H J) : Type 0 where
    abandoned :
        IsWaiting from
        → r ≡ ok tt
        → state_of e operation.id w ≡ some failed
        → owned w.host ≡ now
        → Recovered from o now operation r w
    deferred :
        IsWaiting from
        → IsErr r
        → state_of e operation.id w ≡ some from
        → owned w.host ≡ now
        → Recovered from o now operation r w
    resolved :
        IsPending from
        → Rolled e family table owned nft operation o r w
        → Recovered from o now operation r w

  abandon :
      (operation : Transaction) (from : TransactionState) (detail : Bytes) (o : Option Bytes)
      (w : World H J)
      → IsWaiting from
      → state_of e operation.id w ≡ some from
      → let m = transition e operation.id from failed detail in
        Recovered from o (owned w.host) operation (m w).0 (m w).1
  abandon operation from detail o w i s =
      marked (transition e operation.id from failed detail w).0 refl
    where
      host : owned (transition e operation.id from failed detail w).1.host ≡ owned w.host
      host = ap owned (transition-host e operation.id from failed detail w)

      marked :
          (r : Result NatError (Unit {0}))
          → (transition e operation.id from failed detail w).0 ≡ r
          → Recovered from o
              (owned w.host)
              operation
              r
              (transition e operation.id from failed detail w).1
      marked (ok _) h = abandoned i refl (transition-ok e operation.id from failed detail w h) host
      marked (err y) h =
          deferred i tt (transition-err e operation.id from failed detail w y operation.id h ∙ s)
            host

  abbrev IsUnfinished : TransactionState → Type 0
  IsUnfinished s = IsWaiting s ⊎ IsPending s

  resolve-Recovered :
      (operation : Transaction) (from : TransactionState) (o : Option Bytes) (w : World H J)
      → Holds e family table owned nft operation o
      → IsUnfinished from
      → state_of e operation.id w ≡ some from
      → let m = resolve e operation from in
        Recovered from o (owned w.host) operation (m w).0 (m w).1
  unfolding resolve
  resolve-Recovered operation prepared o w h u s =
      abandon operation prepared (lit "interrupted_before_apply") o w tt s
  resolve-Recovered operation validated o w h u s =
      abandon operation validated (lit "interrupted_before_apply") o w tt s
  resolve-Recovered operation applying o w h u s = resolved tt (
      rollback-Rolled e family table owned nft operation o h applying (lit "interrupted_operation")
        w tt s)
  resolve-Recovered operation verifying o w h u s = resolved tt (
      rollback-Rolled e family table owned nft operation o h verifying (lit "interrupted_operation")
        w tt s)
  resolve-Recovered operation rolling_back o w h u s =
      resolved tt
        (restoring-Rolled e family table owned nft operation o h (lit "interrupted_operation") w s)
  resolve-Recovered operation committed o w h (inl i) s = absurd i
  resolve-Recovered operation committed o w h (inr i) s = absurd i
  resolve-Recovered operation rolled_back o w h (inl i) s = absurd i
  resolve-Recovered operation rolled_back o w h (inr i) s = absurd i
  resolve-Recovered operation failed o w h (inl i) s = absurd i
  resolve-Recovered operation failed o w h (inr i) s = absurd i
  resolve-Recovered operation (other t) o w h (inl i) s = absurd i
  resolve-Recovered operation (other t) o w h (inr i) s = absurd i

  -- A turn of `Recover` for an unfinished `nat_apply` entry that holds the snapshot of the table. A
  -- PREPARED or VALIDATED operation becomes FAILED, or stays as it is with an error, and the table
  -- is not touched. An APPLYING, VERIFYING or ROLLING_BACK operation becomes ROLLED_BACK with the
  -- table of the snapshot; or there is an error, and it stays unfinished, since the journal has
  -- refused the last transition, or becomes FAILED with the table as a failed restoration of the
  -- snapshot has left it.
  pub recover_one-Recovered :
      (iptables : Transaction → Act e (Unit {0})) (operation : Transaction) (o : Option Bytes)
      (w : World H J)
      → bytes_eq operation.operation (lit "nat_apply") ≡ true
      → Holds e family table owned nft operation o
      → IsUnfinished operation.state
      → state_of e operation.id w ≡ some operation.state
      → let m = recover_one e iptables operation in
        Recovered operation.state o (owned w.host) operation (m w).0 (m w).1
  unfolding recover_one
  recover_one-Recovered iptables operation o w k h u s =
      rw (other_engine, k, h.opens) (resolve-Recovered operation operation.state o w h u s)
    where
      other_engine : bytes_eq operation.operation (lit "nat_apply_iptables") ≡ false
      other_engine =
          ap (λ name. bytes_eq name (lit "nat_apply_iptables"))
            (bytes_eq→eq operation.operation (lit "nat_apply") k)
