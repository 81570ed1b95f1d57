-- ===== src/Haproxy/Executor/Recovered.antt =====
-- What `Recover` of executor.go makes of one unfinished operation.
use egress_manager.Base.{
  ◌≡◌, refl, ◌∙◌, ap, ◌⊎◌, inl, inr, true, Option, some, Bytes, bytes_eq, lit,
}
use egress_manager.Effect.{Result, ok, err}
use egress_manager.Domain.Transaction.{
  Transaction, TransactionState, prepared, validated, applying, verifying, committed, rolling_back,
  rolled_back, failed, other,
}
use egress_manager.Journal.{World, operation_state}
use egress_manager.Journal.Protocol.{transition-ok, transition-err, transition-host}
use egress_manager.Journal.Outcome.{IsErr, IsPending, Rolled}
use egress_manager.Journal.Rollback.{rollback-Rolled, restoring-Rolled}
use egress_manager.Haproxy.Executor.{Executor, HaproxyError, journal_failed, both, Snapshot}
use egress_manager.Haproxy.Executor.Apply.{
  transition, restore, rollback, resolve, open_snapshot, recover_one,
}
use egress_manager.Haproxy.Executor.Contract.{FilesContract}
use egress_manager.Haproxy.Executor.Files.{shown_by}
use egress_manager.Haproxy.Executor.Restore.{restore-Restores}

-- Nothing was applied yet.
abbrev pub IsWaiting : TransactionState → Type 0
IsWaiting prepared = Unit
IsWaiting validated = Unit
IsWaiting _ = ⊥

abbrev pub IsUnfinished : TransactionState → Type 0
IsUnfinished s = IsWaiting s ⊎ IsPending s

module _ {H J : Type 0} (e : Executor H J) (content : Bytes → H → Option Bytes)
    (files : FilesContract e content) where
  abbrev config : H → Option Bytes
  config h = content e.config_path h

  -- How the recovery of an operation found in the state `from` can end; `now` is the configuration
  -- before the recovery.
  pub data Recovered (from : TransactionState) (snapshot : Snapshot) (now : Option Bytes)
      (id : Bytes) (r : Result HaproxyError (Unit {0})) (w : World H J) : Type 0 where
    abandoned :
        IsWaiting from
        → r ≡ ok tt
        → operation_state e.log id w ≡ some failed
        → config w.host ≡ now
        → Recovered from snapshot now id r w
    deferred :
        IsWaiting from
        → IsErr r
        → operation_state e.log id w ≡ some from
        → config w.host ≡ now
        → Recovered from snapshot now id r w
    resolved :
        IsPending from
        → Rolled e.log config
            (restore e snapshot)
            (shown_by snapshot.exists snapshot.content)
            id
            r
            w
        → Recovered from snapshot now id r w

  module _ (id : Bytes) (snapshot : Snapshot) where
    abandon :
        (from : TransactionState) (detail : Bytes) (w : World H J)
        → IsWaiting from
        → operation_state e.log id w ≡ some from
        → let m = transition e id from failed detail in
          Recovered from snapshot (config w.host) id (m w).0 (m w).1
    abandon from detail w i s = marked (transition e id from failed detail w).0 refl
      where
        host : config (transition e id from failed detail w).1.host ≡ config w.host
        host = ap config (transition-host e.log e.now journal_failed both id from failed detail w)

        marked :
            (r : Result HaproxyError (Unit {0}))
            → (transition e id from failed detail w).0 ≡ r
            → Recovered from snapshot (config w.host) id r (transition e id from failed detail w).1
        marked (ok _) h =
            abandoned i refl
              (transition-ok e.log e.now journal_failed both id from failed detail w h) host
        marked (err y) h =
            deferred i tt
              (transition-err e.log e.now journal_failed both id from failed detail w y id h ∙ s)
              host

    roll_back :
        (from : TransactionState) (w : World H J)
        → IsPending from
        → operation_state e.log id w ≡ some from
        → let m = rollback e id snapshot from (lit "interrupted_operation") in
          Recovered from snapshot (config w.host) id (m w).0 (m w).1
    unfolding rollback
    roll_back from w p s = resolved p (
        rollback-Rolled e.log config e.now journal_failed both id (restore e snapshot)
          (shown_by snapshot.exists snapshot.content) (restore-Restores e content files snapshot)
          from (lit "interrupted_operation") w p s)

    resolve-Recovered :
        (from : TransactionState) (w : World H J)
        → IsUnfinished from
        → operation_state e.log id w ≡ some from
        → let m = resolve e id from snapshot in
          Recovered from snapshot (config w.host) id (m w).0 (m w).1
    unfolding resolve
    resolve-Recovered prepared w u s = abandon prepared (lit "interrupted_before_apply") w tt s
    resolve-Recovered validated w u s = abandon validated (lit "interrupted_before_apply") w tt s
    resolve-Recovered applying w u s = roll_back applying w tt s
    resolve-Recovered verifying w u s = roll_back verifying w tt s
    resolve-Recovered rolling_back w u s = resolved tt (
        restoring-Rolled e.log config e.now journal_failed both id (restore e snapshot)
          (shown_by snapshot.exists snapshot.content) (restore-Restores e content files snapshot)
          (lit "interrupted_operation") w s)
    resolve-Recovered committed w (inl i) s = absurd i
    resolve-Recovered committed w (inr i) s = absurd i
    resolve-Recovered rolled_back w (inl i) s = absurd i
    resolve-Recovered rolled_back w (inr i) s = absurd i
    resolve-Recovered failed w (inl i) s = absurd i
    resolve-Recovered failed w (inr i) s = absurd i
    resolve-Recovered (other t) w (inl i) s = absurd i
    resolve-Recovered (other t) w (inr i) s = absurd i

  -- A turn of `Recover` for an unfinished `haproxy_apply` entry whose snapshot can be opened. A
  -- PREPARED or VALIDATED operation becomes FAILED, or stays as it is with an error, and the
  -- configuration is not touched. An APPLYING, VERIFYING or ROLLING_BACK operation becomes
  -- ROLLED_BACK with the configuration of the snapshot; or there is an error, and it stays
  -- unfinished, since the journal has refused the last transition, or becomes FAILED with the
  -- configuration as a failed restoration of the snapshot has left it.
  pub recover_one-Resolved :
      (operation : Transaction) (snapshot : Snapshot) (w : World H J)
      → bytes_eq operation.operation (lit "haproxy_apply") ≡ true
      → open_snapshot e operation ≡ ok snapshot
      → IsUnfinished operation.state
      → operation_state e.log operation.id w ≡ some operation.state
      → let m = recover_one e operation in
        Recovered operation.state snapshot
          (content e.config_path w.host)
          operation.id
          (m w).0
          (m w).1
  unfolding recover_one
  recover_one-Resolved operation snapshot w k opened u s =
      rw (k, opened) (resolve-Recovered operation.id snapshot operation.state w u s)
