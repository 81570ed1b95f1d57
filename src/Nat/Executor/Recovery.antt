-- ===== src/Nat/Executor/Recovery.antt =====
-- `Recover`: what a crash has left in the journal is resolved when the daemon starts.
use egress_manager.Base.{true, not, none, some, List, [], ◌∷◌, ◌++◌, if◌then◌else◌, lit, bytes_eq}
use egress_manager.Effect.{Result, ok, err, pure, lift, ◌>>◌}
use egress_manager.Domain.Transaction.{
  Transaction, TransactionState, prepared, validated, applying, verifying, rolling_back,
  rolled_back, failed,
}
use egress_manager.Nat.Plan.{NatError, journal_failed}
use egress_manager.Nat.Executor.{
  World, Executor, Act, open_nft_journal, transition, rollback, restore_or_fail,
}

abbrev pub errors_of : Result NatError (Unit {0}) → List NatError
errors_of (ok a) = []
errors_of (err x) = x ∷ []

module _ {H J : Type 0} (e : Executor H J) where
  -- The part of `Recover` behind the opening of the journal.
  unfoldable pub resolve : Transaction → TransactionState → Act e (Unit {0})
  resolve operation prepared =
      transition e operation.id prepared failed (lit "interrupted_before_apply")
  resolve operation validated =
      transition e operation.id validated failed (lit "interrupted_before_apply")
  resolve operation applying = rollback e operation applying (lit "interrupted_operation")
  resolve operation verifying = rollback e operation verifying (lit "interrupted_operation")
  resolve operation rolling_back = do
    restore_or_fail e operation
    transition e operation.id rolling_back rolled_back (lit "interrupted_operation")
  resolve operation _ = pure tt

  -- One turn of the loop of `Recover`; the other engine's `recoverIPTables` is an argument.
  unfoldable pub recover_one : (Transaction → Act e (Unit {0})) → Transaction → Act e (Unit {0})
  recover_one recover_iptables operation =
      if bytes_eq operation.operation (lit "nat_apply_iptables")
      then recover_iptables operation
      else if not (bytes_eq operation.operation (lit "nat_apply"))
      then pure tt
      else (do lift (open_nft_journal e operation true); resolve operation operation.state)

  -- The loop: the errors in order; an error does not end it.
  unfoldable pub recover_each :
      (Transaction → Act e (Unit {0})) → List Transaction → World H J → List NatError × World H J
  recover_each recover_iptables [] w = ([], w)
  recover_each recover_iptables (t ∷ ts) w =
      let (r, w') = recover_one recover_iptables t w in
      let (errors, end) = recover_each recover_iptables ts w' in (errors_of r ++ errors, end)

  unfoldable pub recover : (Transaction → Act e (Unit {0})) → World H J → List NatError × World H J
  recover recover_iptables w =
      let (found, j) = e.log.unfinished 100 w.journal in
      elim found [
        | none ↦ (journal_failed ∷ [], record w { journal = j })
        | some operations ↦ recover_each recover_iptables operations (record w { journal = j })
      ]
