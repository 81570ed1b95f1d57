-- ===== src/Journal/Outcome.antt =====
-- How applying a plan as a journalled operation can end, and the rules for the steps on the way.
-- `view` is what the operation changes on the host, `o` its value before, and `Done` says what it is
-- when the operation is committed, `Lost` what it is when its rollback has failed.
use egress_manager.Base.{ℕ, false, ◌≡◌, ◌∙◌, ap, Option, some, Bytes}
use egress_manager.Effect.{Result, ok, err, Step}
use egress_manager.Domain.Transaction.{
  TransactionState, prepared, validated, applying, verifying, committed, rolling_back, rolled_back,
  failed,
}
use egress_manager.Journal.{Journal, World, operation_state}

abbrev pub IsErr : {E A : Type 0} → Result E A → Type 0
IsErr (ok a) = ⊥
IsErr (err x) = Unit

-- The plan was not applied, or only checked.
abbrev pub IsEarly : TransactionState → Type 0
IsEarly prepared = Unit
IsEarly validated = Unit
IsEarly failed = Unit
IsEarly _ = ⊥

-- The operation is unfinished, and recovery rolls it back.
abbrev pub IsPending : TransactionState → Type 0
IsPending applying = Unit
IsPending verifying = Unit
IsPending rolling_back = Unit
IsPending _ = ⊥

-- The last call of the journal was a transition of the operation from the state `s`, and the
-- journal refused it.
pub record RefusedFrom {J : Type 0} (log : Journal J) (id : Bytes) (s : TransactionState) (j : J)
    : Type 0 where
  pub to : TransactionState
  pub at : Option ℕ
  pub detail : Bytes
  pub earlier : J
  pub denies : (log.transition id s to at detail earlier).0 ≡ false
  pub left : j ≡ (log.transition id s to at detail earlier).1

module _ {H J : Type 0} (log : Journal J) where
  pub keeps_state :
      (id : Bytes) (w w' : World H J) (s : Option TransactionState)
      → w'.journal ≡ w.journal
      → operation_state log id w ≡ s
      → operation_state log id w' ≡ s
  keeps_state id w w' s j k = ap (λ j. log.state_of id j) j ∙ k

module _ {H J E V : Type 0} (log : Journal J) (view : H → V) where
  -- The view is what the restoration left, which ran in the state ROLLING_BACK and failed.
  pub record RestoreFailed (restore : Step (World H J) E (Unit {0})) (id : Bytes) (v : V)
      : Type 0 where
    pub start : World H J
    pub cause : E
    pub rolling : operation_state log id start ≡ some rolling_back
    pub fails : (restore start).0 ≡ err cause
    pub shows : v ≡ view (restore start).1.host

  pub data Outcome (Done Lost : V → Type 0) (o : V) (id : Bytes) (before : Option TransactionState)
      (r : Result E (Unit {0})) (w : World H J) : Type 0 where
    refused :
        IsErr r
        → operation_state log id w ≡ before
        → view w.host ≡ o
        → Outcome Done Lost o id before r w
    stopped :
        IsErr r
        → (s : TransactionState) → IsEarly s
        → operation_state log id w ≡ some s
        → view w.host ≡ o
        → Outcome Done Lost o id before r w
    done :
        r ≡ ok tt
        → operation_state log id w ≡ some committed
        → Done (view w.host)
        → Outcome Done Lost o id before r w
    restored :
        IsErr r
        → operation_state log id w ≡ some rolled_back
        → view w.host ≡ o
        → Outcome Done Lost o id before r w
    pending :
        IsErr r
        → (s : TransactionState) → IsPending s
        → operation_state log id w ≡ some s
        → RefusedFrom log id s w.journal
        → Outcome Done Lost o id before r w
    lost :
        IsErr r
        → operation_state log id w ≡ some failed
        → Lost (view w.host)
        → Outcome Done Lost o id before r w

  -- How a rollback can end.
  pub data Rolled (restore : Step (World H J) E (Unit {0})) (o : V) (id : Bytes)
      (r : Result E (Unit {0})) (w : World H J) : Type 0 where
    back :
        r ≡ ok tt
        → operation_state log id w ≡ some rolled_back
        → view w.host ≡ o
        → Rolled restore o id r w
    stuck :
        IsErr r
        → (s : TransactionState) → IsPending s
        → operation_state log id w ≡ some s
        → RefusedFrom log id s w.journal
        → Rolled restore o id r w
    gone :
        IsErr r
        → operation_state log id w ≡ some failed
        → RestoreFailed restore id (view w.host)
        → Rolled restore o id r w

  -- A restored host under the state ROLLING_BACK, or the mark of its failure.
  pub data Reset (restore : Step (World H J) E (Unit {0})) (o : V) (id : Bytes)
      (r : Result E (Unit {0})) (w : World H J) : Type 0 where
    reset :
        r ≡ ok tt
        → operation_state log id w ≡ some rolling_back
        → view w.host ≡ o
        → Reset restore o id r w
    broken :
        IsErr r
        → operation_state log id w ≡ some failed
        → RestoreFailed restore id (view w.host)
        → Reset restore o id r w
    unmarked :
        IsErr r
        → operation_state log id w ≡ some rolling_back
        → RefusedFrom log id rolling_back w.journal
        → Reset restore o id r w

  -- What the restoration of `o` has to do.
  pub record Restores (restore : Step (World H J) E (Unit {0})) (o : V) : Type 0 where
    pub keeps : (w : World H J) → (restore w).1.journal ≡ w.journal
    pub restores : (w : World H J) → (restore w).0 ≡ ok tt → view (restore w).1.host ≡ o
