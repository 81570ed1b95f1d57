-- ===== src/Domain/Transaction/Order.antt =====
-- The transition table as a diagram: which states can reach which.
use egress_manager.Base.{ℕ, ◌<◌, ◌≤◌, ◌≡◌, ◌≢◌, ap, true, arith}
use egress_manager.Domain.Transaction.{
  TransactionState, prepared, validated, applying, verifying, committed, rolling_back, rolled_back,
  failed, other, can_transition_to,
}

-- How far an operation has come; every transition goes on.
abbrev pub rank : TransactionState → ℕ
rank prepared = 1
rank validated = 2
rank applying = 3
rank verifying = 4
rank committed = 5
rank rolling_back = 6
rank rolled_back = 7
rank failed = 7
rank (other s) = 0

-- Every allowed transition raises the rank, so no operation comes back to a state it has left.
pub can_transition_to-rank-lt :
    (s t : TransactionState) → can_transition_to s t ≡ true → rank s < rank t
unfolding can_transition_to
can_transition_to-rank-lt s t h = ground arith

infix 40 ◌⟶*◌
pub data ◌⟶*◌ : TransactionState → TransactionState → Type 0 where
  here : {s : TransactionState} → s ⟶* s
  step : {s t u : TransactionState} → s ⟶* t → can_transition_to t u ≡ true → s ⟶* u

abbrev pub MayCommit : TransactionState → Type 0
MayCommit rolled_back = ⊥
MayCommit failed = ⊥
MayCommit rolling_back = ⊥
MayCommit _ = Unit

can_transition_to-MayCommit :
    (s t : TransactionState) → can_transition_to s t ≡ true → MayCommit t → MayCommit s
unfolding can_transition_to
can_transition_to-MayCommit s t h m = ground arith

MayCommit-back : {s t : TransactionState} → s ⟶* t → MayCommit t → MayCommit s
MayCommit-back here m = m
MayCommit-back (step {t} r h) m = MayCommit-back r (can_transition_to-MayCommit _ _ h m)

-- No sequence of allowed transitions leads from an operation that is being rolled back, was rolled
-- back or has failed to a committed one.
pub ⟶*-committed : {s t : TransactionState} → s ⟶* t → t ≡ committed → MayCommit s
⟶*-committed {s} {t} r e = MayCommit-back r (rw e tt)

rank-le : {s t : TransactionState} → s ⟶* t → rank s ≤ rank t
rank-le here = omega arith
rank-le (step {t} {u} r h) = omega (arith, rank-le r, can_transition_to-rank-lt t u h)

-- An operation that goes through transitions and is back in its state has made none.
pub ⟶*-acyclic : {s t u : TransactionState} → s ⟶* t → can_transition_to t u ≡ true → s ≢ u
⟶*-acyclic {s} {t} {u} r h e = omega (arith, rank-le r, can_transition_to-rank-lt t u h, ap rank e)
