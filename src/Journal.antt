-- ===== src/Journal.antt =====
-- The operation journal as the executors see it (the `Journal` interfaces of internal/nat and its
-- neighbours): its calls, the state of an operation as a view, and what the calls do to the view.
pub mod Protocol
pub mod Outcome
pub mod Rollback
pub mod Guard
use egress_manager.Base.{ℕ, ◌≡◌, ◌≢◌, Bool, true, false, Option, some, List, Bytes}
use egress_manager.Domain.Transaction.{Transaction, TransactionState}

-- `true` is the nil error. A call that fails leaves every operation as it was.
pub record Journal (J : Type 0) : Type 0 where
  pub create : Transaction → J → Bool × J
  pub transition : Bytes → TransactionState → TransactionState → Option ℕ → Bytes → J → Bool × J
  pub unfinished : ℕ → J → Option (List Transaction) × J
  pub state_of : Bytes → J → Option TransactionState
  pub create_done :
      (t : Transaction) (j : J)
      → (create t j).0 ≡ true
      → state_of t.id (create t j).1 ≡ some t.state
  pub create_refused :
      (t : Transaction) (j : J) (k : Bytes)
      → (create t j).0 ≡ false
      → state_of k (create t j).1 ≡ state_of k j
  pub transition_done :
      (id : Bytes) (from to : TransactionState) (at : Option ℕ) (detail : Bytes) (j : J)
      → (transition id from to at detail j).0 ≡ true
      → state_of id (transition id from to at detail j).1 ≡ some to
  pub transition_refused :
      (id : Bytes) (from to : TransactionState) (at : Option ℕ) (detail : Bytes) (j : J) (k : Bytes)
      → (transition id from to at detail j).0 ≡ false
      → state_of k (transition id from to at detail j).1 ≡ state_of k j
  pub transition_other :
      (id : Bytes) (from to : TransactionState) (at : Option ℕ) (detail : Bytes) (j : J) (k : Bytes)
      → k ≢ id
      → state_of k (transition id from to at detail j).1 ≡ state_of k j
  pub unfinished_keeps :
      (limit : ℕ) (j : J) (k : Bytes) → state_of k (unfinished limit j).1 ≡ state_of k j

-- The state of the host and that of the journal.
pub record World (H J : Type 0) : Type 0 where
  pub host : H
  pub journal : J

abbrev pub operation_state :
    {H J : Type 0} → Journal J → Bytes → World H J → Option TransactionState
operation_state log id w = log.state_of id w.journal

abbrev pub journal_of : {H J : Type 0} → World H J → J
journal_of w = w.journal
