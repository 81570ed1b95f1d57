-- ===== src/Domain/Transaction.antt =====
-- transaction.go: the states of a journalled operation and the allowed transitions. A time is the
-- option of a number of nanoseconds since the epoch of the host's clock, `none` the zero time.
pub mod Order
use egress_manager.Base.{
  ℕ, Bool, true, false, ◌&&◌, ◌||◌, Option, none, some, List, [], ◌∷◌, ◌++◌, ltb, ◌==◌,
  if◌then◌else◌, Bytes, bytes_eq, length,
}
use egress_manager.Domain.Issue.{
  Issue, issue_if, join_errors, bad_state, no_requested_change, no_snapshot, no_candidate,
  no_timestamps, update_precedes_creation, long_failure_detail,
}
use egress_manager.Domain.Identifier.{validate_id, validate_config_name}

-- A state is a string; `other` holds what is none of the eight constants.
pub data TransactionState : Type 0 where
  prepared validated applying verifying : TransactionState
  committed rolling_back rolled_back failed : TransactionState
  other : Bytes → TransactionState

-- `==` on states
unfoldable pub state_eq : TransactionState → TransactionState → Bool
state_eq prepared prepared = true
state_eq validated validated = true
state_eq applying applying = true
state_eq verifying verifying = true
state_eq committed committed = true
state_eq rolling_back rolling_back = true
state_eq rolled_back rolled_back = true
state_eq failed failed = true
state_eq (other s) (other t) = bytes_eq s t
state_eq _ _ = false

unfoldable pub validate_state : TransactionState → List Issue
validate_state (other s) = bad_state ∷ []
validate_state _ = []

-- `transactionTransitions` and the look-up in it
unfoldable pub can_transition_to : TransactionState → TransactionState → Bool
can_transition_to prepared validated = true
can_transition_to prepared rolling_back = true
can_transition_to prepared failed = true
can_transition_to validated applying = true
can_transition_to validated rolling_back = true
can_transition_to validated failed = true
can_transition_to applying verifying = true
can_transition_to applying rolling_back = true
can_transition_to applying failed = true
can_transition_to verifying committed = true
can_transition_to verifying rolling_back = true
can_transition_to verifying failed = true
can_transition_to committed rolling_back = true
can_transition_to rolling_back rolled_back = true
can_transition_to rolling_back failed = true
can_transition_to _ _ = false

pub record Transaction : Type 0 where
  pub id : Bytes
  pub operation : Bytes
  pub state : TransactionState
  pub requested_change : Bytes
  pub previous_snapshot : Bytes
  pub candidate_config : Bytes
  pub failure_detail : Bytes
  pub created_at : Option ℕ
  pub updated_at : Option ℕ

-- `IsZero` and `Before`
abbrev timestamps : Option ℕ → Option ℕ → List Issue
timestamps none updated = no_timestamps ∷ []
timestamps (some created) none = no_timestamps ∷ []
timestamps (some created) (some updated) = issue_if (ltb updated created) update_precedes_creation

unfoldable pub validate_transaction : Transaction → List Issue
validate_transaction t = join_errors (
    validate_id t.id
    ∷ validate_config_name t.operation
    ∷ validate_state t.state
    ∷ issue_if (length t.requested_change == 0) no_requested_change
    ∷ issue_if (length t.previous_snapshot == 0) no_snapshot
    ∷ issue_if (length t.candidate_config == 0) no_candidate
    ∷ timestamps t.created_at t.updated_at
    ∷ issue_if (ltb 512 (length t.failure_detail)) long_failure_detail
    ∷ [])
