-- ===== src/Scenarios/Storing.antt =====
-- The journal's table, the transitions and the cipher at concrete values.
use egress_manager.Base.{
  List, ◌+◌, ℕ, ◌<◌, ◌≤◌, ◌≡◌, refl, true, false, not, Option, none, some, [], ◌∷◌, Bytes, lit,
  length, select, arith,
}
use egress_manager.Secrets.{Aead, seal, open_envelope, open_envelope-seal}
use egress_manager.Domain.Identifier.{matches_id, validate_id}
use egress_manager.Domain.Transaction.{
  prepared, validated, applying, verifying, committed, rolling_back, can_transition_to, state_eq,
}
use egress_manager.Domain.Transaction.Order.{
  rank, ◌⟶*◌, here, step, MayCommit, can_transition_to-rank-lt, ⟶*-committed,
}
use egress_manager.Database.{
  Store, transition_operation, unfinished_operations, find_row, update, is_finished, refused,
}
use egress_manager.Database.Rows.{IsUnique}
use egress_manager.Database.Ledger.{Moved, transition_operation-Moved}
use egress_manager.Database.History.Refines.{
  Call, transition, clean, list_unfinished, Refines, view, after_calls, after_calls-Refines,
}
use egress_manager.Database.Clock.{transition_operation-stale}
use egress_manager.Reliability.{RecoveryStep, run_steps}
use egress_manager.Reliability.Report.{Ran, run_steps-Ran}
use egress_manager.Scenarios.{no_fault, row}

abbrev store : Store
store = record {
  rows = row (lit "op1") applying 5 5 ∷ row (lit "op2") prepared 9 9 ∷ [];
  statements = 0;
}

store-IsUnique : IsUnique store.rows
store-IsUnique = ((refl, tt), (tt, tt))

transition_operation-Moved_example :
    Moved no_fault
      (lit "op2")
      prepared
      validated
      store
      (transition_operation no_fault (lit "op2") prepared validated (some 7000000000) [] store)
transition_operation-Moved_example =
    transition_operation-Moved no_fault (lit "op2") prepared validated (some 7000000000) [] store
      store-IsUnique

-- The second operation is moved on and the first is not forgotten.
abbrev calls : List Call
calls =
    transition (lit "op2") prepared validated (some 9000000000) []
    ∷ clean 100000000000 10
    ∷ list_unfinished 10
    ∷ []

after_calls-Refines_example :
    Refines calls (view store) (view (after_calls no_fault calls store))
    × IsUnique (after_calls no_fault calls store).rows
after_calls-Refines_example = after_calls-Refines no_fault calls store store-IsUnique

found_second : find_row (lit "op2") store.rows ≡ some (row (lit "op2") prepared 9 9)
unfolding find_row
found_second = refl

op2_allowed : refused (lit "op2") prepared validated [] ≡ false
unfolding validate_id matches_id can_transition_to
op2_allowed = refl

op2_at : state_eq prepared prepared ≡ true
unfolding state_eq
op2_at = refl

few :
    length (
      select
        (λ q. not (is_finished q.state))
        (transition_operation no_fault
          (lit "op2")
          prepared
          validated
          (some 7000000000)
          []
          store).1.rows)
    ≤ 100
unfolding transition_operation update validate_id matches_id can_transition_to state_eq
few = omega arith

-- Seven seconds after the epoch the operation of the ninth second is moved on.
transition_operation-stale_example :
    let r =
      transition_operation no_fault (lit "op2") prepared validated (some 7000000000) [] store in
    (r.0 ≡ none) × ((unfinished_operations no_fault 100 r.1).0 ≡ none)
transition_operation-stale_example =
    transition_operation-stale no_fault (lit "op2") prepared validated 7000000000 [] store
      (row (lit "op2") prepared 9 9) store-IsUnique found_second op2_at op2_allowed refl refl refl
      100 few

up : can_transition_to applying rolling_back ≡ true
unfolding can_transition_to
up = refl

can_transition_to-rank-lt_example : rank applying < rank rolling_back
can_transition_to-rank-lt_example = can_transition_to-rank-lt applying rolling_back up

may_commit : validated ⟶* committed
unfolding can_transition_to
may_commit = step {t = verifying} (step {t = applying} (step {t = validated} here refl) refl) refl

⟶*-committed_example : MayCommit validated
⟶*-committed_example = ⟶*-committed may_commit refl

-- A cipher that appends the context's length.
toy : Aead
toy = record {
  nonce_size = 1;
  overhead = 1;
  gcm_seal = λ nonce text context. 0 ∷ text;
  gcm_open = λ nonce text context. opened text;
  open-seal = λ nonce text context. refl;
  length-seal = λ nonce text context. omega arith;
}
  where
    opened : Bytes → Option Bytes
    opened [] = none
    opened (c ∷ text) = some text

toy_size : length {A = ℕ} (7 ∷ []) ≡ toy.nonce_size
unfolding toy
toy_size = refl

toy_sealed :
    seal toy (some (7 ∷ [])) (lit "nat") (lit "abc")
    ≡ some (record { nonce = 7 ∷ []; ciphertext = 0 ∷ lit "abc" })
unfolding seal toy
toy_sealed = refl

open_envelope-seal_example :
    open_envelope toy (lit "nat") (record { nonce = 7 ∷ []; ciphertext = 0 ∷ lit "abc" })
    ≡ some (lit "abc")
open_envelope-seal_example =
    open_envelope-seal toy (some (7 ∷ [])) (lit "nat") (lit "abc")
      (record { nonce = 7 ∷ []; ciphertext = 0 ∷ lit "abc" }) toy_size toy_sealed

-- Two steps of which the second fails, on a clock that counts.
abbrev recovery : List (RecoveryStep ℕ)
recovery =
    (record { component = lit "nat"; recover = λ w. (true, w) })
    ∷ (record { component = lit "haproxy"; recover = λ w. (false, w) })
    ∷ []

run_steps-Ran_example :
    let now : ℕ → ℕ × ℕ = λ w. (w, w + 1) in
    Ran now (λ w. false) recovery 0 (run_steps now (λ w. false) recovery 0)
run_steps-Ran_example = run_steps-Ran (λ w. (w, w + 1)) (λ w. false) recovery 0
