-- ===== src/Database/Ledger.antt =====
-- operation.go: the statements on the operation journal, and the table as the executors' journal.
use egress_manager.Base.{
  ℕ, ◌/◌, ◌≡◌, ◌≢◌, refl, sym, ap, subst, Bool, true, false, Option, none, some, List, [], ◌∷◌,
  ◌++◌, Bytes, bytes_eq→eq, bytes_eq_refl, length, any, select, All-append, arith, Bool-cases, inl,
  inr, ◌==◌,
}
use egress_manager.Domain.Transaction.{
  Transaction, TransactionState, can_transition_to, validate_transaction,
}
use egress_manager.Journal.{Journal}
use egress_manager.Database.{
  Row, is_nil, stored_detail, refused, Store, StoreError, invalid, conflict, statement_failed,
  row_of, has_id, is_at, find_row, second, create_operation, transition_operation,
  unfinished_operations,
}
use egress_manager.Database.Rows.{
  IsUnique, state_in, missed, hit, target, update-IsUnique, update-other,
}

append-IsUnique :
    (r : Row) (rs : List Row) → any (has_id r.id) rs ≡ false → IsUnique rs → IsUnique (rs ++ r ∷ [])
append-IsUnique r [] h u = (tt, tt)
append-IsUnique r (q ∷ rs) h u = (
  All-append (λ p. has_id q.id p ≡ false) rs (r ∷ []) u.0
      (ground (arith, bytes_eq→eq r.id q.id, bytes_eq_refl q.id), tt),
  append-IsUnique r rs (ground arith) u.1,
)

pub state_in-append_new :
    (r : Row) (rs : List Row)
    → any (has_id r.id) rs ≡ false
    → state_in r.id (rs ++ r ∷ []) ≡ some r.state
unfolding find_row
state_in-append_new r [] h = ground (arith, bytes_eq_refl r.id)
state_in-append_new r (q ∷ rs) h = ground (arith, state_in-append_new r rs)

module _ (fault : ℕ → Bool) where
  -- What `CreateOperation` does, on every branch.
  pub data Created (t : Transaction) (s : Store) (r : Option StoreError × Store) : Type 0 where
    denied : (x : StoreError) → r.0 ≡ some x → r.1.rows ≡ s.rows → Created t s r
    created :
        r.0 ≡ none
        → is_nil (validate_transaction t) ≡ true
        → any (has_id t.id) s.rows ≡ false
        → r.1.rows ≡ s.rows ++ row_of t ∷ []
        → Created t s r

  -- `CreateOperation` either returns an error and leaves the rows, or the entry is valid, no row had
  -- its id, and its row is added behind the others.
  pub create_operation-Created :
      (t : Transaction) (s : Store) → Created t s (create_operation fault t s)
  unfolding create_operation
  create_operation-Created t s = elim (Bool-cases (is_nil (validate_transaction t))) [
    | inr bad ↦ rw bad (denied invalid refl refl)
    | inl good ↦ rw good (elim (Bool-cases (fault s.statements)) [
      | inl down ↦ rw down (denied statement_failed refl refl)
      | inr up ↦ rw up (elim (Bool-cases (any (has_id t.id) s.rows)) [
        | inl taken ↦ rw taken (denied conflict refl refl)
        | inr free ↦ rw free (created refl good free refl)
      ])
    ])
  ]

  -- What `TransitionOperation` does.
  pub data Moved (id : Bytes) (from to : TransactionState) (s : Store)
      (r : Option StoreError × Store) : Type 0 where
    denied : (x : StoreError) → r.0 ≡ some x → r.1.rows ≡ s.rows → Moved id from to s r
    moved :
        r.0 ≡ none
        → can_transition_to from to ≡ true
        → state_in id s.rows ≡ some from
        → state_in id r.1.rows ≡ some to
        → Moved id from to s r

  -- Where ids are unique, `TransitionOperation` either returns an error and leaves the rows, or the
  -- transition is an allowed one, the operation was in the state `from`, and it is in the state `to`
  -- afterwards.
  pub transition_operation-Moved :
      (id : Bytes) (from to : TransactionState) (at : Option ℕ) (detail : Bytes) (s : Store)
      → IsUnique s.rows
      → Moved id from to s (transition_operation fault id from to at detail s)
  unfolding transition_operation
  transition_operation-Moved id from to none detail s u = denied invalid refl refl
  transition_operation-Moved id from to (some at) detail s u =
      elim (Bool-cases (refused id from to detail)) [
        | inl bad ↦ rw bad (denied invalid refl refl)
        | inr good ↦ rw good (elim (Bool-cases (fault s.statements)) [
          | inl down ↦ rw down (denied statement_failed refl refl)
          | inr up ↦ rw up (elim (target id from to (at / second) (stored_detail detail) s.rows u) [
            | missed none_at same ↦ rw none_at (denied conflict refl same)
            | hit one was is ↦ rw one (moved refl (allowed good) was is)
          ])
        ])
      ]
    where
      allowed : refused id from to detail ≡ false → can_transition_to from to ≡ true
      allowed good = ground arith

  -- `CreateOperation` keeps the ids of the journal unique.
  pub create_operation-IsUnique :
      (t : Transaction) (s : Store) → IsUnique s.rows → IsUnique (create_operation fault t s).1.rows
  create_operation-IsUnique t s u = elim (create_operation-Created t s) [
    | denied x e same ↦ subst IsUnique (sym same) u
    | created e v free more ↦ subst IsUnique (sym more) (append-IsUnique (row_of t) s.rows free u)
  ]

  -- `TransitionOperation` keeps the ids of the journal unique.
  pub transition_operation-IsUnique :
      (id : Bytes) (from to : TransactionState) (at : Option ℕ) (detail : Bytes) (s : Store)
      → IsUnique s.rows
      → IsUnique (transition_operation fault id from to at detail s).1.rows
  unfolding transition_operation
  transition_operation-IsUnique id from to none detail s u = u
  transition_operation-IsUnique id from to (some at) detail s u =
      elim (Bool-cases (refused id from to detail)) [
        | inl bad ↦ rw bad u
        | inr good ↦ rw good (elim (Bool-cases (fault s.statements)) [
          | inl down ↦ rw down u
          | inr up ↦
              let done = update-IsUnique id from to (at / second) (stored_detail detail) s.rows u in
              rw up (elim (Bool-cases (length (select (is_at id from) s.rows) == 1)) [
                | inl one ↦ rw one done
                | inr not_one ↦ rw not_one done
              ])
        ])
      ]

  pub transition_operation-other :
      (id : Bytes) (from to : TransactionState) (at : Option ℕ) (detail : Bytes) (s : Store)
      (k : Bytes)
      → k ≢ id
      → state_in k (transition_operation fault id from to at detail s).1.rows ≡ state_in k s.rows
  unfolding transition_operation
  transition_operation-other id from to none detail s k n = refl
  transition_operation-other id from to (some at) detail s k n =
      elim (Bool-cases (refused id from to detail)) [
        | inl bad ↦ rw bad refl
        | inr good ↦ rw good (elim (Bool-cases (fault s.statements)) [
          | inl down ↦ rw down refl
          | inr up ↦
              let kept = update-other id from to (at / second) (stored_detail detail) k s.rows n in
              rw up (elim (Bool-cases (length (select (is_at id from) s.rows) == 1)) [
                | inl one ↦ rw one kept
                | inr not_one ↦ rw not_one kept
              ])
        ])
      ]

  unfinished_operations-rows :
      (limit : ℕ) (s : Store) → (unfinished_operations fault limit s).1.rows ≡ s.rows
  unfolding unfinished_operations
  unfinished_operations-rows limit s = ground arith

-- The nil error.
abbrev is_done : Option StoreError → Bool
is_done none = true
is_done (some x) = false

module _ (fault : ℕ → Bool) where
  create_operation-done :
      (t : Transaction) (s : Store)
      → is_done (create_operation fault t s).0 ≡ true
      → state_in t.id (create_operation fault t s).1.rows ≡ some t.state
  create_operation-done t s h = elim (create_operation-Created fault t s) [
    | denied x e same ↦ absurd (ground arith)
    | created e v free more ↦ rw more (state_in-append_new (row_of t) s.rows free)
  ]

  create_operation-refused :
      (t : Transaction) (s : Store) (k : Bytes)
      → is_done (create_operation fault t s).0 ≡ false
      → state_in k (create_operation fault t s).1.rows ≡ state_in k s.rows
  create_operation-refused t s k h = elim (create_operation-Created fault t s) [
    | denied x e same ↦ ap (state_in k) same
    | created e v free more ↦ absurd (ground arith)
  ]

  module _ (id : Bytes) (from to : TransactionState) (at : Option ℕ) (detail : Bytes) (s : Store)
      (u : IsUnique s.rows) where
    transition_operation-done :
        is_done (transition_operation fault id from to at detail s).0 ≡ true
        → state_in id (transition_operation fault id from to at detail s).1.rows ≡ some to
    transition_operation-done h = elim (transition_operation-Moved fault id from to at detail s u) [
      | denied x e same ↦ absurd (ground arith)
      | moved e allowed was is ↦ is
    ]

    transition_operation-refused :
        (k : Bytes)
        → is_done (transition_operation fault id from to at detail s).0 ≡ false
        → state_in k (transition_operation fault id from to at detail s).1.rows ≡ state_in k s.rows
    transition_operation-refused k h =
        elim (transition_operation-Moved fault id from to at detail s u) [
          | denied x e same ↦ ap (state_in k) same
          | moved e allowed was is ↦ absurd (ground arith)
        ]

-- A store whose ids are unique.
pub record Ledger : Type 0 where
  pub store : Store
  pub unique : IsUnique store.rows

-- The table implements the journal of the executors.
pub ledger : (ℕ → Bool) → Journal Ledger
ledger fault = record {
  create = λ t j. (
    is_done (create_operation fault t j.store).0,
    record {
      store = (create_operation fault t j.store).1;
      unique = create_operation-IsUnique fault t j.store j.unique;
    },
  );
  transition = λ id from to at detail j. (
    is_done (transition_operation fault id from to at detail j.store).0,
    record {
      store = (transition_operation fault id from to at detail j.store).1;
      unique = transition_operation-IsUnique fault id from to at detail j.store j.unique;
    },
  );
  unfinished = λ limit j. (
    (unfinished_operations fault limit j.store).0,
    record {
      store = (unfinished_operations fault limit j.store).1;
      unique = subst IsUnique (sym (unfinished_operations-rows fault limit j.store)) j.unique;
    },
  );
  state_of = λ id j. state_in id j.store.rows;
  create_done = λ t j h. create_operation-done fault t j.store h;
  create_refused = λ t j k h. create_operation-refused fault t j.store k h;
  transition_done = λ id from to at detail j h.
      transition_operation-done fault id from to at detail j.store j.unique h;
  transition_refused = λ id from to at detail j k h.
      transition_operation-refused fault id from to at detail j.store j.unique k h;
  transition_other = λ id from to at detail j k n.
      transition_operation-other fault id from to at detail j.store k n;
  unfinished_keeps = λ limit j k. ap (state_in k) (unfinished_operations-rows fault limit j.store);
}

pub ledger-state_of :
    (fault : ℕ → Bool) (id : Bytes) (j : Ledger)
    → (ledger fault).state_of id j ≡ state_in id j.store.rows
unfolding ledger
ledger-state_of fault id j = refl
