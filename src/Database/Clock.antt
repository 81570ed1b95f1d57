-- ===== src/Database/Clock.antt =====
-- A clock that is set back: what the journal then says of its unfinished operations.
use egress_manager.Base.{
  ℕ, zero, suc, ◌+◌, ◌/◌, ◌*◌, ◌≤◌, ◌≡◌, refl, ◌∙◌, ap, Bool, true, false, ◌&&◌, ◌||◌, not, Option,
  none, some, List, [], ◌∷◌, ltb, ◌==◌, Bytes, length, any, select, take, sort_by, any-sort_by,
  length-sort_by, arith, Bool-cases, inl, inr,
}
use egress_manager.Domain.Issue.{Issue, join_errors-nil, issue_if-nil, update_precedes_creation}
use egress_manager.Domain.Transaction.{TransactionState, validate_transaction, state_eq}
use egress_manager.Database.{
  Row, Store, is_nil, stored_detail, refused, before, is_finished, transaction_of, scan_operation,
  scan_all, is_at, update, find_row, second, transition_operation, unfinished_operations,
}
use egress_manager.Database.Rows.{IsUnique, missed, hit, target}

-- An unfinished operation that was last written before it was made.
abbrev pub is_stale : Row → Bool
is_stale r = not (is_finished r.state) && ltb r.updated_at r.created_at

is_nil→eq : (xs : List Issue) → is_nil xs ≡ true → xs ≡ []
is_nil→eq [] h = refl
is_nil→eq (x ∷ xs) h = absurd (ground arith)

stale-invalid :
    (r : Row)
    → ltb r.updated_at r.created_at ≡ true
    → validate_transaction (transaction_of r) ≡ []
    → ⊥
unfolding validate_transaction
stale-invalid r h nil =
    let parts = join_errors-nil _ nil in
    let times = parts.1.1.1.1.1.1.0 in
    ground (
      arith,
      issue_if-nil (ltb (r.updated_at * second) (r.created_at * second)) update_precedes_creation
          times,
    )

scan_operation-stale : (r : Row) → ltb r.updated_at r.created_at ≡ true → scan_operation r ≡ none
unfolding scan_operation
scan_operation-stale r h = elim (Bool-cases (is_nil (validate_transaction (transaction_of r)))) [
  | inr bad ↦ rw bad refl
  | inl good ↦ absurd (stale-invalid r h (is_nil→eq _ good))
]

scan_all-stale :
    (rs : List Row) → any (λ r. ltb r.updated_at r.created_at) rs ≡ true → scan_all rs ≡ none
unfolding scan_all
scan_all-stale [] h = absurd (ground arith)
scan_all-stale (r ∷ rs) h = ground (arith, scan_operation-stale r, scan_all-stale rs)

take-all : {A : Type 0} (n : ℕ) (xs : List A) → length xs ≤ n → take n xs ≡ xs
take-all zero [] h = refl
take-all (suc n) [] h = refl
take-all zero (x ∷ xs) h = absurd (ground arith)
take-all (suc n) (x ∷ xs) h = ap (λ ys. x ∷ ys) (take-all n xs (ground arith))

any-stale :
    (rs : List Row)
    → any is_stale rs ≡ true
    → any (λ r. ltb r.updated_at r.created_at) (select (λ r. not (is_finished r.state)) rs) ≡ true
any-stale [] h = h
any-stale (r ∷ rs) h = ground (arith, any-stale rs)

stale-update :
    (id : Bytes) (from to : TransactionState) (at : ℕ) (detail : Option Bytes) (rs : List Row)
    (r : Row)
    → find_row id rs ≡ some r
    → state_eq r.state from ≡ true
    → is_finished to ≡ false
    → ltb at r.created_at ≡ true
    → any is_stale (update id from to at detail rs) ≡ true
unfolding update find_row
stale-update id from to at detail [] r f s o b = absurd (ground arith)
stale-update id from to at detail (q ∷ qs) r f s o b =
    ground (arith, stale-update id from to at detail qs r)

found-selected :
    (id : Bytes) (from : TransactionState) (rs : List Row) (r : Row)
    → find_row id rs ≡ some r
    → state_eq r.state from ≡ true
    → length (select (is_at id from) rs) ≡ 0
    → ⊥
unfolding find_row
found-selected id from [] r f s z = ground arith
found-selected id from (q ∷ qs) r f s z = ground (arith, found-selected id from qs r)

module _ (fault : ℕ → Bool) where
  -- One such operation hides all the others.
  pub unfinished_operations-stale :
      (limit : ℕ) (s : Store)
      → any is_stale s.rows ≡ true
      → length (select (λ r. not (is_finished r.state)) s.rows) ≤ limit
      → (unfinished_operations fault limit s).0 ≡ none
  unfolding unfinished_operations
  unfinished_operations-stale limit s h l = elim (Bool-cases (ltb limit 1 || ltb 1000 limit)) [
    | inl outside ↦ rw outside refl
    | inr inside ↦ rw inside (elim (Bool-cases (fault s.statements)) [
      | inl down ↦ rw down refl
      | inr up ↦ rw up (rw (take-all limit sorted short) (scan_all-stale sorted found))
    ])
  ]
    where
      unfinished : List Row
      unfinished = select (λ r. not (is_finished r.state)) s.rows

      sorted : List Row
      sorted = sort_by before unfinished

      short : length sorted ≤ limit
      short = omega (arith, length-sort_by before unfinished, l)

      found : any (λ r. ltb r.updated_at r.created_at) sorted ≡ true
      found =
          any-sort_by before (λ r. ltb r.updated_at r.created_at) unfinished ∙ any-stale s.rows h

  written_stale :
      (id : Bytes) (from to : TransactionState) (at : ℕ) (detail : Bytes) (s : Store) (r : Row)
      → IsUnique s.rows
      → find_row id s.rows ≡ some r
      → state_eq r.state from ≡ true
      → refused id from to detail ≡ false
      → is_finished to ≡ false
      → fault s.statements ≡ false
      → ltb (at / second) r.created_at ≡ true
      → let moved = transition_operation fault id from to (some at) detail s in
        (moved.0 ≡ none)
        × ((limit : ℕ)
            → length (select (λ r. not (is_finished r.state)) moved.1.rows) ≤ limit
            → (unfinished_operations fault limit moved.1).0 ≡ none)
  unfolding transition_operation
  written_stale id from to at detail s r u f a ok o up b =
      rw (ok, up, one)
        (
          refl,
          λ limit l.
              unfinished_operations-stale limit
                (record {
                  rows = update id from to (at / second) (stored_detail detail) s.rows;
                  statements = s.statements + 1;
                })
                (stale-update id from to (at / second) (stored_detail detail) s.rows r f a o b) l,
        )
    where
      one : (length (select (is_at id from) s.rows) == 1) ≡ true
      one = elim (target id from to (at / second) (stored_detail detail) s.rows u) [
        | missed z same ↦ absurd (found-selected id from s.rows r f a z)
        | hit h was is ↦ ground (arith, h)
      ]

  -- If the clock is set back behind the second in which an operation was made, its next transition,
  -- allowed and not refused by the database, is accepted, and then the unfinished operations cannot
  -- be read at all, by any limit that would show them all.
  pub transition_operation-stale :
      (id : Bytes) (from to : TransactionState) (at : ℕ) (detail : Bytes) (s : Store) (r : Row)
      → IsUnique s.rows
      → find_row id s.rows ≡ some r
      → state_eq r.state from ≡ true
      → refused id from to detail ≡ false
      → is_finished to ≡ false
      → fault s.statements ≡ false
      → ltb (at / second) r.created_at ≡ true
      → (limit : ℕ)
      → length (
          select
            (λ r. not (is_finished r.state))
            (transition_operation fault id from to (some at) detail s).1.rows)
        ≤ limit
      → let moved = transition_operation fault id from to (some at) detail s in
        (moved.0 ≡ none) × ((unfinished_operations fault limit moved.1).0 ≡ none)
  transition_operation-stale id from to at detail s r u f a ok o up b limit l =
      let (done, blocked) = written_stale id from to at detail s r u f a ok o up b in
      (done, blocked limit l)
