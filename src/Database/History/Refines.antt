-- ===== src/Database/History/Refines.antt =====
-- The journal as a map from ids to states: what a run of its calls may do to it.
use egress_manager.Base.{
  ℕ, ◌/◌, ◌≡◌, ◌≢◌, ◌⊎◌, refl, sym, ◌∙◌, ap, subst, Bool, true, false, ◌||◌, Option, none, some,
  List, [], ◌∷◌, ◌++◌, ltb, Bytes, bytes_eq→eq, any, arith, Bool-cases, inl, inr,
}
use egress_manager.Domain.Transaction.{Transaction, TransactionState, can_transition_to}
use egress_manager.Database.{
  Row, Store, row_of, has_id, find_row, second, is_finished, create_operation, transition_operation,
  operation, unfinished_operations,
}
use egress_manager.Database.Rows.{IsUnique, state_in}
use egress_manager.Database.Ledger as Ledger
use egress_manager.Database.Ledger.{
  create_operation-Created, create_operation-IsUnique, transition_operation-Moved,
  transition_operation-IsUnique, transition_operation-other, state_in-append_new,
}
use egress_manager.Database.History.{committed_operations, delete_finished, doomed_rows, kept_rows}
use egress_manager.Database.History.Kept.{kept, forgotten, kept_rows-Cleaned, kept_rows-IsUnique}

-- The calls of the journal.
pub data Call : Type 0 where
  create : Transaction → Call
  transition : Bytes → TransactionState → TransactionState → Option ℕ → Bytes → Call
  read : Bytes → Call
  list_unfinished : ℕ → Call
  list_committed : ℕ → Call
  clean : ℕ → ℕ → Call

-- What a call leaves, whatever it returns.
unfoldable pub after_call : (ℕ → Bool) → Call → Store → Store
after_call fault (create t) s = (create_operation fault t s).1
after_call fault (transition id from to at detail) s =
    (transition_operation fault id from to at detail s).1
after_call fault (read id) s = (operation fault id s).1
after_call fault (list_unfinished limit) s = (unfinished_operations fault limit s).1
after_call fault (list_committed limit) s = (committed_operations fault limit s).1
after_call fault (clean time limit) s = (delete_finished fault time limit s).1

unfoldable pub after_calls : (ℕ → Bool) → List Call → Store → Store
after_calls fault [] s = s
after_calls fault (c ∷ cs) s = after_calls fault cs (after_call fault c s)

-- The abstract journal.
abbrev pub Ids : Type 0
Ids = Bytes → Option TransactionState

abbrev pub view : Store → Ids
view s id = state_in id s.rows

-- What one call may do to the map: nothing; a new id; an allowed transition of one id; or to forget
-- finished operations.
pub data Allowed : Call → Ids → Ids → Type 0 where
  same : {c : Call} {m n : Ids} → ((k : Bytes) → n k ≡ m k) → Allowed c m n
  created :
      {t : Transaction} {m n : Ids}
      → m t.id ≡ none
      → n t.id ≡ some t.state
      → ((k : Bytes) → k ≢ t.id → n k ≡ m k)
      → Allowed (create t) m n
  moved :
      {id : Bytes} {from to : TransactionState} {at : Option ℕ} {detail : Bytes} {m n : Ids}
      → can_transition_to from to ≡ true
      → m id ≡ some from
      → n id ≡ some to
      → ((k : Bytes) → k ≢ id → n k ≡ m k)
      → Allowed (transition id from to at detail) m n
  cleaned :
      {time limit : ℕ} {m n : Ids}
      → ((k : Bytes)
          → (n k ≡ m k)
            ⊎ ((s : TransactionState) × (m k ≡ some s) × (is_finished s ≡ true) × (n k ≡ none)))
      → Allowed (clean time limit) m n

-- A run of calls is a run of such steps.
pub data Refines : List Call → Ids → Ids → Type 0 where
  done : {m : Ids} → Refines [] m m
  next :
      {c : Call} {cs : List Call} {m n o : Ids}
      → Allowed c m n
      → Refines cs n o
      → Refines (c ∷ cs) m o

state_in-append_other :
    (r : Row) (rs : List Row) (k : Bytes) → k ≢ r.id → state_in k (rs ++ r ∷ []) ≡ state_in k rs
unfolding find_row
state_in-append_other r [] k n = ground (arith, bytes_eq→eq r.id k)
state_in-append_other r (q ∷ rs) k n = ground (arith, state_in-append_other r rs k n)

state_in-absent : (id : Bytes) (rs : List Row) → any (has_id id) rs ≡ false → state_in id rs ≡ none
unfolding find_row
state_in-absent id [] h = refl
state_in-absent id (r ∷ rs) h = ground (arith, state_in-absent id rs)

module _ (fault : ℕ → Bool) where
  create-Allowed :
      (t : Transaction) (s : Store)
      → Allowed (create t) (view s) (view (create_operation fault t s).1)
  create-Allowed t s = elim (create_operation-Created fault t s) [
    | Ledger.Created.denied x e rows ↦ same (λ k. ap (state_in k) rows)
    | Ledger.Created.created e v free rows ↦
        created (state_in-absent t.id s.rows free)
          (ap (state_in t.id) rows ∙ state_in-append_new (row_of t) s.rows free)
          (λ k n. ap (state_in k) rows ∙ state_in-append_other (row_of t) s.rows k n)
  ]

  transition-Allowed :
      (id : Bytes) (from to : TransactionState) (at : Option ℕ) (detail : Bytes) (s : Store)
      → IsUnique s.rows
      → Allowed
          (transition id from to at detail)
          (view s)
          (view (transition_operation fault id from to at detail s).1)
  transition-Allowed id from to at detail s u =
      elim (transition_operation-Moved fault id from to at detail s u) [
        | Ledger.Moved.denied x e rows ↦ same (λ k. ap (state_in k) rows)
        | Ledger.Moved.moved e allowed was is ↦
            moved allowed was is (transition_operation-other fault id from to at detail s)
      ]

  -- The reading calls leave the rows.
  reads-rows :
      (id : Bytes) (limit : ℕ) (s : Store)
      → ((operation fault id s).1.rows ≡ s.rows)
        × ((unfinished_operations fault limit s).1.rows ≡ s.rows)
        × ((committed_operations fault limit s).1.rows ≡ s.rows)
  unfolding operation unfinished_operations committed_operations
  reads-rows id limit s = (ground arith, ground arith, ground arith)

  data Deleted (time limit : ℕ) (s : Store) : List Row → Type 0 where
    untouched : Deleted time limit s s.rows
    deleted : Deleted time limit s (kept_rows (doomed_rows (time / second) limit s.rows) s.rows)

  delete_finished-Deleted :
      (time limit : ℕ) (s : Store)
      → Deleted time limit s (delete_finished fault time limit s).1.rows
  unfolding delete_finished
  delete_finished-Deleted time limit s = elim (Bool-cases (ltb limit 1 || ltb 10000 limit)) [
    | inl outside ↦ rw outside untouched
    | inr inside ↦ rw inside (elim (Bool-cases (fault s.statements)) [
      | inl down ↦ rw down untouched
      | inr up ↦ rw up deleted
    ])
  ]

  Deleted-Allowed :
      (time limit : ℕ) (s : Store) (rows : List Row)
      → IsUnique s.rows
      → Deleted time limit s rows
      → Allowed (clean time limit) (view s) (λ k. state_in k rows) × IsUnique rows
  Deleted-Allowed time limit s rows u untouched = (same (λ k. refl), u)
  Deleted-Allowed time limit s rows u deleted = (
    cleaned (λ k. elim (kept_rows-Cleaned (time / second) limit k s.rows u) [
      | kept e ↦ inl e
      | forgotten t was over gone ↦ inr (t, was, over, gone)
    ]),
    kept_rows-IsUnique (doomed_rows (time / second) limit s.rows) s.rows u,
  )

  after_call-Allowed :
      (c : Call) (s : Store)
      → IsUnique s.rows
      → Allowed c (view s) (view (after_call fault c s)) × IsUnique (after_call fault c s).rows
  unfolding after_call
  after_call-Allowed (create t) s u = (create-Allowed t s, create_operation-IsUnique fault t s u)
  after_call-Allowed (transition id from to at detail) s u = (
    transition-Allowed id from to at detail s u,
    transition_operation-IsUnique fault id from to at detail s u,
  )
  after_call-Allowed (read id) s u =
      let rows = (reads-rows id 0 s).0 in
      (same (λ k. ap (state_in k) rows), subst IsUnique (sym rows) u)
  after_call-Allowed (list_unfinished limit) s u =
      let rows = (reads-rows [] limit s).1 in
      (same (λ k. ap (state_in k) rows), subst IsUnique (sym rows) u)
  after_call-Allowed (list_committed limit) s u =
      let rows = (reads-rows [] limit s).2 in
      (same (λ k. ap (state_in k) rows), subst IsUnique (sym rows) u)
  after_call-Allowed (clean time limit) s u =
      Deleted-Allowed time limit s _ u (delete_finished-Deleted time limit s)

  -- Any run of the journal's calls, from a table with unique ids and with any statements refused,
  -- refines the abstract journal: each call leaves the states as they are, or adds an id that was
  -- free, or makes one allowed transition, or forgets finished operations; and the ids stay unique.
  pub after_calls-Refines :
      (cs : List Call) (s : Store)
      → IsUnique s.rows
      → Refines cs (view s) (view (after_calls fault cs s)) × IsUnique (after_calls fault cs s).rows
  unfolding after_calls
  after_calls-Refines [] s u = (done, u)
  after_calls-Refines (c ∷ cs) s u =
      let (allowed, v) = after_call-Allowed c s u in
      let (rest, w) = after_calls-Refines cs (after_call fault c s) v in (next allowed rest, w)
