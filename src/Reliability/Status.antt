-- ===== src/Reliability/Status.antt =====
-- status.go: `Inspect`, what the daemon says of an interrupted run. The lock's status, read from a
-- file, is an argument; it and the result are `none` if there is an error. The reports of the last
-- recovery, of the dependencies and of the bypass, which `Inspect` leaves empty, are left out.
use egress_manager.Base.{
  ℕ, suc, ◌≡◌, ◌↔◌, refl, ap, sym, ◌∙◌, subst, ◌||◌, Bool, true, not, Option, none, some, List, [],
  ◌∷◌, ltb, Bytes, length, map, select, take, sort_by, length-sort_by, All, arith, Bool-cases,
  Option-cases, inl, inr,
}
use egress_manager.Domain.Transaction.{Transaction, TransactionState}
use egress_manager.Database.{
  Row, Store, before, is_finished, scan_operation, scan_all, unfinished_operations,
}
use egress_manager.Reliability.Lock.{LockStatus}

abbrev pub maximum_recovery_operations : ℕ
maximum_recovery_operations = 1000

pub record OperationSummary : Type 0 where
  pub id : Bytes
  pub operation : Bytes
  pub state : TransactionState
  pub created_at : Option ℕ
  pub updated_at : Option ℕ

pub record RecoveryStatus : Type 0 where
  pub ready : Bool
  pub recovery_required : Bool
  pub mutation_lock : LockStatus
  pub unfinished : List OperationSummary
  pub observed_at : ℕ

abbrev pub summary_of : Transaction → OperationSummary
summary_of t = record {
  id = t.id;
  operation = t.operation;
  state = t.state;
  created_at = t.created_at;
  updated_at = t.updated_at;
}

abbrev status_with : LockStatus → ℕ → List OperationSummary → RecoveryStatus
status_with lock now summaries = record {
  ready = not (ltb 0 (length summaries));
  recovery_required = ltb 0 (length summaries);
  mutation_lock = lock;
  unfinished = summaries;
  observed_at = now;
}

module _ (fault : ℕ → Bool) where
  unfoldable pub inspect : Option LockStatus → Option ℕ → Store → Option RecoveryStatus × Store
  inspect lock none store = (none, store)
  inspect none (some now) store = (none, store)
  inspect (some lock) (some now) store =
      let (operations, after) = unfinished_operations fault maximum_recovery_operations store in
      (
        elim operations [
          | none ↦ none
          | some list ↦ some (status_with lock now (map summary_of list))
        ],
        after,
      )

length-scan_all :
    (rs : List Row) (ts : List Transaction) → scan_all rs ≡ some ts → length ts ≡ length rs
unfolding scan_all
length-scan_all [] ts h = ground arith
length-scan_all (r ∷ rs) ts h = elim (Option-cases (scan_operation r)) [
  | inl e ↦ absurd (ground arith)
  | inr (t, e) ↦ elim (Option-cases (scan_all rs)) [
    | inl f ↦ absurd (ground arith)
    | inr (us, f) ↦ ground (arith, length-scan_all rs us f)
  ]
]

-- None is unfinished if and only if all are finished.
All-finished :
    (rs : List Row)
    → length (select (λ r. not (is_finished r.state)) rs) ≡ 0
    → All (λ r. is_finished r.state ≡ true) rs
All-finished [] h = tt
All-finished (r ∷ rs) h = (ground arith, All-finished rs (ground arith))

none_unfinished :
    (rs : List Row)
    → All (λ r. is_finished r.state ≡ true) rs
    → length (select (λ r. not (is_finished r.state)) rs) ≡ 0
none_unfinished [] h = refl
none_unfinished (r ∷ rs) h = ground (arith, none_unfinished rs)

take-empty : {A : Type 0} (n : ℕ) (xs : List A) → length (take (suc n) xs) ≡ 0 ↔ length xs ≡ 0
take-empty n [] = (λ h. h, λ h. h)
take-empty n (x ∷ xs) = (λ h. absurd (ground arith), λ h. absurd (ground arith))

length-map : (ts : List Transaction) → length (map summary_of ts) ≡ length ts
length-map [] = refl
length-map (t ∷ ts) = ap suc (length-map ts)

-- What the status says of the journal.
pub record IsHonest (store : Store) (status : RecoveryStatus) : Type 0 where
  pub ready_if_finished : status.ready ≡ true ↔ All (λ r. is_finished r.state ≡ true) store.rows
  pub required_if_unready : status.recovery_required ≡ not status.ready

module _ (fault : ℕ → Bool) where
  length-unfinished_operations :
      (n : ℕ) (store : Store) (ts : List Transaction)
      → (unfinished_operations fault n store).0 ≡ some ts
      → length ts
        ≡ length (take n (sort_by before (select (λ r. not (is_finished r.state)) store.rows)))
  unfolding unfinished_operations
  length-unfinished_operations n store ts h = elim (Bool-cases (ltb n 1 || ltb 1000 n)) [
    | inl bad ↦ absurd (ground arith)
    | inr good ↦ elim (Bool-cases (fault store.statements)) [
      | inl down ↦ absurd (ground arith)
      | inr up ↦ length-scan_all _ ts (ground arith)
    ]
  ]

  ready_iff :
      (store : Store) (ts : List Transaction)
      → (unfinished_operations fault maximum_recovery_operations store).0 ≡ some ts
      → not (ltb 0 (length (map summary_of ts))) ≡ true
        ↔ All (λ r. is_finished r.state ≡ true) store.rows
  ready_iff store ts h =
      let unfinished = select (λ r. not (is_finished r.state)) store.rows in
      let count = length-unfinished_operations maximum_recovery_operations store ts h in
      let (to_sorted, of_sorted) = take-empty 999 (sort_by before unfinished) in
      (
        λ ready. All-finished store.rows (
            sym (length-sort_by before unfinished)
            ∙ to_sorted (sym count ∙ ground (arith, length-map ts))),
        λ finished.
            let none_left : length ts ≡ 0 =
              count
              ∙ of_sorted
                  (length-sort_by before unfinished ∙ none_unfinished store.rows finished) in
            ground (arith, length-map ts),
      )

  -- If the status can be read, it says that the daemon is ready exactly if every operation of the
  -- journal is finished, and that a recovery is required exactly if it is not ready.
  pub inspect-IsHonest :
      (lock : Option LockStatus) (now : Option ℕ) (store : Store) (status : RecoveryStatus)
      → (inspect fault lock now store).0 ≡ some status
      → IsHonest store status
  unfolding inspect
  inspect-IsHonest lock none store status h = absurd (ground arith)
  inspect-IsHonest none (some now) store status h = absurd (ground arith)
  inspect-IsHonest (some lock) (some now) store status h =
      elim (Option-cases (unfinished_operations fault maximum_recovery_operations store).0) [
        | inl e ↦ absurd (ground arith)
        | inr (ts, e) ↦
            let is : status_with lock now (map summary_of ts) ≡ status = ground (arith, e) in
            subst (IsHonest store) is (record {
              ready_if_finished = ready_iff store ts e;
              required_if_unready = ground arith;
            })
      ]
