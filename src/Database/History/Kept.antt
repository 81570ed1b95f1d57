-- ===== src/Database/History/Kept.antt =====
-- What the clean-up keeps: every unfinished operation, and the ids unique.
use egress_manager.Base.{
  ℕ, ◌≡◌, refl, sym, ◌∙◌, ap, subst, Bool, true, false, not, Option, none, some, List, [], ◌∷◌,
  if◌then◌else◌, Bytes, bytes_eq, bytes_eq→eq, bytes_eq_refl, select, All, All-imp, All-map2,
  All-take, All-select, select-All, any-some, All-sort_by, sort_by, arith, Bool-cases, inl, inr,
}
use egress_manager.Domain.Transaction.{TransactionState}
use egress_manager.Database.{Row, has_id, before, is_finished, find_row}
use egress_manager.Database.Rows.{IsUnique, state_in}
use egress_manager.Database.History.{is_expired, doomed_rows, is_doomed, kept_rows}

-- A finished row that its id finds.
record IsSpent (rows : List Row) (d : Row) : Type 0 where
  found : find_row d.id rows ≡ some d
  finished : is_finished d.state ≡ true

find_row-skip :
    (q : Row) (rows : List Row) (id : Bytes)
    → has_id id q ≡ false
    → find_row id (q ∷ rows) ≡ find_row id rows
unfolding find_row
find_row-skip q rows id h = rw h refl

find_row-All : (rows : List Row) → IsUnique rows → All (λ d. find_row d.id rows ≡ some d) rows
unfolding find_row
find_row-All [] u = tt
find_row-All (r ∷ rows) u = (
  ground (arith, bytes_eq_refl r.id),
  All-map2 (λ q. has_id r.id q ≡ false) (λ d. find_row d.id rows ≡ some d)
      (λ d. find_row d.id (r ∷ rows) ≡ some d) rows
      (λ q h f.
        find_row-skip r rows q.id (ground (arith, bytes_eq→eq r.id q.id, h, bytes_eq_refl q.id))
        ∙ f)
      u.0 (find_row-All rows u.1),
)

doomed_rows-IsSpent :
    (time limit : ℕ) (rows : List Row)
    → IsUnique rows
    → All (IsSpent rows) (doomed_rows time limit rows)
unfolding doomed_rows
doomed_rows-IsSpent time limit rows u =
    let expired = select (is_expired time) rows in
    let spent : All (IsSpent rows) expired =
      All-imp expired (λ d h. record { found = h.0; finished = ground (arith, h.1) })
        (All-map2 (λ d. find_row d.id rows ≡ some d) (λ d. is_expired time d ≡ true)
          (λ d. (find_row d.id rows ≡ some d) × (is_expired time d ≡ true)) expired
          (λ d a b. (a, b))
          (All-select (λ d. find_row d.id rows ≡ some d) (is_expired time) rows
            (find_row-All rows u))
          (select-All (is_expired time) rows)) in
    All-take (IsSpent rows) limit (sort_by before expired)
      (All-sort_by before (IsSpent rows) expired spent)

module _ (doomed : List Row) (id : Bytes) where
  find_row-doomed :
      (rows : List Row) → is_doomed doomed id ≡ true → find_row id (kept_rows doomed rows) ≡ none
  unfolding find_row kept_rows
  find_row-doomed [] h = refl
  find_row-doomed (r ∷ rows) h =
      let same : has_id id r ≡ true → is_doomed doomed r.id ≡ true =
        λ e. subst (λ k. is_doomed doomed k ≡ true) (sym (bytes_eq→eq r.id id e)) h in
      ground (arith, find_row-doomed rows h, same)

  find_row-kept :
      (rows : List Row)
      → is_doomed doomed id ≡ false
      → find_row id (kept_rows doomed rows) ≡ find_row id rows
  unfolding find_row kept_rows
  find_row-kept [] h = refl
  find_row-kept (r ∷ rows) h =
      let same : has_id id r ≡ true → is_doomed doomed r.id ≡ false =
        λ e. subst (λ k. is_doomed doomed k ≡ false) (sym (bytes_eq→eq r.id id e)) h in
      ground (arith, find_row-kept rows h, same)

-- What the clean-up does to an operation: it keeps it, or forgets it if it is finished.
pub data Cleaned (id : Bytes) (rows after : List Row) : Type 0 where
  kept : state_in id after ≡ state_in id rows → Cleaned id rows after
  forgotten :
      (s : TransactionState)
      → state_in id rows ≡ some s
      → is_finished s ≡ true
      → state_in id after ≡ none
      → Cleaned id rows after

pub kept_rows-Cleaned :
    (time limit : ℕ) (id : Bytes) (rows : List Row)
    → IsUnique rows
    → Cleaned id rows (kept_rows (doomed_rows time limit rows) rows)
kept_rows-Cleaned time limit id rows u =
    let states : Option Row → Option TransactionState =
      λ o. elim o [ none ↦ none | some r ↦ some r.state ] in
    let doomed = doomed_rows time limit rows in
    elim (Bool-cases (is_doomed doomed id)) [
      | inr there ↦ kept (ap states (find_row-kept doomed id rows there))
      | inl gone ↦
          let (d, same, spent) =
            any-some (IsSpent rows) (λ d. bytes_eq d.id id) doomed gone
              (doomed_rows-IsSpent time limit rows u) in
          let found =
            subst (λ k. find_row k rows ≡ some d) (bytes_eq→eq d.id id same) spent.found in
          forgotten d.state (ap states found) spent.finished
            (ap states (find_row-doomed doomed id rows gone))
    ]

pub kept_rows-IsUnique : (doomed rows : List Row) → IsUnique rows → IsUnique (kept_rows doomed rows)
unfolding kept_rows
kept_rows-IsUnique doomed [] u = tt
kept_rows-IsUnique doomed (r ∷ rows) u =
    place (not (is_doomed doomed r.id)) (kept_rows-IsUnique doomed rows u.1)
  where
    rest : List Row
    rest = select (λ q. not (is_doomed doomed q.id)) rows

    place : (b : Bool) → IsUnique rest → IsUnique (if b then r ∷ rest else rest)
    place true v =
        (All-select (λ q. has_id r.id q ≡ false) (λ q. not (is_doomed doomed q.id)) rows u.0, v)
    place false v = v
