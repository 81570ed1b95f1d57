-- ===== src/Database/Rows.antt =====
-- operation.go: the rows of the journal under the update of `TransitionOperation`.
use egress_manager.Base.{
  ℕ, ◌≡◌, ◌≢◌, refl, ap, Bool, true, false, Option, none, some, List, [], ◌∷◌, if◌then◌else◌, Bytes,
  bytes_eq→eq, length, select, All, arith, Bool-cases, inl, inr, ◌⊎◌, subst,
}
use egress_manager.Domain.Transaction.{
  TransactionState, prepared, validated, applying, verifying, committed, rolling_back, rolled_back,
  failed, other, state_eq,
}
use egress_manager.Database.{Row, has_id, is_at, stamp, update, find_row}

pub state_eq→eq : (s t : TransactionState) → state_eq s t ≡ true → s ≡ t
unfolding state_eq
state_eq→eq (other s) (other t) h = ap other (bytes_eq→eq s t h)
state_eq→eq prepared t h = ground arith
state_eq→eq validated t h = ground arith
state_eq→eq applying t h = ground arith
state_eq→eq verifying t h = ground arith
state_eq→eq committed t h = ground arith
state_eq→eq rolling_back t h = ground arith
state_eq→eq rolled_back t h = ground arith
state_eq→eq failed t h = ground arith
state_eq→eq (other s) prepared h = ground arith
state_eq→eq (other s) validated h = ground arith
state_eq→eq (other s) applying h = ground arith
state_eq→eq (other s) verifying h = ground arith
state_eq→eq (other s) committed h = ground arith
state_eq→eq (other s) rolling_back h = ground arith
state_eq→eq (other s) rolled_back h = ground arith
state_eq→eq (other s) failed h = ground arith

-- `id TEXT PRIMARY KEY`
abbrev pub IsUnique : List Row → Type 0
IsUnique [] = Unit
IsUnique (r ∷ rs) = All (λ q. has_id r.id q ≡ false) rs × IsUnique rs

-- The state that the rows have for an id.
abbrev pub state_in : Bytes → List Row → Option TransactionState
state_in id rows = elim (find_row id rows) [ none ↦ none | some r ↦ some r.state ]

module _ (id : Bytes) (from to : TransactionState) (at : ℕ) (detail : Option Bytes) where
  absent-select :
      (rs : List Row) → All (λ q. has_id id q ≡ false) rs → select (is_at id from) rs ≡ []
  absent-select [] a = refl
  absent-select (r ∷ rs) a = ground (arith, absent-select rs a.1)

  absent-update :
      (rs : List Row) → All (λ q. has_id id q ≡ false) rs → update id from to at detail rs ≡ rs
  unfolding update
  absent-update [] a = refl
  absent-update (r ∷ rs) a = rw (a.0, absent-update rs a.1) refl

  -- What an update does: it hits one row, or nothing is changed.
  pub data Target (rs : List Row) : Type 0 where
    missed :
        length (select (is_at id from) rs) ≡ 0 → update id from to at detail rs ≡ rs → Target rs
    hit :
        length (select (is_at id from) rs) ≡ 1
        → state_in id rs ≡ some from
        → state_in id (update id from to at detail rs) ≡ some to
        → Target rs

  pub target : (rs : List Row) → IsUnique rs → Target rs
  unfolding update find_row
  target [] u = missed refl refl
  target (r ∷ rs) u = elim (Bool-cases (has_id id r)) [
    | inl same ↦ here same (absent same) (Bool-cases (state_eq r.state from))
    | inr differs ↦ there differs (target rs u.1)
  ]
    where
      absent : has_id id r ≡ true → All (λ q. has_id id q ≡ false) rs
      absent same = subst (λ k. All (λ q. has_id k q ≡ false) rs) (bytes_eq→eq r.id id same) u.0

      here :
          has_id id r ≡ true
          → All (λ q. has_id id q ≡ false) rs
          → (state_eq r.state from ≡ true) ⊎ (state_eq r.state from ≡ false)
          → Target (r ∷ rs)
      here same a (inl at_from) =
          hit (rw (same, at_from, absent-select rs a) refl)
            (ground (arith, state_eq→eq r.state from at_from)) (ground arith)
      here same a (inr elsewhere) =
          missed (rw (same, elsewhere, absent-select rs a) refl)
            (rw (same, elsewhere, absent-update rs a) refl)

      there : has_id id r ≡ false → Target rs → Target (r ∷ rs)
      there differs (missed none_at kept) = missed (rw differs none_at) (rw (differs, kept) refl)
      there differs (hit one was is) =
          hit (rw differs one) (ground (arith, was)) (ground (arith, is))

  kept_id : (b : Bool) (r : Row) → (if b then stamp to at detail r else r).id ≡ r.id
  kept_id true r = refl
  kept_id false r = refl

  -- The ids are kept, and so is what is said of ids only.
  All-update :
      (k : Bytes) (rs : List Row)
      → All (λ q. has_id k q ≡ false) rs
      → All (λ q. has_id k q ≡ false) (update id from to at detail rs)
  unfolding update
  All-update k [] a = tt
  All-update k (r ∷ rs) a = (ground arith, All-update k rs a.1)

  pub update-IsUnique : (rs : List Row) → IsUnique rs → IsUnique (update id from to at detail rs)
  unfolding update
  update-IsUnique [] u = tt
  update-IsUnique (r ∷ rs) u =
      rw (kept_id (is_at id from r) r) (All-update r.id rs u.0, update-IsUnique rs u.1)

  -- Another id keeps its state.
  pub update-other :
      (k : Bytes) (rs : List Row)
      → k ≢ id
      → state_in k (update id from to at detail rs) ≡ state_in k rs
  unfolding update find_row
  update-other k [] n = refl
  update-other k (r ∷ rs) n = elim (Bool-cases (is_at id from r)) [
    | inl at_from ↦ ground (arith, update-other k rs n, bytes_eq→eq r.id id, bytes_eq→eq r.id k)
    | inr elsewhere ↦ rw elsewhere (ground (arith, update-other k rs n))
  ]
