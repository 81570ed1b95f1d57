-- ===== src/Base/Sort.antt =====
-- `sort.Slice` and `slices` sorting as insertion sort by the source's `less`.
use mathlib.Core.Path.{◌≡◌, refl}
use mathlib.Core.Bool.{Bool, true, false, ◌||◌}
use mathlib.Core.List.{List, [], ◌∷◌}
use native.Mathlib.Omega.{arith}
use egress_manager.Base.Tests.{if◌then◌else◌, Bool-cases}
use egress_manager.Base.Lists.{any, All, All-imp, Pairs, length}
use mathlib.Core.Logic.{inl, inr}

module _ {ℓ} {A : Type ℓ} (less : A → A → Bool) where
  unfoldable pub insert_by : A → List A → List A
  insert_by a [] = a ∷ []
  insert_by a (x ∷ xs) = let rest = insert_by a xs in if less x a then x ∷ rest else a ∷ x ∷ xs

  unfoldable pub sort_by : List A → List A
  unfolding insert_by
  sort_by [] = []
  sort_by (x ∷ xs) = insert_by x (sort_by xs)

  any-insert_by : (p : A → Bool) (a : A) (xs : List A) → any p (insert_by a xs) ≡ (p a || any p xs)
  unfolding insert_by
  any-insert_by p a [] = refl
  any-insert_by p a (x ∷ xs) = ground (arith, any-insert_by p a xs)

  pub any-sort_by : (p : A → Bool) (xs : List A) → any p (sort_by xs) ≡ any p xs
  unfolding sort_by
  any-sort_by p [] = refl
  any-sort_by p (x ∷ xs) = ground (arith, any-insert_by p x (sort_by xs), any-sort_by p xs)

  length-insert_by : (a : A) (xs : List A) → length (insert_by a xs) ≡ length (a ∷ xs)
  unfolding insert_by
  length-insert_by a [] = refl
  length-insert_by a (x ∷ xs) = ground (arith, length-insert_by a xs)

  pub length-sort_by : (xs : List A) → length (sort_by xs) ≡ length xs
  unfolding sort_by
  length-sort_by [] = refl
  length-sort_by (x ∷ xs) = ground (arith, length-insert_by x (sort_by xs), length-sort_by xs)

  All-insert_by {κ} :
      (P : A → Type κ) (a : A) (xs : List A) → P a → All P xs → All P (insert_by a xs)
  unfolding insert_by
  All-insert_by P a [] pa h = (pa, h)
  All-insert_by P a (x ∷ xs) pa h = elim (Bool-cases (less x a)) [
    | inl e ↦ rw e (h.0, All-insert_by P a xs pa h.1)
    | inr e ↦ rw e (pa, h)
  ]

  pub All-sort_by {κ} : (P : A → Type κ) (xs : List A) → All P xs → All P (sort_by xs)
  unfolding sort_by
  All-sort_by P [] h = h
  All-sort_by P (x ∷ xs) h = All-insert_by P x (sort_by xs) h.0 (All-sort_by P xs h.1)

  All-of_insert_by {κ} :
      (P : A → Type κ) (a : A) (xs : List A) → All P (insert_by a xs) → P a × All P xs
  unfolding insert_by
  All-of_insert_by P a [] h = (h.0, tt)
  All-of_insert_by P a (x ∷ xs) h = place (less x a) (All-of_insert_by P a xs) h
    where
      place :
          (b : Bool)
          → (All P (insert_by a xs) → P a × All P xs)
          → All P (if b then x ∷ insert_by a xs else a ∷ x ∷ xs)
          → P a × All P (x ∷ xs)
      place true behind h = let r = behind h.1 in (r.0, (h.0, r.1))
      place false behind h = h

  -- What holds of the sorted elements held before.
  pub All-of_sort_by {κ} : (P : A → Type κ) (xs : List A) → All P (sort_by xs) → All P xs
  unfolding sort_by
  All-of_sort_by P [] h = h
  All-of_sort_by P (x ∷ xs) h =
      let r = All-of_insert_by P x (sort_by xs) h in (r.0, All-of_sort_by P xs r.1)

  module _ {κ} {R : A → A → Type κ} (symm : (a b : A) → R a b → R b a) where
    Pairs-insert_by : (a : A) (xs : List A) → All (R a) xs → Pairs R xs → Pairs R (insert_by a xs)
    unfolding insert_by
    Pairs-insert_by a [] h k = (h, k)
    Pairs-insert_by a (x ∷ xs) h k = elim (Bool-cases (less x a)) [
      | inl e ↦ rw e (All-insert_by (R x) a xs (symm a x h.0) k.0, Pairs-insert_by a xs h.1 k.1)
      | inr e ↦ rw e (h, k)
    ]

    -- A symmetric relation between all pairs survives sorting.
    pub Pairs-sort_by : (xs : List A) → Pairs R xs → Pairs R (sort_by xs)
    unfolding sort_by
    Pairs-sort_by [] h = h
    Pairs-sort_by (x ∷ xs) h =
        Pairs-insert_by x (sort_by xs) (All-sort_by (R x) xs h.0) (Pairs-sort_by xs h.1)

-- The result is in order, for a total order whose `less` is given.
module _ {ℓ} {A : Type ℓ} (less : A → A → Bool)
    (asymm : (a b : A) → less a b ≡ true → less b a ≡ false)
    (ge_trans : (a b c : A) → less b a ≡ false → less c b ≡ false → less c a ≡ false) where
  abbrev InOrder : A → A → Type 0
  InOrder a b = less b a ≡ false

  ordered-insert_by : (a : A) (xs : List A) → Pairs InOrder xs → Pairs InOrder (insert_by less a xs)
  unfolding insert_by
  ordered-insert_by a [] h = (tt, h)
  ordered-insert_by a (x ∷ xs) h = elim (Bool-cases (less x a)) [
    | inl e ↦
        rw e (All-insert_by less (InOrder x) a xs (asymm x a e) h.0, ordered-insert_by a xs h.1)
    | inr e ↦ rw e ((e, All-imp xs (λ b k. ge_trans a x b e k) h.0), h)
  ]

  pub sort_by_ordered : (xs : List A) → Pairs (λ a b. less b a ≡ false) (sort_by less xs)
  unfolding sort_by
  sort_by_ordered [] = tt
  sort_by_ordered (x ∷ xs) = ordered-insert_by x (sort_by less xs) (sort_by_ordered xs)
