-- ===== src/Database/Keyed.antt =====
-- Rows that a key tells apart, and the removal of some of them by their keys.
use egress_manager.Base.{
  ◌≡◌, ◌⊎◌, refl, subst, Bool, true, false, not, Option, none, some, List, [], ◌∷◌, if◌then◌else◌,
  arith, Bool-cases, inl, inr, any, select, All, All-imp, All-map2, any-some, Pairs,
}

module _ {A K : Type 0} (key : A → K) (eq : K → K → Bool) where
  abbrev pub is_among : List A → K → Bool
  is_among doomed k = any (λ d. eq (key d) k) doomed

  -- `DELETE ... WHERE key IN (SELECT key ...)`
  abbrev pub without : List A → List A → List A
  without doomed rows = select (λ r. not (is_among doomed (key r))) rows

  abbrev pub IsDistinct : List A → Type 0
  IsDistinct rows = Pairs (λ r q. eq (key r) (key q) ≡ false) rows

  abbrev find : K → List A → Option A
  find k [] = none
  find k (r ∷ rows) = let rest = find k rows in if eq (key r) k then some r else rest

  -- A row that its key finds
  abbrev pub IsFound : List A → A → Type 0
  IsFound rows r = find (key r) rows ≡ some r

  module _ (sound : (k j : K) → eq k j ≡ true → k ≡ j) (eq_refl : (k : K) → eq k k ≡ true) where
    pub IsDistinct-IsFound : (rows : List A) → IsDistinct rows → All (IsFound rows) rows
    IsDistinct-IsFound [] u = tt
    IsDistinct-IsFound (r ∷ rows) u = (
      ground (arith, eq_refl (key r)),
      All-map2 (λ q. eq (key r) (key q) ≡ false) (IsFound rows) (IsFound (r ∷ rows)) rows
          (λ q h f. ground (arith, h, f)) u.0 (IsDistinct-IsFound rows u.1),
    )

    -- Rows with the property `p` stay if no doomed row has it.
    pub without-spares :
        (p : A → Bool) (doomed rows : List A)
        → IsDistinct rows
        → All (IsFound rows) doomed
        → All (λ d. p d ≡ false) doomed
        → All (λ r. p r ≡ true → is_among doomed (key r) ≡ false) rows
    without-spares p doomed rows u found other =
        All-imp rows (λ r f h. spared r f h (Bool-cases (is_among doomed (key r))))
          (IsDistinct-IsFound rows u)
      where
        Doomed : A → Type 0
        Doomed d = IsFound rows d × (p d ≡ false)

        spared :
            (r : A)
            → IsFound rows r
            → p r ≡ true
            → (is_among doomed (key r) ≡ true) ⊎ (is_among doomed (key r) ≡ false)
            → is_among doomed (key r) ≡ false
        spared r f h (inr no_row) = no_row
        spared r f h (inl there) =
            let (d, same, (g, not_p)) =
              any-some Doomed (λ d. eq (key d) (key r)) doomed there
                (All-map2 (IsFound rows) (λ d. p d ≡ false) Doomed doomed (λ d a b. (a, b)) found
                  other) in
            let k : find (key r) rows ≡ some d =
              subst (λ k. find k rows ≡ some d) (sound (key d) (key r) same) g in
            absurd (ground (arith, k, f, h, not_p))

  -- What every row that stays has in common with the list before
  pub select-without :
      (p : A → Bool) (doomed rows : List A)
      → All (λ r. p r ≡ true → is_among doomed (key r) ≡ false) rows
      → select p (without doomed rows) ≡ select p rows
  select-without p doomed [] h = refl
  select-without p doomed (r ∷ rows) h = ground (arith, select-without p doomed rows h.1, h.0)
