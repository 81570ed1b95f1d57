-- ===== src/Nat/Ranges/Normal.antt =====
-- `normalizeRanges` of plan.go.
use egress_manager.Base.{
  ℕ, ◌+◌, ◌≤◌, ◌<◌, ◌≡◌, refl, ◌∙◌, true, false, ◌||◌, List, [], ◌∷◌, ltb, All, Pairs, Pairs-imp,
  sort_by, any-sort_by, sort_by_ordered, All-sort_by, arith, Bool-cases, inl, inr,
}
use egress_manager.Domain.Forward.{PortRange, IsRange, range_contains}
use egress_manager.Nat.Ranges.{
  range_less, merge_onto, merge_ranges, normalize_ranges, ranges_contain,
}

abbrev Starts : ℕ → List PortRange → Type 0
Starts n rs = All (λ r. n ≤ r.from) rs

-- what the sorted list gives: starts do not fall
abbrev Rising : List PortRange → Type 0
Rising rs = Pairs (λ a b. a.from ≤ b.from) rs

merge_onto-contain :
    (last : PortRange) (rest : List PortRange) (p : ℕ)
    → Starts last.from rest
    → Rising rest
    → ranges_contain (merge_onto last rest) p ≡ (range_contains last p || ranges_contain rest p)
unfolding merge_onto
merge_onto-contain last [] p s r = refl
merge_onto-contain last (current ∷ rest) p s r = ground (
  arith,
  merge_onto-contain current rest p r.0 r.1,
  merge_onto-contain (record last { to = current.to }) rest p s.1 r.1,
  merge_onto-contain last rest p s.1 r.1,
)

-- Neighbours are in order with at least one port between them.
abbrev pub Gap : PortRange → PortRange → Type 0
Gap a b = a.to + 1 < b.from

-- The list is in order with gaps, and starts at `n` or later.
abbrev pub Apart : List PortRange → Type 0
Apart [] = Unit
Apart (r ∷ []) = Unit
Apart (r ∷ s ∷ rest) = Gap r s × Apart (s ∷ rest)

-- The head of a merged list starts where its first range started, and ends no earlier.
abbrev HeadFrom : PortRange → List PortRange → Type 0
HeadFrom last [] = ⊥
HeadFrom last (r ∷ rest) = r.from ≡ last.from

merge_onto-HeadFrom :
    (last : PortRange) (rest : List PortRange) → HeadFrom last (merge_onto last rest)
unfolding merge_onto
merge_onto-HeadFrom last [] = refl
merge_onto-HeadFrom last (current ∷ rest) = ground (
  arith,
  merge_onto-HeadFrom (record last { to = current.to }) rest,
  merge_onto-HeadFrom last rest,
)

Apart-cons :
    (last current : PortRange) (rest : List PortRange)
    → Gap last current
    → HeadFrom current rest
    → Apart rest
    → Apart (last ∷ rest)
Apart-cons last current [] g h a = absurd h
Apart-cons last current (r ∷ rest) g h a = (rw h g, a)

merge_onto-Apart : (last : PortRange) (rest : List PortRange) → Apart (merge_onto last rest)
unfolding merge_onto
merge_onto-Apart last [] = tt
merge_onto-Apart last (current ∷ rest) = elim (Bool-cases (ltb (last.to + 1) current.from)) [
  | inl apart ↦ rw apart (
      Apart-cons last current (merge_onto current rest) (ground arith)
        (merge_onto-HeadFrom current rest) (merge_onto-Apart current rest))
  | inr near ↦ rw near (elim (Bool-cases (ltb last.to current.to)) [
    | inl grown ↦ rw grown (merge_onto-Apart (record last { to = current.to }) rest)
    | inr kept ↦ rw kept (merge_onto-Apart last rest)
  ])
]

range_less-asymm : (a b : PortRange) → range_less a b ≡ true → range_less b a ≡ false
range_less-asymm a b h = ground arith

range_less-ge_trans :
    (a b c : PortRange) → range_less b a ≡ false → range_less c b ≡ false → range_less c a ≡ false
range_less-ge_trans a b c h k = ground arith

sorted-Rising : (rs : List PortRange) → Rising (sort_by range_less rs)
sorted-Rising rs =
    Pairs-imp (sort_by range_less rs) (λ a b h. ground arith)
      (sort_by_ordered range_less range_less-asymm range_less-ge_trans rs)

merge_ranges-contain :
    (rs : List PortRange) (p : ℕ)
    → Rising rs
    → ranges_contain (merge_ranges rs) p ≡ ranges_contain rs p
unfolding merge_ranges
merge_ranges-contain [] p r = refl
merge_ranges-contain (first ∷ rest) p r = merge_onto-contain first rest p r.0 r.1

-- Normalising port ranges changes no port's membership: whatever the ranges, a port lies in the
-- normalised list exactly if it lies in the given one.
pub normalize_ranges-contain :
    (rs : List PortRange) (p : ℕ) → ranges_contain (normalize_ranges rs) p ≡ ranges_contain rs p
unfolding normalize_ranges
normalize_ranges-contain rs p =
    merge_ranges-contain (sort_by range_less rs) p (sorted-Rising rs)
    ∙ any-sort_by range_less (λ r. range_contains r p) rs

-- Normalised ranges are in rising order, and between the end of one and the start of the next there
-- is at least one port that neither holds.
pub normalize_ranges-Apart : (rs : List PortRange) → Apart (normalize_ranges rs)
unfolding normalize_ranges merge_ranges
normalize_ranges-Apart rs = elim (sort_by range_less rs) as (λ s. Apart (merge_ranges s)) [
  | [] ↦ tt
  | first ∷ rest ↦ merge_onto-Apart first rest
]

merge_onto-IsRange :
    (last : PortRange) (rest : List PortRange)
    → IsRange last
    → All IsRange rest
    → Starts last.from rest
    → Rising rest
    → All IsRange (merge_onto last rest)
unfolding merge_onto
merge_onto-IsRange last [] v vs s r = (v, tt)
merge_onto-IsRange last (current ∷ rest) v vs s r =
    elim (Bool-cases (ltb (last.to + 1) current.from)) [
      | inl apart ↦ rw apart (v, merge_onto-IsRange current rest vs.0 vs.1 r.0 r.1)
      | inr near ↦ rw near (elim (Bool-cases (ltb last.to current.to)) [
        | inl grown ↦ rw grown (
            merge_onto-IsRange (record last { to = current.to }) rest
              (v.0, omega (arith, s.0, vs.0.1), vs.0.2) vs.1 s.1 r.1)
        | inr kept ↦ rw kept (merge_onto-IsRange last rest v vs.1 s.1 r.1)
      ])
    ]

-- If every given range is one of real ports in order, so is every normalised range.
pub normalize_ranges-IsRange :
    (rs : List PortRange) → All IsRange rs → All IsRange (normalize_ranges rs)
unfolding normalize_ranges merge_ranges
normalize_ranges-IsRange rs v =
    merged (sort_by range_less rs) (All-sort_by range_less IsRange rs v) (sorted-Rising rs)
  where
    merged : (s : List PortRange) → All IsRange s → Rising s → All IsRange (merge_ranges s)
    merged [] vs r = tt
    merged (first ∷ rest) vs r = merge_onto-IsRange first rest vs.0 vs.1 r.0 r.1
