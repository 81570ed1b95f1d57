-- ===== src/Nat/Ranges/Overlap.antt =====
-- `rangesOverlap` of plan.go.
use egress_manager.Base.{
  ◌&&◌, subst, sym, Option, Option-cases, inl, inr, ℕ, ◌≡◌, refl, true, false, none, some, List, [],
  ◌∷◌, arith,
}
use egress_manager.Domain.Forward.{PortRange, range_contains}
use egress_manager.Nat.Ranges.{ranges_contain, overlap_with, ranges_overlap}

overlap_with-some :
    (left : PortRange) (second : List PortRange) (p : ℕ)
    → overlap_with left second ≡ some p
    → (range_contains left p ≡ true) × (ranges_contain second p ≡ true)
unfolding overlap_with
overlap_with-some left [] p h = absurd (cc)
overlap_with-some left (right ∷ rest) p h = ground (arith, overlap_with-some left rest p)

overlap_with-none :
    (left : PortRange) (second : List PortRange) (p : ℕ)
    → overlap_with left second ≡ none
    → range_contains left p ≡ true
    → ranges_contain second p ≡ false
unfolding overlap_with
overlap_with-none left [] p h k = refl
overlap_with-none left (right ∷ rest) p h k = ground (arith, overlap_with-none left rest p)

-- A reported port is common.
ranges_overlap-some :
    (first second : List PortRange) (p : ℕ)
    → ranges_overlap first second ≡ some p
    → (ranges_contain first p ≡ true) × (ranges_contain second p ≡ true)
unfolding ranges_overlap
ranges_overlap-some [] second p h = absurd (cc)
ranges_overlap-some (left ∷ rest) second p h =
    ground (arith, overlap_with-some left second p, ranges_overlap-some rest second p)

-- Without a report there is no common port.
pub ranges_overlap-none :
    (first second : List PortRange) (p : ℕ)
    → ranges_overlap first second ≡ none
    → ranges_contain first p ≡ true
    → ranges_contain second p ≡ false
unfolding ranges_overlap
ranges_overlap-none [] second p h k = absurd (cc)
ranges_overlap-none (left ∷ rest) second p h k =
    ground (arith, overlap_with-none left second p, ranges_overlap-none rest second p)

-- What the report of a common port says: that port is in both lists, or the given port is not.
abbrev pub IsReport : List PortRange → List PortRange → ℕ → Option ℕ → Type 0
IsReport first second p none = (ranges_contain first p && ranges_contain second p) ≡ false
IsReport first second p (some q) =
    (ranges_contain first q ≡ true) × (ranges_contain second q ≡ true)

-- The port that `rangesOverlap` reports lies in both lists; where it reports none, no port lies in
-- both.
pub ranges_overlap-IsReport :
    (first second : List PortRange) (p : ℕ) → IsReport first second p (ranges_overlap first second)
ranges_overlap-IsReport first second p = elim (Option-cases (ranges_overlap first second)) [
  | inl nothing ↦
      subst (IsReport first second p) (sym nothing)
        (ground (arith, ranges_overlap-none first second p nothing))
  | inr found ↦
      let (q, reported) = found in
      subst (IsReport first second p) (sym reported) (ranges_overlap-some first second q reported)
]
