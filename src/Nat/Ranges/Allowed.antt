-- ===== src/Nat/Ranges/Allowed.antt =====
-- `allowedRanges` and `matchesPort` of plan.go.
use egress_manager.Base.{
  ℕ, ◌+◌, ◌≤◌, ◌<◌, ◌≡◌, refl, true, false, List, [], ◌∷◌, ltb, All, arith, if◌then◌else◌,
}
use egress_manager.Domain.Forward.{PortRange, IsRange, PortForward}
use egress_manager.Nat.Ranges.{ranges_contain, matches_port, allowed_from, allowed_ranges}
use egress_manager.Nat.Ranges.Normal.{Apart}

-- The first range starts at `next` or later.
abbrev HeadAfter : ℕ → List PortRange → Type 0
HeadAfter next [] = Unit
HeadAfter next (r ∷ rest) = next ≤ r.from

HeadAfter-Apart :
    (r : PortRange) (rest : List PortRange) → Apart (r ∷ rest) → HeadAfter (r.to + 1) rest
HeadAfter-Apart r [] a = tt
HeadAfter-Apart r (s ∷ rest) a = omega (arith, a.0)

Apart-tail : (r : PortRange) (rest : List PortRange) → Apart (r ∷ rest) → Apart rest
Apart-tail r [] a = tt
Apart-tail r (s ∷ rest) a = a.1

-- Ports before the first range are in none.
before_none :
    (rs : List PortRange) (next p : ℕ)
    → All IsRange rs
    → Apart rs
    → HeadAfter next rs
    → p < next
    → ranges_contain rs p ≡ false
before_none [] next p v a h lt = refl
before_none (r ∷ rest) next p v a h lt = ground (
  arith,
  before_none rest (r.to + 1) p v.1 (Apart-tail r rest a) (HeadAfter-Apart r rest a)
      (omega (arith, v.0.1)),
)

allowed_from-contain :
    (rs : List PortRange) (next p : ℕ)
    → All IsRange rs
    → Apart rs
    → HeadAfter next rs
    → next ≤ 65536
    → p ≤ 65535
    → ranges_contain (allowed_from next rs) p
      ≡ (if ltb p next then false else if ranges_contain rs p then false else true)
unfolding allowed_from
allowed_from-contain [] next p v a h n q = ground arith
allowed_from-contain (r ∷ rest) next p v a h n q = ground (
  arith,
  allowed_from-contain rest (r.to + 1) p v.1 (Apart-tail r rest a) (HeadAfter-Apart r rest a)
      (omega (arith, v.0.2)) q,
  before_none rest (r.to + 1) p v.1 (Apart-tail r rest a) (HeadAfter-Apart r rest a),
  v.0,
)

-- For a forward whose exclusions are ranges of ports, in order and apart, as normalising leaves
-- them: a port from 1 to 65535 lies in the allowed ranges exactly if the forward matches it.
pub allowed_ranges-matches_port :
    (forward : PortForward) (p : ℕ)
    → All IsRange forward.all_ports_except
    → Apart forward.all_ports_except
    → 1 ≤ p
    → p ≤ 65535
    → ranges_contain (allowed_ranges forward) p ≡ matches_port forward p
unfolding allowed_ranges matches_port
allowed_ranges-matches_port forward p v a one top = ground (
  arith,
  allowed_from-contain forward.all_ports_except 1 p v a (starts forward.all_ports_except v)
      (omega arith) top,
)
  where
    starts : (rs : List PortRange) → All IsRange rs → HeadAfter 1 rs
    starts [] v = tt
    starts (r ∷ rest) v = v.0.0
