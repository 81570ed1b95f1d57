-- ===== src/Nat/Ranges.antt =====
-- plan.go: the arithmetic of port ranges, on ports as numbers below 2 ^ 16.
pub mod Normal
pub mod Allowed
pub mod Overlap
use egress_manager.Base.{
  ℕ, ◌+◌, ◌-◌, ◌%◌, ◌^◌, ◌≤◌, Bool, true, false, ◌&&◌, ◌||◌, Option, none, some, List, [], ◌∷◌,
  ◌++◌, ltb, leb, ◌==◌, if◌then◌else◌, any, length, sort_by,
}
use egress_manager.Domain.Forward.{PortRange, range_contains, PortForward}

-- the `less` of `normalizeRanges`
abbrev pub range_less : PortRange → PortRange → Bool
range_less a b = if a.from == b.from then ltb a.to b.to else ltb a.from b.from

-- The loop that merges. The last range of `merged` is the first argument, and those before it are
-- already emitted; a range that is given comes behind it.
unfoldable pub merge_onto : PortRange → List PortRange → List PortRange
merge_onto last [] = last ∷ []
merge_onto last (current ∷ rest) =
    let apart = last ∷ merge_onto current rest in
    let grown = merge_onto (record last { to = current.to }) rest in
    let kept = merge_onto last rest in
    if ltb (last.to + 1) current.from then apart else if ltb last.to current.to then grown else kept

unfoldable pub merge_ranges : List PortRange → List PortRange
merge_ranges [] = []
merge_ranges (first ∷ rest) = merge_onto first rest

unfoldable pub normalize_ranges : List PortRange → List PortRange
unfolding merge_ranges
normalize_ranges input = merge_ranges (sort_by range_less input)

abbrev pub ranges_contain : List PortRange → ℕ → Bool
ranges_contain ranges port = any (λ r. range_contains r port) ranges

unfoldable pub matches_port : PortForward → ℕ → Bool
matches_port forward port =
    if ltb 0 (length forward.listen_ports)
    then ranges_contain forward.listen_ports port
    else if ranges_contain forward.all_ports_except port
    then false
    else true

-- The loop over the exclusions, with `next` a uint32; the conversions to uint16 are written out.
unfoldable pub allowed_from : ℕ → List PortRange → List PortRange
allowed_from next [] =
    if leb next 65535 then (record { from = next % 2 ^ 16; to = 65535 }) ∷ [] else []
allowed_from next (excluded ∷ rest) =
    let others = allowed_from ((excluded.to + 1) % 2 ^ 32) rest in
    if ltb next excluded.from
    then (record { from = next % 2 ^ 16; to = excluded.from - 1 }) ∷ others
    else others

unfoldable pub allowed_ranges : PortForward → List PortRange
allowed_ranges forward =
    if ltb 0 (length forward.listen_ports)
    then forward.listen_ports
    else allowed_from 1 forward.all_ports_except

-- The later of the two starts, if both ranges reach it.
abbrev pub overlap_start : PortRange → PortRange → Option ℕ
overlap_start left right =
    let start = if ltb left.from right.from then right.from else left.from in
    if leb start left.to && leb start right.to then some start else none

unfoldable pub overlap_with : PortRange → List PortRange → Option ℕ
overlap_with left [] = none
overlap_with left (right ∷ rest) = elim (overlap_start left right) [
  | some start ↦ some start
  | none ↦ overlap_with left rest
]

-- `none` is the source's `0, false`.
unfoldable pub ranges_overlap : List PortRange → List PortRange → Option ℕ
ranges_overlap [] second = none
ranges_overlap (left ∷ rest) second = elim (overlap_with left second) [
  | some start ↦ some start
  | none ↦ ranges_overlap rest second
]
