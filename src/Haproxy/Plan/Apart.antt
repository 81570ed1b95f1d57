-- ===== src/Haproxy/Plan/Apart.antt =====
-- When a check of `DetectConflicts` passes, the frontend is apart from every listener.
use egress_manager.Base.{
  ◌≡◌, refl, subst, Bool, true, false, Option, none, some, List, [], ◌∷◌, ◌++◌, length, All,
  sort_by, length-sort_by, length-append, ==→eq, arith, Bool-cases, inl, inr,
}
use egress_manager.Inventory.{AddrText}
use egress_manager.Inventory.Conflict.{
  Listener, Binding, conflict_less, is_conflict, conflicts_of, binding_is_valid, collect_conflicts,
  detect_conflicts,
}
use egress_manager.Domain.Haproxy.{HaproxyFrontend}
use egress_manager.Haproxy.Plan.{
  PlanError, binding_of, conflict_error, conflicts_error, first_error, require_that,
}

pub first_error-none : (a b : Option PlanError) → first_error a b ≡ none → (a ≡ none) × (b ≡ none)
first_error-none none b h = (refl, h)
first_error-none (some e) b h = absurd (ground arith)

pub require_that-none : (b : Bool) (e : PlanError) → require_that b e ≡ none → b ≡ true
require_that-none b e h = ground arith

module _ (text : AddrText) where
  -- The frontend can be bound beside the listener.
  abbrev pub IsApart : HaproxyFrontend → Listener → Type 0
  IsApart f l = is_conflict text (binding_of text f) l ≡ false

  conflicts_of-nil :
      (b : Binding) (ls : List Listener)
      → length (conflicts_of text b ls) ≡ 0
      → All (λ l. is_conflict text b l ≡ false) ls
  unfolding conflicts_of
  conflicts_of-nil b [] h = tt
  conflicts_of-nil b (l ∷ ls) h = (ground arith, conflicts_of-nil b ls (ground arith))

  detect_conflicts-one :
      (f : HaproxyFrontend) (ls : List Listener)
      → binding_is_valid text (binding_of text f) ≡ true
      → detect_conflicts text (binding_of text f ∷ []) ls
        ≡ some (sort_by conflict_less (conflicts_of text (binding_of text f) ls ++ []))
  unfolding detect_conflicts collect_conflicts
  detect_conflicts-one f ls good = rw (detect_conflicts, collect_conflicts, good) refl

  detect_conflicts-none :
      (f : HaproxyFrontend) (ls : List Listener)
      → binding_is_valid text (binding_of text f) ≡ false
      → detect_conflicts text (binding_of text f ∷ []) ls ≡ none
  unfolding detect_conflicts collect_conflicts
  detect_conflicts-none f ls bad = rw (detect_conflicts, collect_conflicts, bad) refl

  pub conflict_error-All :
      (e : PlanError) (f : HaproxyFrontend) (ls : List Listener)
      → conflict_error text e f ls ≡ none
      → All (IsApart f) ls
  conflict_error-All e f ls h = elim (Bool-cases (binding_is_valid text (binding_of text f))) [
    | inr bad ↦
        let r = subst (λ o. conflicts_error e o ≡ none) (detect_conflicts-none f ls bad) h in
        absurd (ground (arith, r))
    | inl good ↦
        let found = conflicts_of text (binding_of text f) ls in
        let r = subst (λ o. conflicts_error e o ≡ none) (detect_conflicts-one f ls good) h in
        let empty =
          ==→eq (length (sort_by conflict_less (found ++ []))) 0 (require_that-none _ e r) in
        conflicts_of-nil (binding_of text f) ls
          (omega (arith, empty, length-sort_by conflict_less (found ++ []), length-append found []))
  ]
