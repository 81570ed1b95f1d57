-- ===== src/Nat/Prepare/Sources.antt =====
-- The tests of `rejectDuplicates` on sources and on protocols.
use egress_manager.Base.{
  ◌≡◌, refl, sym, ◌∙◌, Bool, true, false, ◌||◌, List, [], ◌∷◌, ◌==◌, any, length, arith, Bytes,
  bytes_eq, bytes_eq→eq, eq→bytes_eq,
}
use egress_manager.Net.{Addr, Prefix, contains, prefix_addr}
use egress_manager.Net.Nested.{contains-nested}
use egress_manager.Nat.Prepare.{sources_overlap, protocols_overlap}

-- A test of all pairs that fails leaves no pair of elements that would pass it.
module _ {ℓ κ} {A : Type ℓ} {B : Type κ} (f : A → B → Bool) (p : A → Bool) (q : B → Bool)
    (meet : (a : A) (b : B) → p a ≡ true → q b ≡ true → f a b ≡ true) where
  any-row : (a : A) (ys : List B) → any (f a) ys ≡ false → p a ≡ true → any q ys ≡ false
  any-row a [] h k = refl
  any-row a (y ∷ ys) h k = ground (arith, meet a y, any-row a ys)

  pub any-pairs :
      (xs : List A) (ys : List B)
      → any (λ a. any (f a) ys) xs ≡ false
      → any p xs ≡ true
      → any q ys ≡ false
  any-pairs [] ys h k = absurd (cc)
  any-pairs (x ∷ xs) ys h k = ground (arith, any-row x ys, any-pairs xs ys)

-- An address that a list of source prefixes lets in; no prefix means any source.
abbrev pub admits : List Prefix → Addr → Bool
admits sources a = length sources == 0 || any (λ p. contains p a) sources

pub sources_overlap-false :
    (first second : List Prefix) (a : Addr)
    → sources_overlap first second ≡ false
    → admits first a ≡ true
    → admits second a ≡ false
unfolding sources_overlap
sources_overlap-false [] second a h k = ground arith
sources_overlap-false (l ∷ ls) [] a h k = ground arith
sources_overlap-false (l ∷ ls) (r ∷ rs) a h k = ground (
  arith,
  any-pairs (λ l r. contains l (prefix_addr r) || contains r (prefix_addr l)) (λ p. contains p a)
      (λ p. contains p a) (λ l r. contains-nested l r a) (l ∷ ls) (r ∷ rs),
)

pub protocols_overlap-false :
    (first second : List Bytes) (p : Bytes)
    → protocols_overlap first second ≡ false
    → any (λ x. bytes_eq x p) first ≡ true
    → any (λ x. bytes_eq x p) second ≡ false
unfolding protocols_overlap
protocols_overlap-false first second p h k =
    any-pairs bytes_eq (λ x. bytes_eq x p) (λ x. bytes_eq x p)
      (λ a b ha hb. eq→bytes_eq a b (bytes_eq→eq a p ha ∙ sym (bytes_eq→eq b p hb))) first second h
      k
