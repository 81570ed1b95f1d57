-- ===== src/Base/Lists.antt =====
-- Lists measured by native numbers, Boolean searches, and predicates by recursion.
use Prim.Native.Nat.{ℕ, zero, suc, ◌+◌}
use mathlib.Core.Path.{◌≡◌, refl}
use mathlib.Core.Bool.{Bool, true, false, ◌&&◌, ◌||◌}
use mathlib.Core.List.{List, [], ◌∷◌, ◌++◌, map}
use mathlib.Core.Option.{Option, none, some}
use native.Mathlib.Omega.{arith}
use egress_manager.Base.Tests.{if◌then◌else◌}

module _ {ℓ} {A : Type ℓ} where
  abbrev pub length : List A → ℕ
  length [] = 0
  length (x ∷ xs) = suc (length xs)

  abbrev pub any : (A → Bool) → List A → Bool
  any p [] = false
  any p (x ∷ xs) = p x || any p xs

  abbrev pub all : (A → Bool) → List A → Bool
  all p [] = true
  all p (x ∷ xs) = p x && all p xs

  abbrev pub select : (A → Bool) → List A → List A
  select p [] = []
  select p (x ∷ xs) = let rest = select p xs in if p x then x ∷ rest else rest

  abbrev pub get_elem? : List A → ℕ → Option A
  get_elem? [] i = none
  get_elem? (x ∷ xs) zero = some x
  get_elem? (x ∷ xs) (suc i) = get_elem? xs i

  abbrev pub take : ℕ → List A → List A
  take zero xs = []
  take (suc n) [] = []
  take (suc n) (x ∷ xs) = x ∷ take n xs

  -- Every element satisfies `P`.
  abbrev pub All {κ} : (A → Type κ) → List A → Type κ
  All P [] = Unit
  All P (x ∷ xs) = P x × All P xs

  -- Every element is related to each one behind it.
  abbrev pub Pairs {κ} : (A → A → Type κ) → List A → Type κ
  Pairs R [] = Unit
  Pairs R (x ∷ xs) = All (R x) xs × Pairs R xs

module _ {ℓ} {A : Type ℓ} where
  pub length-append : (xs ys : List A) → length (xs ++ ys) ≡ length xs + length ys
  length-append [] ys = omega arith
  length-append (x ∷ xs) ys = omega (arith, length-append xs ys)

  pub any-append : (p : A → Bool) (xs ys : List A) → any p (xs ++ ys) ≡ (any p xs || any p ys)
  any-append p [] ys = refl
  any-append p (x ∷ xs) ys = ground (arith, any-append p xs ys)

  pub All-append {κ} : (P : A → Type κ) (xs ys : List A) → All P xs → All P ys → All P (xs ++ ys)
  All-append P [] ys hx hy = hy
  All-append P (x ∷ xs) ys hx hy = (hx.0, All-append P xs ys hx.1 hy)

  pub All-split {κ} : (P : A → Type κ) (xs ys : List A) → All P (xs ++ ys) → All P xs × All P ys
  All-split P [] ys h = (tt, h)
  All-split P (x ∷ xs) ys h = let r = All-split P xs ys h.1 in ((h.0, r.0), r.1)

  pub All-imp {κ μ} :
      {P : A → Type κ} {Q : A → Type μ} (xs : List A) → ((a : A) → P a → Q a) → All P xs → All Q xs
  All-imp [] f h = tt
  All-imp (x ∷ xs) f h = (f x h.0, All-imp xs f h.1)

  pub All-map2 {κ μ ν} :
      (P : A → Type κ) (Q : A → Type μ) (S : A → Type ν) (xs : List A)
      → ((a : A) → P a → Q a → S a)
      → All P xs
      → All Q xs
      → All S xs
  All-map2 P Q S [] f h k = tt
  All-map2 P Q S (x ∷ xs) f h k = (f x h.0 k.0, All-map2 P Q S xs f h.1 k.1)

  pub Pairs-imp {κ μ} :
      {R : A → A → Type κ} {S : A → A → Type μ} (xs : List A)
      → ((a b : A) → R a b → S a b)
      → Pairs R xs
      → Pairs S xs
  Pairs-imp [] f h = tt
  Pairs-imp (x ∷ xs) f h = (All-imp xs (f x) h.0, Pairs-imp xs f h.1)

  -- A pair may use that both its members satisfy `P`.
  pub Pairs-imp_of_All {κ μ ν} :
      (P : A → Type ν) (R : A → A → Type κ) (S : A → A → Type μ) (xs : List A)
      → ((a b : A) → P a → P b → R a b → S a b)
      → All P xs
      → Pairs R xs
      → Pairs S xs
  Pairs-imp_of_All P R S [] f hp h = tt
  Pairs-imp_of_All P R S (x ∷ xs) f hp h = (
    All-map2 P (R x) (S x) xs (λ b q r. f x b hp.0 q r) hp.1 h.0,
    Pairs-imp_of_All P R S xs f hp.1 h.1,
  )

  pub any-false {κ} :
      {P : A → Type κ} (p : A → Bool) (xs : List A)
      → ((a : A) → p a ≡ false → P a)
      → any p xs ≡ false
      → All P xs
  any-false p [] f h = tt
  any-false p (x ∷ xs) f h = (f x (ground arith), any-false p xs f (ground arith))

  pub all-true {κ} :
      {P : A → Type κ} (p : A → Bool) (xs : List A)
      → ((a : A) → p a ≡ true → P a)
      → all p xs ≡ true
      → All P xs
  all-true p [] f h = tt
  all-true p (x ∷ xs) f h = (f x (ground arith), all-true p xs f (ground arith))

module _ {ℓ} {A : Type ℓ} where
  pub All-take {κ} : (P : A → Type κ) (n : ℕ) (xs : List A) → All P xs → All P (take n xs)
  All-take P zero xs h = tt
  All-take P (suc n) [] h = tt
  All-take P (suc n) (x ∷ xs) h = (h.0, All-take P n xs h.1)

  pub All-select {κ} :
      (P : A → Type κ) (p : A → Bool) (xs : List A) → All P xs → All P (select p xs)
  All-select P p [] h = tt
  All-select P p (x ∷ xs) h = place (p x) (All-select P p xs h.1)
    where
      place : (b : Bool) → All P (select p xs) → All P (if b then x ∷ select p xs else select p xs)
      place true rest = (h.0, rest)
      place false rest = rest

  pub Pairs-select {κ} :
      (R : A → A → Type κ) (p : A → Bool) (xs : List A) → Pairs R xs → Pairs R (select p xs)
  Pairs-select R p [] h = tt
  Pairs-select R p (x ∷ xs) h = place (p x) (All-select (R x) p xs h.0) (Pairs-select R p xs h.1)
    where
      place :
          (b : Bool)
          → All (R x) (select p xs)
          → Pairs R (select p xs)
          → Pairs R (if b then x ∷ select p xs else select p xs)
      place true first rest = (first, rest)
      place false first rest = rest

  pub Pairs-snoc {κ} :
      (R : A → A → Type κ) (xs : List A) (y : A)
      → All (λ x. R x y) xs
      → Pairs R xs
      → Pairs R (xs ++ y ∷ [])
  Pairs-snoc R [] y h k = (tt, tt)
  Pairs-snoc R (x ∷ xs) y h k =
      (All-append (R x) xs (y ∷ []) k.0 (h.0, tt), Pairs-snoc R xs y h.1 k.1)

  -- What is selected passes the test.
  pub select-All : (p : A → Bool) (xs : List A) → All (λ x. p x ≡ true) (select p xs)
  select-All p [] = tt
  select-All p (x ∷ xs) = place (p x) refl (select-All p xs)
    where
      place :
          (b : Bool)
          → p x ≡ b
          → All (λ x. p x ≡ true) (select p xs)
          → All (λ x. p x ≡ true) (if b then x ∷ select p xs else select p xs)
      place true e rest = (e, rest)
      place false e rest = rest

  -- An element that passes the test, with what holds of all.
  pub any-some {κ} :
      (P : A → Type κ) (p : A → Bool) (xs : List A)
      → any p xs ≡ true
      → All P xs
      → (x : A) × (p x ≡ true) × P x
  any-some P p [] e h = absurd (ground arith)
  any-some P p (x ∷ xs) e h = place (p x) refl e (any-some P p xs)
    where
      place :
          (b : Bool)
          → p x ≡ b
          → (b || any p xs) ≡ true
          → (any p xs ≡ true → All P xs → (x : A) × (p x ≡ true) × P x)
          → (x : A) × (p x ≡ true) × P x
      place true e found rest = (x, e, h.0)
      place false e found rest = rest found h.1

-- No element is equal to one of `seen` or to one before it, by the test `eq`.
module _ {ℓ} {A : Type ℓ} (eq : A → A → Bool) where
  pub record Fresh (seen xs : List A) : Type ℓ where
    pub unseen : All (λ x. any (eq x) seen ≡ false) xs
    pub distinct : Pairs (λ x y. eq y x ≡ false) xs

  pub Fresh-nil : (seen : List A) → Fresh seen []
  Fresh-nil seen = record { unseen = tt; distinct = tt }

  pub Fresh-cons :
      (x : A) (seen xs : List A)
      → any (eq x) seen ≡ false
      → Fresh (x ∷ seen) xs
      → Fresh seen (x ∷ xs)
  Fresh-cons x seen xs new rest = record {
    unseen = (new, All-imp xs (λ y h. ground arith) rest.unseen);
    distinct = (All-imp xs (λ y h. ground arith) rest.unseen, rest.distinct);
  }

-- A statement about the images is one about the elements.
module _ {ℓ μ} {A : Type ℓ} {B : Type μ} (f : A → B) where
  pub All-map {κ} : (P : B → Type κ) (xs : List A) → All (λ x. P (f x)) xs → All P (map f xs)
  All-map P [] h = tt
  All-map P (x ∷ xs) h = (h.0, All-map P xs h.1)

  pub All-of_map {κ} : (P : B → Type κ) (xs : List A) → All P (map f xs) → All (λ x. P (f x)) xs
  All-of_map P [] h = tt
  All-of_map P (x ∷ xs) h = (h.0, All-of_map P xs h.1)

  pub Pairs-map {κ} :
      (R : B → B → Type κ) (xs : List A) → Pairs (λ x y. R (f x) (f y)) xs → Pairs R (map f xs)
  Pairs-map R [] h = tt
  Pairs-map R (x ∷ xs) h = (All-map (R (f x)) xs h.0, Pairs-map R xs h.1)

  pub Pairs-of_map {κ} :
      (R : B → B → Type κ) (xs : List A) → Pairs R (map f xs) → Pairs (λ x y. R (f x) (f y)) xs
  Pairs-of_map R [] h = tt
  Pairs-of_map R (x ∷ xs) h = (All-of_map (R (f x)) xs h.0, Pairs-of_map R xs h.1)
