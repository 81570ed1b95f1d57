-- ===== src/Effect.antt =====
-- Methods that act on the world and may return an error. What was done before an error stays done,
-- so the world comes back beside the error.
pub mod Leaves
use egress_manager.Base.{◌≡◌, refl, Bool, true, false, if◌then◌else◌}

pub data Result {ℓ} (E A : Type ℓ) : Type ℓ where
  ok : A → Result E A
  err : E → Result E A

abbrev pub Step {ℓ} : Type ℓ → Type ℓ → Type ℓ → Type ℓ
Step W E A = W → Result E A × W

module _ {ℓ} {W E A : Type ℓ} where
  abbrev pub pure : A → Step W E A
  pure a w = (ok a, w)

  abbrev pub raise : E → Step W E A
  raise e w = (err e, w)

  abbrev pub lift : Result E A → Step W E A
  lift r w = (r, w)

  abbrev pub handle : Result E A → (E → Step W E A) → Step W E A
  handle (ok a) h w = (ok a, w)
  handle (err e) h w = h e w

  -- `if err := m(); err != nil { return h(err) }`
  abbrev pub on_error : Step W E A → (E → Step W E A) → Step W E A
  on_error m h w = let (r, w') = m w in handle r h w'

  -- `_ = m()`: the result is dropped.
  abbrev pub ignoring : Step W E A → Step W E (Unit {ℓ})
  ignoring m w = let (r, w') = m w in (ok tt, w')

-- `defer n()`: the end runs whatever the rest returns, and its own result is dropped.
abbrev pub finally {ℓ} : {W E A C : Type ℓ} → Step W E A → Step W E C → Step W E A
finally m n w = let (r, w') = m w in (r, (n w').1)

module _ {ℓ} {W E A B : Type ℓ} where
  abbrev pub continue : Result E A → (A → Step W E B) → Step W E B
  continue (ok a) f w = f a w
  continue (err e) f w = (err e, w)

  infixl 10 ◌>>=◌ ◌>>◌
  abbrev pub ◌>>=◌ : Step W E A → (A → Step W E B) → Step W E B
  ◌>>=◌ m f w = let (r, w') = m w in continue r f w'

  abbrev pub ◌>>◌ : Step W E A → Step W E B → Step W E B
  m >> k = m >>= λ _. k

-- `if !test { return e }`
abbrev pub require {ℓ} : {W E : Type ℓ} → Bool → E → Step W E (Unit {ℓ})
require test e w = (if test then ok tt else err e, w)

-- What holds after a step, of its result and of the world that it leaves.
module _ {ℓ} {W E A B : Type ℓ} where
  -- The rule for a sequence: the rest runs where the first part returned a value.
  pub bind_rule {κ} :
      (Q : Result E B → W → Type κ) (m : Step W E A) (f : A → Step W E B) (w : W)
      → ((e : E) → (m w).0 ≡ err e → Q (err e) (m w).1)
      → ((a : A) → (m w).0 ≡ ok a → Q (f a (m w).1).0 (f a (m w).1).1)
      → Q ((m >>= f) w).0 ((m >>= f) w).1
  bind_rule Q m f w bad good = let (r, w') = m w in split r w' bad good
    where
      split :
          (r : Result E A) (w' : W)
          → ((e : E) → r ≡ err e → Q (err e) w')
          → ((a : A) → r ≡ ok a → Q (f a w').0 (f a w').1)
          → Q (continue r f w').0 (continue r f w').1
      split (ok a) w' bad good = good a refl
      split (err e) w' bad good = bad e refl

module _ {ℓ} {W E A : Type ℓ} where
  -- The rule for a handler.
  pub on_error_rule {κ} :
      (Q : Result E A → W → Type κ) (m : Step W E A) (h : E → Step W E A) (w : W)
      → ((e : E) → (m w).0 ≡ err e → Q (h e (m w).1).0 (h e (m w).1).1)
      → ((a : A) → (m w).0 ≡ ok a → Q (ok a) (m w).1)
      → Q (on_error m h w).0 (on_error m h w).1
  on_error_rule Q m h w bad good = let (r, w') = m w in split r w' bad good
    where
      split :
          (r : Result E A) (w' : W)
          → ((e : E) → r ≡ err e → Q (h e w').0 (h e w').1)
          → ((a : A) → r ≡ ok a → Q (ok a) w')
          → Q (handle r h w').0 (handle r h w').1
      split (ok a) w' bad good = good a refl
      split (err e) w' bad good = bad e refl

  -- The rule for an early return.
  pub require_rule {κ} :
      (Q : Result E A → W → Type κ) (test : Bool) (x : E) (k : Step W E A) (w : W)
      → (test ≡ false → Q (err x) w)
      → (test ≡ true → Q (k w).0 (k w).1)
      → let m = require test x >> k in Q (m w).0 (m w).1
  require_rule Q true x k w bad good = good refl
  require_rule Q false x k w bad good = bad refl

module _ {ℓ} {W E A : Type ℓ} where
  -- A handler that only changes the error leaves the world as it is.
  pub on_error-raise_world :
      (m : Step W E A) (x : E) (w : W) → (on_error m (λ _. raise x) w).1 ≡ (m w).1
  on_error-raise_world m x w = let (r, w') = m w in split r w'
    where
      split : (r : Result E A) (w' : W) → (handle r (λ _. raise x) w').1 ≡ w'
      split (ok a) w' = refl
      split (err e) w' = refl
