-- ===== src/Effect/Leaves.antt =====
-- What a step leaves as it is, whatever it returns: a part `f` of the world.
use egress_manager.Base.{◌≡◌, ◌∙◌}
use egress_manager.Effect.{ok, Step, bind_rule, on_error_rule, on_error, finally, ◌>>=◌, ◌>>◌}

module _ {W V : Type 0} (f : W → V) where
  abbrev pub Leaves : {E A : Type 0} → Step W E A → Type 0
  Leaves m = (w : W) → f (m w).1 ≡ f w

module _ {W V E A B : Type 0} (f : W → V) where
  -- The rest may use that the first part has returned its value.
  pub Leaves->>= :
      (m : Step W E A) (k : A → Step W E B)
      → Leaves f m
      → ((a : A) (w : W) → (m w).0 ≡ ok a → Leaves f (k a))
      → Leaves f (m >>= k)
  Leaves->>= m k p q w =
      bind_rule (λ r w'. f w' ≡ f w) m k w (λ e h. p w) (λ a h. q a w h (m w).1 ∙ p w)

  pub Leaves->> : (m : Step W E A) (k : Step W E B) → Leaves f m → Leaves f k → Leaves f (m >> k)
  Leaves->> m k p q w =
      bind_rule (λ r w'. f w' ≡ f w) m (λ _. k) w (λ e h. p w) (λ a h. q (m w).1 ∙ p w)

  pub Leaves-finally :
      (m : Step W E A) (n : Step W E B) → Leaves f m → Leaves f n → Leaves f (finally m n)
  Leaves-finally m n p q w = q (m w).1 ∙ p w

module _ {W V E A : Type 0} (f : W → V) where
  pub Leaves-on_error :
      (m : Step W E A) (h : E → Step W E A)
      → Leaves f m
      → ((e : E) → Leaves f (h e))
      → Leaves f (on_error m h)
  Leaves-on_error m h p q w =
      on_error_rule (λ r w'. f w' ≡ f w) m h w (λ e k. q e (m w).1 ∙ p w) (λ a k. p w)
