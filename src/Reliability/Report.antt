-- ===== src/Reliability/Report.antt =====
-- What the results of a run say of its steps.
use egress_manager.Base.{
  ℕ, ◌≡◌, refl, sym, subst, ap, Bool-cases, inl, inr, Bool, true, false, none, some, List, [], ◌∷◌,
  ◌++◌, all, map, if◌then◌else◌, arith,
}
use egress_manager.Reliability.{RecoveryStep, StepResult, Progress, attempt, result_of, run_steps}

-- The steps themselves, between two readings of the clock each.
abbrev pub through : {W : Type 0} → (W → ℕ × W) → List (RecoveryStep W) → W → W
through now [] w = w
through now (s ∷ ss) w = through now ss (now (s.recover (now w).1).1).1

module _ {W : Type 0} (now : W → ℕ × W) (cancelled : W → Bool) where
  -- A step that did not succeed, from `w` to `v`: it was not called since the context was done, or
  -- it was called and failed.
  pub data Failed (s : RecoveryStep W) (w v : W) : Type 0 where
    skipped : cancelled w ≡ true → v ≡ w → Failed s w v
    tried : cancelled w ≡ false → (s.recover w).0 ≡ false → v ≡ (s.recover w).1 → Failed s w v

  -- The steps that ran, from the state `w`, and how the run ended.
  pub data Ran (steps : List (RecoveryStep W)) (w : W) (p : Progress W) : Type 0 where
    finished :
        p.failure ≡ none
        → map (λ r. r.component) p.results ≡ map (λ s. s.component) steps
        → all (λ r. r.succeeded) p.results ≡ true
        → p.state ≡ through now steps w
        → Ran steps w p
    stopped :
        (done : List StepResult) (before after : List (RecoveryStep W)) (s : RecoveryStep W)
        (r : StepResult) (v : W)
        → p.failure ≡ some (s.component, r.ended_at)
        → steps ≡ before ++ s ∷ after
        → p.results ≡ done ++ r ∷ []
        → map (λ r. r.component) done ≡ map (λ s. s.component) before
        → all (λ r. r.succeeded) done ≡ true
        → r.component ≡ s.component
        → r.succeeded ≡ false
        → Failed s (now (through now before w)).1 v
        → p.state ≡ (now v).1
        → Ran steps w p

  -- A step that succeeded stands before what follows.
  Ran-cons :
      (s : RecoveryStep W) (ss : List (RecoveryStep W)) (r : StepResult) (w : W) (p : Progress W)
      → r.component ≡ s.component
      → r.succeeded ≡ true
      → Ran ss (now (s.recover (now w).1).1).1 p
      → Ran (s ∷ ss) w (record { results = r ∷ p.results; failure = p.failure; state = p.state })
  Ran-cons s ss r w p same good (finished f names all_good end) =
      finished f (cc (same, names)) (ground (arith, good, all_good)) end
  Ran-cons s ss r w p same good
        (stopped done before after q x v f parts results names all_good own bad fails end) =
      stopped (r ∷ done) (s ∷ before) after q x v f (ap (λ l. s ∷ l) parts)
        (ap (λ l. r ∷ l) results) (cc (same, names)) (ground (arith, good, all_good)) own bad fails
        end

  -- One turn of the loop, by the outcome of its step.
  turn : RecoveryStep W → List (RecoveryStep W) → W → Bool → W → Progress W
  turn s ss w done v =
      let (ended, u) = now v in
      let result = result_of now cancelled s (now w).0 done ended in
      let rest = run_steps now cancelled ss u in
      if done
      then record { results = result ∷ rest.results; failure = rest.failure; state = rest.state }
      else record { results = result ∷ []; failure = some (s.component, ended); state = u }

  turn-failed :
      (s : RecoveryStep W) (ss : List (RecoveryStep W)) (w v : W)
      → Failed s (now w).1 v
      → Ran (s ∷ ss) w (turn s ss w false v)
  unfolding turn
  turn-failed s ss w v f =
      stopped [] [] ss s (result_of now cancelled s (now w).0 false (now v).0) v refl refl refl refl
        refl refl refl f refl

  turn-called :
      (s : RecoveryStep W) (ss : List (RecoveryStep W)) (w : W) (done : Bool)
      → cancelled (now w).1 ≡ false
      → (s.recover (now w).1).0 ≡ done
      → Ran ss
          (now (s.recover (now w).1).1).1
          (run_steps now cancelled ss (now (s.recover (now w).1).1).1)
      → Ran (s ∷ ss) w (turn s ss w done (s.recover (now w).1).1)
  unfolding turn
  turn-called s ss w true c h rest =
      let v = (s.recover (now w).1).1 in
      Ran-cons s ss (result_of now cancelled s (now w).0 true (now v).0) w
        (run_steps now cancelled ss (now v).1) refl refl rest
  turn-called s ss w false c h rest = turn-failed s ss w (s.recover (now w).1).1 (tried c h refl)

  -- Whatever the steps do, the clock shows and the context says: either every step was called, in
  -- order and with success, each on the state that the one before it left, and no component is
  -- reported as failed; or the steps before one were called so, that one was called and failed, or
  -- was not called since the context was done, it is reported as failed, and none behind it was
  -- called: the state is the one that it left.
  pub run_steps-Ran :
      (steps : List (RecoveryStep W)) (w : W) → Ran steps w (run_steps now cancelled steps w)
  unfolding run_steps turn
  run_steps-Ran [] w = finished refl refl refl refl
  run_steps-Ran (s ∷ ss) w = elim (Bool-cases (cancelled (now w).1)) [
    | inl c ↦
        subst (λ a. Ran (s ∷ ss) w (turn s ss w a.0 a.1)) (sym (attempt-cancelled c))
          (turn-failed s ss w (now w).1 (skipped c refl))
    | inr c ↦
        subst (λ a. Ran (s ∷ ss) w (turn s ss w a.0 a.1)) (sym (attempt-called c))
          (turn-called s ss w (s.recover (now w).1).0 c refl
            (run_steps-Ran ss (now (s.recover (now w).1).1).1))
  ]
    where
      attempt-cancelled :
          cancelled (now w).1 ≡ true → attempt now cancelled s (now w).1 ≡ (false, (now w).1)
      attempt-cancelled c = rw c refl

      attempt-called :
          cancelled (now w).1 ≡ false → attempt now cancelled s (now w).1 ≡ s.recover (now w).1
      attempt-called c = rw c refl
