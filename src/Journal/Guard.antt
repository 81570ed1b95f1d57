-- ===== src/Journal/Guard.antt =====
-- The steps of an apply under the handlers of their failures.
use egress_manager.Base.{ℕ, ◌≡◌, refl, ◌∙◌, ap, sym, subst, Option, some, [], Bytes}
use egress_manager.Effect.{
  Result, ok, err, Step, bind_rule, on_error_rule, on_error, finally, ◌>>=◌,
}
use egress_manager.Domain.Transaction.{TransactionState, verifying, committed, failed}
use egress_manager.Journal.{Journal, World, operation_state}
use egress_manager.Journal.Protocol.{
  transition, fail_with_rollback, fail_early, transition-ok, transition-err, transition-host,
}
use egress_manager.Journal.Outcome.{
  Outcome, refused, stopped, done, restored, pending, lost, IsErr, IsEarly, IsPending, Restores,
  RestoreFailed, RefusedFrom,
}
use egress_manager.Journal.Rollback.{fail_with_rollback-Outcome}

module _ {H J E V : Type 0} (log : Journal J) (view : H → V) (now : World H J → Option ℕ)
    (refusal : E) (both : E → E → E) (id : Bytes) (Done Lost : V → Type 0) (o : V)
    (before : Option TransactionState) where
  abbrev Act : Type 0 → Type 0
  Act A = Step (World H J) E A

  abbrev pub Ends : Result E (Unit {0}) → World H J → Type 0
  Ends r w = Outcome log view Done Lost o id before r w

  module _ (restore : Act (Unit {0})) (restoring : Restores log view restore o)
      (lose : (v : V) → RestoreFailed log view restore id v → Lost v) where
    -- A step under the handler that rolls back: either it returned a value, or the outcome is known.
    pub guarded :
        (A : Type 0) (m : Act A) (rest : A → Act (Unit {0})) (from : TransactionState)
        (detail : Bytes) (w : World H J)
        → IsPending from
        → ((x : E) → (m w).0 ≡ err x → operation_state log id (m w).1 ≡ some from)
        → ((a : A) → (m w).0 ≡ ok a → Ends (rest a (m w).1).0 (rest a (m w).1).1)
        → let n =
            on_error m (fail_with_rollback log now refusal both id restore from detail) >>= rest in
          Ends (n w).0 (n w).1
    guarded A m rest from detail w p bad good = split (m w).0 (m w).1 bad good
      where
        failed_step :
            (x : E) (w' : World H J)
            → operation_state log id w' ≡ some from
            → let n =
                fail_with_rollback log now refusal both {A = A} id restore from detail x >>= rest in
              Ends (n w').0 (n w').1
        failed_step x w' s =
            let out =
              fail_with_rollback-Outcome log view now refusal both id restore o restoring Done Lost
                lose A from detail x before w' p s in
            bind_rule Ends
              (fail_with_rollback log now refusal both {A = A} id restore from detail x) rest w'
              (λ y k. out.1 y) (λ a k. absurd (subst IsErr k out.0))

        split :
            (r : Result E A) (w' : World H J)
            → ((x : E) → r ≡ err x → operation_state log id w' ≡ some from)
            → ((a : A) → r ≡ ok a → Ends (rest a w').0 (rest a w').1)
            → let n =
                on_error
                  (λ _. (r, w'))
                  (fail_with_rollback log now refusal both id restore from detail)
                >>= rest in
              Ends (n w).0 (n w).1
        split (ok a) w' bad good = good a refl
        split (err x) w' bad good = failed_step x w' (bad x refl)

    -- The last step: the operation is committed, and the view is what it has to be.
    pub last_transition :
        (detail : Bytes) (w : World H J)
        → operation_state log id w ≡ some verifying
        → Done (view w.host)
        → let m =
            on_error
              (transition log now refusal both id verifying committed [])
              (fail_with_rollback log now refusal both id restore verifying detail) in
          Ends (m w).0 (m w).1
    last_transition detail w s d =
        let last = transition log now refusal both id verifying committed [] in
        on_error_rule Ends last
          (fail_with_rollback log now refusal both id restore verifying detail) w
          (λ x k.
            let out =
              fail_with_rollback-Outcome log view now refusal both id restore o restoring Done Lost
                lose (Unit {0}) verifying detail x before (last w).1 tt
                (transition-err log now refusal both id verifying committed [] w x id k ∙ s) in
            of_error _ _ out.0 out.1)
          (λ _ k. done refl (transition-ok log now refusal both id verifying committed [] w k) (
            subst (λ h. Done (view h))
              (sym (transition-host log now refusal both id verifying committed [] w)) d))
      where
        of_error :
            (r : Result E (Unit {0})) (w : World H J)
            → IsErr r
            → ((x : E) → Ends (err x) w)
            → Ends r w
        of_error (ok a) w i h = absurd i
        of_error (err x) w i h = h x

  early :
      (from : TransactionState) (detail : Bytes) (x : E) (w : World H J)
      → IsEarly from
      → operation_state log id w ≡ some from
      → view w.host ≡ o
      → Ends (err x) (transition log now refusal both id from failed detail w).1
  early from detail x w i s same =
      marked (transition log now refusal both id from failed detail w).0 refl
    where
      after : World H J
      after = (transition log now refusal both id from failed detail w).1

      host : view after.host ≡ o
      host = ap view (transition-host log now refusal both id from failed detail w) ∙ same

      marked :
          (r : Result E (Unit {0}))
          → (transition log now refusal both id from failed detail w).0 ≡ r
          → Ends (err x) after
      marked (ok _) h =
          stopped tt failed tt (transition-ok log now refusal both id from failed detail w h) host
      marked (err y) h =
          stopped tt from i (transition-err log now refusal both id from failed detail w y id h ∙ s)
            host

  -- A step before the host is touched, whose failure is marked.
  pub guarded_early :
      (A : Type 0) (m : Act A) (rest : A → Act (Unit {0})) (from : TransactionState)
      (detail : Bytes) (w : World H J)
      → IsEarly from
      → ((x : E)
          → (m w).0 ≡ err x
          → (operation_state log id (m w).1 ≡ some from) × (view (m w).1.host ≡ o))
      → ((a : A) → (m w).0 ≡ ok a → Ends (rest a (m w).1).0 (rest a (m w).1).1)
      → let n = on_error m (fail_early log now refusal both id from detail) >>= rest in
        Ends (n w).0 (n w).1
  unfolding fail_early
  guarded_early A m rest from detail w i bad good = split (m w).0 (m w).1 bad good
    where
      split :
          (r : Result E A) (w' : World H J)
          → ((x : E) → r ≡ err x → (operation_state log id w' ≡ some from) × (view w'.host ≡ o))
          → ((a : A) → r ≡ ok a → Ends (rest a w').0 (rest a w').1)
          → let m : Act A =
              on_error (λ _. (r, w')) (fail_early log now refusal both id from detail) in
            let n = m >>= rest in Ends (n w).0 (n w).1
      split (ok a) w' bad good = good a refl
      split (err x) w' bad good = let (s, same) = bad x refl in early from detail x w' i s same

  -- What a deferred call does not change stays the outcome.
  pub finally-Ends :
      (C : Type 0) (m : Act (Unit {0})) (n : Act C) (w : World H J)
      → ((w' : World H J) → (n w').1.journal ≡ w'.journal)
      → ((w' : World H J) → view (n w').1.host ≡ view w'.host)
      → Ends (m w).0 (m w).1
      → Ends (finally m n w).0 (finally m n w).1
  finally-Ends C m n w j v h = moved (m w).0 (m w).1 (n (m w).1).1 (j (m w).1) (v (m w).1) h
    where
      moved :
          (r : Result E (Unit {0})) (w' w'' : World H J)
          → w''.journal ≡ w'.journal
          → view w''.host ≡ view w'.host
          → Ends r w'
          → Ends r w''
      moved r w' w'' p q (refused i s e) = refused i (ap (log.state_of id) p ∙ s) (q ∙ e)
      moved r w' w'' p q (stopped i s t k e) = stopped i s t (ap (log.state_of id) p ∙ k) (q ∙ e)
      moved r w' w'' p q (done i k d) = done i (ap (log.state_of id) p ∙ k) (subst Done (sym q) d)
      moved r w' w'' p q (restored i k e) = restored i (ap (log.state_of id) p ∙ k) (q ∙ e)
      moved r w' w'' p q (pending i s t k f) =
          pending i s t (ap (log.state_of id) p ∙ k) (subst (RefusedFrom log id s) (sym p) f)
      moved r w' w'' p q (lost i k f) = lost i (ap (log.state_of id) p ∙ k) (subst Lost (sym q) f)
