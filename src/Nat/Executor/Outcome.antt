-- ===== src/Nat/Executor/Outcome.antt =====
-- Every way in which applying a plan can end, whatever fails on the way: the state of the operation
-- in the journal against the table on the host. A crash is a run in which every later call fails
-- without an effect, so what holds of all runs holds at a crash.
use egress_manager.Base.{
  ◌≡◌, refl, sym, subst, arith, ◌∙◌, ap, true, false, Option, some, [], Bytes, lit,
}
use egress_manager.Effect.{Result, ok, err, Step, bind_rule, on_error, ◌>>=◌, ◌>>◌}
use egress_manager.Domain.Transaction.{
  Transaction, TransactionState, prepared, validated, applying, verifying, committed,
}
use egress_manager.Nat.Plan.{Plan, NatError, journal_failed, nft_failed, both}
use egress_manager.Nat.Executor.{
  World, Executor, Act, transition, fail_with_rollback, fail_early, restore_snapshot, verify_plan,
  commit_operation, apply_operation, run_nft,
}
use egress_manager.Nat.Executor.Contract.{
  NftContract, Succeeds, load_file, run-ok, run-host, state_of, transition-ok, transition-err,
  transition-host,
}
use egress_manager.Nat.Executor.Inspect.{Same}
use egress_manager.Nat.Executor.Restore.{Holds, run_check-Same, run_load-journal}
use egress_manager.Nat.Executor.Rollback.{Outcome, Applied, IsLost, restoring}
use egress_manager.Journal.Outcome.{stopped, IsEarly, IsPending, RestoreFailed, keeps_state}
use egress_manager.Journal.Guard as Guard

module _ {H J : Type 0} (e : Executor H J) (family table : Bytes) (owned : H → Option Bytes)
    (nft : NftContract e family table owned) (operation : Transaction) (plan : Plan)
    (o : Option Bytes) (before : Option TransactionState)
    (holds : Holds e family table owned nft operation o) where
  abbrev Ends : Result NatError (Unit {0}) → World H J → Type 0
  Ends r w = Outcome e family table owned nft plan o operation.id before r w

  abbrev Done : Option Bytes → Type 0
  Done = Applied e family table owned nft plan

  abbrev Lost : Option Bytes → Type 0
  Lost = IsLost e family table owned nft o operation.id

  lose :
      (v : Option Bytes)
      → RestoreFailed e.log owned (restore_snapshot e operation) operation.id v
      → Lost v
  lose v f = record { operation = operation; has_id = refl; holds = holds; failure = f }

  -- The candidate was loaded, and the host has been left alone since.
  record Loaded (h : H) : Type 0 where
    from : H
    loads : Succeeds (e.runner (load_file plan.candidate) from).0
    left : h ≡ (e.runner (load_file plan.candidate) from).1

  run_nft-Loaded :
      (w : World H J) (out : Bytes)
      → (run_nft e false plan.candidate w).0 ≡ ok out
      → Loaded (run_nft e false plan.candidate w).1.host
  unfolding run_nft
  run_nft-Loaded w out h =
      let (r, ran, zero_code, _) = run-ok e (load_file plan.candidate) nft_failed w out h in
      record {
        from = w.host;
        loads = subst Succeeds (sym ran) zero_code;
        left = run-host e (load_file plan.candidate) nft_failed w;
      }

  verify_plan-Applied :
      (w : World H J)
      → Loaded w.host
      → (verify_plan e plan w).0 ≡ ok tt
      → Done (owned (verify_plan e plan w).1.host)
  unfolding verify_plan
  verify_plan-Applied w l h = record {
    from = l.from;
    loads = l.loads;
    passes = subst (λ h. (e.verify plan h).0 ≡ true) l.left (ground (arith, h));
    shows = ap (λ h. owned (e.verify plan h).1) l.left;
  }

  guarded :
      (A : Type 0) (m : Act e A) (rest : A → Act e (Unit {0})) (from : TransactionState)
      (detail : Bytes) (w : World H J)
      → IsPending from
      → ((x : NatError) → (m w).0 ≡ err x → state_of e operation.id (m w).1 ≡ some from)
      → ((a : A) → (m w).0 ≡ ok a → Ends (rest a (m w).1).0 (rest a (m w).1).1)
      → let n = on_error m (fail_with_rollback e operation from detail) >>= rest in
        Ends (n w).0 (n w).1
  guarded =
      Guard.guarded e.log owned e.now journal_failed both operation.id Done Lost o before
        (restore_snapshot e operation) (restoring e family table owned nft operation o holds) lose

  last_transition :
      (w : World H J)
      → state_of e operation.id w ≡ some verifying
      → Done (owned w.host)
      → let m =
          on_error
            (transition e operation.id verifying committed [])
            (fail_with_rollback e operation verifying (lit "journal_transition_failed")) in
        Ends (m w).0 (m w).1
  last_transition w s d =
      Guard.last_transition e.log owned e.now journal_failed both operation.id Done Lost o before
        (restore_snapshot e operation) (restoring e family table owned nft operation o holds) lose
        (lit "journal_transition_failed") w s d

  verify_plan-journal : (w : World H J) → (verify_plan e plan w).1.journal ≡ w.journal
  unfolding verify_plan
  verify_plan-journal w = refl

  commit_operation-Ends :
      (w : World H J)
      → state_of e operation.id w ≡ some applying
      → Ends (commit_operation e operation plan w).0 (commit_operation e operation plan w).1
  unfolding commit_operation
  commit_operation-Ends w s =
      guarded Bytes (run_nft e false plan.candidate) (λ _. rest_loaded) applying
        (lit "apply_failed") w tt
        (λ x h.
          keeps_state e.log operation.id w (run_nft e false plan.candidate w).1 (some applying)
            (loaded w) s)
        (λ out h.
          after_load (run_nft e false plan.candidate w).1
            (keeps_state e.log operation.id w (run_nft e false plan.candidate w).1 (some applying)
              (loaded w) s)
            (run_nft-Loaded w out h))
    where
      loaded : (w : World H J) → (run_nft e false plan.candidate w).1.journal ≡ w.journal
      loaded = run_load-journal e family table owned nft plan.candidate

      last : Step (World H J) NatError (Unit {0})
      last =
          on_error (transition e operation.id verifying committed [])
            (fail_with_rollback e operation verifying (lit "journal_transition_failed"))

      rest_verifying : Step (World H J) NatError (Unit {0})
      rest_verifying = do
        on_error (verify_plan e plan)
            (fail_with_rollback e operation verifying (lit "verification_failed"))
        last

      rest_loaded : Step (World H J) NatError (Unit {0})
      rest_loaded = do
        on_error (transition e operation.id applying verifying [])
            (fail_with_rollback e operation applying (lit "journal_transition_failed"))
        rest_verifying

      after_verifying :
          (w : World H J)
          → state_of e operation.id w ≡ some verifying
          → Loaded w.host
          → Ends (rest_verifying w).0 (rest_verifying w).1
      after_verifying w s l =
          guarded (Unit {0}) (verify_plan e plan) (λ _. last) verifying (lit "verification_failed")
            w tt
            (λ x h.
              keeps_state e.log operation.id w (verify_plan e plan w).1 (some verifying)
                (verify_plan-journal w) s)
            (λ _ h.
              last_transition (verify_plan e plan w).1
                (keeps_state e.log operation.id w (verify_plan e plan w).1 (some verifying)
                  (verify_plan-journal w) s)
                (verify_plan-Applied w l h))

      after_load :
          (w : World H J)
          → state_of e operation.id w ≡ some applying
          → Loaded w.host
          → Ends (rest_loaded w).0 (rest_loaded w).1
      after_load w s l =
          guarded (Unit {0}) (transition e operation.id applying verifying []) (λ _. rest_verifying)
            applying (lit "journal_transition_failed") w tt
            (λ x h. transition-err e operation.id applying verifying [] w x operation.id h ∙ s)
            (λ _ h.
              after_verifying (transition e operation.id applying verifying [] w).1
                (transition-ok e operation.id applying verifying [] w h)
                (subst Loaded (sym (transition-host e operation.id applying verifying [] w)) l))

  guarded_early :
      (A : Type 0) (m : Act e A) (rest : A → Act e (Unit {0})) (from : TransactionState)
      (detail : Bytes) (w : World H J)
      → IsEarly from
      → ((x : NatError)
          → (m w).0 ≡ err x
          → (state_of e operation.id (m w).1 ≡ some from) × (owned (m w).1.host ≡ o))
      → ((a : A) → (m w).0 ≡ ok a → Ends (rest a (m w).1).0 (rest a (m w).1).1)
      → let n = on_error m (fail_early e operation from detail) >>= rest in Ends (n w).0 (n w).1
  guarded_early =
      Guard.guarded_early e.log owned e.now journal_failed both operation.id Done Lost o before

  -- Behind the entry of the journal: whatever fails, the operation ends in one of these ways.
  pub apply_operation-Outcome :
      (w : World H J)
      → state_of e operation.id w ≡ some prepared
      → owned w.host ≡ o
      → let m = apply_operation e operation plan in
        Outcome e family table owned nft plan o operation.id before (m w).0 (m w).1
  unfolding apply_operation
  apply_operation-Outcome w s same =
      guarded_early Bytes (run_nft e true plan.candidate) (λ _. rest_checked) prepared
        (lit "native_validation_failed") w tt (λ x h. (at_check, own_check))
        (λ _ h. after_check (run_nft e true plan.candidate w).1 at_check own_check)
    where
      checked : Same e family table owned nft w (run_nft e true plan.candidate w).1
      checked = run_check-Same e family table owned nft plan.candidate w

      at_check : state_of e operation.id (run_nft e true plan.candidate w).1 ≡ some prepared
      at_check =
          keeps_state e.log operation.id w (run_nft e true plan.candidate w).1 (some prepared)
            checked.journal s

      own_check : owned (run_nft e true plan.candidate w).1.host ≡ o
      own_check = checked.host ∙ same

      rest_validated : Step (World H J) NatError (Unit {0})
      rest_validated = do
        on_error (transition e operation.id validated applying [])
            (fail_early e operation validated (lit "journal_transition_failed"))
        commit_operation e operation plan

      rest_checked : Step (World H J) NatError (Unit {0})
      rest_checked = do transition e operation.id prepared validated []; rest_validated

      after_validated :
          (w : World H J)
          → state_of e operation.id w ≡ some validated
          → owned w.host ≡ o
          → Ends (rest_validated w).0 (rest_validated w).1
      after_validated w s same =
          guarded_early (Unit {0}) (transition e operation.id validated applying [])
            (λ _. commit_operation e operation plan) validated (lit "journal_transition_failed") w
            tt
            (λ x h. (
              transition-err e operation.id validated applying [] w x operation.id h ∙ s,
              ap owned (transition-host e operation.id validated applying [] w) ∙ same,
            ))
            (λ _ h.
              commit_operation-Ends (transition e operation.id validated applying [] w).1
                (transition-ok e operation.id validated applying [] w h))

      after_check :
          (w : World H J)
          → state_of e operation.id w ≡ some prepared
          → owned w.host ≡ o
          → Ends (rest_checked w).0 (rest_checked w).1
      after_check w s same =
          bind_rule Ends (transition e operation.id prepared validated []) (λ _. rest_validated) w
            (λ x h.
              stopped tt prepared tt
                (transition-err e operation.id prepared validated [] w x operation.id h ∙ s) own)
            (λ _ h.
              after_validated (transition e operation.id prepared validated [] w).1
                (transition-ok e operation.id prepared validated [] w h) own)
        where
          own : owned (transition e operation.id prepared validated [] w).1.host ≡ o
          own = ap owned (transition-host e operation.id prepared validated [] w) ∙ same
