-- ===== src/Journal/Rollback.antt =====
-- How a rollback of Journal.Protocol gets to its end, for any way to restore the host.
use egress_manager.Base.{ℕ, ◌≡◌, refl, sym, subst, ◌∙◌, ap, Option, some, Bytes, lit, arith}
use egress_manager.Effect.{
  Result, ok, err, Step, bind_rule, on_error_rule, raise, ignoring, on_error, ◌>>◌,
}
use egress_manager.Domain.Transaction.{TransactionState, rolling_back, rolled_back, failed}
use egress_manager.Journal.{Journal, World, operation_state}
use egress_manager.Journal.Protocol.{
  transition, restore_or_fail, rollback, fail_with_rollback, transition-ok, transition-err,
  transition-host,
}
use egress_manager.Journal.Outcome.{
  Outcome, restored, pending, lost, Rolled, back, stuck, gone, Reset, reset, broken, unmarked,
  RefusedFrom, RestoreFailed, Restores, IsErr, IsPending, keeps_state,
}

module _ {H J E V : Type 0} (log : Journal J) (view : H → V) (now : World H J → Option ℕ)
    (refusal : E) (both : E → E → E) (id : Bytes) where
  abbrev Act : Type 0 → Type 0
  Act A = Step (World H J) E A

  move : TransactionState → TransactionState → Bytes → Act (Unit {0})
  move = transition log now refusal both id

  moved-ok :
      (from to : TransactionState) (detail : Bytes) (w : World H J)
      → (move from to detail w).0 ≡ ok tt
      → operation_state log id (move from to detail w).1 ≡ some to
  unfolding move
  moved-ok from to detail w h = transition-ok log now refusal both id from to detail w h

  moved-err :
      (from to : TransactionState) (detail : Bytes) (x : E) (w : World H J)
      → (move from to detail w).0 ≡ err x
      → operation_state log id w ≡ some from
      → operation_state log id (move from to detail w).1 ≡ some from
  unfolding move
  moved-err from to detail x w h s =
      transition-err log now refusal both id from to detail w x id h ∙ s

  moved-view :
      (from to : TransactionState) (detail : Bytes) (o : V) (w : World H J)
      → view w.host ≡ o
      → view (move from to detail w).1.host ≡ o
  unfolding move
  moved-view from to detail o w h =
      ap view (transition-host log now refusal both id from to detail w) ∙ h

  pub refused_move :
      (from to : TransactionState) (detail : Bytes) (y : E) (w : World H J)
      → (transition log now refusal both id from to detail w).0 ≡ err y
      → RefusedFrom log id from (transition log now refusal both id from to detail w).1.journal
  unfolding transition
  refused_move from to detail y w h = record {
    to = to;
    at = now w;
    detail = detail;
    earlier = w.journal;
    denies = ground (arith, h);
    left = refl;
  }

  module _ (restore : Act (Unit {0})) (o : V) (restoring : Restores log view restore o) where
    -- The mark of a failure takes, or the state is what it was.
    mark_failed :
        (x : E) (w : World H J)
        → operation_state log id w ≡ some rolling_back
        → RestoreFailed log view restore id (view w.host)
        → let m : Act (Unit {0}) =
            ignoring (move rolling_back failed (lit "rollback_failed")) >> raise x in
          Reset log view restore o id (m w).0 (m w).1
    unfolding move
    mark_failed x w s f = marked (move rolling_back failed (lit "rollback_failed") w).0 refl
      where
        marked :
            (r : Result E (Unit {0}))
            → (move rolling_back failed (lit "rollback_failed") w).0 ≡ r
            → let m : Act (Unit {0}) =
                ignoring (move rolling_back failed (lit "rollback_failed")) >> raise x in
              Reset log view restore o id (m w).0 (m w).1
        marked (ok _) h = broken tt (moved-ok rolling_back failed (lit "rollback_failed") w h) (
            subst (RestoreFailed log view restore id)
              (sym (moved-view rolling_back failed (lit "rollback_failed") (view w.host) w refl)) f)
        marked (err y) h =
            unmarked tt (moved-err rolling_back failed (lit "rollback_failed") y w h s)
              (refused_move rolling_back failed (lit "rollback_failed") y w h)

    finish_rollback :
        (detail : Bytes) (w : World H J)
        → operation_state log id w ≡ some rolling_back
        → view w.host ≡ o
        → Rolled log view restore o id
            (move rolling_back rolled_back detail w).0
            (move rolling_back rolled_back detail w).1
    unfolding move
    finish_rollback detail w s own = finished (move rolling_back rolled_back detail w).0 refl
      where
        finished :
            (r : Result E (Unit {0}))
            → (move rolling_back rolled_back detail w).0 ≡ r
            → Rolled log view restore o id r (move rolling_back rolled_back detail w).1
        finished (ok _) h =
            back refl (moved-ok rolling_back rolled_back detail w h)
              (moved-view rolling_back rolled_back detail o w own)
        finished (err y) h =
            stuck tt rolling_back tt (moved-err rolling_back rolled_back detail y w h s)
              (refused_move rolling_back rolled_back detail y w h)

    restore_or_fail-Reset :
        (w : World H J)
        → operation_state log id w ≡ some rolling_back
        → let m = restore_or_fail log now refusal both id restore in
          Reset log view restore o id (m w).0 (m w).1
    unfolding restore_or_fail move
    restore_or_fail-Reset w s =
        let same = keeps_state log id w (restore w).1 (some rolling_back) (restoring.keeps w) s in
        on_error_rule (Reset log view restore o id) restore
          (λ x. ignoring (move rolling_back failed (lit "rollback_failed")) >> raise x) w
          (λ x k.
            mark_failed x (restore w).1 same
              (record { start = w; cause = x; rolling = s; fails = k; shows = refl }))
          (λ _ k. reset refl same (restoring.restores w k))

    -- The end of a rollback, from the state ROLLING_BACK.
    pub restoring-Rolled :
        (detail : Bytes) (w : World H J)
        → operation_state log id w ≡ some rolling_back
        → let m : Act (Unit {0}) =
            restore_or_fail log now refusal both id restore
            >> transition log now refusal both id rolling_back rolled_back detail in
          Rolled log view restore o id (m w).0 (m w).1
    unfolding move
    restoring-Rolled detail w s =
        ended (restore_or_fail log now refusal both id restore w).0
          (restore_or_fail log now refusal both id restore w).1 (restore_or_fail-Reset w s)
      where
        ended :
            (r : Result E (Unit {0})) (w' : World H J)
            → Reset log view restore o id r w'
            → let m : Act (Unit {0}) = (λ _. (r, w')) >> move rolling_back rolled_back detail in
              Rolled log view restore o id (m w).0 (m w).1
        ended r w' (reset e s own) = rw e (finish_rollback detail w' s own)
        ended (err x) w' (broken _ s f) = gone tt s f
        ended (err x) w' (unmarked _ s f) = stuck tt rolling_back tt s f
        ended (ok a) w' (broken i s f) = absurd i
        ended (ok a) w' (unmarked i s f) = absurd i

    -- From a state in which the plan may have been applied.
    pub rollback-Rolled :
        (from : TransactionState) (detail : Bytes) (w : World H J)
        → IsPending from
        → operation_state log id w ≡ some from
        → let m = rollback log now refusal both id restore from detail in
          Rolled log view restore o id (m w).0 (m w).1
    unfolding rollback move
    rollback-Rolled from detail w p s =
        bind_rule (Rolled log view restore o id) (move from rolling_back detail)
          (λ _.
            restore_or_fail log now refusal both id restore >> move rolling_back rolled_back detail)
          w
          (λ x k.
            stuck tt from p (moved-err from rolling_back detail x w k s)
              (refused_move from rolling_back detail x w k))
          (λ _ k.
            restoring-Rolled detail (move from rolling_back detail w).1
              (moved-ok from rolling_back detail w k))

    -- After a failed step behind APPLYING the caller gets an error, and the operation is rolled
    -- back, unfinished, or failed.
    pub fail_with_rollback-Outcome :
        (Done Lost : V → Type 0) (lose : (v : V) → RestoreFailed log view restore id v → Lost v)
        (A : Type 0) (from : TransactionState) (detail : Bytes) (cause : E)
        (before : Option TransactionState) (w : World H J)
        → IsPending from
        → operation_state log id w ≡ some from
        → let m : Act A = fail_with_rollback log now refusal both id restore from detail cause in
          IsErr (m w).0 × ((x : E) → Outcome log view Done Lost o id before (err x) (m w).1)
    unfolding fail_with_rollback
    fail_with_rollback-Outcome Done Lost lose A from detail cause before w p s =
        ended (rollback log now refusal both id restore from detail w).0
          (rollback log now refusal both id restore from detail w).1
          (rollback-Rolled from detail w p s)
      where
        ended :
            (r : Result E (Unit {0})) (w' : World H J)
            → Rolled log view restore o id r w'
            → let m : Act A = on_error (λ _. (r, w')) (λ x. raise (both cause x)) >> raise cause in
              IsErr (m w).0 × ((x : E) → Outcome log view Done Lost o id before (err x) (m w).1)
        ended (ok _) w' (back _ s own) = (tt, λ x. restored tt s own)
        ended (ok _) w' (stuck i _ _ _ _) = absurd i
        ended (ok _) w' (gone i _ _) = absurd i
        ended (err y) w' (back k _ _) = absurd (ground arith)
        ended (err y) w' (stuck _ t q s f) = (tt, λ x. pending tt t q s f)
        ended (err y) w' (gone _ s f) = (tt, λ x. lost tt s (lose _ f))
