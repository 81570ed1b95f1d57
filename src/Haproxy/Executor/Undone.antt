-- ===== src/Haproxy/Executor/Undone.antt =====
-- `RollbackCommitted` of rollback.go: how it ends.
use egress_manager.Base.{◌≡◌, refl, ◌∙◌, ap, ◌&&◌, Option, some, Bytes, bytes_eq, lit, arith}
use egress_manager.Effect.{
  Result, ok, err, lift, raise, on_error, require, bind_rule, require_rule, finally, ◌>>=◌, ◌>>◌,
}
use egress_manager.Effect.Leaves.{Leaves, Leaves->>=, Leaves-finally, Leaves-on_error}
use egress_manager.Domain.Transaction.{
  Transaction, TransactionState, committed, rolling_back, rolled_back,
}
use egress_manager.Journal.{World, operation_state, journal_of}
use egress_manager.Journal.Protocol.{transition-ok, transition-err, transition-host}
use egress_manager.Journal.Outcome.{IsErr, keeps_state}
use egress_manager.Haproxy.Executor.{
  Executor, Act, HaproxyError, journal_failed, both, state_changed, bad_paths, not_eligible,
  Snapshot, check_config, file_call, run, write_temporary, verify, paths_valid,
}
use egress_manager.Haproxy.Executor.Apply.{
  transition, restore, require_current, validate_native, undo_committed, open_candidate,
  protected_snapshot, rollback_committed, is_committed,
}
use egress_manager.Haproxy.Executor.Contract.{
  FilesContract, at_config, inspect_config-Leaves, verify-Leaves,
}
use egress_manager.Haproxy.Executor.Files.{
  journal-Reads, file-Reads, shown_by, write_temporary-journal, write_temporary-config,
  write_temporary-ok,
}
use egress_manager.Haproxy.Executor.Restore.{restore-journal, restore-Restores}

module _ {H J : Type 0} (e : Executor H J) where
  validate_native-journal : (s : Snapshot) → Leaves journal_of (validate_native e s)
  unfolding validate_native run
  validate_native-journal s w =
      let made =
        Leaves->>= journal_of (write_temporary e s.content)
          (λ f. finally (run e (check_config f)) (file_call e (e.os.remove f)))
          (write_temporary-journal e s.content) (λ f w h v. refl) w in
      ground (arith, made)

module _ {H J : Type 0} (e : Executor H J) (content : Bytes → H → Option Bytes)
    (files : FilesContract e content) where
  validate_native-config : (s : Snapshot) → Leaves (at_config e content) (validate_native e s)
  unfolding validate_native run
  validate_native-config s w =
      let made =
        Leaves->>= (at_config e content) (write_temporary e s.content)
          (λ f. finally (run e (check_config f)) (file_call e (e.os.remove f)))
          (write_temporary-config e content files s.content)
          (λ f w h.
            Leaves-finally (at_config e content) (run e (check_config f))
              (file_call e (e.os.remove f)) (λ w. files.check_keeps f e.config_path w.host)
              (λ w'.
                files.remove_other f w'.host
                  (write_temporary-ok e content files s.content w f h).0))
          w in
      ground (arith, made)

  -- `o` is the configuration before, `s` that of the snapshot.
  pub data Undone (o s : Option Bytes) (id : Bytes) (r : Result HaproxyError (Unit {0}))
      (w : World H J) : Type 0 where
    undone :
        r ≡ ok tt
        → operation_state e.log id w ≡ some rolled_back
        → at_config e content w ≡ s
        → Undone o s id r w
    kept :
        IsErr r
        → operation_state e.log id w ≡ some committed
        → at_config e content w ≡ o
        → Undone o s id r w
    halfway : IsErr r → operation_state e.log id w ≡ some rolling_back → Undone o s id r w

  module _ (id : Bytes) (snapshot : Snapshot) (o : Option Bytes) where
    Ends : Result HaproxyError (Unit {0}) → World H J → Type 0
    Ends r w = Undone o (shown_by snapshot.exists snapshot.content) id r w

    move : TransactionState → TransactionState → Act e (Unit {0})
    move from to = transition e id from to (lit "operator_requested")

    -- A step that leaves the journal and the configuration
    quiet :
        (A : Type 0) (m : Act e A) (rest : A → Act e (Unit {0})) (w : World H J)
        → Leaves journal_of m
        → Leaves (at_config e content) m
        → operation_state e.log id w ≡ some committed
        → at_config e content w ≡ o
        → ((a : A)
            → operation_state e.log id (m w).1 ≡ some committed
            → at_config e content (m w).1 ≡ o
            → Ends (rest a (m w).1).0 (rest a (m w).1).1)
        → Ends ((m >>= rest) w).0 ((m >>= rest) w).1
    unfolding Ends
    quiet A m rest w j c s k good =
        let s' = keeps_state e.log id w (m w).1 (some committed) (j w) s in
        bind_rule Ends m rest w (λ x h. kept tt s' (c w ∙ k)) (λ a h. good a s' (c w ∙ k))

    finishing : Act e (Unit {0})
    unfolding move
    finishing = restore e snapshot >> move rolling_back rolled_back

    finishing-Ends :
        (w : World H J)
        → operation_state e.log id w ≡ some rolling_back
        → Ends (finishing w).0 (finishing w).1
    unfolding finishing move Ends
    finishing-Ends w s =
        bind_rule Ends (restore e snapshot) (λ _. move rolling_back rolled_back) w
          (λ x h. halfway tt at)
          (λ _ h. ended (move rolling_back rolled_back w1).0 refl (restored w h))
      where
        restored :
            (w : World H J)
            → (restore e snapshot w).0 ≡ ok tt
            → at_config e content (restore e snapshot w).1
              ≡ shown_by snapshot.exists snapshot.content
        restored = (restore-Restores e content files snapshot).restores

        w1 : World H J
        w1 = (restore e snapshot w).1

        at : operation_state e.log id w1 ≡ some rolling_back
        at = keeps_state e.log id w w1 (some rolling_back) (restore-journal e snapshot w) s

        ended :
            (r : Result HaproxyError (Unit {0}))
            → (move rolling_back rolled_back w1).0 ≡ r
            → at_config e content w1 ≡ shown_by snapshot.exists snapshot.content
            → Ends r (move rolling_back rolled_back w1).1
        ended (ok _) h c =
            undone refl
              (transition-ok e.log e.now journal_failed both id rolling_back rolled_back
                (lit "operator_requested") w1 h)
              (ap (λ h. content e.config_path h)
                  (transition-host e.log e.now journal_failed both id rolling_back rolled_back
                    (lit "operator_requested") w1)
                ∙ c)
        ended (err x) h c = halfway tt (
            transition-err e.log e.now journal_failed both id rolling_back rolled_back
              (lit "operator_requested") w1 x id h
            ∙ at)

    starting : Act e (Unit {0})
    unfolding move finishing
    starting = move committed rolling_back >> finishing

    starting-Ends :
        (w : World H J)
        → operation_state e.log id w ≡ some committed
        → at_config e content w ≡ o
        → Ends (starting w).0 (starting w).1
    unfolding starting move Ends
    starting-Ends w s c =
        bind_rule Ends (move committed rolling_back) (λ _. finishing) w
          (λ x h.
            kept tt
              (transition-err e.log e.now journal_failed both id committed rolling_back
                  (lit "operator_requested") w x id h
                ∙ s)
              (ap (λ h. content e.config_path h)
                  (transition-host e.log e.now journal_failed both id committed rolling_back
                    (lit "operator_requested") w)
                ∙ c))
          (λ _ h. finishing-Ends (move committed rolling_back w).1 (
            transition-ok e.log e.now journal_failed both id committed rolling_back
              (lit "operator_requested") w h))

    require_current-journal : (candidate : Bytes) → Leaves journal_of (require_current e candidate)
    unfolding require_current
    require_current-journal candidate w = inspect_config-Leaves e journal_of (journal-Reads e) w

    require_current-config :
        (candidate : Bytes) → Leaves (at_config e content) (require_current e candidate)
    unfolding require_current
    require_current-config candidate w =
        inspect_config-Leaves e (at_config e content) (file-Reads e content files e.config_path) w

    checked_verify : Act e (Unit {0})
    checked_verify = on_error (verify e) (λ x. raise state_changed)

    checked_verify-Leaves :
        (V : Type 0) (f : World H J → V) → Leaves f (verify e) → Leaves f checked_verify
    unfolding checked_verify
    checked_verify-Leaves V f l =
        Leaves-on_error f (verify e) (λ x. raise state_changed) l (λ x w. refl)

    -- Behind the opening of the journal
    undo_committed-Undone :
        (candidate : Bytes) (w : World H J)
        → operation_state e.log id w ≡ some committed
        → at_config e content w ≡ o
        → let m = undo_committed e id snapshot candidate in Ends (m w).0 (m w).1
    unfolding undo_committed starting finishing move checked_verify
    undo_committed-Undone candidate w s c =
        quiet (Unit {0}) (require_current e candidate) (λ _. verifying_on) w
          (require_current-journal candidate) (require_current-config candidate) s c
          (λ _ s c.
            quiet (Unit {0}) checked_verify (λ _. validating_on) (require_current e candidate w).1
              (checked_verify-Leaves J journal_of (verify-Leaves e journal_of (journal-Reads e)))
              (checked_verify-Leaves (Option Bytes) (at_config e content)
                (verify-Leaves e (at_config e content) (file-Reads e content files e.config_path)))
              s c
              (λ _ s c.
                let w2 = (checked_verify (require_current e candidate w).1).1 in
                quiet (Unit {0}) (validate_native e snapshot) (λ _. starting) w2
                  (validate_native-journal e snapshot) (validate_native-config snapshot) s c
                  (λ _ s c. starting-Ends (validate_native e snapshot w2).1 s c)))
      where
        validating_on : Act e (Unit {0})
        validating_on = validate_native e snapshot >> starting

        verifying_on : Act e (Unit {0})
        verifying_on = checked_verify >> validating_on

  -- `RollbackCommitted` of an operation that the journal has as COMMITTED and whose sealed snapshot
  -- can be opened: with no error, the operation is ROLLED_BACK and the configuration is that of the
  -- snapshot; with an error, the operation is COMMITTED and the configuration as it was, or the
  -- operation is ROLLING_BACK, where recovery goes on with it.
  pub rollback_committed-Reverted :
      (operation : Transaction) (snapshot : Snapshot) (w : World H J)
      → protected_snapshot e operation (e.decode operation.previous_snapshot) ≡ ok snapshot
      → operation_state e.log operation.id w ≡ some committed
      → let m = rollback_committed e operation in
        Undone
          (at_config e content w)
          (shown_by snapshot.exists snapshot.content)
          operation.id
          (m w).0
          (m w).1
  unfolding rollback_committed Ends
  rollback_committed-Reverted operation snapshot w opened s =
      require_rule ends (paths_valid e) bad_paths eligible w (λ h. nothing)
        (λ h.
          require_rule ends
            (bytes_eq operation.operation (lit "haproxy_apply") && is_committed operation.state)
            not_eligible opening w (λ h. nothing)
            (λ h. rw opened (
              bind_rule ends (lift (open_candidate e operation))
                (undo_committed e operation.id snapshot) w (λ x h. nothing)
                (λ candidate h.
                  undo_committed-Undone operation.id snapshot (at_config e content w) candidate w s
                    refl))))
    where
      ends : Result HaproxyError (Unit {0}) → World H J → Type 0
      ends = Undone (at_config e content w) (shown_by snapshot.exists snapshot.content) operation.id

      nothing : {x : HaproxyError} → ends (err x) w
      nothing = kept tt s refl

      undoing : Snapshot → Act e (Unit {0})
      undoing snapshot =
          lift (open_candidate e operation) >>= undo_committed e operation.id snapshot

      opening : Act e (Unit {0})
      opening =
          lift (protected_snapshot e operation (e.decode operation.previous_snapshot)) >>= undoing

      eligible : Act e (Unit {0})
      eligible =
          require
            (bytes_eq operation.operation (lit "haproxy_apply") && is_committed operation.state)
            not_eligible
          >> opening
