-- ===== src/Nat/Executor/Undone.antt =====
-- What an operator's rollback of a committed operation leaves.
use egress_manager.Base.{
  ◌≡◌, refl, sym, ◌∙◌, ap, subst, Option, some, Bytes, lit, bytes_eq, true, false, arith, ◌++◌,
  ◌&&◌, Bool,
}
use egress_manager.Effect.{
  Result, ok, err, Step, bind_rule, on_error-raise_world, require_rule, raise, lift, on_error,
  require, ◌>>=◌, ◌>>◌,
}
use egress_manager.Domain.Transaction.{Transaction, rolling_back, rolled_back, committed}
use egress_manager.Nat.Plan.{NatError, host_state_changed, not_eligible, owned_table_from_candidate}
use egress_manager.Nat.Executor.{
  World, Executor, transition, open_nft_journal, open_field, opened_journal, run_nft,
  restore_snapshot, rollback_candidate, inspect,
}
use egress_manager.Nat.Executor.Undo.{
  undo_committed, rollback_committed, rollback_owned, is_applied, is_committed,
}
use egress_manager.Nat.Executor.Contract.{
  NftContract, state_of, transition-ok, transition-err, transition-host,
}
use egress_manager.Nat.Executor.Inspect.{Same, Shows, inspect-Shows}
use egress_manager.Nat.Executor.Restore.{Holds, run_check-Same, restore_snapshot-Restores}
use egress_manager.Journal.Outcome.{IsErr}

module _ {H J : Type 0} (e : Executor H J) where
  -- What opens as a protected field, opens where a plain one is allowed too.
  open_field-legacy :
      (id purpose value : Bytes) (p : Bytes × Bool)
      → open_field e id purpose value false ≡ ok p
      → open_field e id purpose value true ≡ ok p
  unfolding open_field
  open_field-legacy id purpose value p h = ground arith

  opened_journal-legacy :
      (a a' c c' : Result NatError (Bytes × Bool)) (p : Bytes × Bytes × Bool)
      → ((x : Bytes × Bool) → a ≡ ok x → a' ≡ ok x)
      → ((x : Bytes × Bool) → c ≡ ok x → c' ≡ ok x)
      → opened_journal a c ≡ ok p
      → opened_journal a' c' ≡ ok p
  unfolding opened_journal
  opened_journal-legacy (err x) a' c c' p s t h = absurd (ground arith)
  opened_journal-legacy (ok u) a' (err x) c' p s t h = absurd (ground arith)
  opened_journal-legacy (ok u) a' (ok v) c' p s t h = rw (s u refl, t v refl) h

  open_nft_journal-legacy :
      (operation : Transaction) (p : Bytes × Bytes × Bool)
      → open_nft_journal e operation false ≡ ok p
      → open_nft_journal e operation true ≡ ok p
  unfolding open_nft_journal
  open_nft_journal-legacy operation p h =
      opened_journal-legacy _ _ _ _ p
        (open_field-legacy operation.id (lit "snapshot") operation.previous_snapshot)
        (open_field-legacy operation.id (lit "candidate") operation.candidate_config) h

module _ {H J : Type 0} (e : Executor H J) (family table : Bytes) (owned : H → Option Bytes)
    (nft : NftContract e family table owned) where
  -- How it can end: nothing is changed; the restore is under way and recovery goes on with it; or
  -- it is done.
  pub data Undone (o now : Option Bytes) (id : Bytes) (r : Result NatError (Unit {0}))
      (w : World H J) : Type 0 where
    declined : IsErr r → state_of e id w ≡ some committed → owned w.host ≡ now → Undone o now id r w
    interrupted : IsErr r → state_of e id w ≡ some rolling_back → Undone o now id r w
    undone : r ≡ ok tt → state_of e id w ≡ some rolled_back → owned w.host ≡ o → Undone o now id r w

  module _ (operation : Transaction) (o : Option Bytes)
      (holds : Holds e family table owned nft operation o) where
    undo_committed-Undone :
        (snapshot : Bytes) (w : World H J)
        → state_of e operation.id w ≡ some committed
        → let m = undo_committed e operation snapshot family table in
          Undone o (owned w.host) operation.id (m w).0 (m w).1
    unfolding undo_committed
    undo_committed-Undone snapshot w s =
        bind_rule ends (run_nft e true document) (λ _. leaving) w
          (λ x h. declined tt at_check checked.host)
          (λ _ h. left (run_nft e true document w).1 at_check checked.host)
      where
        ends : Result NatError (Unit {0}) → World H J → Type 0
        ends = Undone o (owned w.host) operation.id

        document : Bytes
        document = rollback_candidate family table snapshot true

        checked : Same e family table owned nft w (run_nft e true document w).1
        checked = run_check-Same e family table owned nft document w

        at_check : state_of e operation.id (run_nft e true document w).1 ≡ some committed
        at_check = ap (λ j. e.log.state_of operation.id j) checked.journal ∙ s

        finishing : Step (World H J) NatError (Unit {0})
        finishing = transition e operation.id rolling_back rolled_back (lit "operator_requested")

        restoring : Step (World H J) NatError (Unit {0})
        restoring = restore_snapshot e operation >> finishing

        leaving : Step (World H J) NatError (Unit {0})
        leaving =
            transition e operation.id committed rolling_back (lit "operator_requested") >> restoring

        finished :
            (w' : World H J)
            → state_of e operation.id w' ≡ some rolling_back
            → owned w'.host ≡ o
            → ends (finishing w').0 (finishing w').1
        finished w' s own = marked (finishing w').0 refl
          where
            marked :
                (r : Result NatError (Unit {0})) → (finishing w').0 ≡ r → ends r (finishing w').1
            marked (ok _) h =
                undone refl
                  (transition-ok e operation.id rolling_back rolled_back (lit "operator_requested")
                    w' h)
                  (ap owned (
                      transition-host e operation.id rolling_back rolled_back
                        (lit "operator_requested") w')
                    ∙ own)
            marked (err x) h = interrupted tt (
                transition-err e operation.id rolling_back rolled_back (lit "operator_requested") w'
                  x operation.id h
                ∙ s)

        restored :
            (w' : World H J)
            → state_of e operation.id w' ≡ some rolling_back
            → ends (restoring w').0 (restoring w').1
        restored w' s =
            let back = restore_snapshot-Restores e family table owned nft operation o w' holds in
            let same = ap (λ j. e.log.state_of operation.id j) back.0 ∙ s in
            bind_rule ends (restore_snapshot e operation) (λ _. finishing) w'
              (λ x h. interrupted tt same)
              (λ _ h. finished (restore_snapshot e operation w').1 same (back.1 h))

        left :
            (w' : World H J)
            → state_of e operation.id w' ≡ some committed
            → owned w'.host ≡ owned w.host
            → ends (leaving w').0 (leaving w').1
        left w' s same =
            bind_rule ends
              (transition e operation.id committed rolling_back (lit "operator_requested"))
              (λ _. restoring) w'
              (λ x h.
                declined tt
                  (transition-err e operation.id committed rolling_back (lit "operator_requested")
                      w' x operation.id h
                    ∙ s)
                  (ap owned (
                      transition-host e operation.id committed rolling_back
                        (lit "operator_requested") w')
                    ∙ same))
              (λ _ h.
                restored
                  (transition e operation.id committed rolling_back (lit "operator_requested") w').1
                  (transition-ok e operation.id committed rolling_back (lit "operator_requested") w'
                    h))

    undo_step :
        (snapshot candidate : Bytes) (current : Option Bytes) (w v : World H J)
        → state_of e operation.id v ≡ some committed
        → owned v.host ≡ owned w.host
        → let m : Step (World H J) NatError (Unit {0}) =
            require (is_applied candidate current) host_state_changed
            >> undo_committed e operation snapshot family table in
          Undone o (owned w.host) operation.id (m v).0 (m v).1
    undo_step snapshot candidate current w v s same =
        require_rule (Undone o (owned w.host) operation.id) (is_applied candidate current)
          host_state_changed (undo_committed e operation snapshot family table) v
          (λ _. declined tt s same)
          (λ _.
            subst
              (λ n.
                Undone o n operation.id (undo_committed e operation snapshot family table v).0
                  (undo_committed e operation snapshot family table v).1)
              same (undo_committed-Undone snapshot v s))

    rollback_owned-Undone :
        (snapshot candidate : Bytes) (w : World H J)
        → state_of e operation.id w ≡ some committed
        → let m = rollback_owned e operation snapshot candidate (some (family, table)) in
          Undone o (owned w.host) operation.id (m w).0 (m w).1
    rollback_owned-Undone snapshot candidate w s =
        bind_rule (Undone o (owned w.host) operation.id) look next w
          (λ x h. declined tt at_look own_look)
          (λ current h. undo_step snapshot candidate current w (look w).1 at_look own_look)
      where
        name : Bytes
        name = family ++ (lit " " ++ table)

        look : Step (World H J) NatError (Option Bytes)
        look = on_error (inspect e name) (λ _. raise host_state_changed)

        next : Option Bytes → Step (World H J) NatError (Unit {0})
        next current = do
          require (is_applied candidate current) host_state_changed
          undo_committed e operation snapshot family table

        shows : Shows e family table owned nft w (inspect e name w).0 (inspect e name w).1
        shows = inspect-Shows e family table owned nft w holds.named

        same : Same e family table owned nft w (look w).1
        same =
            subst (Same e family table owned nft w)
              (sym (on_error-raise_world (inspect e name) host_state_changed w)) shows.0

        at_look : state_of e operation.id (look w).1 ≡ some committed
        at_look = ap (λ j. e.log.state_of operation.id j) same.journal ∙ s

        own_look : owned (look w).1.host ≡ owned w.host
        own_look = same.host

    -- `RollbackCommitted` of an operation that the journal has as COMMITTED and that holds the
    -- snapshot of the table: with no error, the operation is ROLLED_BACK and the table is that of
    -- the snapshot; with an error, the operation is COMMITTED and the table as it was, or the
    -- operation is ROLLING_BACK, where recovery goes on with it.
    pub rollback_committed-Undone :
        (w : World H J)
        → state_of e operation.id w ≡ some committed
        → let m = rollback_committed e operation in
          Undone o (owned w.host) operation.id (m w).0 (m w).1
    unfolding rollback_committed
    rollback_committed-Undone w s =
        require_rule ends
          (is_committed operation.state && bytes_eq operation.operation (lit "nat_apply"))
          not_eligible opening w (λ _. nothing)
          (λ _. opens (open_nft_journal e operation false) refl)
      where
        ends : Result NatError (Unit {0}) → World H J → Type 0
        ends = Undone o (owned w.host) operation.id

        nothing : {x : NatError} → ends (err x) w
        nothing = declined tt s refl

        run : Bytes × Bytes × Bool → Step (World H J) NatError (Unit {0})
        run (snapshot, candidate, protected) = do
          require protected not_eligible
          rollback_owned e operation snapshot candidate (owned_table_from_candidate candidate)

        opening : Step (World H J) NatError (Unit {0})
        opening = do
          p ← on_error (lift (open_nft_journal e operation false)) (λ _. raise not_eligible)
          run p

        named :
            (snapshot candidate : Bytes) (protected : Bool)
            → open_nft_journal e operation false ≡ ok (snapshot, candidate, protected)
            → owned_table_from_candidate candidate ≡ some (family, table)
        named snapshot candidate protected h =
            let opened = open_nft_journal-legacy e operation (snapshot, candidate, protected) h in
            ground (arith, opened, holds.opens, holds.of_table)

        opens :
            (r : Result NatError (Bytes × Bytes × Bool))
            → open_nft_journal e operation false ≡ r
            → let m = on_error (lift r) (λ _. raise not_eligible) >>= run in ends (m w).0 (m w).1
        opens (err x) h = nothing
        opens (ok (snapshot, candidate, protected)) h =
            require_rule ends protected not_eligible
              (rollback_owned e operation snapshot candidate (owned_table_from_candidate candidate))
              w (λ _. nothing)
              (λ _.
                rw (named snapshot candidate protected h)
                  (rollback_owned-Undone snapshot candidate w s))
