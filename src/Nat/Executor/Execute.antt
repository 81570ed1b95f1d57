-- ===== src/Nat/Executor/Execute.antt =====
-- `Execute` of executor.go from the start: the seals and the entry of the journal, and how it ends.
use egress_manager.Base.{
  ◌≡◌, refl, sym, ◌∙◌, ap, subst, true, false, Option, none, some, List, [], ◌∷◌, ◌++◌, ℕ, ◌||◌,
  Bytes, lit, bytes_eq, bytes_eq→eq, bytes_eq_refl, length, ltb, arith, Bool-cases, Option-cases,
  inl, inr, not, if◌then◌else◌,
}
use egress_manager.Effect.{Result, ok, err, bind_rule, require_rule, pure, require, ◌>>=◌, ◌>>◌}
use egress_manager.Domain.Transaction.{Transaction, prepared}
use egress_manager.Nat.Plan.{
  Plan, NatError, invalid_plan, no_requested_change, host_state_changed, validate_executable_plan,
  is_owned_line, first_owned, owned_table_from_candidate,
}
use egress_manager.Nat.Executor.{
  World, Executor, absent, same_table, Act, entry, protect, open_field, opened_journal,
  open_nft_journal, inspect, is_some, snapshot_text, prepare_operation, create_operation,
  apply_operation, execute, journal_context,
}
use egress_manager.Nat.Executor.Contract.{
  NftContract, SealContract, state_of, create_operation-ok, create_operation-err,
  create_operation-host,
}
use egress_manager.Nat.Executor.Inspect.{Same, Shows, inspect-Shows}
use egress_manager.Nat.Executor.Restore.{Holds}
use egress_manager.Journal.Outcome.{refused, IsErr}
use egress_manager.Nat.Executor.Rollback.{Outcome}
use egress_manager.Nat.Executor.Outcome.{apply_operation-Outcome}

-- The table that a candidate defines is one of the owned names.
first_owned-is_owned :
    (lines : List Bytes) (family table : Bytes)
    → first_owned lines ≡ some (family, table)
    → is_owned_line family table ≡ true
first_owned-is_owned [] family table h = absurd (ground arith)
first_owned-is_owned (line ∷ lines) family table h =
    ground (arith, first_owned-is_owned lines family table)

owned_table-is_owned :
    (candidate family table : Bytes)
    → owned_table_from_candidate candidate ≡ some (family, table)
    → is_owned_line family table ≡ true
unfolding owned_table_from_candidate
owned_table-is_owned candidate family table h = first_owned-is_owned _ family table h

-- An executable plan of this engine names the table that its candidate defines.
executable_table :
    (plan : Plan) (family table : Bytes)
    → owned_table_from_candidate plan.candidate ≡ some (family, table)
    → bytes_eq plan.engine (lit "iptables") ≡ false
    → validate_executable_plan plan ≡ true
    → plan.owned_table ≡ family ++ (lit " " ++ table)
unfolding validate_executable_plan
executable_table plan family table c n h =
    bytes_eq→eq plan.owned_table (family ++ (lit " " ++ table)) (ground arith)

module _ {H J : Type 0} (e : Executor H J) where
  protect-world : (id purpose text : Bytes) (w : World H J) → (protect e id purpose text w).1 ≡ w
  unfolding protect
  protect-world id purpose text w = ground arith

  protect-opens :
      (seal : SealContract e) (id purpose text : Bytes) (w : World H J) (v : Bytes)
      → (protect e id purpose text w).0 ≡ ok v
      → open_field e id purpose v true ≡ ok (text, true)
  unfolding protect open_field
  protect-opens seal id purpose text w v h =
      elim (Option-cases (e.seal w.host (journal_context id purpose) text)) [
        | inl unsealed ↦ absurd (ground arith)
        | inr (envelope, made) ↦
            let (decoded, opened) =
              seal.opens w.host (journal_context id purpose) text envelope made in
            ground arith
      ]

-- The entry of the journal holds the snapshot.
module _ {H J : Type 0} (e : Executor H J) (family table : Bytes) (owned : H → Option Bytes)
    (nft : NftContract e family table owned) (seal : SealContract e) (id requested_change : Bytes)
    (plan : Plan) (c : owned_table_from_candidate plan.candidate ≡ some (family, table))
    (n : bytes_eq plan.engine (lit "iptables") ≡ false) where
  -- The entry that `Execute` makes of sealed fields.
  data Entered (o : Option Bytes) (t : Transaction) : Type 0 where
    entered : t.id ≡ id → t.state ≡ prepared → Holds e family table owned nft t o → Entered o t

  abbrev Prepares : World H J → Result NatError Transaction → World H J → Type 0
  Prepares w r w' =
      Same e family table owned nft w w' × ((t : Transaction) → r ≡ ok t → Entered (owned w.host) t)

  Same-refl : (w : World H J) → Same e family table owned nft w w
  Same-refl w = record { journal = refl; host = refl }

  -- Behind the two seals.
  opens_entry :
      (snapshot candidate o : Bytes) (at : Option ℕ)
      → open_field e id (lit "snapshot") snapshot true ≡ ok (o, true)
      → open_field e id (lit "candidate") candidate true ≡ ok (plan.candidate, true)
      → (bytes_eq o absent || same_table (owned_table_from_candidate o) (family, table)) ≡ true
      → open_nft_journal e (entry id requested_change snapshot candidate at) true
        ≡ ok (o, plan.candidate, true)
  unfolding open_nft_journal opened_journal
  opens_entry snapshot candidate o at p q r = rw (p, q, c) (ground arith)

  -- The snapshot is a listing of the table that the candidate defines.
  snapshot_of_table :
      (o : Option Bytes) (w : World H J)
      → owned w.host ≡ o
      → (bytes_eq (snapshot_text o) absent
          || same_table (owned_table_from_candidate (snapshot_text o)) (family, table))
        ≡ true
  snapshot_of_table none w h = refl
  snapshot_of_table (some s) w h =
      rw (nft.listings_name w.host s h) (ground (arith, bytes_eq_refl family, bytes_eq_refl table))

  Entered-entry :
      (w : World H J) (snapshot candidate : Bytes) (at : Option ℕ)
      → open_field e id (lit "snapshot") snapshot true ≡ ok (snapshot_text (owned w.host), true)
      → open_field e id (lit "candidate") candidate true ≡ ok (plan.candidate, true)
      → Entered (owned w.host) (entry id requested_change snapshot candidate at)
  Entered-entry w snapshot candidate at p q = entered refl refl (record {
    candidate = plan.candidate;
    protected = true;
    opens =
        opens_entry snapshot candidate (snapshot_text (owned w.host)) at p q
          (snapshot_of_table (owned w.host) w refl);
    of_table = c;
    listing = nft.listings w.host;
    named = owned_table-is_owned plan.candidate family table c;
  })

  protect-Same :
      (w v : World H J) (purpose text : Bytes)
      → Same e family table owned nft w v
      → Same e family table owned nft w (protect e id purpose text v).1
  protect-Same w v purpose text s = rw (protect-world e id purpose text v) s

  -- From the snapshot on, the world stays, and the entry holds the snapshot.
  sealed :
      (w v : World H J) (current : Option Bytes)
      → Same e family table owned nft w v
      → current ≡ owned w.host
      → let m : Act e Transaction = do
        snapshot ← protect e id (lit "snapshot") (snapshot_text current)
        candidate ← protect e id (lit "candidate") plan.candidate
        λ w. pure (entry id requested_change snapshot candidate (e.now w)) w
        in Prepares w (m v).0 (m v).1
  sealed w v current s shown =
      bind_rule (Prepares w) (protect e id (lit "snapshot") (snapshot_text current)) after v
        (λ x h. (
          protect-Same w v (lit "snapshot") (snapshot_text current) s,
          λ t k. absurd (ground arith),
        ))
        (λ snapshot h.
          let u = (protect e id (lit "snapshot") (snapshot_text current) v).1 in
          let s' = protect-Same w v (lit "snapshot") (snapshot_text current) s in
          bind_rule (Prepares w) (protect e id (lit "candidate") plan.candidate)
            (λ candidate w. pure (entry id requested_change snapshot candidate (e.now w)) w) u
            (λ x k.
              (protect-Same w u (lit "candidate") plan.candidate s', λ t k. absurd (ground arith)))
            (λ candidate k. (
              protect-Same w u (lit "candidate") plan.candidate s',
              λ t q. subst (Entered (owned w.host)) (ground (arith, q)) (
                  Entered-entry w snapshot candidate
                    (e.now (protect e id (lit "candidate") plan.candidate u).1)
                    (subst
                      (λ o.
                        open_field e id (lit "snapshot") snapshot true ≡ ok (snapshot_text o, true))
                      shown
                      (protect-opens e seal id (lit "snapshot") (snapshot_text current) v snapshot
                        h))
                    (protect-opens e seal id (lit "candidate") plan.candidate u candidate k)),
            )))
    where
      after : Bytes → Act e Transaction
      after snapshot = do
        candidate ← protect e id (lit "candidate") plan.candidate
        λ w. pure (entry id requested_change snapshot candidate (e.now w)) w

  prepare_operation-Prepares :
      (w : World H J)
      → validate_executable_plan plan ≡ true
      → let m = prepare_operation e id requested_change plan in Prepares w (m w).0 (m w).1
  unfolding prepare_operation
  prepare_operation-Prepares w v = rw v (
      require_rule (Prepares w) (ltb 0 (length requested_change)) no_requested_change inspected w
        (λ _. nothing) (λ _. looked))
    where
      nothing : {x : NatError} → Prepares w (err x) w
      nothing = (Same-refl w, λ t k. absurd (ground arith))

      sealing : Option Bytes → Act e Transaction
      sealing current = do
        snapshot ← protect e id (lit "snapshot") (snapshot_text current)
        candidate ← protect e id (lit "candidate") plan.candidate
        λ w. pure (entry id requested_change snapshot candidate (e.now w)) w

      decided : Option Bytes → Act e Transaction
      decided current = do
        require (if is_some current then plan.table_existed else not plan.table_existed)
            host_state_changed
        sealing current

      inspected : Act e Transaction
      inspected = inspect e plan.owned_table >>= decided

      name : Bytes
      name = family ++ (lit " " ++ table)

      shows : Shows e family table owned nft w (inspect e name w).0 (inspect e name w).1
      shows =
          inspect-Shows e family table owned nft w
            (owned_table-is_owned plan.candidate family table c)

      looked : Prepares w (inspected w).0 (inspected w).1
      looked =
          subst (λ o. Prepares w ((inspect e o >>= decided) w).0 ((inspect e o >>= decided) w).1)
            (sym (executable_table plan family table c n v))
            (bind_rule (Prepares w) (inspect e name) decided w
              (λ x h. (shows.0, λ t k. absurd (ground arith)))
              (λ current h.
                require_rule (Prepares w)
                  (if is_some current then plan.table_existed else not plan.table_existed)
                  host_state_changed (sealing current) (inspect e name w).1
                  (λ _. (shows.0, λ t k. absurd (ground arith)))
                  (λ _. sealed w (inspect e name w).1 current shows.0 (shows.1 current h))))

  prepare_operation-invalid :
      (w : World H J)
      → validate_executable_plan plan ≡ false
      → prepare_operation e id requested_change plan w ≡ (err invalid_plan, w)
  unfolding prepare_operation
  prepare_operation-invalid w v = rw v refl

  -- `Execute` for nftables, from any state of the host and of the journal, for a candidate that
  -- defines the table. It ends in one of these ways: with no error, the operation COMMITTED and the
  -- table as a load of the candidate that succeeded and a verification that passed have left it;
  -- with an error and the journal's state of the id and the table as before; with an error, the
  -- operation PREPARED, VALIDATED or FAILED and the table as before; with an error, the operation
  -- ROLLED_BACK and the table as before; with an error and the operation unfinished in APPLYING,
  -- VERIFYING or ROLLING_BACK, since the journal has refused the last transition from that state; or
  -- with an error, the operation FAILED and the table as a restoration of the snapshot, which ran in
  -- ROLLING_BACK and failed, has left it.
  pub execute-Outcome :
      (iptables : Bytes → Bytes → Plan → Act e (Unit {0})) (w : World H J)
      → let m = execute e iptables id requested_change plan in
        Outcome e family table owned nft plan (owned w.host) id (state_of e id w) (m w).0 (m w).1
  unfolding execute
  execute-Outcome iptables w = rw n (elim (Bool-cases (validate_executable_plan plan)) [
    | inl v ↦ started (prepare_operation-Prepares w v)
    | inr v ↦ rejected v
  ])
    where
      ends : Result NatError (Unit {0}) → World H J → Type 0
      ends r w' = Outcome e family table owned nft plan (owned w.host) id (state_of e id w) r w'

      journaled : Transaction → Act e (Unit {0})
      journaled operation = create_operation e operation >> apply_operation e operation plan

      prepared_world : World H J
      prepared_world = (prepare_operation e id requested_change plan w).1

      unchanged :
          (r : Result NatError (Unit {0})) (w' : World H J)
          → IsErr r
          → state_of e id w' ≡ state_of e id prepared_world
          → w'.host ≡ prepared_world.host
          → Same e family table owned nft w prepared_world
          → ends r w'
      unchanged r w' i s h same =
          refused i (s ∙ ap (λ j. e.log.state_of id j) same.journal) (ap owned h ∙ same.host)

      entered_run :
          (t : Transaction)
          → Same e family table owned nft w prepared_world
          → Entered (owned w.host) t
          → ends (journaled t prepared_world).0 (journaled t prepared_world).1
      entered_run t same (entered i s holds) =
          bind_rule ends (create_operation e t) (λ _. apply_operation e t plan) prepared_world
            (λ x h.
              unchanged (err x) (create_operation e t prepared_world).1 tt
                (create_operation-err e t prepared_world x id h)
                (create_operation-host e t prepared_world) same)
            (λ _ h.
              let after = (create_operation e t prepared_world).1 in
              subst
                (λ k.
                  Outcome e family table owned nft plan (owned w.host) k (state_of e id w)
                    (apply_operation e t plan after).0 (apply_operation e t plan after).1)
                i
                (apply_operation-Outcome e family table owned nft t plan (owned w.host)
                  (state_of e id w) holds after
                  (create_operation-ok e t prepared_world h ∙ ap some s)
                  (ap owned (create_operation-host e t prepared_world) ∙ same.host)))

      started :
          Prepares w (prepare_operation e id requested_change plan w).0 prepared_world
          → let m = prepare_operation e id requested_change plan >>= journaled in
            ends (m w).0 (m w).1
      started (same, made) =
          bind_rule ends (prepare_operation e id requested_change plan) journaled w
            (λ x h. unchanged (err x) prepared_world tt refl refl same)
            (λ t h. entered_run t same (made t h))

      rejected :
          validate_executable_plan plan ≡ false
          → let m = prepare_operation e id requested_change plan >>= journaled in
            ends (m w).0 (m w).1
      rejected v =
          bind_rule ends (prepare_operation e id requested_change plan) journaled w
            (λ x h. unchanged (err x) prepared_world tt refl refl (
              subst (Same e family table owned nft w)
                (sym (ap (λ p. p.1) (prepare_operation-invalid w v))) (Same-refl w)))
            (λ t h. absurd (ground (arith, prepare_operation-invalid w v)))
