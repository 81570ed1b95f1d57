-- ===== src/Nat/Executor/Restore.antt =====
-- `restoreSnapshot` of executor.go: what it leaves of the table and of the journal.
use egress_manager.Base.{
  ◌≡◌, refl, sym, ◌∙◌, ap, subst, Bool, true, false, ◌&&◌, not, Option, none, some, [], ◌∷◌, ◌++◌,
  Bytes, lit, bytes_eq, bytes_eq→eq, length, ◌==◌, arith, if◌then◌else◌, ends_line, Bool-cases, inl,
  inr,
}
use egress_manager.Effect.{Result, ok, err, Step, bind_rule, pure, ◌>>◌}
use egress_manager.Domain.Transaction.{Transaction}
use egress_manager.Nat.Plan.{NatError, is_owned_line, nft_failed, owned_table_from_candidate}
use egress_manager.Nat.Executor.{
  World, Executor, absent, rollback_candidate, run_nft, inspect, put_back, restore_table,
  restore_snapshot, open_nft_journal, is_some, snapshot_text,
}
use egress_manager.Nat.Executor.Contract.{
  NftContract, IsListing, check_file, load_file, run-ok, run-err, run-host, run-journal, Succeeds,
}
use egress_manager.Nat.Executor.Inspect.{Same, Shows, inspect-Shows}

-- A listing is no mark of absence, and is not empty.
listing_not_absent : (s : Bytes) → ends_line s ≡ true → bytes_eq s absent ≡ false
unfolding ends_line
listing_not_absent s h = elim (Bool-cases (bytes_eq s absent)) [
  | inr differs ↦ differs
  | inl same ↦ cc (h, ap ends_line (bytes_eq→eq s absent same))
]

-- The document of a rollback that has something to do has some text.
document_nonempty :
    (listed : Bytes → Bool) (family table : Bytes) (o : Option Bytes) (exists : Bool)
    → IsListing listed o
    → (bytes_eq (snapshot_text o) absent && not exists) ≡ false
    → (length (rollback_candidate family table (snapshot_text o) exists) == 0) ≡ false
unfolding rollback_candidate ends_line
document_nonempty listed family table none true l h = ground arith
document_nonempty listed family table none false l h = ground arith
document_nonempty listed family table (some s) true l h = ground arith
document_nonempty listed family table (some []) false l h = ground arith
document_nonempty listed family table (some (c ∷ cs)) false l h =
    ground (arith, listing_not_absent (c ∷ cs) l.0)

-- Where there is nothing to do, the table is what the snapshot says.
both_absent :
    (listed : Bytes → Bool) (o now : Option Bytes)
    → IsListing listed o
    → (bytes_eq (snapshot_text o) absent && not (is_some now)) ≡ true
    → now ≡ o
both_absent listed none none l h = refl
both_absent listed none (some c) l h = ground arith
both_absent listed (some s) now l h = ground (arith, listing_not_absent s l.0)

module _ {H J : Type 0} (e : Executor H J) (family table : Bytes) (owned : H → Option Bytes)
    (nft : NftContract e family table owned) where
  pub run_check-Same :
      (d : Bytes) (w : World H J) → Same e family table owned nft w (run_nft e true d w).1
  unfolding run_nft
  run_check-Same d w = record {
    journal = run-journal e (check_file d) nft_failed w;
    host = rw (run-host e (check_file d) nft_failed w) (nft.check_keeps d w.host);
  }

  pub run_load-journal : (d : Bytes) (w : World H J) → (run_nft e false d w).1.journal ≡ w.journal
  unfolding run_nft
  run_load-journal d w = run-journal e (load_file d) nft_failed w

  -- A load that fails has changed nothing.
  pub run_load-err :
      (d : Bytes) (w : World H J) (x : NatError)
      → (run_nft e false d w).0 ≡ err x
      → owned (run_nft e false d w).1.host ≡ owned w.host
  unfolding run_nft
  run_load-err d w x h =
      rw (run-host e (load_file d) nft_failed w)
        (nft.load_atomic d w.host (run-err e (load_file d) nft_failed x w h))

  run_load-restores :
      (o : Option Bytes) (w : World H J) (out : Bytes)
      → IsListing nft.listed o
      → let d = rollback_candidate family table (snapshot_text o) (is_some (owned w.host)) in
        (run_nft e false d w).0 ≡ ok out → owned (run_nft e false d w).1.host ≡ o
  unfolding run_nft
  run_load-restores o w out l h =
      let d = rollback_candidate family table (snapshot_text o) (is_some (owned w.host)) in
      let (r, ran, zero_code, _) = run-ok e (load_file d) nft_failed w out h in
      rw (run-host e (load_file d) nft_failed w)
        (nft.load_restores o w.host l (subst Succeeds (sym ran) zero_code))

  abbrev SameAs : World H J → World H J → Type 0
  SameAs = Same e family table owned nft

  -- The journal stays, and without an error the table has the listing `o`.
  abbrev pub Restores : Option Bytes → World H J → Result NatError (Unit {0}) → World H J → Type 0
  Restores o w r w' = (w'.journal ≡ w.journal) × (r ≡ ok tt → owned w'.host ≡ o)

  load_step :
      (o : Option Bytes) (d : Bytes) (w : World H J)
      → IsListing nft.listed o
      → rollback_candidate family table (snapshot_text o) (is_some (owned w.host)) ≡ d
      → let m : Step (World H J) NatError (Unit {0}) = run_nft e false d >> pure tt in
        Restores o w (m w).0 (m w).1
  load_step o d w l same =
      bind_rule (Restores o w) (run_nft e false d) (λ _. pure tt) w
        (λ x h. (run_load-journal d w, λ k. ground arith))
        (λ out h. (
          run_load-journal d w,
          λ _.
              subst (λ d. (run_nft e false d w).0 ≡ ok out → owned (run_nft e false d w).1.host ≡ o)
                same (run_load-restores o w out l) h,
        ))

  put_back-Restores :
      (o : Option Bytes) (w : World H J)
      → IsListing nft.listed o
      → (bytes_eq (snapshot_text o) absent && not (is_some (owned w.host))) ≡ false
      → let d = rollback_candidate family table (snapshot_text o) (is_some (owned w.host)) in
        Restores o w (put_back e d w).0 (put_back e d w).1
  unfolding put_back
  put_back-Restores o w l h =
      let d = rollback_candidate family table (snapshot_text o) (is_some (owned w.host)) in
      let checked = run_check-Same d w in
      rw (document_nonempty nft.listed family table o (is_some (owned w.host)) l h) (
        bind_rule (Restores o w) (run_nft e true d) (λ _. run_nft e false d >> pure tt) w
          (λ x k. (checked.journal, λ q. ground arith))
          (λ out k.
            let after = (run_nft e true d w).1 in
            let loaded = load_step o d after l (
              ap (λ b. rollback_candidate family table (snapshot_text o) (is_some b))
                checked.host) in
            (loaded.0 ∙ checked.journal, loaded.1)))

  restore_table-Restores :
      (o : Option Bytes) (w : World H J)
      → IsListing nft.listed o
      → is_owned_line family table ≡ true
      → let m = restore_table e (snapshot_text o) family table in Restores o w (m w).0 (m w).1
  unfolding restore_table
  restore_table-Restores o w l own =
      bind_rule (Restores o w) (inspect e name) act w (λ x h. (seen.0.journal, λ k. ground arith))
        (λ current h. found current (seen.1 current h))
    where
      name : Bytes
      name = family ++ (lit " " ++ table)

      after : World H J
      after = (inspect e name w).1

      seen : Shows e family table owned nft w (inspect e name w).0 after
      seen = inspect-Shows e family table owned nft w own

      act : Option Bytes → Step (World H J) NatError (Unit {0})
      act current =
          if bytes_eq (snapshot_text o) absent && not (is_some current)
          then pure tt
          else put_back e (rollback_candidate family table (snapshot_text o) (is_some current))

      now : Option Bytes
      now = owned after.host

      acted : Restores o w (act now after).0 (act now after).1
      acted = elim (Bool-cases (bytes_eq (snapshot_text o) absent && not (is_some now))) [
        | inl nothing ↦ rw nothing (seen.0.journal, λ _. both_absent nft.listed o now l nothing)
        | inr something ↦
            let put = put_back-Restores o after l something in
            rw something (put.0 ∙ seen.0.journal, put.1)
      ]

      found :
          (current : Option Bytes)
          → current ≡ owned w.host
          → Restores o w (act current after).0 (act current after).1
      found current c =
          subst (λ c. Restores o w (act c after).0 (act c after).1) (seen.0.host ∙ sym c) acted

  -- An entry of the journal that holds the snapshot `o` of this table.
  pub record Holds (operation : Transaction) (o : Option Bytes) : Type 0 where
    pub candidate : Bytes
    pub protected : Bool
    pub opens : open_nft_journal e operation true ≡ ok (snapshot_text o, candidate, protected)
    pub of_table : owned_table_from_candidate candidate ≡ some (family, table)
    pub listing : IsListing nft.listed o
    pub named : is_owned_line family table ≡ true

  -- `restoreSnapshot` of an entry that holds the snapshot leaves the journal as it was, and if it
  -- returns no error, the table is that of the snapshot.
  pub restore_snapshot-Restores :
      (operation : Transaction) (o : Option Bytes) (w : World H J)
      → Holds operation o
      → Restores o w (restore_snapshot e operation w).0 (restore_snapshot e operation w).1
  unfolding restore_snapshot
  restore_snapshot-Restores operation o w h =
      rw (h.opens, h.of_table) (restore_table-Restores o w h.listing h.named)
