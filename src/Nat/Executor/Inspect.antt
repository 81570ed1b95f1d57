-- ===== src/Nat/Executor/Inspect.antt =====
-- `inspect` of executor.go: what it returns and what it leaves.
use egress_manager.Base.{
  ◌≡◌, refl, ◌∙◌, ◌⊎◌, inl, inr, Bool, true, false, ◌||◌, Option, none, some, [], ◌∷◌, ◌++◌, Bytes,
  lit, bytes_eq, bytes_eq→eq, length, ltb, arith, if◌then◌else◌, fields, Bool-cases,
}
use egress_manager.Effect.{Result, ok, Step, bind_rule, require, pure, ◌>>◌}
use egress_manager.Nat.Plan.{NatError, is_owned_line, list_failed, snapshot_failed, empty_snapshot}
use egress_manager.Nat.Executor.{
  World, Executor, run, inspect_presence, snapshot_table, inspect_table, inspect_words, inspect,
  is_some, lists_table,
}
use egress_manager.Nat.Executor.Contract.{
  NftContract, list_tables, list_table, run-ok, run-host, run-journal,
}

-- The name of an owned table is split into its family and its table.
fields_owned :
    (family table : Bytes)
    → is_owned_line family table ≡ true
    → fields (family ++ (lit " " ++ table)) ≡ family ∷ table ∷ []
fields_owned family table h =
    named family table (either family (lit "ip") (lit "ip6") (ground arith))
      (either table (lit "egm_nat4") (lit "egm_nat6") (ground arith))
  where
    either : (a b c : Bytes) → (bytes_eq a b || bytes_eq a c) ≡ true → (a ≡ b) ⊎ (a ≡ c)
    either a b c h = elim (Bool-cases (bytes_eq a b)) [
      | inl x ↦ inl (bytes_eq→eq a b x)
      | inr x ↦ inr (bytes_eq→eq a c (ground arith))
    ]

    named :
        (f t : Bytes)
        → (f ≡ lit "ip") ⊎ (f ≡ lit "ip6")
        → (t ≡ lit "egm_nat4") ⊎ (t ≡ lit "egm_nat6")
        → fields (f ++ (lit " " ++ t)) ≡ f ∷ t ∷ []
    named f t (inl x) (inl y) = rw (x, y) (unfold fields in refl)
    named f t (inl x) (inr y) = rw (x, y) (unfold fields in refl)
    named f t (inr x) (inl y) = rw (x, y) (unfold fields in refl)
    named f t (inr x) (inr y) = rw (x, y) (unfold fields in refl)

module _ {H J : Type 0} (e : Executor H J) (family table : Bytes) (owned : H → Option Bytes)
    (nft : NftContract e family table owned) where
  -- What a step leaves of the journal and of the table.
  pub record Same (w w' : World H J) : Type 0 where
    pub journal : w'.journal ≡ w.journal
    pub host : owned w'.host ≡ owned w.host

  pub Same-trans : (u v w : World H J) → Same u v → Same v w → Same u w
  Same-trans u v w p q = record { journal = q.journal ∙ p.journal; host = q.host ∙ p.host }

  -- `inspectOwnedTablePresence` changes nothing and says whether the table is there.
  abbrev Presence : World H J → Result NatError Bool → World H J → Type 0
  Presence w r w' = Same w w' × ((b : Bool) → r ≡ ok b → b ≡ is_some (owned w.host))

  inspect_presence-lem :
      (w : World H J)
      → Presence w (inspect_presence e family table w).0 (inspect_presence e family table w).1
  unfolding inspect_presence
  inspect_presence-lem w =
      bind_rule (Presence w) (run e list_tables list_failed)
        (λ stdout. pure (lists_table family table stdout)) w (λ x h. (same, λ b k. ground arith))
        (λ stdout h. (same, λ b k. shown stdout b h (ground arith)))
    where
      same : Same w (run e list_tables list_failed w).1
      same = record {
        journal = run-journal e list_tables list_failed w;
        host = rw (run-host e list_tables list_failed w) (nft.list_tables_keeps w.host);
      }

      shown :
          (stdout : Bytes) (b : Bool)
          → (run e list_tables list_failed w).0 ≡ ok stdout
          → lists_table family table stdout ≡ b
          → b ≡ is_some (owned w.host)
      shown stdout b h k =
          let (r, ran, zero_code, out) = run-ok e list_tables list_failed w stdout h in
          ground (arith, nft.list_tables_shows w.host r)

  -- `inspect` changes nothing, and what it returns is the table's listing.
  abbrev pub Shows : World H J → Result NatError (Option Bytes) → World H J → Type 0
  Shows w r w' = Same w w' × ((o : Option Bytes) → r ≡ ok o → o ≡ owned w.host)

  list_step : (w : World H J) → Same w (run e (list_table family table) snapshot_failed w).1
  list_step w = record {
    journal = run-journal e (list_table family table) snapshot_failed w;
    host =
        rw (run-host e (list_table family table) snapshot_failed w) (nft.list_table_keeps w.host);
  }

  snapshot_table-Shows :
      (w : World H J)
      → Shows w (snapshot_table e family table w).0 (snapshot_table e family table w).1
  unfolding snapshot_table
  snapshot_table-Shows w =
      bind_rule (Shows w) (run e (list_table family table) snapshot_failed)
        (λ stdout. require (ltb 0 (length (fields stdout))) empty_snapshot >> pure (some stdout)) w
        (λ x h. (list_step w, λ o k. ground arith))
        (λ stdout h. checked (ltb 0 (length (fields stdout))) stdout h)
    where
      checked :
          (test : Bool) (stdout : Bytes)
          → (run e (list_table family table) snapshot_failed w).0 ≡ ok stdout
          → let after = (run e (list_table family table) snapshot_failed w).1 in
            let m : Step (World H J) NatError (Option Bytes) =
              require test empty_snapshot >> pure (some stdout) in
            Shows w (m after).0 (m after).1
      checked false stdout h = (list_step w, λ o k. ground arith)
      checked true stdout h = (
        list_step w,
        λ o k.
            let (r, ran, zero_code, out) =
              run-ok e (list_table family table) snapshot_failed w stdout h in
            ground (arith, nft.list_table_shows w.host r ran zero_code),
      )

  Shows-trans :
      (u v : World H J) (r : Result NatError (Option Bytes)) (w : World H J)
      → Same u v
      → Shows v r w
      → Shows u r w
  Shows-trans u v r w s h = (Same-trans u v w s h.0, λ o k. h.1 o k ∙ s.host)

  inspect_table-Shows :
      (w : World H J)
      → Shows w (inspect_table e family table w).0 (inspect_table e family table w).1
  unfolding inspect_table
  inspect_table-Shows w =
      bind_rule (Shows w) (inspect_presence e family table)
        (λ present. if present then snapshot_table e family table else pure none) w
        (λ x h. ((inspect_presence-lem w).0, λ o k. ground arith))
        (λ present h. found present ((inspect_presence-lem w).1 present h))
    where
      after : World H J
      after = (inspect_presence e family table w).1

      same : Same w after
      same = (inspect_presence-lem w).0

      found :
          (present : Bool)
          → present ≡ is_some (owned w.host)
          → let m : Step (World H J) NatError (Option Bytes) =
              if present then snapshot_table e family table else pure none in
            Shows w (m after).0 (m after).1
      found true p =
          Shows-trans w after (snapshot_table e family table after).0
            (snapshot_table e family table after).1 same (snapshot_table-Shows after)
      found false p = (same, λ o k. ground arith)

  -- For an owned table's name `inspect` changes neither the journal nor the table, and if it returns
  -- no error, returns the table's listing, or its absence.
  pub inspect-Shows :
      (w : World H J)
      → is_owned_line family table ≡ true
      → let m = inspect e (family ++ (lit " " ++ table)) in Shows w (m w).0 (m w).1
  unfolding inspect inspect_words
  inspect-Shows w h = rw (fields_owned family table h) (rw h (inspect_table-Shows w))
