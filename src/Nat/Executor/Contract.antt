-- ===== src/Nat/Executor/Contract.antt =====
-- What the executor relies on: the documented behaviour of nft, of the cipher, and of the journal;
-- and what one call of each does to the world.
use egress_manager.Journal.Protocol as Protocol
use egress_manager.Nat.Plan.{journal_failed, both}
use egress_manager.Base.{
  ◌≡◌, refl, Bool, true, Option, none, some, [], ◌∷◌, Bytes, lit, arith, ends_line,
}
use egress_manager.Effect.{ok, err}
use egress_manager.System.{Command, CommandResult}
use egress_manager.Secrets.{Envelope}
use egress_manager.Domain.Transaction.{Transaction, TransactionState}
use egress_manager.Nat.Plan.{NatError, owned_table_from_candidate}
use egress_manager.Nat.Executor.{
  World, Executor, rollback_candidate, lists_table, run, transition, create_operation, is_some,
  snapshot_text, command_output,
}

abbrev pub list_tables : Command
list_tables = record { name = lit "nft"; args = lit "list" ∷ lit "tables" ∷ []; stdin = [] }

abbrev pub list_table : Bytes → Bytes → Command
list_table family table = record {
  name = lit "nft";
  args = lit "list" ∷ lit "table" ∷ family ∷ table ∷ [];
  stdin = [];
}

abbrev pub check_file : Bytes → Command
check_file document = record {
  name = lit "nft";
  args = lit "--check" ∷ lit "--file" ∷ lit "-" ∷ [];
  stdin = document;
}

abbrev pub load_file : Bytes → Command
load_file document = record {
  name = lit "nft";
  args = lit "--file" ∷ lit "-" ∷ [];
  stdin = document;
}

-- The command ran and left with code 0.
abbrev pub Succeeds : Option CommandResult → Type 0
Succeeds none = ⊥
Succeeds (some r) = r.exit_code ≡ 0

-- What can be put back: no table, or a text that nft prints for it.
abbrev pub IsListing : (Bytes → Bool) → Option Bytes → Type 0
IsListing listed none = Unit
IsListing listed (some s) = (ends_line s ≡ true) × (listed s ≡ true)

module _ {H J : Type 0} (e : Executor H J) (family table : Bytes) (owned : H → Option Bytes) where
  -- nft, for one table whose listing is `owned`: listing and checking change nothing; a file is
  -- loaded as a whole or not at all; and a file that deletes the table, if it is there, and then
  -- holds what nft has printed for the table, brings the table of that listing back. `listed` says
  -- what nft prints.
  pub record NftContract : Type 0 where
    pub listed : Bytes → Bool
    pub listings : (h : H) → IsListing listed (owned h)
    pub listings_name :
        (h : H) (s : Bytes) → owned h ≡ some s → owned_table_from_candidate s ≡ some (family, table)
    pub list_tables_keeps : (h : H) → owned (e.runner list_tables h).1 ≡ owned h
    pub list_table_keeps : (h : H) → owned (e.runner (list_table family table) h).1 ≡ owned h
    pub check_keeps : (d : Bytes) (h : H) → owned (e.runner (check_file d) h).1 ≡ owned h
    pub load_atomic :
        (d : Bytes) (h : H)
        → ¬ Succeeds (e.runner (load_file d) h).0
        → owned (e.runner (load_file d) h).1 ≡ owned h
    pub list_tables_shows :
        (h : H) (r : CommandResult)
        → (e.runner list_tables h).0 ≡ some r
        → r.exit_code ≡ 0
        → lists_table family table r.stdout ≡ is_some (owned h)
    pub list_table_shows :
        (h : H) (r : CommandResult)
        → (e.runner (list_table family table) h).0 ≡ some r
        → r.exit_code ≡ 0
        → owned h ≡ some r.stdout
    pub load_restores :
        (o : Option Bytes) (h : H)
        → IsListing listed o
        → Succeeds
            (e.runner
              (load_file (rollback_candidate family table (snapshot_text o) (is_some (owned h))))
              h).0
        → owned
            (e.runner
              (load_file (rollback_candidate family table (snapshot_text o) (is_some (owned h))))
              h).1
          ≡ o

module _ {H J : Type 0} (e : Executor H J) where
  -- What was sealed and encoded is decoded and opened.
  pub record SealContract : Type 0 where
    pub opens :
        (h : H) (context text : Bytes) (envelope : Envelope)
        → e.seal h context text ≡ some envelope
        → (e.decode (e.encode envelope) ≡ some envelope)
          × (e.open_envelope context envelope ≡ some text)

  abbrev pub state_of : Bytes → World H J → Option TransactionState
  state_of id w = e.log.state_of id w.journal

  module _ (id : Bytes) (from to : TransactionState) (detail : Bytes) (w : World H J) where
    pub transition-ok :
        (transition e id from to detail w).0 ≡ ok tt
        → state_of id (transition e id from to detail w).1 ≡ some to
    transition-ok = Protocol.transition-ok e.log e.now journal_failed both id from to detail w

    pub transition-err :
        (x : NatError) (k : Bytes)
        → (transition e id from to detail w).0 ≡ err x
        → state_of k (transition e id from to detail w).1 ≡ state_of k w
    transition-err = Protocol.transition-err e.log e.now journal_failed both id from to detail w

    pub transition-host : (transition e id from to detail w).1.host ≡ w.host
    transition-host = Protocol.transition-host e.log e.now journal_failed both id from to detail w

  pub create_operation-ok :
      (t : Transaction) (w : World H J)
      → (create_operation e t w).0 ≡ ok tt
      → state_of t.id (create_operation e t w).1 ≡ some t.state
  create_operation-ok = Protocol.create_operation-ok e.log e.now journal_failed both

  pub create_operation-err :
      (t : Transaction) (w : World H J) (x : NatError) (k : Bytes)
      → (create_operation e t w).0 ≡ err x
      → state_of k (create_operation e t w).1 ≡ state_of k w
  create_operation-err = Protocol.create_operation-err e.log e.now journal_failed both

  pub create_operation-host :
      (t : Transaction) (w : World H J) → (create_operation e t w).1.host ≡ w.host
  create_operation-host = Protocol.create_operation-host e.log e.now journal_failed both

  -- A command leaves the journal alone.
  pub run-journal :
      (c : Command) (x : NatError) (w : World H J) → (run e c x w).1.journal ≡ w.journal
  unfolding run
  run-journal c x w = refl

  pub run-host :
      (c : Command) (x : NatError) (w : World H J) → (run e c x w).1.host ≡ (e.runner c w.host).1
  unfolding run
  run-host c x w = refl

  output-ok :
      (o : Option CommandResult) (x : NatError) (stdout : Bytes)
      → command_output o x ≡ ok stdout
      → (r : CommandResult) × (o ≡ some r) × (r.exit_code ≡ 0) × (r.stdout ≡ stdout)
  output-ok none x stdout h = absurd (ground arith)
  output-ok (some r) x stdout h = (r, refl, ground arith, ground arith)

  output-err :
      (o : Option CommandResult) (x y : NatError) → command_output o x ≡ err y → ¬ Succeeds o
  output-err none x y h s = s
  output-err (some r) x y h s = ground arith

  pub run-ok :
      (c : Command) (x : NatError) (w : World H J) (stdout : Bytes)
      → (run e c x w).0 ≡ ok stdout
      → (r : CommandResult) × ((e.runner c w.host).0 ≡ some r)
        × (r.exit_code ≡ 0)
        × (r.stdout ≡ stdout)
  unfolding run
  run-ok c x w stdout h = output-ok (e.runner c w.host).0 x stdout h

  pub run-err :
      (c : Command) (x y : NatError) (w : World H J)
      → (run e c x w).0 ≡ err y
      → ¬ Succeeds (e.runner c w.host).0
  unfolding run
  run-err c x y w h = output-err (e.runner c w.host).0 x y h
