-- ===== src/Scenarios.antt =====
-- A host with one table and its journal, on which the theorems are run.
mod Executing
mod Planning
mod Storing
mod Settings
mod Watching
mod SigningIn
mod Proxying
mod Keeping
mod Deploying
mod Sweeping
use egress_manager.Base.{
  split_lines, fields, ends_line, bytes_eq→eq, bytes_eq_refl, ℕ, zero, suc, ◌*◌, ◌^◌, ap, subst,
  sym, ◌≡◌, refl, Bool, true, false, Option, none, some, List, [], ◌∷◌, ◌++◌, Bytes, lit, bytes_eq,
  ◌&&◌, if◌then◌else◌, arith, ◌==◌, Bool-cases, inl, inr,
}
use egress_manager.Secrets.{Envelope}
use egress_manager.System.{Command, CommandResult, Runner}
use egress_manager.Domain.Transaction.{Transaction, TransactionState, prepared, applying, committed}
use egress_manager.Database.{Row, Store}
use egress_manager.Database.Ledger.{Ledger, ledger}
use egress_manager.Nat.Plan.{Plan, owned_table_from_candidate}
use egress_manager.Nat.Executor.{
  World, Executor, lists_table, rollback_candidate, is_some, snapshot_text,
}
use egress_manager.Nat.Executor.Contract.{
  NftContract, SealContract, IsListing, list_tables, list_table, check_file, load_file, Succeeds,
}

abbrev pub family : Bytes
family = lit "ip"

abbrev pub table : Bytes
table = lit "egm_nat4"

-- The only listing of the table on this host.
abbrev pub listing : Bytes
listing = lit "table ip egm_nat4 {\n}\n"

abbrev pub deletion : Bytes
deletion = lit "delete table ip egm_nat4\n"

-- Whether the table is there.
abbrev pub owned : Bool → Option Bytes
owned true = some listing
owned false = none

abbrev result : ℕ → Bytes → Option CommandResult
result code out = some (record { stdout = out; exit_code = code })

abbrev load : Bytes → Bool → Option CommandResult × Bool
load d h =
    if bytes_eq d deletion
    then (result 0 [], false)
    else if bytes_eq d listing
    then (result 0 [], true)
    else if bytes_eq d (deletion ++ listing)
    then (result 0 [], true)
    else (result 1 [], h)

abbrev pub host : Runner Bool
host c h = run_args c.args
  where
    run_args : List Bytes → Option CommandResult × Bool
    run_args (a ∷ b ∷ []) =
        if bytes_eq a (lit "--file")
        then load c.stdin h
        else (result 0 (if h then lit "table ip egm_nat4\n" else []), h)
    run_args (a ∷ b ∷ x ∷ []) = (result 0 [], h)
    run_args args = (if h then result 0 listing else result 1 [], h)

abbrev pub no_fault : ℕ → Bool
no_fault n = false

abbrev pub executor : Executor Bool Ledger
executor = record {
  runner = host;
  log = ledger no_fault;
  verify = λ plan h. (true, h);
  seal = λ h context text. some (record { nonce = 1 ∷ []; ciphertext = text });
  open_envelope = λ context envelope. some envelope.ciphertext;
  encode = λ envelope. envelope.nonce ++ envelope.ciphertext;
  decode = decoded;
  now = λ w. some (5 * 10 ^ 9);
}
  where
    decoded : Bytes → Option Envelope
    decoded (suc zero ∷ text) = some (record { nonce = 1 ∷ []; ciphertext = text })
    decoded _ = none

listing_named : owned_table_from_candidate listing ≡ some (family, table)
unfolding owned_table_from_candidate split_lines fields
listing_named = refl

one_listed : lists_table family table (lit "table ip egm_nat4\n") ≡ true
unfolding lists_table split_lines fields
one_listed = refl

none_listed : lists_table family table [] ≡ false
unfolding lists_table split_lines fields
none_listed = refl

restored_over : owned (load (rollback_candidate family table listing true) true).1 ≡ some listing
unfolding rollback_candidate ends_line
restored_over = refl

restored_anew : owned (load (rollback_candidate family table listing false) false).1 ≡ some listing
unfolding rollback_candidate ends_line
restored_anew = refl

pub nft : NftContract executor family table owned
nft = record {
  listed = λ s. bytes_eq s listing;
  listings = is_listing;
  listings_name = is_named;
  list_tables_keeps = λ h. refl;
  list_table_keeps = kept;
  check_keeps = λ d h. refl;
  load_atomic = λ d h n. load_fails d h n;
  list_tables_shows = λ h r k z. tables_shown h r k;
  list_table_shows = λ h r k z. table_shown h r k z;
  load_restores = λ o h l s. restored o h l s;
}
  where
    is_listing : (h : Bool) → IsListing (λ s. bytes_eq s listing) (owned h)
    is_listing true = (unfold ends_line in refl, refl)
    is_listing false = tt

    is_named :
        (h : Bool) (s : Bytes)
        → owned h ≡ some s
        → owned_table_from_candidate s ≡ some (family, table)
    is_named true s k =
        subst (λ s. owned_table_from_candidate s ≡ some (family, table)) (ground (arith, k))
          listing_named
    is_named false s k = absurd (ground arith)

    kept : (h : Bool) → owned (host (list_table family table) h).1 ≡ owned h
    kept true = refl
    kept false = refl

    load_fails : (d : Bytes) (h : Bool) → ¬ Succeeds (load d h).0 → owned (load d h).1 ≡ owned h
    load_fails d h n = ground arith

    tables_shown :
        (h : Bool) (r : CommandResult)
        → (host list_tables h).0 ≡ some r
        → lists_table family table r.stdout ≡ is_some (owned h)
    tables_shown true r k =
        subst (λ o. lists_table family table o ≡ true) (ground (arith, k)) one_listed
    tables_shown false r k =
        subst (λ o. lists_table family table o ≡ false) (ground (arith, k)) none_listed

    table_shown :
        (h : Bool) (r : CommandResult)
        → (host (list_table family table) h).0 ≡ some r
        → r.exit_code ≡ 0
        → owned h ≡ some r.stdout
    table_shown true r k z = ground arith
    table_shown false r k z = absurd (ground arith)

    restored :
        (o : Option Bytes) (h : Bool)
        → IsListing (λ s. bytes_eq s listing) o
        → let d = rollback_candidate family table (snapshot_text o) (is_some (owned h)) in
          Succeeds (load d h).0 → owned (load d h).1 ≡ o
    restored none true l s = unfold rollback_candidate in refl
    restored none false l s = unfold rollback_candidate in refl
    restored (some t) true l s =
        subst (λ t. owned (load (rollback_candidate family table t true) true).1 ≡ some t)
          (sym (bytes_eq→eq t listing l.1)) restored_over
    restored (some t) false l s =
        subst (λ t. owned (load (rollback_candidate family table t false) false).1 ≡ some t)
          (sym (bytes_eq→eq t listing l.1)) restored_anew

pub seal : SealContract executor
seal = record {
  opens = λ h context text envelope k.
      subst
        (λ v.
          (executor.decode (executor.encode v) ≡ some v)
          × (executor.open_envelope context v ≡ some text))
        (ground (arith, k)) (opened text);
}
  where
    opened :
        (text : Bytes)
        → (executor.decode (1 ∷ text) ≡ some (record { nonce = 1 ∷ []; ciphertext = text }))
          × (some text ≡ some text)
    opened text = (refl, refl)

abbrev pub plan : Plan
plan = record {
  engine = lit "nftables";
  owned_table = lit "ip egm_nat4";
  table_existed = false;
  targets = [];
  candidate = listing;
  state_hash = [];
}

abbrev pub row : Bytes → TransactionState → ℕ → ℕ → Row
row id state created updated = record {
  id = id;
  operation = lit "nat_apply";
  requested_change = lit "{}";
  previous_snapshot = lit "absent";
  candidate_config = listing;
  state = state;
  created_at = created;
  updated_at = updated;
  failure_detail = none;
}

abbrev pub entry_at : TransactionState → Transaction
entry_at state = record {
  id = lit "op1";
  operation = lit "nat_apply";
  state = state;
  requested_change = lit "{}";
  previous_snapshot = lit "absent";
  candidate_config = listing;
  failure_detail = [];
  created_at = some 5;
  updated_at = some 5;
}

abbrev pub empty_world : World Bool Ledger
empty_world = record {
  host = false;
  journal = record { store = record { rows = []; statements = 0 }; unique = tt };
}

-- The table is there, and the operation that made it is in the given state.
abbrev pub world_at : TransactionState → World Bool Ledger
world_at state = record {
  host = true;
  journal = record {
    store = record { rows = row (lit "op1") state 5 5 ∷ []; statements = 0 };
    unique = (tt, tt);
  };
}
