-- ===== src/Scenarios/Deploying.antt =====
-- A host with one configuration of HAProxy and one temporary file, on which a plan is applied,
-- recovered and rolled back.
use egress_manager.Base.{
  zero, suc, ◌*◌, ◌^◌, ◌≡◌, refl, true, false, ◌&&◌, Option, none, some, [], ◌∷◌, ◌++◌, Bytes, lit,
  bytes_eq, length, if◌then◌else◌, arith, inr,
}
use egress_manager.Effect.{ok}
use egress_manager.Secrets.{Envelope}
use egress_manager.System.Files.{Os, Stat, missing, found}
use egress_manager.Domain.Transaction.{Transaction, TransactionState, committed, verifying}
use egress_manager.Journal.{World, operation_state}
use egress_manager.Database.Ledger.{Ledger, ledger}
use egress_manager.Haproxy.Plan.{Plan}
use egress_manager.Haproxy.Parse.{parse_state, parse_lines}
use egress_manager.Base.{◌∙◌, split_lines, trim_space, fields}
use egress_manager.Database.{find_row}
use egress_manager.Database.Ledger.{ledger-state_of}
use egress_manager.Database.Rows.{state_in}
use egress_manager.Haproxy.Executor.Undone.{Undone, rollback_committed-Reverted}
use egress_manager.Haproxy.Executor.Recovered.{Recovered, recover_one-Resolved}
use egress_manager.Haproxy.Executor.{Executor, Snapshot, owned_line}
use egress_manager.Haproxy.Executor.Apply.{
  open_snapshot, protected_snapshot, execute, recover_one, rollback_committed,
}
use egress_manager.Haproxy.Executor.Contract.{FilesContract}
use egress_manager.Haproxy.Executor.Execute as Execute
use egress_manager.Scenarios.{no_fault, empty_world, entry_at, world_at}
use egress_manager.Scenarios.Planning.{text}

record Disk : Type 0 where
  config : Option Bytes
  temporary : Option Bytes

abbrev config_path : Bytes
config_path = lit "/etc/c"

abbrev temporary_path : Bytes
temporary_path = lit "/etc/t"

abbrev content : Bytes → Disk → Option Bytes
content p d =
    if bytes_eq p temporary_path
    then d.temporary
    else if bytes_eq p config_path
    then d.config
    else none

abbrev stat_of : Option Bytes → Stat
stat_of none = missing
stat_of (some t) = found (record { is_regular = true; size = length t })

abbrev os : Os Disk
os = record {
  dir = λ p. lit "/etc";
  clean = λ p. p;
  is_abs = λ p. true;
  lstat = λ p d. (stat_of (content p d), d);
  read_file = λ p d. (content p d, d);
  mkdir_all = λ p d. (true, d);
  create_temp = λ p t d. (some temporary_path, record d { temporary = some [] });
  on_file = λ c f d. (true, d);
  write = λ f t d.
      if bytes_eq f temporary_path then (true, record d { temporary = some t }) else (false, d);
  rename = λ f g d.
      if bytes_eq f temporary_path && bytes_eq g config_path
      then (true, record { config = d.temporary; temporary = none })
      else (false, d);
  sync_directory = λ p d. (true, d);
  remove = λ f d.
      if bytes_eq f temporary_path
      then (true, record d { temporary = none })
      else if bytes_eq f config_path
      then (true, record d { config = none })
      else (false, d);
}

abbrev executor : Executor Disk Ledger
executor = record {
  runner = λ c d. (some (record { stdout = []; exit_code = 0 }), d);
  log = ledger no_fault;
  os = os;
  runtime = λ d. (some 7, d);
  polls = λ d. 2;
  text = text;
  hash = λ t exists. lit "h";
  seal = λ d context t. some (record { nonce = 1 ∷ []; ciphertext = t });
  open_envelope = λ context envelope. some envelope.ciphertext;
  encode = λ envelope. envelope.nonce ++ envelope.ciphertext;
  decode = decoded;
  encode_snapshot = λ s. (if s.exists then 1 else 0) ∷ s.content;
  decode_snapshot = decoded_snapshot;
  config_path = config_path;
  pid_path = lit "/etc/p";
  now = λ w. some (5 * 10 ^ 9);
}
  where
    decoded : Bytes → Option Envelope
    decoded (suc zero ∷ t) = some (record { nonce = 1 ∷ []; ciphertext = t })
    decoded _ = none

    decoded_snapshot : Bytes → Option Snapshot
    decoded_snapshot (zero ∷ t) = some (record { exists = false; content = t })
    decoded_snapshot (suc n ∷ t) = some (record { exists = true; content = t })
    decoded_snapshot [] = none

files : FilesContract executor content
files = record {
  lstat_keeps = λ q p d. refl;
  read_keeps = λ q p d. refl;
  on_file_keeps = λ c f p d. refl;
  runtime_keeps = λ p d. refl;
  check_keeps = λ f p d. refl;
  mkdir_keeps = λ p d. refl;
  create_keeps = λ p t d. refl;
  created_other = λ p t f d h k. ground (arith, h, k);
  write_keeps = λ f t d h. ground arith;
  write_done = λ f t d h. ground (arith, h);
  rename_done = λ f d h. ground (arith, h);
  sync_keeps = λ p d. refl;
  remove_other = λ f d h. ground (arith);
  remove_done = λ d h. refl;
  lstat_missing = λ d h. ground (arith, h);
  read_shows = λ t d h. h;
  reload_keeps = λ old d. refl;
  terminate_keeps = λ pid d. refl;
}

abbrev old_config : Bytes
old_config = owned_line ++ lit "global\n"

abbrev new_config : Bytes
new_config = owned_line ++ lit "defaults\n"

abbrev plan : Plan
plan = record {
  engine = lit "haproxy";
  state_hash = lit "h";
  enabled_frontends = 0;
  enabled_backends = 0;
  replaces = true;
  candidate = new_config;
}

abbrev disk : Bytes → Disk
disk c = record { config = some c; temporary = none }

abbrev fresh : World Disk Ledger
fresh = record { host = disk old_config; journal = empty_world.journal }

-- The new configuration is in place, and the operation that put it there is in the given state.
abbrev deployed : TransactionState → World Disk Ledger
deployed s = record { host = disk new_config; journal = (world_at s).journal }

abbrev operation : TransactionState → Transaction
operation s = record (entry_at s) {
  operation = lit "haproxy_apply";
  previous_snapshot = 1 ∷ 1 ∷ old_config;
  candidate_config = 1 ∷ new_config;
}

abbrev snapshot : Snapshot
snapshot = record { exists = true; content = old_config }

stored : (s : TransactionState) → state_in (lit "op1") (deployed s).journal.store.rows ≡ some s
unfolding find_row
stored s = refl

in_state : (s : TransactionState) → operation_state executor.log (lit "op1") (deployed s) ≡ some s
in_state s = ledger-state_of no_fault (lit "op1") (deployed s).journal ∙ stored s

opened : (s : TransactionState) → open_snapshot executor (operation s) ≡ ok snapshot
unfolding open_snapshot parse_state parse_lines owned_line split_lines trim_space fields
opened s = refl

eligible :
    protected_snapshot executor
      (operation committed)
      (executor.decode (operation committed).previous_snapshot)
    ≡ ok snapshot
unfolding parse_state parse_lines owned_line split_lines trim_space fields
eligible = refl

execute-Ends_example :
    let m = execute executor (lit "op1") (lit "{}") plan in
    Execute.Ends executor content files
      (lit "op1")
      (lit "{}")
      plan
      (some old_config)
      (operation_state executor.log (lit "op1") fresh)
      (m fresh).0
      (m fresh).1
execute-Ends_example = Execute.execute-Ends executor content files (lit "op1") (lit "{}") plan fresh

recover_one-Resolved_example :
    let m = recover_one executor (operation verifying) in
    Recovered executor content files verifying snapshot
      (some new_config)
      (lit "op1")
      (m (deployed verifying)).0
      (m (deployed verifying)).1
recover_one-Resolved_example =
    recover_one-Resolved executor content files (operation verifying) snapshot (deployed verifying)
      refl (opened verifying) (inr tt) (in_state verifying)

rollback_committed-Reverted_example :
    let m = rollback_committed executor (operation committed) in
    Undone executor content files
      (some new_config)
      (some old_config)
      (lit "op1")
      (m (deployed committed)).0
      (m (deployed committed)).1
rollback_committed-Reverted_example =
    rollback_committed-Reverted executor content files (operation committed) snapshot
      (deployed committed) eligible (in_state committed)
