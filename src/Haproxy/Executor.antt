-- ===== src/Haproxy/Executor.antt =====
-- executor.go and rollback.go of internal/haproxy: the dependencies of the executor, its files and
-- its commands. The dependencies are present (the tests for nil are left out), and a context's time
-- limit is one of the ways in which a call fails. A temporary file is removed at the end.
pub mod Apply
pub mod Contract
pub mod Files
pub mod Restore
pub mod Outcome
pub mod Early
pub mod Execute
pub mod Undone
pub mod Recovered
use egress_manager.Base.{
  ℕ, zero, suc, ◌+◌, ◌^◌, Bool, true, false, ◌&&◌, ◌||◌, not, Option, none, some, List, [], ◌∷◌,
  ◌++◌, ltb, ◌==◌, if◌then◌else◌, Bytes, lit, bytes_eq, has_prefix, all, length, trim_space,
}
use egress_manager.Effect.{
  Result, ok, err, Step, pure, raise, lift, on_error, ignoring, finally, require, ◌>>=◌, ◌>>◌,
}
use egress_manager.System.{Command, CommandResult, Runner}
use egress_manager.System.Files.{
  Os, Stat, missing, stat_failed, found, FileInfo, FileCall, chmod, sync, close,
}
use egress_manager.Secrets.{Envelope}
use egress_manager.Inventory.{AddrText}
use egress_manager.Journal.{Journal, World}
use egress_manager.Journal.Protocol.{call}
use egress_manager.Domain.Identifier.{is_digit}
use egress_manager.Haproxy.Text.{number, maximum_candidate, has_byte}
use egress_manager.Haproxy.Parse.{State, ParseError, parse_state, value_of}

pub data HaproxyError : Type 0 where
  bad_paths invalid_plan no_requested_change file_failed foreign_config : HaproxyError
  bad_state state_changed protect_failed journal_failed command_failed : HaproxyError
  bad_pid not_verified open_failed bad_snapshot not_eligible : HaproxyError
  both : HaproxyError → HaproxyError → HaproxyError

-- `recoverySnapshot`
pub record Snapshot : Type 0 where
  pub exists : Bool
  pub content : Bytes

-- `Executor`, with the codecs of JSON; `decode` returns the envelopes with a nonce and a cipher text.
-- Of the Runtime API's snapshot only the process's number is used, and `polls` says how often more
-- the deadline and the context let it be asked for.
pub record Executor (H J : Type 0) : Type 0 where
  pub runner : Runner H
  pub log : Journal J
  pub os : Os H
  pub runtime : H → Option ℕ × H
  pub polls : H → ℕ
  pub text : AddrText
  pub hash : Bytes → Bool → Bytes
  pub seal : H → Bytes → Bytes → Option Envelope
  pub open_envelope : Bytes → Envelope → Option Bytes
  pub encode : Envelope → Bytes
  pub decode : Bytes → Option Envelope
  pub encode_snapshot : Snapshot → Bytes
  pub decode_snapshot : Bytes → Option Snapshot
  pub config_path : Bytes
  pub pid_path : Bytes
  pub now : World H J → Option ℕ

unfoldable pub owned_line : Bytes
owned_line = lit "# Egress Manager owned HAProxy configuration\n"

-- `haproxyJournalContext`
abbrev pub journal_context : Bytes → Bytes → Bytes
journal_context id purpose = lit "haproxy/" ++ (id ++ (lit "/" ++ (purpose ++ lit "/v1")))

abbrev pub check_of : Bool → HaproxyError → Result HaproxyError (Unit {0})
check_of b e = if b then ok tt else err e

abbrev pub value_or : {A : Type 0} → HaproxyError → Option A → Result HaproxyError A
value_or e none = err e
value_or e (some a) = ok a

-- A command that ran and left with code 0.
abbrev pub exit_of : Option CommandResult → Result HaproxyError (Unit {0})
exit_of none = err command_failed
exit_of (some r) = check_of (r.exit_code == 0) command_failed

-- `strconv.ParseUint(text, 10, 31)`, and the test for 0
unfoldable pub parse_pid : Bytes → Option ℕ
parse_pid text =
    if length text == 0
      || not (all is_digit text)
      || not (ltb (value_of 0 text) (2 ^ 31))
      || value_of 0 text == 0
    then none
    else some (value_of 0 text)

abbrev pub is_running : Option ℕ → Bool
is_running none = false
is_running (some pid) = ltb 0 pid

abbrev pub size_between : FileInfo → ℕ → Bool
size_between info limit = info.is_regular && not (ltb info.size 1) && not (ltb limit info.size)

abbrev pub parse_failed : {A : Type 0} → Result ParseError A → Result HaproxyError A
parse_failed (ok a) = ok a
parse_failed (err e) = err bad_state

abbrev pub command_of : Bytes → List Bytes → Command
command_of name args = record { name = name; args = args; stdin = [] }

abbrev pub check_config : Bytes → Command
check_config path = command_of (lit "haproxy") (lit "-c" ∷ lit "-f" ∷ path ∷ [])

abbrev pub terminate : ℕ → Command
terminate pid = command_of (lit "kill") (lit "--signal" ∷ lit "TERM" ∷ lit "--" ∷ number pid ∷ [])

abbrev pub old_process : Option ℕ → List Bytes
old_process none = []
old_process (some pid) = lit "-sf" ∷ number pid ∷ []

module _ {H J : Type 0} (e : Executor H J) where
  abbrev pub Act : Type 0 → Type 0
  Act A = Step (World H J) HaproxyError A

  abbrev pub reload_command : Option ℕ → Command
  reload_command old = command_of (lit "haproxy") (
      (lit "-D" ∷ lit "-W" ∷ lit "-f" ∷ e.config_path ∷ lit "-p" ∷ e.pid_path ∷ [])
      ++ old_process old)

  -- `validate`
  abbrev pub paths_valid : Bool
  paths_valid =
      e.os.is_abs e.config_path
      && e.os.is_abs e.pid_path
      && not (bytes_eq (e.os.clean e.config_path) (e.os.clean e.pid_path))

  -- A call of the file system that only fails or succeeds.
  abbrev pub file_call : (H → Bool × H) → Act (Unit {0})
  file_call f = call f (λ b. check_of b file_failed)

  unfoldable pub run : Command → Act (Unit {0})
  run command = call (e.runner command) exit_of

  abbrev pub parsed : Bytes → Bool → Result HaproxyError State
  parsed content exists = parse_failed (parse_state e.text e.hash content exists)

  abbrev pub with_content : Bytes → Result HaproxyError State → Result HaproxyError (Bytes × State)
  with_content content (ok s) = ok (content, s)
  with_content content (err x) = err x

  -- `inspectConfig` behind `Lstat`
  unfoldable pub inspect_found : Stat → Act (Bytes × State)
  inspect_found missing = lift (with_content [] (parsed [] false))
  inspect_found stat_failed = raise file_failed
  inspect_found (found info) = do
    require (size_between info maximum_candidate) foreign_config
    content ← call (e.os.read_file e.config_path) (value_or file_failed)
    require (has_prefix content owned_line) foreign_config
    lift (with_content content (parsed content true))

  unfoldable pub inspect_config : Act (Bytes × State)
  inspect_config = call (e.os.lstat e.config_path) ok >>= inspect_found

  -- A failed call on the open file closes it.
  abbrev pub or_close : Bytes → Act (Unit {0}) → Act (Unit {0})
  or_close file m = on_error m (λ x. ignoring (file_call (e.os.on_file close file)) >> raise x)

  unfoldable pub fill_file : Bytes → Bytes → Act (Unit {0})
  fill_file file content = do
    or_close file (file_call (e.os.on_file chmod file))
    or_close file (file_call (e.os.write file content))
    or_close file (file_call (e.os.on_file sync file))
    file_call (e.os.on_file close file)

  abbrev pub new_file : Act Bytes
  new_file =
      call (e.os.create_temp (e.os.dir e.config_path) (lit ".egress-haproxy-*.cfg"))
        (value_or file_failed)

  -- `writeTemporaryConfig` behind the creation of the file, which is removed if a later call fails.
  unfoldable pub fill_new : Bytes → Bytes → Act Bytes
  fill_new content file = do
    on_error (fill_file file content) (λ x. ignoring (file_call (e.os.remove file)) >> raise x)
    pure file

  -- `writeTemporaryConfig`: the path of the new file.
  unfoldable pub write_temporary : Bytes → Act Bytes
  write_temporary content = do
    file_call (e.os.mkdir_all (e.os.dir e.config_path))
    file ← new_file
    fill_new content file

  -- `installTemporaryConfig`
  unfoldable pub install_temporary : Bytes → Act (Unit {0})
  install_temporary file = do
    require (bytes_eq (e.os.dir file) (e.os.dir e.config_path)) file_failed
    file_call (e.os.rename file e.config_path)
    file_call (e.os.sync_directory (e.os.dir e.config_path))

  -- `removeOwnedConfig` behind the inspection
  abbrev pub remove_shown : Bytes × State → Act (Unit {0})
  remove_shown (content, state) =
      if state.exists then file_call (e.os.remove e.config_path) else pure tt

  unfoldable pub remove_owned : Act (Unit {0})
  remove_owned = inspect_config >>= remove_shown

  abbrev pub some_pid : Option ℕ → Result HaproxyError (Option ℕ)
  some_pid none = err bad_pid
  some_pid (some pid) = ok (some pid)

  -- `readPID` behind `Lstat`
  unfoldable pub read_pid_found : Stat → Act (Option ℕ)
  read_pid_found missing = pure none
  read_pid_found stat_failed = raise file_failed
  read_pid_found (found info) = do
    require (size_between info 32) bad_pid
    content ← call (e.os.read_file e.pid_path) (value_or file_failed)
    lift (some_pid (parse_pid (trim_space content)))

  unfoldable pub read_pid : Act (Option ℕ)
  read_pid = call (e.os.lstat e.pid_path) ok >>= read_pid_found

  abbrev pub ask_runtime : Act (Unit {0})
  ask_runtime = call e.runtime (λ p. check_of (is_running p) not_verified)

  -- The loop of `verify`
  unfoldable pub poll : ℕ → Act (Unit {0})
  poll zero = ask_runtime
  poll (suc n) = on_error ask_runtime (λ x. poll n)

  unfoldable pub verify : Act (Unit {0})
  verify w = poll (e.polls w.host) w

  unfoldable pub reload : Option ℕ → Act (Unit {0})
  reload old = run (reload_command old)
