-- ===== src/Haproxy/Executor/Contract.antt =====
-- What the executor relies on: the documented behaviour of the file system and of the commands; and
-- what its own actions on files leave as it is.
use egress_manager.Base.{ℕ, zero, suc, ◌≡◌, ◌≢◌, refl, ◌∙◌, true, Option, none, some, Bytes, arith}
use egress_manager.Effect.Leaves.{Leaves, Leaves-on_error}
use egress_manager.Journal.{World}
use egress_manager.System.Files.{Stat, missing, stat_failed, found, FileCall}
use egress_manager.Haproxy.Executor.{
  Executor, check_config, terminate, reload_command, inspect_found, inspect_config, read_pid_found,
  read_pid, ask_runtime, poll, verify,
}

module _ {H J : Type 0} (e : Executor H J) (content : Bytes → H → Option Bytes) where
  -- `content p` is the content of the file at `p`, `none` if there is none. Nobody else writes these
  -- files meanwhile. Reading, checking a configuration and asking the Runtime API change no file; a
  -- new temporary file is not the configuration; a rename or a removal is done as a whole or not at
  -- all; and reloading and ending the instance leave the configuration.
  pub record FilesContract : Type 0 where
    pub lstat_keeps : (q p : Bytes) (h : H) → content p (e.os.lstat q h).1 ≡ content p h
    pub read_keeps : (q p : Bytes) (h : H) → content p (e.os.read_file q h).1 ≡ content p h
    pub on_file_keeps :
        (c : FileCall) (f p : Bytes) (h : H) → content p (e.os.on_file c f h).1 ≡ content p h
    pub runtime_keeps : (p : Bytes) (h : H) → content p (e.runtime h).1 ≡ content p h
    pub check_keeps :
        (f p : Bytes) (h : H) → content p (e.runner (check_config f) h).1 ≡ content p h
    pub mkdir_keeps :
        (d : Bytes) (h : H) → content e.config_path (e.os.mkdir_all d h).1 ≡ content e.config_path h
    pub create_keeps :
        (d t : Bytes) (h : H)
        → content e.config_path (e.os.create_temp d t h).1 ≡ content e.config_path h
    pub created_other :
        (d t f : Bytes) (h : H) → (e.os.create_temp d t h).0 ≡ some f → f ≢ e.config_path
    pub write_keeps :
        (f t : Bytes) (h : H)
        → f ≢ e.config_path
        → content e.config_path (e.os.write f t h).1 ≡ content e.config_path h
    pub write_done :
        (f t : Bytes) (h : H)
        → (e.os.write f t h).0 ≡ true
        → content f (e.os.write f t h).1 ≡ some t
    pub rename_done :
        (f : Bytes) (h : H)
        → (e.os.rename f e.config_path h).0 ≡ true
        → content e.config_path (e.os.rename f e.config_path h).1 ≡ content f h
    pub sync_keeps :
        (d : Bytes) (h : H)
        → content e.config_path (e.os.sync_directory d h).1 ≡ content e.config_path h
    pub remove_other :
        (f : Bytes) (h : H)
        → f ≢ e.config_path
        → content e.config_path (e.os.remove f h).1 ≡ content e.config_path h
    pub remove_done :
        (h : H)
        → (e.os.remove e.config_path h).0 ≡ true
        → content e.config_path (e.os.remove e.config_path h).1 ≡ none
    pub lstat_missing :
        (h : H) → (e.os.lstat e.config_path h).0 ≡ missing → content e.config_path h ≡ none
    pub read_shows :
        (t : Bytes) (h : H)
        → (e.os.read_file e.config_path h).0 ≡ some t
        → content e.config_path h ≡ some t
    pub reload_keeps :
        (old : Option ℕ) (h : H)
        → content e.config_path (e.runner (reload_command e old) h).1 ≡ content e.config_path h
    pub terminate_keeps :
        (pid : ℕ) (h : H)
        → content e.config_path (e.runner (terminate pid) h).1 ≡ content e.config_path h

  -- The file at a path, of a world
  abbrev pub file : Bytes → World H J → Option Bytes
  file p w = content p w.host

  abbrev pub at_config : World H J → Option Bytes
  at_config w = content e.config_path w.host

-- What every action on files leaves of a part `f` of the world, if the calls that it makes do.
module _ {H J V : Type 0} (e : Executor H J) (f : World H J → V) where
  -- The calls that read
  pub record Reads : Type 0 where
    pub lstat_leaves :
        (q : Bytes) (w : World H J) → f (record w { host = (e.os.lstat q w.host).1 }) ≡ f w
    pub read_leaves :
        (q : Bytes) (w : World H J) → f (record w { host = (e.os.read_file q w.host).1 }) ≡ f w
    pub runtime_leaves : (w : World H J) → f (record w { host = (e.runtime w.host).1 }) ≡ f w

  module _ (reads : Reads) where
    inspect_found-Leaves : (s : Stat) → Leaves f (inspect_found e s)
    unfolding inspect_found
    inspect_found-Leaves missing w = refl
    inspect_found-Leaves stat_failed w = refl
    inspect_found-Leaves (found info) w = ground (arith, reads.read_leaves e.config_path w)

    pub inspect_config-Leaves : Leaves f (inspect_config e)
    unfolding inspect_config
    inspect_config-Leaves w =
        inspect_found-Leaves (e.os.lstat e.config_path w.host).0 _
        ∙ reads.lstat_leaves e.config_path w

    read_pid_found-Leaves : (s : Stat) → Leaves f (read_pid_found e s)
    unfolding read_pid_found
    read_pid_found-Leaves missing w = refl
    read_pid_found-Leaves stat_failed w = refl
    read_pid_found-Leaves (found info) w = ground (arith, reads.read_leaves e.pid_path w)

    pub read_pid-Leaves : Leaves f (read_pid e)
    unfolding read_pid
    read_pid-Leaves w =
        read_pid_found-Leaves (e.os.lstat e.pid_path w.host).0 _ ∙ reads.lstat_leaves e.pid_path w

    poll-Leaves : (n : ℕ) → Leaves f (poll e n)
    unfolding poll
    poll-Leaves zero w = reads.runtime_leaves w
    poll-Leaves (suc n) w =
        Leaves-on_error f (ask_runtime e) (λ x. poll e n) reads.runtime_leaves (λ x. poll-Leaves n)
          w

    pub verify-Leaves : Leaves f (verify e)
    unfolding verify
    verify-Leaves w = poll-Leaves (e.polls w.host) w
