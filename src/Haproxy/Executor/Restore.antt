-- ===== src/Haproxy/Executor/Restore.antt =====
-- `restore` of executor.go: what it leaves of the configuration and of the journal.
use egress_manager.Base.{ℕ, ◌≡◌, refl, ◌∙◌, Bool, true, false, Option, none, some, Bytes, arith}
use egress_manager.Effect.{Result, ok, lift, bind_rule, ◌>>=◌}
use egress_manager.Effect.Leaves.{Leaves, Leaves->>=, Leaves->>, Leaves-finally}
use egress_manager.Journal.{World, journal_of}
use egress_manager.Journal.Outcome.{Restores, RestoreFailed}
use egress_manager.Haproxy.Executor.{
  Executor, Act, HaproxyError, Snapshot, check_config, file_call, run, parsed, write_temporary,
  install_temporary, remove_owned, read_pid, reload,
}
use egress_manager.Haproxy.Executor.Apply.{
  reinstall, put_file, put_back, terminate_old, take_away, restore_from, restore,
}
use egress_manager.Haproxy.Executor.Contract.{
  FilesContract, file, at_config, read_pid-Leaves, verify-Leaves,
}
use egress_manager.Haproxy.Executor.Files.{
  journal-Reads, file-Reads, shown_by, write_temporary-journal, install_temporary-journal,
  remove_owned-journal, write_temporary-ok, install_temporary-ok, remove_owned-ok,
}

module _ {H J : Type 0} (e : Executor H J) where
  reinstall-journal : (pid : Option ℕ) (f : Bytes) → Leaves journal_of (reinstall e pid f)
  unfolding reinstall run reload
  reinstall-journal pid f w =
      ground
        (arith, install_temporary-journal e f w1, verify-Leaves e journal_of (journal-Reads e) w3)
    where
      w1 : World H J
      w1 = (run e (check_config f) w).1

      w3 : World H J
      w3 = (reload e pid (install_temporary e f w1).1).1

  put_back-journal : (t : Bytes) (pid : Option ℕ) → Leaves (journal_of) (put_back e t pid)
  unfolding put_back
  put_back-journal t pid =
      Leaves->>= journal_of (write_temporary e t) (put_file e pid) (write_temporary-journal e t)
        (λ f w h.
          Leaves-finally journal_of (reinstall e pid f) (file_call e (e.os.remove f))
            (reinstall-journal pid f) (λ w. refl))

  take_away-journal : (pid : Option ℕ) → Leaves journal_of (take_away e pid)
  unfolding take_away run
  take_away-journal pid =
      Leaves->> journal_of (remove_owned e) (terminate_old e pid) (remove_owned-journal e)
        (ended pid)
    where
      ended : (pid : Option ℕ) → Leaves journal_of (terminate_old e pid)
      ended none w = refl
      ended (some pid) w = refl

  restore_from-journal : (s : Snapshot) (pid : Option ℕ) → Leaves journal_of (restore_from e s pid)
  restore_from-journal s pid w =
      ground (arith, put_back-journal s.content pid w, take_away-journal pid w)

  pub restore-journal : (s : Snapshot) → Leaves journal_of (restore e s)
  unfolding restore
  restore-journal s =
      Leaves->> journal_of (lift (parsed e s.content s.exists)) (read_pid e >>= restore_from e s)
        (λ w. refl)
        (Leaves->>= journal_of (read_pid e) (restore_from e s)
          (read_pid-Leaves e journal_of (journal-Reads e)) (λ pid w h. restore_from-journal s pid))

module _ {H J : Type 0} (e : Executor H J) (content : Bytes → H → Option Bytes)
    (files : FilesContract e content) where
  reinstall-ok :
      (pid : Option ℕ) (f t : Bytes) (w : World H J)
      → file e content f w ≡ some t
      → (reinstall e pid f w).0 ≡ ok tt
      → at_config e content (reinstall e pid f w).1 ≡ some t
  unfolding reinstall run reload
  reinstall-ok pid f t w k h =
      let w1 = (run e (check_config f) w).1 in
      let w2 = (install_temporary e f w1).1 in
      let w3 = (reload e pid w2).1 in
      ground (
        arith,
        h,
        k,
        files.check_keeps f f w.host,
        install_temporary-ok e content files f w1,
        files.reload_keeps pid w2.host,
        verify-Leaves e (at_config e content) (file-Reads e content files e.config_path) w3,
      )

  abbrev Restored : Option Bytes → Result HaproxyError (Unit {0}) → World H J → Type 0
  Restored o r w = r ≡ ok tt → at_config e content w ≡ o

  put_back-ok :
      (t : Bytes) (pid : Option ℕ) (w : World H J)
      → Restored (some t) (put_back e t pid w).0 (put_back e t pid w).1
  unfolding put_back
  put_back-ok t pid w =
      bind_rule (Restored (some t)) (write_temporary e t) (put_file e pid) w
        (λ x h k. absurd (ground (arith, k)))
        (λ f h k.
          let w1 = (write_temporary e t w).1 in
          let (other, written) = write_temporary-ok e content files t w f h in
          files.remove_other f (reinstall e pid f w1).1.host other
          ∙ reinstall-ok pid f t w1 written k)

  take_away-ok :
      (pid : Option ℕ) (w : World H J) → Restored none (take_away e pid w).0 (take_away e pid w).1
  unfolding take_away run
  take_away-ok pid w =
      bind_rule (Restored none) (remove_owned e) (λ _. terminate_old e pid) w
        (λ x h k. absurd (ground (arith, k)))
        (λ _ h k. ended pid (remove_owned e w).1 ∙ remove_owned-ok e content files w h)
    where
      ended : (pid : Option ℕ) → Leaves (at_config e content) (terminate_old e pid)
      ended none w = refl
      ended (some pid) w = files.terminate_keeps pid w.host

  restore_from-ok :
      (b : Bool) (t : Bytes) (pid : Option ℕ) (w : World H J)
      → let m : Act e (Unit {0}) = restore_from e (record { exists = b; content = t }) pid in
        Restored (shown_by b t) (m w).0 (m w).1
  restore_from-ok true t pid w = put_back-ok t pid w
  restore_from-ok false t pid w = take_away-ok pid w

  restore-ok :
      (s : Snapshot) (w : World H J)
      → Restored (shown_by s.exists s.content) (restore e s w).0 (restore e s w).1
  unfolding restore
  restore-ok s w =
      bind_rule (Restored (shown_by s.exists s.content)) (lift (parsed e s.content s.exists))
        (λ _. read_pid e >>= restore_from e s) w (λ x h k. absurd (ground (arith, k)))
        (λ _ h.
          bind_rule (Restored (shown_by s.exists s.content)) (read_pid e) (restore_from e s) w
            (λ x h k. absurd (ground (arith, k)))
            (λ pid h. restore_from-ok s.exists s.content pid (read_pid e w).1))

  -- `restore` touches no journal, and if it returns no error, the configuration is the snapshot's.
  pub restore-Restores :
      (s : Snapshot)
      → Restores e.log (λ h. content e.config_path h) (restore e s) (shown_by s.exists s.content)
  restore-Restores s = record { keeps = restore-journal e s; restores = restore-ok s }

  -- The configuration `v` is what a restoration of `o` that failed has left.
  pub record IsLost (o : Option Bytes) (id : Bytes) (v : Option Bytes) : Type 0 where
    pub snapshot : Snapshot
    pub holds : shown_by snapshot.exists snapshot.content ≡ o
    pub failure : RestoreFailed e.log (λ h. content e.config_path h) (restore e snapshot) id v

  pub RestoreFailed-IsLost :
      (s : Snapshot) (id : Bytes) (v : Option Bytes)
      → RestoreFailed e.log (λ h. content e.config_path h) (restore e s) id v
      → IsLost (shown_by s.exists s.content) id v
  RestoreFailed-IsLost s id v f = record { snapshot = s; holds = refl; failure = f }
