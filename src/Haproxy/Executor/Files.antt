-- ===== src/Haproxy/Executor/Files.antt =====
-- The executor's actions on files: what they leave, and what they show and do where they succeed.
use egress_manager.Base.{
  ◌≡◌, ◌≢◌, refl, sym, ◌∙◌, subst, Bool, true, false, Option, none, some, [], Bytes, lit, arith,
  if◌then◌else◌,
}
use egress_manager.Effect.{Result, ok, bind_rule, ◌>>=◌}
use egress_manager.Effect.Leaves.{Leaves, Leaves->>=, Leaves->>}
use egress_manager.Journal.{World, journal_of}
use egress_manager.System.Files.{Stat, missing, stat_failed, found, chmod, sync, close}
use egress_manager.Haproxy.Parse.{State, parse_state}
use egress_manager.Haproxy.Executor.{
  Executor, HaproxyError, inspect_found, inspect_config, fill_file, file_call, new_file, fill_new,
  write_temporary, install_temporary, remove_shown, remove_owned, parsed,
}
use egress_manager.Haproxy.Executor.Contract.{
  FilesContract, Reads, file, at_config, inspect_config-Leaves,
}

-- What a snapshot stands for.
abbrev pub shown_by : Bool → Bytes → Option Bytes
shown_by exists content = if exists then some content else none

module _ {H J : Type 0} (e : Executor H J) where
  pub journal-Reads : Reads e journal_of
  journal-Reads = record {
    lstat_leaves = λ q w. refl;
    read_leaves = λ q w. refl;
    runtime_leaves = λ w. refl;
  }

  fill_file-journal : (f t : Bytes) → Leaves journal_of (fill_file e f t)
  unfolding fill_file
  fill_file-journal f t w = ground arith

  fill_new-journal : (t f : Bytes) → Leaves journal_of (fill_new e t f)
  unfolding fill_new
  fill_new-journal t f w = ground (arith, fill_file-journal f t w)

  pub write_temporary-journal : (t : Bytes) → Leaves journal_of (write_temporary e t)
  unfolding write_temporary
  write_temporary-journal t =
      Leaves->> journal_of (file_call e (e.os.mkdir_all (e.os.dir e.config_path)))
        (new_file e >>= fill_new e t) (λ w. refl)
        (Leaves->>= journal_of (new_file e) (fill_new e t) (λ w. refl)
          (λ f w h. fill_new-journal t f))

  pub install_temporary-journal : (f : Bytes) → Leaves journal_of (install_temporary e f)
  unfolding install_temporary
  install_temporary-journal f w = ground arith

  pub remove_owned-journal : Leaves journal_of (remove_owned e)
  unfolding remove_owned
  remove_owned-journal w = ground (arith, inspect_config-Leaves e journal_of journal-Reads w)

  parsed-exists : (text : Bytes) (b : Bool) (s : State) → parsed e text b ≡ ok s → s.exists ≡ b
  unfolding parse_state
  parsed-exists text true s h = ground (arith, h)
  parsed-exists text false s h = ground (arith, h)

module _ {H J : Type 0} (e : Executor H J) (content : Bytes → H → Option Bytes)
    (files : FilesContract e content) where
  pub file-Reads : (p : Bytes) → Reads e (file e content p)
  file-Reads p = record {
    lstat_leaves = λ q w. files.lstat_keeps q p w.host;
    read_leaves = λ q w. files.read_keeps q p w.host;
    runtime_leaves = λ w. files.runtime_keeps p w.host;
  }

  -- An inspection that succeeds shows the configuration.
  inspect_found-shows :
      (s : Stat) (w : World H J) (text : Bytes) (state : State)
      → (s ≡ missing → (at_config e content) w ≡ none)
      → (inspect_found e s w).0 ≡ ok (text, state)
      → (at_config e content) w ≡ shown_by state.exists text
  unfolding inspect_found
  inspect_found-shows missing w text state gone h =
      let absent : state.exists ≡ false = parsed-exists e [] false state (ground (arith, h)) in
      rw absent (gone refl)
  inspect_found-shows stat_failed w text state gone h = absurd (ground arith)
  inspect_found-shows (found info) w text state gone h =
      let there : state.exists ≡ true = parsed-exists e text true state (ground (arith, h)) in
      let seen : (e.os.read_file e.config_path w.host).0 ≡ some text = ground (arith, h) in
      rw there (files.read_shows text w.host seen)

  pub inspect_config-shows :
      (w : World H J) (text : Bytes) (state : State)
      → (inspect_config e w).0 ≡ ok (text, state)
      → (at_config e content) w ≡ shown_by state.exists text
  unfolding inspect_config
  inspect_config-shows w text state h =
      let after : World H J = record w { host = (e.os.lstat e.config_path w.host).1 } in
      let kept = files.lstat_keeps e.config_path e.config_path w.host in
      sym kept
      ∙ inspect_found-shows (e.os.lstat e.config_path w.host).0 after text state
          (λ k. kept ∙ files.lstat_missing w.host k) h

  fill_file-config :
      (f t : Bytes) → f ≢ e.config_path → Leaves (at_config e content) (fill_file e f t)
  unfolding fill_file
  fill_file-config f t other w =
      let h1 = (e.os.on_file chmod f w.host).1 in
      let h2 = (e.os.write f t h1).1 in
      let h3 = (e.os.on_file sync f h2).1 in
      let p = e.config_path in
      ground (
        arith,
        files.on_file_keeps chmod f p w.host,
        files.on_file_keeps close f p h1,
        files.write_keeps f t h1 other,
        files.on_file_keeps close f p h2,
        files.on_file_keeps sync f p h2,
        files.on_file_keeps close f p h3,
      )

  fill_file-ok :
      (f t : Bytes) (w : World H J)
      → (fill_file e f t w).0 ≡ ok tt
      → file e content f (fill_file e f t w).1 ≡ some t
  unfolding fill_file
  fill_file-ok f t w h =
      let h1 = (e.os.on_file chmod f w.host).1 in
      let h2 = (e.os.write f t h1).1 in
      let h3 = (e.os.on_file sync f h2).1 in
      ground (
        arith,
        h,
        files.write_done f t h1,
        files.on_file_keeps sync f f h2,
        files.on_file_keeps close f f h3,
      )

  fill_new-config :
      (t f : Bytes) → f ≢ e.config_path → Leaves (at_config e content) (fill_new e t f)
  unfolding fill_new
  fill_new-config t f other w =
      ground
        (arith, fill_file-config f t other w, files.remove_other f (fill_file e f t w).1.host other)

  fill_new-ok :
      (t f g : Bytes) (w : World H J)
      → (fill_new e t f w).0 ≡ ok g
      → (g ≡ f) × (file e content f (fill_new e t f w).1 ≡ some t)
  unfolding fill_new
  fill_new-ok t f g w h = ground (arith, h, fill_file-ok f t w)

  new_file-other : (f : Bytes) (w : World H J) → (new_file e w).0 ≡ ok f → f ≢ e.config_path
  new_file-other f w h =
      files.created_other (e.os.dir e.config_path) (lit ".egress-haproxy-*.cfg") f w.host
        (ground (arith, h))

  pub write_temporary-config : (t : Bytes) → Leaves (at_config e content) (write_temporary e t)
  unfolding write_temporary
  write_temporary-config t =
      Leaves->> (at_config e content) (file_call e (e.os.mkdir_all (e.os.dir e.config_path)))
        (new_file e >>= fill_new e t) (λ w. files.mkdir_keeps (e.os.dir e.config_path) w.host)
        (Leaves->>= (at_config e content) (new_file e) (fill_new e t)
          (λ w. files.create_keeps (e.os.dir e.config_path) (lit ".egress-haproxy-*.cfg") w.host)
          (λ f w h. fill_new-config t f (new_file-other f w h)))

  -- A file that was written has the text, and is not the configuration.
  abbrev Written : Bytes → Result HaproxyError Bytes → World H J → Type 0
  Written t r w = (f : Bytes) → r ≡ ok f → (f ≢ e.config_path) × (file e content f w ≡ some t)

  pub write_temporary-ok :
      (t : Bytes) (w : World H J) → Written t (write_temporary e t w).0 (write_temporary e t w).1
  unfolding write_temporary
  write_temporary-ok t w =
      bind_rule (Written t) (file_call e (e.os.mkdir_all (e.os.dir e.config_path)))
        (λ _. new_file e >>= fill_new e t) w (λ x h f k. absurd (ground (arith, k)))
        (λ _ h. created (file_call e (e.os.mkdir_all (e.os.dir e.config_path)) w).1)
    where
      created :
          (w : World H J)
          → Written t ((new_file e >>= fill_new e t) w).0 ((new_file e >>= fill_new e t) w).1
      created w =
          bind_rule (Written t) (new_file e) (fill_new e t) w
            (λ x h f k. absurd (ground (arith, k)))
            (λ f h g k.
              let (same, written) = fill_new-ok t f g (new_file e w).1 k in
              subst
                (λ g.
                  (g ≢ e.config_path)
                  × (file e content g (fill_new e t f (new_file e w).1).1 ≡ some t))
                (sym same) (new_file-other f w h, written))

  pub install_temporary-ok :
      (f : Bytes) (w : World H J)
      → (install_temporary e f w).0 ≡ ok tt
      → (at_config e content) (install_temporary e f w).1 ≡ file e content f w
  unfolding install_temporary
  install_temporary-ok f w h =
      let h1 = (e.os.rename f e.config_path w.host).1 in
      ground (arith, h, files.rename_done f w.host, files.sync_keeps (e.os.dir e.config_path) h1)

  pub remove_owned-ok :
      (w : World H J)
      → (remove_owned e w).0 ≡ ok tt
      → (at_config e content) (remove_owned e w).1 ≡ none
  unfolding remove_owned
  remove_owned-ok w =
      bind_rule (λ r w'. r ≡ ok tt → (at_config e content) w' ≡ none) (inspect_config e)
        (remove_shown e) w (λ x h k. absurd (ground (arith, k)))
        (λ shown h. removed shown.0 shown.1 h)
    where
      after : World H J
      after = (inspect_config e w).1

      kept : (at_config e content) after ≡ (at_config e content) w
      kept = inspect_config-Leaves e (at_config e content) (file-Reads e.config_path) w

      removed :
          (text : Bytes) (state : State)
          → (inspect_config e w).0 ≡ ok (text, state)
          → (remove_shown e (text, state) after).0 ≡ ok tt
          → (at_config e content) (remove_shown e (text, state) after).1 ≡ none
      removed text state h k =
          ground (arith, kept, k, inspect_config-shows w text state h, files.remove_done after.host)
