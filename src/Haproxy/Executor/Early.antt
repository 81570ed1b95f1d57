-- ===== src/Haproxy/Executor/Early.antt =====
-- `Execute` of executor.go behind the entry of the journal, up to the state APPLYING.
use egress_manager.Base.{ℕ, ◌≡◌, refl, ◌∙◌, ap, Option, some, [], Bytes, lit}
use egress_manager.Effect.{Result, ok, bind_rule, finally, ◌>>=◌, ◌>>◌}
use egress_manager.Effect.Leaves.{Leaves}
use egress_manager.Domain.Transaction.{TransactionState, prepared, validated, applying}
use egress_manager.Journal.{World, journal_of}
use egress_manager.Journal.Outcome.{stopped, IsEarly, keeps_state}
use egress_manager.Journal.Guard as Guard
use egress_manager.Haproxy.Executor.{
  Executor, Act, HaproxyError, journal_failed, both, Snapshot, check_config, file_call, run,
  write_temporary, read_pid,
}
use egress_manager.Haproxy.Executor.Apply.{
  transition, or_fail, commit_operation, apply_file, apply_operation,
}
use egress_manager.Haproxy.Executor.Contract.{FilesContract, file, at_config, read_pid-Leaves}
use egress_manager.Haproxy.Executor.Files.{
  journal-Reads, file-Reads, shown_by, write_temporary-journal, write_temporary-config,
  write_temporary-ok,
}
use egress_manager.Haproxy.Executor.Restore.{IsLost}
use egress_manager.Haproxy.Executor.Outcome.{
  Ends, At, moved, unmoved, host_kept, commit_operation-Ends,
}

module _ {H J : Type 0} (e : Executor H J) (content : Bytes → H → Option Bytes)
    (files : FilesContract e content) (id : Bytes) (previous : Snapshot) (candidate : Bytes)
    (before : Option TransactionState) where
  abbrev EndsHere : Result HaproxyError (Unit {0}) → World H J → Type 0
  EndsHere r w = Ends e content files id previous candidate before r w

  abbrev LostHere : Option Bytes → Type 0
  LostHere = IsLost e content files (shown_by previous.exists previous.content) id

  abbrev AtHere : TransactionState → World H J → Type 0
  AtHere s w = At e content files id previous candidate before s w

  -- The configuration is untouched, and the file holds the candidate.
  record Ready (f : Bytes) (w : World H J) : Type 0 where
    untouched : at_config e content w ≡ shown_by previous.exists previous.content
    written : file e content f w ≡ some candidate

  Ready-host : (f : Bytes) (w w' : World H J) → w'.host ≡ w.host → Ready f w → Ready f w'
  Ready-host f w w' h r = record {
    untouched = ap (content e.config_path) h ∙ r.untouched;
    written = ap (content f) h ∙ r.written;
  }

  -- A step before the host is touched.
  early :
      (A : Type 0) (m : Act e A) (rest : A → Act e (Unit {0})) (from : TransactionState)
      (detail : Bytes) (w : World H J)
      → IsEarly from
      → Leaves journal_of m
      → at_config e content (m w).1 ≡ shown_by previous.exists previous.content
      → AtHere from w
      → ((a : A) → (m w).0 ≡ ok a → EndsHere (rest a (m w).1).0 (rest a (m w).1).1)
      → let n = or_fail e id from detail m >>= rest in EndsHere (n w).0 (n w).1
  early A m rest from detail w i l c s good =
      Guard.guarded_early e.log (λ h. content e.config_path h) e.now journal_failed both id
        (λ o. o ≡ some candidate) LostHere (shown_by previous.exists previous.content) before A m
        rest from detail w i (λ x h. (keeps_state e.log id w (m w).1 (some from) (l w) s, c)) good

  begin_applying : Option ℕ → Bytes → Act e (Unit {0})
  begin_applying pid f = do
    or_fail e id validated (lit "journal_transition_failed") (transition e id validated applying [])
    commit_operation e id previous pid f

  begin_applying-Ends :
      (pid : Option ℕ) (f : Bytes) (w : World H J)
      → AtHere validated w
      → Ready f w
      → EndsHere (begin_applying pid f w).0 (begin_applying pid f w).1
  unfolding begin_applying
  begin_applying-Ends pid f w s r =
      let next = transition e id validated applying [] in
      let host = host_kept e content files id previous candidate before validated applying w in
      let ready = Ready-host f w (next w).1 host r in
      Guard.guarded_early e.log (λ h. content e.config_path h) e.now journal_failed both id
        (λ o. o ≡ some candidate) LostHere (shown_by previous.exists previous.content) before
        (Unit {0}) next (λ _. commit_operation e id previous pid f) validated
        (lit "journal_transition_failed") w tt
        (λ x h. (
          unmoved e content files id previous candidate before validated applying x w h s,
          ready.untouched,
        ))
        (λ _ h.
          commit_operation-Ends e content files id previous candidate before pid f (next w).1
            (moved e content files id previous candidate before validated applying w h)
            ready.written)

  look_for_pid : Bytes → Act e (Unit {0})
  look_for_pid f = do
    pid ← or_fail e id validated (lit "pid_inspection_failed") (read_pid e)
    begin_applying pid f

  look_for_pid-Ends :
      (f : Bytes) (w : World H J)
      → AtHere validated w
      → Ready f w
      → EndsHere (look_for_pid f w).0 (look_for_pid f w).1
  unfolding look_for_pid
  look_for_pid-Ends f w s r =
      let w1 = (read_pid e w).1 in
      let kept =
        read_pid-Leaves e (at_config e content) (file-Reads e content files e.config_path) w in
      early (Option ℕ) (read_pid e) (λ pid. begin_applying pid f) validated
        (lit "pid_inspection_failed") w tt (read_pid-Leaves e journal_of (journal-Reads e))
        (kept ∙ r.untouched) s
        (λ pid h.
          begin_applying-Ends pid f w1
            (keeps_state e.log id w w1 (some validated)
              (read_pid-Leaves e journal_of (journal-Reads e) w) s)
            (record {
              untouched = kept ∙ r.untouched;
              written =
                  read_pid-Leaves e (file e content f) (file-Reads e content files f) w ∙ r.written;
            }))

  apply_file-Ends :
      (f : Bytes) (w : World H J)
      → AtHere prepared w
      → Ready f w
      → EndsHere (apply_file e id previous f w).0 (apply_file e id previous f w).1
  unfolding apply_file look_for_pid begin_applying run
  apply_file-Ends f w s r =
      early (Unit {0}) (run e (check_config f)) (λ _. validating f) prepared
        (lit "native_validation_failed") w tt (λ w. refl)
        (files.check_keeps f e.config_path w.host ∙ r.untouched) s
        (λ _ h. validated_file (run e (check_config f) w).1 s (record {
          untouched = files.check_keeps f e.config_path w.host ∙ r.untouched;
          written = files.check_keeps f f w.host ∙ r.written;
        }))
    where
      validating : Bytes → Act e (Unit {0})
      validating f = do transition e id prepared validated []; look_for_pid f

      validated_file :
          (w : World H J)
          → AtHere prepared w
          → Ready f w
          → EndsHere (validating f w).0 (validating f w).1
      validated_file w s r =
          let host = host_kept e content files id previous candidate before prepared validated w in
          let ready = Ready-host f w (transition e id prepared validated [] w).1 host r in
          bind_rule EndsHere (transition e id prepared validated []) (λ _. look_for_pid f) w
            (λ x h.
              stopped tt prepared tt
                (unmoved e content files id previous candidate before prepared validated x w h s)
                ready.untouched)
            (λ _ h.
              look_for_pid-Ends f (transition e id prepared validated [] w).1
                (moved e content files id previous candidate before prepared validated w h) ready)

  -- Behind the entry of the journal: whatever fails, the operation ends in one of these ways.
  pub apply_operation-Ends :
      (w : World H J)
      → AtHere prepared w
      → at_config e content w ≡ shown_by previous.exists previous.content
      → let m = apply_operation e id previous candidate in EndsHere (m w).0 (m w).1
  unfolding apply_operation
  apply_operation-Ends w s c =
      let w1 = (write_temporary e candidate w).1 in
      let kept = write_temporary-config e content files candidate w ∙ c in
      early Bytes (write_temporary e candidate)
        (λ f. finally (apply_file e id previous f) (file_call e (e.os.remove f))) prepared
        (lit "candidate_write_failed") w tt (write_temporary-journal e candidate) kept s
        (λ f h.
          let (other, written) = write_temporary-ok e content files candidate w f h in
          Guard.finally-Ends e.log (λ h. content e.config_path h) e.now journal_failed both id
            (λ o. o ≡ some candidate) LostHere (shown_by previous.exists previous.content) before
            (Unit {0}) (apply_file e id previous f) (file_call e (e.os.remove f)) w1 (λ w. refl)
            (λ w. files.remove_other f w.host other)
            (apply_file-Ends f w1
              (keeps_state e.log id w w1 (some prepared) (write_temporary-journal e candidate w) s)
              (record { untouched = kept; written = written })))
