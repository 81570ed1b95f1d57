-- ===== src/Reliability/Monitor/Once.antt =====
-- One run of the monitor: every dependency sees its own probe, in whatever order the results arrive.
use egress_manager.Base.{
  ℕ, ◌≡◌, ◌≢◌, refl, sym, ◌∙◌, ap, Bool, true, false, List, [], ◌∷◌, Bytes, bytes_eq, bytes_eq→eq,
  eq→bytes_eq, All-map2, bytes_eq_refl, map, sort_by, All, All-map, All-of_map, Pairs, Pairs-imp,
  Pairs-map, Pairs-of_map, Fresh, Fresh-nil, Fresh-cons, All-sort_by, All-of_sort_by, Pairs-sort_by,
  arith,
}
use egress_manager.Reliability.Monitor.{
  DependencyProbe, DependencyState, States, Report, state_of, set_state, observe, observation_of,
  record_results, result_of, run_once, probes_valid, monitor_is_valid,
}

state_of-set_state :
    (name : Bytes) (s : DependencyState) (states : States)
    → state_of name (set_state name s states) ≡ s
unfolding state_of set_state
state_of-set_state name s [] = ground (arith, bytes_eq_refl name)
state_of-set_state name s ((key, t) ∷ states) = ground (arith, state_of-set_state name s states)

state_of-set_other :
    (k name : Bytes) (s : DependencyState) (states : States)
    → k ≢ name
    → state_of k (set_state name s states) ≡ state_of k states
unfolding state_of set_state
state_of-set_other k name s [] n = ground (arith, bytes_eq→eq name k)
state_of-set_other k name s ((key, t) ∷ states) n =
    ground (arith, state_of-set_other k name s states, bytes_eq→eq key name, bytes_eq→eq key k)

module _ (now : ℕ) where
  record_results-other :
      (k : Bytes) (results : List Report) (states : States)
      → All (λ r. k ≢ r.0) results
      → state_of k (record_results now results states) ≡ state_of k states
  unfolding record_results
  record_results-other k [] states h = refl
  record_results-other k ((name, o) ∷ results) states h =
      record_results-other k results _ h.1 ∙ state_of-set_other k name _ states h.0

  record_results-All :
      (results : List Report) (states : States)
      → Pairs (λ r q. r.0 ≢ q.0) results
      → All
          (λ r.
            state_of r.0 (record_results now results states)
            ≡ observe now r.0 r.1 (state_of r.0 states))
          results
  unfolding record_results
  record_results-All [] states h = tt
  record_results-All ((name, o) ∷ results) states h =
      let set = set_state name (observe now name o (state_of name states)) states in
      (
        record_results-other name results set h.0 ∙ state_of-set_state name _ states,
        All-map2 (λ q. name ≢ q.0)
            (λ q.
              state_of q.0 (record_results now results set)
              ≡ observe now q.0 q.1 (state_of q.0 set))
            (λ q.
              state_of q.0 (record_results now results set)
              ≡ observe now q.0 q.1 (state_of q.0 states))
            results
            (λ q n e.
              e ∙ ap (observe now q.0 q.1) (state_of-set_other q.0 name _ states (λ k. n (sym k))))
            h.0 (record_results-All results set h.1),
      )

probes_valid-Fresh :
    (seen : List Bytes) (probes : List DependencyProbe)
    → probes_valid seen probes ≡ true
    → Fresh bytes_eq seen (map (λ p. p.name) probes)
unfolding probes_valid
probes_valid-Fresh seen [] h = Fresh-nil bytes_eq seen
probes_valid-Fresh seen (p ∷ ps) h =
    Fresh-cons bytes_eq p.name seen (map (λ p. p.name) ps) (ground arith)
      (probes_valid-Fresh (p.name ∷ seen) ps (ground arith))

module _ (earlier : Report → Report → Bool) (now : ℕ) (probes : List DependencyProbe)
    (states : States) where
  distinct_results :
      monitor_is_valid probes ≡ true
      → Pairs (λ r q. r.0 ≢ q.0) (sort_by earlier (map result_of probes))
  unfolding monitor_is_valid result_of
  distinct_results v =
      let names = (probes_valid-Fresh [] probes (ground arith)).distinct in
      let apart =
        Pairs-imp {S = λ p q. p.name ≢ q.name} probes
          (λ p q d e. ground (arith, eq→bytes_eq q.name p.name (sym e)))
          (Pairs-of_map (λ p. p.name) (λ x y. bytes_eq y x ≡ false) probes names) in
      Pairs-sort_by earlier {R = λ r q. r.0 ≢ q.0} (λ r q n e. n (sym e)) (map result_of probes)
        (Pairs-map result_of (λ r q. r.0 ≢ q.0) probes apart)

  -- What a run makes of the states: each probe's dependency sees what its probe reports, and another
  -- name keeps its state.
  pub record Observed (k : Bytes) (after : States) : Type 0 where
    pub probed :
        All
          (λ p.
            state_of p.name after
            ≡ observe now p.name (observation_of p.outcome) (state_of p.name states))
          probes
    pub other_kept : state_of k after ≡ state_of k states

  -- A run of a valid monitor, in whatever order the results arrive: the dependency of each probe gets
  -- from its state the next one by what the probe reports, and a name that no probe has keeps its
  -- state.
  pub run_once-Observed :
      monitor_is_valid probes ≡ true
      → (k : Bytes) → All (λ p. k ≢ p.name) probes
      → Observed k (run_once earlier now probes states)
  unfolding run_once result_of
  run_once-Observed v k absent =
      let results = sort_by earlier (map result_of probes) in
      rw v (record {
        probed =
            All-of_map result_of
              (λ r.
                state_of r.0 (record_results now results states)
                ≡ observe now r.0 r.1 (state_of r.0 states))
              probes
              (All-of_sort_by earlier _ (map result_of probes)
                (record_results-All now results states (distinct_results v)));
        other_kept = record_results-other now k results states (
            All-sort_by earlier (λ r. k ≢ r.0) (map result_of probes)
              (All-map result_of (λ r. k ≢ r.0) probes absent));
      })
