-- ===== src/Reliability.antt =====
-- internal/reliability/coordinator.go: the recovery steps of the daemon run in order, and the first
-- failure ends the run. `W` is the state of the daemon and its host; the clock, the cancellation and
-- the steps themselves are arguments. A step is present (the test for nil is left out).
pub mod Report
pub mod Monitor
pub mod Tracker
pub mod Lock
pub mod Status
use egress_manager.Base.{
  ℕ, Bool, true, false, ◌&&◌, ◌||◌, not, Option, none, some, List, [], ◌∷◌, ◌++◌, leb, ltb, ◌==◌,
  if◌then◌else◌, Bytes, bytes_eq, length, any, all,
}
use egress_manager.Domain.Identifier.{id_head, id_rest, is_lower, is_digit}

pub record RecoveryStep (W : Type 0) : Type 0 where
  pub component : Bytes
  pub recover : W → Bool × W

pub record StepResult : Type 0 where
  pub component : Bytes
  pub succeeded : Bool
  pub started_at : ℕ
  pub ended_at : ℕ

pub record RecoveryReport : Type 0 where
  pub succeeded : Bool
  pub failed_component : Bytes
  pub steps : List StepResult
  pub started_at : ℕ
  pub ended_at : ℕ

abbrev pub maximum_recovery_steps : ℕ
maximum_recovery_steps = 16

-- ^[a-z][a-z0-9_-]{0,63}$
unfoldable pub matches_component : Bytes → Bool
matches_component [] = false
matches_component (c ∷ cs) = is_lower c && all id_rest cs && leb (length cs) 63

-- What the loop that recovers has made: the results, the component that failed and the time of
-- its end, and the state.
pub record Progress (W : Type 0) : Type 0 where
  pub results : List StepResult
  pub failure : Option (Bytes × ℕ)
  pub state : W

module _ {W : Type 0} where
  -- The loop over the steps, with the components seen so far.
  unfoldable pub steps_valid : List Bytes → List (RecoveryStep W) → Bool
  steps_valid seen [] = true
  steps_valid seen (s ∷ ss) =
      matches_component s.component
      && not (any (bytes_eq s.component) seen)
      && steps_valid (s.component ∷ seen) ss

  module _ (now : W → ℕ × W) (cancelled : W → Bool) where
    -- A step runs unless the context is done.
    abbrev pub attempt : RecoveryStep W → W → Bool × W
    attempt s w = if cancelled w then (false, w) else s.recover w

    abbrev pub result_of : RecoveryStep W → ℕ → Bool → ℕ → StepResult
    result_of s started done ended = record {
      component = s.component;
      succeeded = done;
      started_at = started;
      ended_at = ended;
    }

    unfoldable pub run_steps : List (RecoveryStep W) → W → Progress W
    run_steps [] w = record { results = []; failure = none; state = w }
    run_steps (s ∷ ss) w =
        let (started, w1) = now w in
        let (done, w2) = attempt s w1 in
        let (ended, w3) = now w2 in
        let result = result_of s started done ended in
        let rest = run_steps ss w3 in
        if done
        then record { results = result ∷ rest.results; failure = rest.failure; state = rest.state }
        else record { results = result ∷ []; failure = some (s.component, ended); state = w3 }

    -- `Coordinator.Run`: the report, if there is one, whether the error is nil, and the state.
    unfoldable pub run : List (RecoveryStep W) → W → Option RecoveryReport × Bool × W
    run steps w =
        if length steps == 0
          || ltb maximum_recovery_steps (length steps)
          || not (steps_valid [] steps)
        then (none, false, w)
        else let (started, w1) = now w in finish started (run_steps steps w1)
      where
        finish : ℕ → Progress W → Option RecoveryReport × Bool × W
        finish started p = elim p.failure [
          | some (component, ended) ↦ (
            some (record {
              succeeded = false;
              failed_component = component;
              steps = p.results;
              started_at = started;
              ended_at = ended;
            }),
            false,
            p.state,
          )
          | none ↦
              let (ended, w) = now p.state in
              (
                some (record {
                  succeeded = true;
                  failed_component = [];
                  steps = p.results;
                  started_at = started;
                  ended_at = ended;
                }),
                true,
                w,
              )
        ]
