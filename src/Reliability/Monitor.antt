-- ===== src/Reliability/Monitor.antt =====
-- monitor.go: the health of the dependencies, as their probes report it. A time is a number. The
-- counters are numbers without a bound: an int would overflow after 2 ^ 63 runs.
pub mod Steady
pub mod Once
use egress_manager.Base.{
  ℕ, ◌+◌, Bool, true, false, ◌&&◌, ◌||◌, not, Option, none, some, List, [], ◌∷◌, ltb, ◌==◌,
  if◌then◌else◌, Bytes, lit, bytes_eq, bytes_lt, any, length, map, sort_by,
}
use egress_manager.Domain.Issue.{Issue, issue_if, or_else, long_health_detail}
use egress_manager.Domain.Health.{
  HealthStatus, unknown, healthy, degraded, unhealthy, disabled, other, validate_status,
}
use egress_manager.Domain.Outbound.{ProbeStatus, probe_unknown, validate_probe}
use egress_manager.Reliability.{matches_component}

abbrev pub maximum_probes : ℕ
maximum_probes = 16

abbrev pub failure_threshold : ℕ
failure_threshold = 2

abbrev pub recovery_threshold : ℕ
recovery_threshold = 2

pub record DependencyObservation : Type 0 where
  pub status : HealthStatus
  pub executable_available : ProbeStatus
  pub configuration_valid : ProbeStatus
  pub process_running : ProbeStatus
  pub transport_reachable : ProbeStatus
  pub internet_reachable : ProbeStatus
  pub detail : Bytes

unfoldable pub unknown_observation : DependencyObservation
unknown_observation = record {
  status = unknown;
  executable_available = probe_unknown;
  configuration_valid = probe_unknown;
  process_running = probe_unknown;
  transport_reachable = probe_unknown;
  internet_reachable = probe_unknown;
  detail = [];
}

abbrev is_disabled : HealthStatus → Bool
is_disabled disabled = true
is_disabled _ = false

-- `DependencyObservation.Validate`, which returns the first complaint
unfoldable pub validate_observation : DependencyObservation → List Issue
validate_observation o =
    if ltb 128 (length o.detail)
    then long_health_detail ∷ []
    else if is_disabled o.status
    then validate_status o.status
    else or_else (validate_status o.status) (
        or_else (validate_probe o.executable_available) (
          or_else (validate_probe o.configuration_valid) (
            or_else (validate_probe o.process_running) (
              or_else (validate_probe o.transport_reachable)
                (validate_probe o.internet_reachable)))))

-- How a probe ends: it returns an error, it returns an observation, or its time is over first.
pub data Outcome : Type 0 where
  check_failed timed_out : Outcome
  checked : DependencyObservation → Outcome

pub record DependencyProbe : Type 0 where
  pub name : Bytes
  pub has_check : Bool
  pub outcome : Outcome

pub record DependencyStatus : Type 0 where
  pub name : Bytes
  pub observation : DependencyObservation
  pub last_checked : ℕ
  pub last_success : Option ℕ
  pub consecutive_failures : ℕ

pub record DependencyState : Type 0 where
  pub status : DependencyStatus
  pub consecutive_successes : ℕ

abbrev pub States : Type 0
States = List (Bytes × DependencyState)

-- The zero value, whose status is the empty string.
unfoldable pub zero_state : DependencyState
unfolding unknown_observation
zero_state = record {
  status = record {
    name = [];
    observation = record unknown_observation { status = other [] };
    last_checked = 0;
    last_success = none;
    consecutive_failures = 0;
  };
  consecutive_successes = 0;
}

unfoldable pub failed_observation : Bytes → DependencyObservation
unfolding unknown_observation
failed_observation detail = record unknown_observation { status = unhealthy; detail = detail }

abbrev pub is_ok : List Issue → Bool
is_ok [] = true
is_ok (e ∷ es) = false

-- What the goroutines of a probe send.
unfoldable pub observation_of : Outcome → DependencyObservation
observation_of check_failed = failed_observation (lit "probe_failed")
observation_of timed_out = failed_observation (lit "probe_timeout")
observation_of (checked o) =
    if is_ok (validate_observation o) then o else failed_observation (lit "invalid_probe_result")

-- The loop of `Monitor.Validate`; the first argument holds the names seen.
unfoldable pub probes_valid : List Bytes → List DependencyProbe → Bool
probes_valid seen [] = true
probes_valid seen (p ∷ ps) =
    matches_component p.name
    && p.has_check
    && not (any (bytes_eq p.name) seen)
    && probes_valid (p.name ∷ seen) ps

-- `Monitor.Validate`: whether its error is nil.
unfoldable pub monitor_is_valid : List DependencyProbe → Bool
monitor_is_valid probes =
    not (length probes == 0 || ltb maximum_probes (length probes)) && probes_valid [] probes

abbrev pub is_unhealthy : HealthStatus → Bool
is_unhealthy unhealthy = true
is_unhealthy _ = false

abbrev pub recovering : DependencyObservation → DependencyObservation
recovering o = record o { status = degraded; detail = lit "recovering" }

abbrev pub weakened : DependencyObservation → DependencyObservation
weakened o = record o { status = degraded }

-- The switch over the observed status.
abbrev pub observe_as :
    HealthStatus → ℕ → Bytes → DependencyObservation → DependencyState → DependencyState
observe_as healthy now name o s =
    let successes = s.consecutive_successes + 1 in
    record {
      status = record {
        name = name;
        observation =
            if is_unhealthy s.status.observation.status && ltb successes recovery_threshold
            then recovering o
            else o;
        last_checked = now;
        last_success = some now;
        consecutive_failures = 0;
      };
      consecutive_successes = successes;
    }
observe_as unhealthy now name o s =
    let failures = s.status.consecutive_failures + 1 in
    record {
      status = record {
        name = name;
        observation = if ltb failures failure_threshold then weakened o else o;
        last_checked = now;
        last_success = s.status.last_success;
        consecutive_failures = failures;
      };
      consecutive_successes = 0;
    }
observe_as degraded now name o s = record {
  status = record {
    name = name;
    observation = o;
    last_checked = now;
    last_success = s.status.last_success;
    consecutive_failures = s.status.consecutive_failures + 1;
  };
  consecutive_successes = 0;
}
observe_as disabled now name o s = record {
  status = record {
    name = name;
    observation = o;
    last_checked = now;
    last_success = s.status.last_success;
    consecutive_failures = 0;
  };
  consecutive_successes = 0;
}
observe_as _ now name o s = record {
  status = record {
    name = name;
    observation = o;
    last_checked = now;
    last_success = s.status.last_success;
    consecutive_failures = s.status.consecutive_failures;
  };
  consecutive_successes = 0;
}

-- The state of a dependency after an observation.
unfoldable pub observe : ℕ → Bytes → DependencyObservation → DependencyState → DependencyState
observe now name o s = observe_as o.status now name o s

-- The map of the states: a missing name has the zero state.
unfoldable pub state_of : Bytes → States → DependencyState
state_of name [] = zero_state
state_of name ((key, s) ∷ states) =
    let rest = state_of name states in if bytes_eq key name then s else rest

unfoldable pub set_state : Bytes → DependencyState → States → States
set_state name s [] = (name, s) ∷ []
set_state name s ((key, t) ∷ states) =
    let rest = set_state name s states in
    if bytes_eq key name then (key, s) ∷ states else (key, t) ∷ rest

abbrev pub Report : Type 0
Report = Bytes × DependencyObservation

-- The loop over the results, in the order in which they arrived.
unfoldable pub record_results : ℕ → List Report → States → States
record_results now [] states = states
record_results now ((name, o) ∷ results) states =
    record_results now results (set_state name (observe now name o (state_of name states)) states)

unfoldable pub result_of : DependencyProbe → Report
result_of p = (p.name, observation_of p.outcome)

-- `RunOnce`: the results arrive in any order, which the test `earlier` chooses.
unfoldable pub run_once : (Report → Report → Bool) → ℕ → List DependencyProbe → States → States
run_once earlier now probes states =
    if monitor_is_valid probes
    then record_results now (sort_by earlier (map result_of probes)) states
    else states

-- `Snapshot`
unfoldable pub snapshot : States → List DependencyStatus
snapshot states = sort_by (λ a b. bytes_lt a.name b.name) (map (λ entry. entry.1.status) states)
