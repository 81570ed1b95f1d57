-- ===== src/Scenarios/Watching.antt =====
-- The monitor, the status of the daemon and the choice of a port at concrete values.
use egress_manager.Reliability.Monitor.{probes_valid}
use egress_manager.Reliability.{matches_component}
use egress_manager.Database.{scan_all, unfinished_operations}
use egress_manager.Base.{sort_by}
use egress_manager.Base.{
  ℕ, ◌+◌, ◌≡◌, refl, Bool, true, false, none, some, List, [], ◌∷◌, lit, arith, leb, Option,
  eq→bytes_eq,
}
use egress_manager.Net.{Addr, v4}
use egress_manager.Domain.Health.{healthy, unhealthy}
use egress_manager.Domain.Transaction.{committed}
use egress_manager.Database.{Store}
use egress_manager.Reliability.Monitor.{
  DependencyObservation, DependencyProbe, Report, unknown_observation, checked, check_failed,
  monitor_is_valid, run_once,
}
use egress_manager.Reliability.Monitor.Steady.{
  Sighting, Confirmed, Settled, state_after, state_after-Confirmed, state_after-Settled,
}
use egress_manager.Reliability.Monitor.Once.{Observed, run_once-Observed}
use egress_manager.Reliability.Lock.{LockStatus}
use egress_manager.Reliability.Status.{RecoveryStatus, IsHonest, inspect, inspect-IsHonest}
use egress_manager.Config.Port.{new_port_selector, protected_installer_ports, select_port}
use egress_manager.Config.Port.Choice.{Outcome, select_port-Outcome}
use egress_manager.Scenarios.{no_fault, row}

abbrev good : DependencyObservation
good = record unknown_observation { status = healthy }

abbrev bad : DependencyObservation
bad = record unknown_observation { status = unhealthy }

abbrev sighting : ℕ → DependencyObservation → Sighting
sighting at o = record { at = at; seen = o }

abbrev history : List Sighting
history = sighting 2 bad ∷ sighting 1 good ∷ []

state_after-Confirmed_example : Confirmed (lit "nft") (sighting 3 bad) history
state_after-Confirmed_example = state_after-Confirmed (lit "nft") (sighting 3 bad) history

state_after-Settled_example :
    Settled unhealthy (state_after (lit "nft") (sighting 4 bad ∷ sighting 3 bad ∷ history))
state_after-Settled_example =
    state_after-Settled (lit "nft") (sighting 4 bad) (sighting 3 bad) history refl

abbrev probes : List DependencyProbe
probes =
    (record { name = lit "nft"; has_check = true; outcome = checked good })
    ∷ (record { name = lit "xray"; has_check = true; outcome = check_failed })
    ∷ []

probes_accepted : monitor_is_valid probes ≡ true
unfolding monitor_is_valid probes_valid matches_component
probes_accepted = refl

abbrev last_first : Report → Report → Bool
last_first r q = false

run_once-Observed_example :
    Observed last_first 5 probes [] (lit "dns") (run_once last_first 5 probes [])
run_once-Observed_example = run_once-Observed last_first 5 probes [] probes_accepted (lit "dns") (
  λ e. ground (arith, eq→bytes_eq (lit "dns") (lit "nft") e),
  ((λ e. ground (arith, eq→bytes_eq (lit "dns") (lit "xray") e)), tt),
)

abbrev finished : Store
finished = record { rows = row (lit "op1") committed 5 5 ∷ []; statements = 0 }

abbrev unlocked : LockStatus
unlocked = record { active = false; owner = none }

abbrev ready : RecoveryStatus
ready = record {
  ready = true;
  recovery_required = false;
  mutation_lock = unlocked;
  unfinished = [];
  observed_at = 9;
}

inspected : (inspect no_fault (some unlocked) (some 9) finished).0 ≡ some ready
unfolding inspect unfinished_operations scan_all sort_by
inspected = refl

inspect-IsHonest_example : IsHonest finished ready
inspect-IsHonest_example =
    inspect-IsHonest no_fault (some unlocked) (some 9) finished ready inspected

-- A host that counts the draws, on which the ports from 20002 on are free.
abbrev draws : ℕ → Option ℕ × ℕ
draws n = (some n, n + 1)

abbrev listens : Addr → ℕ → ℕ → Bool × ℕ
listens address port n = (leb 20002 port, n)

select_port-Outcome_example :
    Outcome draws listens new_port_selector
      (v4 2130706433)
      (protected_installer_ports (2222 ∷ []))
      (leb 20002)
      (λ port n. refl)
      (select_port draws listens new_port_selector
        (v4 2130706433)
        (protected_installer_ports (2222 ∷ []))
        0).0
select_port-Outcome_example =
    select_port-Outcome draws listens new_port_selector (v4 2130706433)
      (protected_installer_ports (2222 ∷ [])) (leb 20002) (λ port n. refl) (omega arith)
      (omega arith) (omega arith) 0
