-- ===== src/Reliability/Tracker.antt =====
-- tracker.go: the last report of a recovery. A report is a value, so the copies need no model.
use egress_manager.Base.{Bool, false, Option, none, some}
use egress_manager.Reliability.{RecoveryReport}

pub record Tracker : Type 0 where
  pub last : Option RecoveryReport

unfoldable pub record_report : RecoveryReport → Tracker → Tracker
record_report report tracker = record { last = some report }

unfoldable pub is_ready : Tracker → Bool
is_ready tracker = elim tracker.last [ none ↦ false | some report ↦ report.succeeded ]
