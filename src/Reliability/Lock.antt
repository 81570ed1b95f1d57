-- ===== src/Reliability/Lock.antt =====
-- lock.go: the owner that is written into the lock file. The file itself is I/O.
use egress_manager.Base.{
  ℕ, Bool, false, ◌||◌, not, Option, none, some, ltb, ◌==◌, if◌then◌else◌, Bytes, length,
}
use egress_manager.Domain.Identifier.{matches_id}
use egress_manager.Reliability.{matches_component}

-- A process identifier is positive, or it is not valid: 0 stands for the ints below 1. A time is
-- `none` if it is the zero time, and a missing release is `none`.
pub record Owner : Type 0 where
  pub schema_version : ℕ
  pub pid : ℕ
  pub process_start : Bytes
  pub operation_id : Bytes
  pub component : Bytes
  pub acquired_at : Option ℕ
  pub released_at : Option ℕ

pub data OwnerError : Type 0 where
  bad_schema bad_pid bad_process bad_operation bad_component no_acquisition : OwnerError
  release_precedes_acquisition : OwnerError

-- `ReleasedAt.Before(AcquiredAt)`
abbrev released_early : ℕ → Option ℕ → Bool
released_early acquired none = false
released_early acquired (some released) = ltb released acquired

abbrev pub lock_schema_version : ℕ
lock_schema_version = 1

-- `Owner.validate`: the first complaint
unfoldable pub validate_owner : Owner → Option OwnerError
validate_owner owner =
    if not (owner.schema_version == lock_schema_version)
    then some bad_schema
    else if ltb owner.pid 1
    then some bad_pid
    else if length owner.process_start == 0 || ltb 160 (length owner.process_start)
    then some bad_process
    else if not (matches_id owner.operation_id)
    then some bad_operation
    else if not (matches_component owner.component)
    then some bad_component
    else elim owner.acquired_at [
      | none ↦ some no_acquisition
      | some at ↦
          if released_early at owner.released_at then some release_precedes_acquisition else none
    ]

pub record LockStatus : Type 0 where
  pub active : Bool
  pub owner : Option Owner
