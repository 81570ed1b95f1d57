-- ===== src/System.antt =====
-- internal/system: the boundary to the operating system. `H` is the state of the host; what a
-- command does to it is not the program's, so the runner is an interface.
pub mod Files
use egress_manager.Base.{ℕ, Option, List, Bytes}

pub record Command : Type 0 where
  pub name : Bytes
  pub args : List Bytes
  pub stdin : Bytes

pub record CommandResult : Type 0 where
  pub stdout : Bytes
  pub exit_code : ℕ

-- `Runner.Run`; `none` is an error of the call.
abbrev pub Runner : Type 0 → Type 0
Runner H = Command → H → Option CommandResult × H
