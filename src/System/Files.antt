-- ===== src/System/Files.antt =====
-- The packages os and path/filepath, as the executors use them. `H` is the state of the host; a call
-- may fail at any time, and what it reads may differ from one call to the next.
use egress_manager.Base.{ℕ, Bool, Option, Bytes}

-- Of `os.Lstat`: is it a regular file, no link, and how large?
pub record FileInfo : Type 0 where
  pub is_regular : Bool
  pub size : ℕ

pub data Stat : Type 0 where
  missing stat_failed : Stat
  found : FileInfo → Stat

-- The calls on an open file that leave its content
pub data FileCall : Type 0 where
  chmod sync close : FileCall

-- `true` is the nil error. `create_temp` takes a directory and a pattern; `sync_directory` opens a
-- directory, syncs and closes it.
pub record Os (H : Type 0) : Type 0 where
  pub dir : Bytes → Bytes
  pub clean : Bytes → Bytes
  pub is_abs : Bytes → Bool
  pub lstat : Bytes → H → Stat × H
  pub read_file : Bytes → H → Option Bytes × H
  pub mkdir_all : Bytes → H → Bool × H
  pub create_temp : Bytes → Bytes → H → Option Bytes × H
  pub on_file : FileCall → Bytes → H → Bool × H
  pub write : Bytes → Bytes → H → Bool × H
  pub rename : Bytes → Bytes → H → Bool × H
  pub sync_directory : Bytes → H → Bool × H
  pub remove : Bytes → H → Bool × H
