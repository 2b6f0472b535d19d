-- ===== src/Common/Events.antt =====
-- The event records of scanner-common/src/lib.rs. Byte arrays are lists of bytes.
use execution_aware_scanner.Prelude.{ℕ, List}
use execution_aware_scanner.Common.Kind.{EventKind}

abbrev pub args_len : ℕ
args_len = 256

abbrev pub path_len : ℕ
path_len = 256

pub record ExecEvent : Type 0 where
  pub timestamp_ns : ℕ
  pub pid : ℕ
  pub tgid : ℕ
  pub uid : ℕ
  pub gid : ℕ
  pub cgroup_id : ℕ
  pub ppid : ℕ
  pub command : List ℕ
  pub argv : List ℕ

pub record FileEvent : Type 0 where
  pub timestamp_ns : ℕ
  pub pid : ℕ
  pub tgid : ℕ
  pub cgroup_id : ℕ
  pub command : List ℕ
  pub path : List ℕ
  pub kind : EventKind

pub record NetEvent : Type 0 where
  pub timestamp_ns : ℕ
  pub pid : ℕ
  pub tgid : ℕ
  pub cgroup_id : ℕ
  pub saddr : ℕ
  pub daddr : ℕ
  pub sport : ℕ
  pub dport : ℕ
  pub family : ℕ
  pub protocol : ℕ
  pub kind : EventKind
  pub data_size : ℕ
