-- ===== src/Consumer/Security.antt =====
-- The single ring buffer of the newer kernel programs, in scanner-agent/src/event_consumer.rs: the
-- layout of `SecurityEvent`, its parser, and what it becomes.
pub mod Batch
pub mod Conversion
pub mod Delivery
use execution_aware_scanner.Prelude.{
  ℕ, zero, suc, ◌^◌, ◌-◌, Bool, true, false, not, ◌&&◌, Option, none, some, List, [], ◌∷◌, ◌++◌,
  leb, ltb, length, drop, ◌==◌, if◌then◌else◌,
}
use execution_aware_scanner.Common.Kind.{EventKind, open_, mmap, connect, tcp_send, udp_send}
use execution_aware_scanner.Common.Events.{ExecEvent, FileEvent, NetEvent}
use execution_aware_scanner.Consumer.Bytes.{le_value, take, byte_at, head_byte}

pub data SecurityEventKind : Type 0 where
  exec file mmap_ connect_ net_transfer dns exit suspicious : SecurityEventKind

unfoldable pub try_from_u8 : ℕ → Option SecurityEventKind
try_from_u8 val =
    if val == 0
    then some exec
    else if val == 1
    then some file
    else if val == 2
    then some mmap_
    else if val == 3
    then some connect_
    else if val == 4
    then some net_transfer
    else if val == 5
    then some dns
    else if val == 6
    then some exit
    else if val == 7
    then some suspicious
    else none

-- `data` is the union's 128 bytes.
pub record SecurityEvent : Type 0 where
  pub ts : ℕ
  pub kind : SecurityEventKind
  pub pid : ℕ
  pub tgid : ℕ
  pub uid : ℕ
  pub gid : ℕ
  pub cgroup_id : ℕ
  pub confidence : ℕ
  pub data_ : List ℕ
  pub comm : List ℕ

abbrev pub security_size : ℕ
security_size = 192

-- `read_unaligned`, at the offsets that `repr(C)` gives, for a kind that has been read
abbrev pub read_security : List ℕ → SecurityEventKind → SecurityEvent
read_security d kind = record {
  ts = le_value (take 8 d);
  kind = kind;
  pid = le_value (take 4 (drop 12 d));
  tgid = le_value (take 4 (drop 16 d));
  uid = le_value (take 4 (drop 20 d));
  gid = le_value (take 4 (drop 24 d));
  cgroup_id = le_value (take 8 (drop 32 d));
  confidence = byte_at 40 d;
  data_ = take 128 (drop 48 d);
  comm = take 16 (drop 176 d);
}

-- The kind is at offset 8, where it is checked, so a value that is read is one of the enum's.
unfoldable pub parse_security_event : List ℕ → Option SecurityEvent
unfolding try_from_u8
parse_security_event d =
    if ltb (length d) security_size
    then none
    else elim (try_from_u8 (byte_at 8 d)) [ none ↦ none | some kind ↦ some (read_security d kind) ]

-- An array of that many zeros.
abbrev pub zeros : ℕ → List ℕ
zeros zero = []
zeros (suc n) = 0 ∷ zeros n

abbrev pub exec_of : SecurityEvent → ExecEvent
exec_of e = record {
  timestamp_ns = e.ts;
  pid = e.pid;
  tgid = e.tgid;
  uid = e.uid;
  gid = e.gid;
  cgroup_id = e.cgroup_id;
  ppid = le_value (take 4 e.data_);
  command = e.comm;
  argv = take 120 (drop 8 e.data_) ++ zeros 136;
}

unfoldable pub security_to_exec : SecurityEvent → Option ExecEvent
security_to_exec e = elim e.kind [ exec ↦ some (exec_of e) | _ ↦ none ]

abbrev pub file_of : SecurityEvent → EventKind → FileEvent
file_of e kind = record {
  timestamp_ns = e.ts;
  pid = e.pid;
  tgid = e.tgid;
  cgroup_id = e.cgroup_id;
  command = e.comm;
  path = take 96 e.data_ ++ zeros 160;
  kind = kind;
}

unfoldable pub security_to_file : SecurityEvent → Option FileEvent
security_to_file e = elim e.kind [
  | file ↦ some (file_of e open_)
  | mmap_ ↦ some (file_of e mmap)
  | _ ↦ none
]

-- `u32::MAX`
abbrev pub max_u32 : ℕ
max_u32 = 4_294_967_295

abbrev pub net_of : SecurityEvent → EventKind → NetEvent
net_of e kind =
    let bytes = le_value (take 8 (drop 16 e.data_)) in
    record {
      timestamp_ns = e.ts;
      pid = e.pid;
      tgid = e.tgid;
      cgroup_id = e.cgroup_id;
      saddr = le_value (take 4 e.data_);
      daddr = le_value (take 4 (drop 4 e.data_));
      sport = le_value (take 2 (drop 8 e.data_));
      dport = le_value (take 2 (drop 10 e.data_));
      family = 2;
      protocol = byte_at 24 e.data_;
      kind = kind;
      data_size = if leb bytes max_u32 then bytes else max_u32;
    }

unfoldable pub security_to_net : SecurityEvent → Option NetEvent
security_to_net e = elim e.kind [
  | connect_ ↦ some (net_of e connect)
  | net_transfer ↦ some (net_of e (if byte_at 24 e.data_ == 17 then udp_send else tcp_send))
  | _ ↦ none
]
