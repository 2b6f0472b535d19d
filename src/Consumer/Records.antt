-- ===== src/Consumer/Records.antt =====
-- The parsers of scanner-agent/src/event_consumer.rs and the layouts of the records that they read:
-- `repr(C)` on a 64-bit little-endian machine, on which the kernel programs and the agent run.
pub mod RoundTrip
use execution_aware_scanner.Prelude.{
  ℕ, ◌<◌, ◌≡◌, ◌||◌, Bool, true, false, not, Option, none, some, List, [], ◌∷◌, ◌++◌, ltb, leb,
  length, drop, if◌then◌else◌,
}
use execution_aware_scanner.Common.Kind.{EventKind, discriminant, try_from_u8}
use execution_aware_scanner.Common.Events.{ExecEvent, FileEvent, NetEvent}
use execution_aware_scanner.Consumer.Bytes.{le_bytes, le_value, capacity, take, byte_at, head_byte}

-- What a parser does with a record: it returns `None`, it returns an event, or it reads a value that
-- its type does not have, which Rust leaves undefined.
pub data Parsed (A : Type 0) : Type 0 where
  rejected undefined_value : Parsed A
  parsed : A → Parsed A

-- `size_of`: the fields, and padding up to a multiple of eight bytes.
abbrev pub exec_size : ℕ
exec_size = 312

abbrev pub file_size : ℕ
file_size = 304

abbrev pub net_size : ℕ
net_size = 48

-- `EventKind::try_from_u8(b).is_some()`
abbrev pub is_some : {A : Type 0} → Option A → Bool
is_some none = false
is_some (some a) = true

abbrev pub with_kind : {A : Type 0} → (EventKind → A) → Option EventKind → Parsed A
with_kind make none = undefined_value
with_kind make (some kind) = parsed (make kind)

-- `read_unaligned` of each record: its fields one after another.
unfoldable pub read_exec : List ℕ → ExecEvent
read_exec d =
    let d_pid = drop 8 d in
    let d_tgid = drop 4 d_pid in
    let d_uid = drop 4 d_tgid in
    let d_gid = drop 4 d_uid in
    let d_cgroup = drop 4 d_gid in
    let d_ppid = drop 8 d_cgroup in
    let d_command = drop 4 d_ppid in
    let d_argv = drop 16 d_command in
    record {
      timestamp_ns = le_value (take 8 d);
      pid = le_value (take 4 d_pid);
      tgid = le_value (take 4 d_tgid);
      uid = le_value (take 4 d_uid);
      gid = le_value (take 4 d_gid);
      cgroup_id = le_value (take 8 d_cgroup);
      ppid = le_value (take 4 d_ppid);
      command = take 16 d_command;
      argv = take 256 d_argv;
    }

unfoldable pub read_file : List ℕ → Parsed FileEvent
read_file d =
    let d_pid = drop 8 d in
    let d_tgid = drop 4 d_pid in
    let d_cgroup = drop 4 d_tgid in
    let d_command = drop 8 d_cgroup in
    let d_path = drop 16 d_command in
    let d_kind = drop 256 d_path in
    with_kind
      (λ kind. record {
        timestamp_ns = le_value (take 8 d);
        pid = le_value (take 4 d_pid);
        tgid = le_value (take 4 d_tgid);
        cgroup_id = le_value (take 8 d_cgroup);
        command = take 16 d_command;
        path = take 256 d_path;
        kind = kind;
      })
      (try_from_u8 (head_byte d_kind))

unfoldable pub read_net : List ℕ → Parsed NetEvent
read_net d =
    let d_pid = drop 8 d in
    let d_tgid = drop 4 d_pid in
    let d_cgroup = drop 4 d_tgid in
    let d_saddr = drop 8 d_cgroup in
    let d_daddr = drop 4 d_saddr in
    let d_sport = drop 4 d_daddr in
    let d_dport = drop 2 d_sport in
    let d_family = drop 2 d_dport in
    let d_protocol = drop 2 d_family in
    let d_kind = drop 1 d_protocol in
    let d_size = drop 1 d_kind in
    with_kind
      (λ kind. record {
        timestamp_ns = le_value (take 8 d);
        pid = le_value (take 4 d_pid);
        tgid = le_value (take 4 d_tgid);
        cgroup_id = le_value (take 8 d_cgroup);
        saddr = le_value (take 4 d_saddr);
        daddr = le_value (take 4 d_daddr);
        sport = le_value (take 2 d_sport);
        dport = le_value (take 2 d_dport);
        family = le_value (take 2 d_family);
        protocol = head_byte d_protocol;
        kind = kind;
        data_size = le_value (take 4 d_size);
      })
      (try_from_u8 (head_byte d_kind))

unfoldable pub parse_exec_event : List ℕ → Parsed ExecEvent
unfolding read_exec
parse_exec_event d = if ltb (length d) exec_size then rejected else parsed (read_exec d)

-- `kind_offset` is `size_of::<FileEvent>() - 1`.
unfoldable pub parse_file_event : List ℕ → Parsed FileEvent
unfolding read_file
parse_file_event d =
    if ltb (length d) file_size
    then rejected
    else if not (is_some (try_from_u8 (byte_at 303 d)))
    then rejected
    else read_file d

-- `NET_EVENT_KIND_OFFSET` is 73.
unfoldable pub parse_net_event : List ℕ → Parsed NetEvent
unfolding read_net
parse_net_event d =
    if ltb (length d) net_size
    then rejected
    else if leb (length d) 73 || not (is_some (try_from_u8 (byte_at 73 d)))
    then rejected
    else read_net d

-- The memory of a record with its padding, as the kernel programs hand it over.
unfoldable pub exec_memory : ExecEvent → List ℕ → List ℕ
exec_memory e padding =
    le_bytes 8 e.timestamp_ns
    ++ (le_bytes 4 e.pid
        ++ (le_bytes 4 e.tgid
            ++ (le_bytes 4 e.uid
                ++ (le_bytes 4 e.gid
                    ++ (le_bytes 8 e.cgroup_id
                        ++ (le_bytes 4 e.ppid ++ (e.command ++ (e.argv ++ padding))))))))

unfoldable pub file_memory : FileEvent → List ℕ → List ℕ
file_memory e padding =
    le_bytes 8 e.timestamp_ns
    ++ (le_bytes 4 e.pid
        ++ (le_bytes 4 e.tgid
            ++ (le_bytes 8 e.cgroup_id
                ++ (e.command ++ (e.path ++ (discriminant e.kind ∷ padding))))))

unfoldable pub net_memory : NetEvent → List ℕ → List ℕ
net_memory e padding =
    le_bytes 8 e.timestamp_ns
    ++ (le_bytes 4 e.pid
        ++ (le_bytes 4 e.tgid
            ++ (le_bytes 8 e.cgroup_id
                ++ (le_bytes 4 e.saddr
                    ++ (le_bytes 4 e.daddr
                        ++ (le_bytes 2 e.sport
                            ++ (le_bytes 2 e.dport
                                ++ (le_bytes 2 e.family
                                    ++ (e.protocol
                                        ∷ discriminant e.kind
                                        ∷ (le_bytes 4 e.data_size ++ padding))))))))))

-- The fields of a record are of their types.
pub record IsExec (e : ExecEvent) : Type 0 where
  pub timestamp_ns : e.timestamp_ns < capacity 8
  pub pid : e.pid < capacity 4
  pub tgid : e.tgid < capacity 4
  pub uid : e.uid < capacity 4
  pub gid : e.gid < capacity 4
  pub cgroup_id : e.cgroup_id < capacity 8
  pub ppid : e.ppid < capacity 4
  pub command : length e.command ≡ 16
  pub argv : length e.argv ≡ 256

pub record IsFile (e : FileEvent) : Type 0 where
  pub timestamp_ns : e.timestamp_ns < capacity 8
  pub pid : e.pid < capacity 4
  pub tgid : e.tgid < capacity 4
  pub cgroup_id : e.cgroup_id < capacity 8
  pub command : length e.command ≡ 16
  pub path : length e.path ≡ 256
