-- ===== src/Consumer/Records/RoundTrip.antt =====
-- What the parsers make of a record that the kernel programs hand over.
use execution_aware_scanner.Prelude.{
  ℕ, ◌+◌, ◌≡◌, refl, ap, ◌∙◌, Bool, true, false, not, List, ◌∷◌, ◌++◌, ltb, leb, arith, length,
  length-append, drop, if◌then◌else◌,
}
use execution_aware_scanner.Common.Kind.{discriminant, try_from_u8, try_from_u8_iff}
use execution_aware_scanner.Common.Events.{ExecEvent, FileEvent, NetEvent}
use execution_aware_scanner.Consumer.Bytes.{
  le_bytes, byte_at, head_byte, length-le_bytes, word-first, array-first, drop-append,
}
use execution_aware_scanner.Consumer.Records.{
  rejected, parsed, exec_size, file_size, net_size, is_some, read_exec, read_file, parse_exec_event,
  parse_file_event, parse_net_event, exec_memory, file_memory, net_memory, IsExec, IsFile,
}

read_exec-exec_memory :
    (e : ExecEvent) (padding : List ℕ) → IsExec e → read_exec (exec_memory e padding) ≡ e
unfolding read_exec exec_memory
read_exec-exec_memory e padding b =
    let argv_on : List ℕ = e.argv ++ padding in
    let command_on : List ℕ = e.command ++ argv_on in
    let ppid_on : List ℕ = le_bytes 4 e.ppid ++ command_on in
    let cgroup_on : List ℕ = le_bytes 8 e.cgroup_id ++ ppid_on in
    let gid_on : List ℕ = le_bytes 4 e.gid ++ cgroup_on in
    let uid_on : List ℕ = le_bytes 4 e.uid ++ gid_on in
    let tgid_on : List ℕ = le_bytes 4 e.tgid ++ uid_on in
    let pid_on : List ℕ = le_bytes 4 e.pid ++ tgid_on in
    let (ts, ts') = word-first 8 e.timestamp_ns pid_on b.timestamp_ns in
    let (pid, pid') = word-first 4 e.pid tgid_on b.pid in
    let (tgid, tgid') = word-first 4 e.tgid uid_on b.tgid in
    let (uid, uid') = word-first 4 e.uid gid_on b.uid in
    let (gid, gid') = word-first 4 e.gid cgroup_on b.gid in
    let (cgroup, cgroup') = word-first 8 e.cgroup_id ppid_on b.cgroup_id in
    let (ppid, ppid') = word-first 4 e.ppid command_on b.ppid in
    let (command, command') = array-first e.command argv_on 16 b.command in
    let (argv, argv') = array-first e.argv padding 256 b.argv in
    rw
      (
        ts, ts', pid, pid', tgid, tgid', uid, uid', gid, gid', cgroup, cgroup', ppid, ppid',
        command, command', argv,
      )
      refl

read_file-file_memory :
    (e : FileEvent) (padding : List ℕ) → IsFile e → read_file (file_memory e padding) ≡ parsed e
unfolding read_file file_memory
read_file-file_memory e padding b =
    let kind_on : List ℕ = discriminant e.kind ∷ padding in
    let path_on : List ℕ = e.path ++ kind_on in
    let command_on : List ℕ = e.command ++ path_on in
    let cgroup_on : List ℕ = le_bytes 8 e.cgroup_id ++ command_on in
    let tgid_on : List ℕ = le_bytes 4 e.tgid ++ cgroup_on in
    let pid_on : List ℕ = le_bytes 4 e.pid ++ tgid_on in
    let (ts, ts') = word-first 8 e.timestamp_ns pid_on b.timestamp_ns in
    let (pid, pid') = word-first 4 e.pid tgid_on b.pid in
    let (tgid, tgid') = word-first 4 e.tgid cgroup_on b.tgid in
    let (cgroup, cgroup') = word-first 8 e.cgroup_id command_on b.cgroup_id in
    let (command, command') = array-first e.command path_on 16 b.command in
    let (path, path') = array-first e.path kind_on 256 b.path in
    let kind = (try_from_u8_iff (discriminant e.kind) e.kind).1 refl in
    rw (ts, ts', pid, pid', tgid, tgid', cgroup, cgroup', command, command', path, path', kind) refl

length-word : (w n : ℕ) (r : List ℕ) → length (le_bytes w n ++ r) ≡ w + length r
length-word w n r = omega (arith, length-append (le_bytes w n) r, length-le_bytes w n)

length-exec_memory :
    (e : ExecEvent) (padding : List ℕ)
    → IsExec e
    → length (exec_memory e padding) ≡ 308 + length padding
unfolding exec_memory
length-exec_memory e padding b =
    rw
      (
        length-word 8 e.timestamp_ns,
        length-word 4 e.pid,
        length-word 4 e.tgid,
        length-word 4 e.uid,
        length-word 4 e.gid,
        length-word 8 e.cgroup_id,
        length-word 4 e.ppid,
        length-append e.command,
        length-append e.argv,
      )
      (omega (arith, b.command, b.argv))

length-file_memory :
    (e : FileEvent) (padding : List ℕ)
    → IsFile e
    → length (file_memory e padding) ≡ 297 + length padding
unfolding file_memory
length-file_memory e padding b =
    rw
      (
        length-word 8 e.timestamp_ns,
        length-word 4 e.pid,
        length-word 4 e.tgid,
        length-word 8 e.cgroup_id,
        length-append e.command,
        length-append e.path,
      )
      (omega (arith, b.command, b.path))

length-net_memory :
    (e : NetEvent) (padding : List ℕ) → length (net_memory e padding) ≡ 44 + length padding
unfolding net_memory
length-net_memory e padding =
    rw
      (
        length-word 8 e.timestamp_ns,
        length-word 4 e.pid,
        length-word 4 e.tgid,
        length-word 8 e.cgroup_id,
        length-word 4 e.saddr,
        length-word 4 e.daddr,
        length-word 2 e.sport,
        length-word 2 e.dport,
        length-word 2 e.family,
        length-word 4 e.data_size,
      )
      (omega arith)

-- A record of a process's start comes out of the parser as it went into memory, whatever its four
-- bytes of padding hold.
parse_exec_event-exec_memory :
    (e : ExecEvent) (padding : List ℕ)
    → IsExec e
    → length padding ≡ 4
    → parse_exec_event (exec_memory e padding) ≡ parsed e
unfolding parse_exec_event
parse_exec_event-exec_memory e padding b p =
    let size = length-exec_memory e padding b in
    let long : ltb (length (exec_memory e padding)) exec_size ≡ false = ground (arith, size) in
    rw (long, read_exec-exec_memory e padding b) refl

drop_word : (w n : ℕ) (r : List ℕ) (m k : ℕ) → w + k ≡ m → drop m (le_bytes w n ++ r) ≡ drop k r
drop_word w n r m k h = drop-append (le_bytes w n) r m k (omega (arith, length-le_bytes w n))

-- The byte that the parser of file events checks lies in the padding.
checked_byte :
    (e : FileEvent) (padding : List ℕ)
    → IsFile e
    → byte_at 303 (file_memory e padding) ≡ byte_at 6 padding
unfolding file_memory
checked_byte e padding b = ap head_byte (
    drop_word 8 e.timestamp_ns _ 303 295 refl
    ∙ drop_word 4 e.pid _ 295 291 refl
    ∙ drop_word 4 e.tgid _ 291 287 refl
    ∙ drop_word 8 e.cgroup_id _ 287 279 refl
    ∙ drop-append e.command _ 279 263 (omega (arith, b.command))
    ∙ drop-append e.path (discriminant e.kind ∷ padding) 263 7 (omega (arith, b.path)))

-- A record of a file event is accepted exactly if the last of its seven bytes of padding happens to
-- hold the tag of some event, whatever event the record is of, and then it comes out as it went in.
parse_file_event-file_memory :
    (e : FileEvent) (padding : List ℕ)
    → IsFile e
    → length padding ≡ 7
    → parse_file_event (file_memory e padding)
      ≡ (if is_some (try_from_u8 (byte_at 6 padding)) then parsed e else rejected)
unfolding parse_file_event
parse_file_event-file_memory e padding b p =
    let size = length-file_memory e padding b in
    let long : ltb (length (file_memory e padding)) file_size ≡ false = ground (arith, size) in
    rw (long, checked_byte e padding b, read_file-file_memory e padding b)
      (by_tag (is_some (try_from_u8 (byte_at 6 padding))))
  where
    by_tag :
        (tagged : Bool)
        → (if not tagged then rejected else parsed e) ≡ (if tagged then parsed e else rejected)
    by_tag true = refl
    by_tag false = refl

-- A record of a network event has the size that the parser asks for, but the parser then looks for
-- the event's tag past the end of it: every record, with its four bytes of padding, is rejected.
pub parse_net_event-net_memory :
    (e : NetEvent) (padding : List ℕ)
    → length padding ≡ 4
    → (length (net_memory e padding) ≡ net_size)
      × (parse_net_event (net_memory e padding) ≡ rejected)
unfolding parse_net_event
parse_net_event-net_memory e padding p =
    let size = length-net_memory e padding in
    let long : ltb (length (net_memory e padding)) net_size ≡ false = ground (arith, size) in
    let short : leb (length (net_memory e padding)) 73 ≡ true = ground (arith, size) in
    (omega (arith, size), rw (long, short) refl)
