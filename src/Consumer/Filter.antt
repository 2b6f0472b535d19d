-- ===== src/Consumer/Filter.antt =====
-- Which events scanner-agent/src/event_consumer.rs leaves out.
use execution_aware_scanner.Prelude.{
  ◌/◌, ◌%◌, ◌^◌, Bool, true, false, not, ◌&&◌, ◌||◌, List, [], ◌∷◌, ◌==◌, if◌then◌else◌, any,
}
use execution_aware_scanner.Text.{Text, codes, starts_with, ends_with}
use execution_aware_scanner.Common.CString.{c_string}
use execution_aware_scanner.Common.Kind.{EventKind, mmap}
use execution_aware_scanner.Common.Events.{ExecEvent, FileEvent, NetEvent}

abbrev pub system_procs : List Text
system_procs =
    codes "kworker"
    ∷ codes "ksoftirqd"
    ∷ codes "migration"
    ∷ codes "rcu_gp"
    ∷ codes "rcu_par_gp"
    ∷ codes "kthre"
    ∷ codes "systemd"
    ∷ codes "dbus-daemon"
    ∷ codes "networkd"
    ∷ codes "resolved"
    ∷ []

unfoldable pub should_filter_exec : ExecEvent → Bool
should_filter_exec e =
    let command = c_string e.command in any (λ (p : Text). starts_with command p) system_procs

-- `== EventKind::Mmap`
abbrev is_mmap : EventKind → Bool
is_mmap mmap = true
is_mmap _ = false

unfoldable pub should_filter_file : FileEvent → Bool
should_filter_file e =
    let path = c_string e.path in
    if (starts_with path (codes "/tmp/") || starts_with path (codes "/var/tmp/"))
      && (not (ends_with path (codes ".so")) && is_mmap e.kind)
    then true
    else starts_with path (codes "/proc/") || starts_with path (codes "/sys/")

-- `daddr & 0xFF` and `daddr >> 24 & 0xFF`
unfoldable pub should_filter_net : NetEvent → Bool
should_filter_net e = e.daddr % 256 == 0x7f || (e.daddr / 2 ^ 24) % 256 == 0x7f
