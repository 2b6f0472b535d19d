-- ===== src/Consumer/Tests.antt =====
-- Records of small events, and calls that empty a ring buffer.
use execution_aware_scanner.Prelude.{
  ℕ, zero, suc, ◌+◌, ◌%◌, ◌≡◌, refl, some, List, [], ◌∷◌, ◌++◌, arith,
}
use execution_aware_scanner.Text.{codes}
use execution_aware_scanner.Clock.{u64_mod}
use execution_aware_scanner.Common.Kind.{open_, connect}
use execution_aware_scanner.Common.Events.{ExecEvent, FileEvent, NetEvent}
use execution_aware_scanner.Float.Fixed.{Fixed, fixed_float}
use execution_aware_scanner.State.Store.{new_store, apply_exec}
use execution_aware_scanner.Consumer.Records.{
  parse_exec_event, exec_memory, net_memory, IsExec, IsFile,
}
use execution_aware_scanner.Consumer.Security.Batch
use execution_aware_scanner.Consumer.Security.Batch.{consume_security_batch}
use execution_aware_scanner.Consumer.Security.Delivery.{IsTaken, consume_security_batch_lem}
use execution_aware_scanner.Consumer.Filter.{should_filter_exec}
use execution_aware_scanner.Consumer.Intake.{
  EventConsumer, Shared, start, stop, consume_exec_batch, consume_net_batch,
}
use execution_aware_scanner.Consumer.Intake.Accounting.{IsAccounted}
use execution_aware_scanner.Consumer.Intake.Batches.{consume_exec_batch_lem, consume_net_batch_lem}

abbrev pub zeros : ℕ → List ℕ
zeros zero = []
zeros (suc n) = 0 ∷ zeros n

abbrev pub bash_start : ExecEvent
bash_start = record {
  timestamp_ns = 5;
  pid = 10;
  tgid = 10;
  uid = 0;
  gid = 0;
  cgroup_id = 7;
  ppid = 1;
  command = codes "bash" ++ zeros 12;
  argv = zeros 256;
}

bash_start-IsExec : IsExec bash_start
bash_start-IsExec = record {
  timestamp_ns = omega arith;
  pid = omega arith;
  tgid = omega arith;
  uid = omega arith;
  gid = omega arith;
  cgroup_id = omega arith;
  ppid = omega arith;
  command = refl;
  argv = refl;
}

abbrev pub passwd_open : FileEvent
passwd_open = record {
  timestamp_ns = 5;
  pid = 10;
  tgid = 10;
  cgroup_id = 7;
  command = codes "bash" ++ zeros 12;
  path = codes "/etc/passwd" ++ zeros 245;
  kind = open_;
}

passwd_open-IsFile : IsFile passwd_open
passwd_open-IsFile = record {
  timestamp_ns = omega arith;
  pid = omega arith;
  tgid = omega arith;
  cgroup_id = omega arith;
  command = refl;
  path = refl;
}

abbrev pub web_request : NetEvent
web_request = record {
  timestamp_ns = 5;
  pid = 10;
  tgid = 10;
  cgroup_id = 7;
  saddr = 1;
  daddr = 2;
  sport = 40000;
  dport = 443;
  family = 2;
  protocol = 6;
  kind = connect;
  data_size = 100;
}

abbrev pub exec_ring : List (List ℕ)
exec_ring = exec_memory bash_start (zeros 4) ∷ [] ∷ []

abbrev pub net_ring : List (List ℕ)
net_ring = net_memory web_request (zeros 4) ∷ []

abbrev pub consumer : EventConsumer
consumer = record {
  exec_rb = some exec_ring;
  file_rb = some [];
  net_rb = some net_ring;
  exec_batch = [];
  file_batch = [];
  net_batch = [];
  batch_size = 100;
  batch_timeout = 100_000_000;
  last_flush = 0;
  events_received = 0;
  events_dropped = 0;
  events_filtered = 0;
  batches_processed = 0;
}

abbrev pub shared : Shared Fixed
shared = record { consumer = consumer; state = new_store; events = 0 }

consume_exec_batch_lem_example :
    (a : IsAccounted parse_exec_event should_filter_exec apply_exec 100 exec_ring (start shared []))
    × (consume_exec_batch shared
        ≡ some
            (stop a.final (record consumer { exec_rb = some a.rest; exec_batch = a.final.batch })))
consume_exec_batch_lem_example = consume_exec_batch_lem shared exec_ring refl

consume_net_batch_lem_example :
    consume_net_batch shared
    ≡ some (
      record shared {
        consumer = record consumer {
          net_rb = some [];
          events_received = (0 + 1) % u64_mod;
          events_dropped = (0 + 1) % u64_mod;
        };
      },
      0,
    )
consume_net_batch_lem_example =
    consume_net_batch_lem shared net_ring refl ((web_request, (zeros 4, (refl, refl))), tt)
      (omega arith) (omega arith) (omega arith)

-- A record of a start of `bash`, and one that is too short.
abbrev security_ring : List (List ℕ)
security_ring =
    (zeros 8 ++ (0 ∷ zeros 23) ++ (7 ∷ zeros 143) ++ (codes "bash" ++ zeros 12)) ∷ zeros 8 ∷ []

abbrev nothing_yet : Batch.Progress Fixed
nothing_yet = record {
  exec_batch = [];
  file_batch = [];
  net_batch = [];
  received = 0;
  dropped = 0;
  filtered = 0;
  store = new_store;
  counted = 0;
  count = 0;
}

consume_security_batch_lem_example :
    IsTaken 100 security_ring nothing_yet (consume_security_batch 100 security_ring nothing_yet)
consume_security_batch_lem_example = consume_security_batch_lem 100 security_ring nothing_yet
