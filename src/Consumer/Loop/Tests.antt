-- ===== src/Consumer/Loop/Tests.antt =====
-- Two rounds of the loop, and a shutdown.
use execution_aware_scanner.Prelude.{ℕ, ◌≡◌, refl, true, none, some, List, [], ◌∷◌}
use execution_aware_scanner.Text.{Text, codes, compare_text}
use execution_aware_scanner.Float.Fixed.{Fixed, fixed_float}
use execution_aware_scanner.Cgroup.{new}
use execution_aware_scanner.Consumer.Tests.{exec_ring, consumer, shared}
use execution_aware_scanner.Consumer.Flush.{process_node}
use execution_aware_scanner.Consumer.Loop.{Running, Round, Input, tick, shutdown_changed, run}
use execution_aware_scanner.Consumer.Loop.Delivery.{IsOlder, all_starts, run_delivers}

abbrev running : Running Fixed
running = record {
  shared = record shared { consumer = record consumer { net_rb = some [] } };
  security_rb = none;
  has_sender = true;
  bus = record { resolver = new (codes "/proc"); walks = []; emitted = [] };
}

abbrev quiet : ℕ → Round
quiet time = record {
  exec_records = [];
  file_records = [];
  net_records = [];
  security_records = [];
  now = time;
  checked = time;
  flushed_at = time;
}

abbrev rounds : List Input
rounds =
    tick (quiet 5)
    ∷ tick (record (quiet 9) { exec_records = exec_ring })
    ∷ shutdown_changed true 20
    ∷ tick (record (quiet 30) { exec_records = exec_ring })
    ∷ []

running-IsOlder : IsOlder running
running-IsOlder = record {
  no_security = refl;
  has_sender = refl;
  defined = record { files = tt; nets = tt; has_exec = refl };
}

run_delivers_example :
    (b : Running Fixed) × ((run running rounds ≡ some b)
      × (all_starts b ≡ process_node 10 (codes "bash") ∷ process_node 10 (codes "bash") ∷ []))
unfolding execution_aware_scanner.Consumer.Records.parse_exec_event
    execution_aware_scanner.Consumer.Records.exec_memory
    execution_aware_scanner.Consumer.Bytes.le_bytes
    execution_aware_scanner.Consumer.Filter.should_filter_exec
    execution_aware_scanner.Text.starts_with execution_aware_scanner.Common.CString.c_string
    execution_aware_scanner.Consumer.Bytes.le_value
run_delivers_example = run_delivers running rounds running-IsOlder ((tt, tt), ((tt, tt), tt))
