-- ===== src/State/Tests.antt =====
-- Runs of the state store and of the store of findings on small data.
use execution_aware_scanner.Prelude.{ℕ, ◌≡◌, refl, true, false, none, some, List, [], ◌∷◌, keep}
use execution_aware_scanner.Text.{Text, codes, decimal, compare_text}
use execution_aware_scanner.Common.Kind.{connect}
use execution_aware_scanner.Containers.Order.{nat_ord, text_ord}
use execution_aware_scanner.Containers.OrdMap.{lookup, update}
use execution_aware_scanner.Containers.OrdSet.{insert as insert_entry}
use execution_aware_scanner.Containers.Ring.{newest}
use execution_aware_scanner.Float.Fixed.{Fixed, fixed_float}
use execution_aware_scanner.State.Workload.{
  WorkloadState, default_workload, max_signals, capped_insert,
}
use execution_aware_scanner.State.Store.{
  new_store, Event, net_event, net_entry, apply, apply_net, apply_all, workload,
}
use execution_aware_scanner.State.Bounds.{IsBounded, workload-IsBounded}
use execution_aware_scanner.State.Isolation.{own, workload_isolated}
use execution_aware_scanner.State.Traffic.{signals_of, raised_by, signals-newest}
use execution_aware_scanner.State.Findings.{
  FindingSummary, FindingStore, ok, mark, acknowledge, acknowledge_first,
}

abbrev sends : ℕ → ℕ → Event
sends cgroup size = net_event (record {
  timestamp_ns = 5;
  pid = 10;
  tgid = 10;
  cgroup_id = cgroup;
  saddr = 1;
  daddr = 2;
  sport = 40000;
  dport = 443;
  family = 2;
  protocol = 6;
  kind = connect;
  data_size = size;
})

abbrev traffic : List Event
traffic = sends 7 2000 ∷ sends 8 10 ∷ sends 7 500 ∷ []

abbrev one_event : List Event
one_event = sends 7 20 ∷ []

abbrev seen : WorkloadState Fixed
seen = record default_workload {
  observed_syscalls = codes "connect" ∷ [];
  network_flows = codes "1:40000->2:443" ∷ [];
  data_transferred_bytes = 20;
}

workload_of_7 : workload (apply_all (new_store {F = Fixed}) one_event) 7 ≡ some seen
unfolding apply_all apply apply_net net_entry workload lookup update capped_insert insert_entry
    decimal
workload_of_7 = refl

workload-IsBounded_example : IsBounded seen
workload-IsBounded_example = workload-IsBounded one_event 7 workload_of_7

workload_isolated_example :
    workload (apply_all (new_store {F = Fixed}) traffic) 7
    ≡ workload (apply_all new_store (keep (own 7) traffic)) 7
workload_isolated_example = workload_isolated new_store traffic 7

signals-newest_example :
    signals_of (workload (apply_all (new_store {F = Fixed}) traffic) 7)
    ≡ newest max_signals (raised_by 7 traffic)
signals-newest_example = signals-newest traffic 7

-- `Finding`s are told apart by their ids here.
abbrev shown : Text → Text → FindingSummary Fixed
shown id priority = record {
  id = id;
  detected_at = 1;
  cve = codes "CVE-2025-1";
  cvss = some 980;
  epss = some 91;
  kev = true;
  priority = priority;
  namespace = codes "default";
  workload = codes "nginx";
  pod_name = codes "nginx-0";
  score = some 950;
  recommendation = [];
  acknowledged = false;
  acknowledged_at = none;
  acknowledged_by = none;
}

abbrev two_findings : FindingStore Fixed
two_findings = record {
  findings = shown (codes "a") (codes "Critical") ∷ shown (codes "b") (codes "Low") ∷ [];
}

abbrev marked : FindingStore Fixed
marked = record {
  findings =
      shown (codes "a") (codes "Critical") ∷ mark (shown (codes "b") (codes "Low")) 9 none ∷ [];
}

marked_ok : acknowledge two_findings (codes "b") 9 none ≡ ok marked
unfolding acknowledge acknowledge_first compare_text
marked_ok = refl
