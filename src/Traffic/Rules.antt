-- ===== src/Traffic/Rules.antt =====
-- The data of scanner-agent/src/tc_enforcer.rs and the messages of its errors. An address is the
-- number that it converts to.
use execution_aware_scanner.Prelude.{ℕ, Bool, true, false, Option, none, some, List, ◌++◌}
use execution_aware_scanner.Text.{Text, codes}
use execution_aware_scanner.Outcome.{Result, ok, err, ScannerError, bpf, display_error}
use execution_aware_scanner.Containers.Order.{nat_ord, text_ord}
use execution_aware_scanner.Traffic.KernelMaps.{
  MapName, xdp_map, tc_map, denylist_map, Access, not_found,
}

pub data TrafficRule : Type 0 where
  block_ip_rule : ℕ → Text → TrafficRule
  block_port_rule : ℕ → Text → TrafficRule
  block_domain_rule : Text → Text → TrafficRule

pub record EnforcementResult : Type 0 where
  pub rule : TrafficRule
  pub applied : Bool
  pub error : Option Text

pub data C2Indicator : Type 0 where
  ip_indicator : ℕ → C2Indicator
  domain_indicator : Text → C2Indicator
  port_indicator : ℕ → C2Indicator

-- `export_rules`
pub record TrafficRules : Type 0 where
  pub blocked_ips : List ℕ
  pub blocked_ports : List ℕ
  pub blocked_domains : List Text
  pub last_updated : ℕ

-- The background task that a quarantine spawns: after the duration it loads the object at the path
-- and removes the control group from that object's denylist.
pub record Unquarantine : Type 0 where
  pub cgroup_id : ℕ
  pub duration : ℕ
  pub bpf_path : Option Text

abbrev pub map_name : MapName → Text
map_name xdp_map = codes "XDP_BLOCKED_IPS"
map_name tc_map = codes "BLOCKED_IPS"
map_name denylist_map = codes "DENYLIST"

abbrev pub missing : MapName → ScannerError
missing n = bpf (map_name n ++ codes " map not found")

abbrev pub finished : {M : Type 0} → Text → M × Option Text → M × Option ScannerError
finished message (m, none) = (m, none)
finished message (m, some e) = (m, some (bpf (message ++ e)))

abbrev pub is_missing : Access → Bool
is_missing not_found = true
is_missing _ = false

abbrev pub c2_reason : Text
c2_reason = codes "C2 indicator"

abbrev pub c2_result : ℕ → Result EnforcementResult → EnforcementResult
c2_result ip (ok result) = result
c2_result ip (err e) = record {
  rule = block_ip_rule ip c2_reason;
  applied = false;
  error = some (display_error e);
}

abbrev pub denylist_insert : Text
denylist_insert = codes "Failed to quarantine: "

abbrev pub denylist_remove : Text
denylist_remove = codes "Failed to unquarantine: "

abbrev pub denylist_access : Text
denylist_access = codes "Failed to access denylist: "

abbrev pub xdp_access : Text
xdp_access = codes "Failed to access XDP map: "

abbrev pub xdp_insert : Text
xdp_insert = codes "Failed to block IP: "

abbrev pub tc_insert : Text
tc_insert = codes "Failed to block IP in TC: "
