-- ===== src/Enforcement/Tests.antt =====
-- Runs of the enforcers on small data.
use execution_aware_scanner.Prelude.{
  ℕ, ◌≡◌, refl, ◌↔◌, true, some, none, [], ◌∷◌, ◌++◌, arith, if◌then◌else◌, length, All, map, false,
}
use execution_aware_scanner.Text.{Text, codes}
use execution_aware_scanner.Clock.{secs}
use execution_aware_scanner.Outcome.{ok}
use execution_aware_scanner.Containers.Order.{text_ord, ◌=?◌}
use execution_aware_scanner.Containers.OrdSet.{OrdSet}
use execution_aware_scanner.Float.Fixed.{Fixed, fixed_float}
use execution_aware_scanner.Common.Finding.{Finding, critical}
use execution_aware_scanner.Fixtures.{finding_of_cve}
use execution_aware_scanner.Risk.Evaluate.{RiskConfig}
use execution_aware_scanner.Enforcement.Sanitize.{sanitize_shell_arg}
use execution_aware_scanner.Enforcement.Sanitize.Commands.{IsPlain}
use execution_aware_scanner.Enforcement.Safe
use execution_aware_scanner.Enforcement.Plan.{
  enforcing, network_block, quarantine, applied_message, rollback_of,
}
use execution_aware_scanner.Enforcement.Safe.{
  SafeEnforcer, evaluate, enforce, rollback, rollback_all, report, Attempt, attempt, run,
}
use execution_aware_scanner.Enforcement.Safe.Gate.{Approved, enforce_iff_Approved, cooldown_blocks}
use execution_aware_scanner.Enforcement.Safe.Rollback.{rollback_all-IsPlain, rollback-enforce}
use execution_aware_scanner.Enforcement.Controller
use execution_aware_scanner.Enforcement.Controller.{
  EnforcementAction, EnforcementStatus, RemediatorConfig, Readings, process_finding, get_status,
}
use execution_aware_scanner.Enforcement.Controller.Process.{
  due, IsReported, remembered, under_way, process_finding_lem,
}

abbrev minima : RiskConfig Fixed
minima = record { minimum_cvss = some 700; minimum_epss = some 40 }

abbrev enforcer : SafeEnforcer Fixed
enforcer = record {
  mode = enforcing;
  risk_config = minima;
  applied_actions = [];
  cooldown_until = none;
}

abbrev show : ℕ → Text
show n = []

-- A CVE with a character that is not safe in a shell.
abbrev first : Attempt Fixed
first = record {
  finding = finding_of_cve (codes "CVE-1;");
  action = network_block (codes "10.0.0.1") 443;
  epss = some 91;
  kev = true;
  now = secs 1;
  stamped = secs 1;
  cooled = secs 2;
}

abbrev second : Attempt Fixed
second = record first { now = secs 200; action = quarantine (codes "default") (codes "nginx-0") }

first_applied :
    (attempt show enforcer first).1 ≡ ok (applied_message (sanitize_shell_arg (codes "CVE-1;")))
unfolding attempt enforce evaluate
first_applied = refl

enforce_iff_Approved_example :
    ((enforce show enforcer first.finding first.action (some 91) true (secs 1) (secs 1) (secs 2)).1
      ≡ ok (applied_message (sanitize_shell_arg (codes "CVE-1;"))))
    ↔ Approved enforcer first.finding (some 91) true (secs 1)
enforce_iff_Approved_example =
    enforce_iff_Approved show enforcer first.finding first.action (some 91) true (secs 1) (secs 1)
      (secs 2)

cooldown_blocks_example :
    run show (attempt show enforcer first).0 (second ∷ []) ≡ (attempt show enforcer first).0
cooldown_blocks_example =
    cooldown_blocks show enforcer first (second ∷ []) first_applied (omega arith, tt)

rollback_all-IsPlain_example :
    let e = run show (Safe.new enforcing minima) (first ∷ second ∷ []) in
    (length (rollback_all e) ≡ (report e).total_enforced)
    × ((report e).total_enforced ≡ (report e).rollback_available)
    × All (λ (r : Text × Text). IsPlain r.1) (rollback_all e)
rollback_all-IsPlain_example = rollback_all-IsPlain show enforcing minima (first ∷ second ∷ [])

rollback-enforce_example : rollback (attempt show enforcer first).0 (codes "CVE-1") ≡ (
    if codes "CVE-1" =? sanitize_shell_arg (codes "CVE-1;")
    then ok (codes "To rollback, execute: " ++ rollback_of first.action)
    else rollback enforcer (codes "CVE-1"))
rollback-enforce_example = rollback-enforce show enforcer first (codes "CVE-1") first_applied

abbrev seen_calls : OrdSet Text
seen_calls = codes "openat" ∷ codes "read" ∷ []

abbrev remediator : RemediatorConfig
remediator = record {
  enabled = true;
  address = codes "http://localhost:9000";
  timeout_secs = 5;
  max_retries = 3;
  enforce_critical = true;
  enforce_high = false;
  auto_seccomp = true;
  auto_quarantine = false;
}

abbrev readings : EnforcementAction → Readings
readings action = record {
  started = secs 10;
  generated_at = codes "1970-01-01T00:00:10Z";
  finished = secs 11;
}

abbrev urgent : Finding Fixed
urgent = finding_of_cve (codes "CVE-1")

process_finding_lem_example :
    let (after, statuses) = process_finding (Controller.new remediator) urgent readings in
    (map (λ (s : EnforcementStatus). s.action) statuses ≡ due true critical)
    × All (IsReported readings) statuses
    × (get_status after urgent.identity.workload
        ≡ get_status (Controller.new remediator) urgent.identity.workload
          ++ (if urgent.identity.workload =? urgent.identity.workload
              then remembered true critical urgent.identity.workload (secs 10)
              else []))
    × (after.blocked_ips ≡ (Controller.new remediator).blocked_ips)
    × (after.syscall_baselines ≡ (Controller.new remediator).syscall_baselines)
unfolding Controller.new
process_finding_lem_example =
    process_finding_lem (Controller.new remediator) urgent readings urgent.identity.workload

one_profile_is_under_way :
    get_status
      (process_finding (Controller.new remediator) urgent readings).0
      urgent.identity.workload
    ≡ under_way urgent.identity.workload (secs 10) ∷ []
unfolding get_status process_finding Controller.new execution_aware_scanner.Containers.OrdMap.lookup
    execution_aware_scanner.Containers.OrdMap.update execution_aware_scanner.Text.compare_text
one_profile_is_under_way = refl
