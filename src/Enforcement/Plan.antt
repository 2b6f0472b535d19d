-- ===== src/Enforcement/Plan.antt =====
-- The data of scanner-agent/src/safe_enforcement.rs, the decision on it, its messages, and the
-- command that undoes an action.
use execution_aware_scanner.Prelude.{
  ℕ, Bool, true, false, ◌&&◌, Option, none, some, List, [], ◌∷◌, ◌++◌, if◌then◌else◌,
}
use execution_aware_scanner.Text.{Text, codes, decimal, join}
use execution_aware_scanner.Outcome.{ScannerError, bpf}
use execution_aware_scanner.Common.Finding.{Priority, critical}
use execution_aware_scanner.Containers.Order.{text_ord}
use execution_aware_scanner.Enforcement.Sanitize.{sanitize_shell_arg, sanitize_path, sanitize_ip}

pub data EnforcementMode : Type 0 where
  audit warn enforcing : EnforcementMode

pub record SafetyCheckResult : Type 0 where
  pub runtime_proven : Bool
  pub epss_threshold_met : Bool
  pub kev_confirmed : Bool
  pub has_rollback_plan : Bool
  pub production_safe : Bool

pub record EnforcementDecision : Type 0 where
  pub should_enforce : Bool
  pub mode : EnforcementMode
  pub rationale : Text
  pub safety_checks : SafetyCheckResult

pub data ActionType : Type 0 where
  seccomp_profile : (profile_path : Text) → ActionType
  network_block : (ip : Text) (port : ℕ) → ActionType
  quarantine : (namespace pod : Text) → ActionType

pub record EnforcementAction : Type 0 where
  pub cve_id : Text
  pub timestamp : ℕ
  pub action_type : ActionType
  pub rollback_command : Option Text

-- `==` with `Audit`, `== Warn`, and `matches!(…, Priority::Critical)`
abbrev pub is_audit : EnforcementMode → Bool
is_audit audit = true
is_audit _ = false

abbrev is_warn : EnforcementMode → Bool
is_warn warn = true
is_warn _ = false

abbrev pub is_critical : Priority → Bool
is_critical critical = true
is_critical _ = false

abbrev mode_part : EnforcementMode → List Text
mode_part mode =
    if is_audit mode
    then codes "Mode: AUDIT (no enforcement)" ∷ []
    else if is_warn mode
    then codes "Mode: WARN (alerts only)" ∷ []
    else []

unfoldable pub build_rationale : EnforcementMode → SafetyCheckResult → Bool → Text
build_rationale mode checks would_enforce = join (codes " | ") (
    mode_part mode
    ++ (if checks.runtime_proven then codes "✓ Runtime proven" else codes "✗ Runtime not proven")
      ∷ (if checks.epss_threshold_met
          then codes "✓ EPSS threshold met"
          else codes "✗ EPSS below threshold")
      ∷ (if checks.kev_confirmed then codes "✓ KEV confirmed" else codes "✗ Not in KEV catalog")
      ∷ (if would_enforce
          then codes "→ ENFORCEMENT APPROVED"
          else codes "→ Enforcement blocked (see safety checks)")
      ∷ [])

abbrev pub is_production_safe : SafetyCheckResult → Bool
is_production_safe checks =
    checks.runtime_proven && checks.epss_threshold_met && checks.kev_confirmed
    && checks.has_rollback_plan

-- `match self.mode`
abbrev pub may_enforce : EnforcementMode → SafetyCheckResult → Priority → Bool
may_enforce audit checks priority = false
may_enforce warn checks priority = false
may_enforce enforcing checks priority =
    checks.production_safe && is_critical priority && checks.kev_confirmed && checks.runtime_proven

-- The message of success.
abbrev pub applied_message : Text → Text
applied_message safe_cve =
    codes "Enforcement applied for " ++ safe_cve ++ codes " (tracked for rollback)"

abbrev pub blocked_error : Text → Text → ScannerError
blocked_error cve rationale =
    bpf (codes "Enforcement blocked for " ++ cve ++ codes ": " ++ rationale)

-- Of a cooldown that is under way; without one there is no such error.
abbrev pub cooling_error : (ℕ → Text) → Text → Option ℕ → ScannerError
cooling_error show cve none = bpf []
cooling_error show cve (some until) =
    bpf (codes "Enforcement cooldown active for " ++ cve ++ codes " until " ++ show until)

-- What undoes an action.
unfoldable pub rollback_of : ActionType → Text
rollback_of (seccomp_profile profile_path) =
    codes "kubectl delete seccompprofile " ++ sanitize_path profile_path
rollback_of (network_block ip port) =
    codes "tc filter del dev eth0 protocol ip prio 1 u32 match ip dst "
    ++ sanitize_ip ip
    ++ codes " match ip dport "
    ++ decimal port
    ++ codes " 0xffff"
rollback_of (quarantine namespace pod) =
    codes "kubectl label pods "
    ++ sanitize_shell_arg pod
    ++ codes " -n "
    ++ sanitize_shell_arg namespace
    ++ codes " security.execution-aware-scanner/quarantine-"
