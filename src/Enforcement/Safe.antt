-- ===== src/Enforcement/Safe.antt =====
-- `SafeEnforcer` of scanner-agent/src/safe_enforcement.rs: the gate before an action, the record of
-- what was applied, and how to take it back.
pub mod Gate
pub mod Rollback
use execution_aware_scanner.Prelude.{
  ℕ, ◌+◌, Bool, true, false, ◌&&◌, Option, none, some, List, [], ◌∷◌, ◌++◌, ltb, length,
  if◌then◌else◌,
}
use execution_aware_scanner.Text.{Text, codes, decimal, join}
use execution_aware_scanner.Clock.{secs}
use execution_aware_scanner.Outcome.{Result, ok, err, ScannerError, bpf}
use execution_aware_scanner.Common.Finding.{Finding, Priority, critical}
use execution_aware_scanner.Containers.Order.{text_ord}
use execution_aware_scanner.Containers.OrdMap.{OrdMap, lookup, insert}
use execution_aware_scanner.Float.{Float, lit, ◌≤?◌, ◌<?◌}
use execution_aware_scanner.Risk.Evaluate.{RiskConfig}
use execution_aware_scanner.Enforcement.Sanitize.{sanitize_shell_arg, sanitize_path, sanitize_ip}
use execution_aware_scanner.Enforcement.Plan.{
  EnforcementMode, audit, warn, enforcing, SafetyCheckResult, EnforcementDecision, ActionType,
  seccomp_profile, network_block, quarantine, EnforcementAction, is_audit, is_critical,
  build_rationale, is_production_safe, may_enforce, applied_message, blocked_error, cooling_error,
  rollback_of,
}

pub record SafeEnforcer (F : Type 0) : Type 0 where
  pub mode : EnforcementMode
  pub risk_config : RiskConfig F
  pub applied_actions : OrdMap Text EnforcementAction
  pub cooldown_until : Option ℕ

pub record EnforcementReport : Type 0 where
  pub total_enforced : ℕ
  pub audit_mode : Bool
  pub by_priority : OrdMap Text ℕ
  pub rollback_available : ℕ

-- `match self.applied_actions.get(cve_id)`
abbrev pub rollback_entry : Text → Option EnforcementAction → Result Text
rollback_entry cve_id none = err (bpf (codes "No enforcement found for " ++ cve_id))
rollback_entry cve_id (some action) = elim action.rollback_command [
  | none ↦ err (bpf (codes "No rollback command recorded for " ++ cve_id))
  | some cmd ↦ ok (codes "To rollback, execute: " ++ cmd)
]

abbrev pub with_command : OrdMap Text EnforcementAction → List (Text × Text)
with_command [] = []
with_command ((cve, action) ∷ actions) = elim action.rollback_command [
  | none ↦ with_command actions
  | some cmd ↦ (cve, cmd) ∷ with_command actions
]

module _ {F : Type 0} where
  unfoldable pub new : EnforcementMode → RiskConfig F → SafeEnforcer F
  new mode risk_config = record {
    mode = mode;
    risk_config = risk_config;
    applied_actions = [];
    cooldown_until = none;
  }

  -- Whatever the finding.
  abbrev pub can_rollback : SafeEnforcer F → Finding F → Bool
  can_rollback e finding = true

  unfoldable pub rollback : SafeEnforcer F → Text → Result Text
  rollback e cve_id = rollback_entry cve_id (lookup cve_id e.applied_actions)

  unfoldable pub rollback_all : SafeEnforcer F → List (Text × Text)
  rollback_all e = with_command e.applied_actions

  unfoldable pub report : SafeEnforcer F → EnforcementReport
  report e = record {
    total_enforced = length e.applied_actions;
    audit_mode = is_audit e.mode;
    by_priority = (codes "Critical", length e.applied_actions) ∷ [];
    rollback_available = length e.applied_actions;
  }

  -- `now < until`, if there is a cooldown
  abbrev pub is_cooling : SafeEnforcer F → ℕ → Bool
  is_cooling e now = elim e.cooldown_until [ none ↦ false | some until ↦ ltb now until ]

  abbrev pub record_action :
      SafeEnforcer F → Text → ActionType → (stamped cooled : ℕ) → SafeEnforcer F
  record_action e safe_cve action stamped cooled = record e {
    applied_actions =
        insert safe_cve
          (record {
            cve_id = safe_cve;
            timestamp = stamped;
            action_type = action;
            rollback_command = some (rollback_of action);
          })
          e.applied_actions;
    cooldown_until = some (cooled + secs 300);
  }

module _ {F : Type 0} ⦃f : Float F⦄ where
  abbrev pub checks_of : SafeEnforcer F → Finding F → F → Bool → SafetyCheckResult
  checks_of e finding epss kev =
      let checks : SafetyCheckResult = record {
        runtime_proven = lit 800 <? finding.score;
        epss_threshold_met = e.risk_config.minimum_epss ≤? epss;
        kev_confirmed = kev;
        has_rollback_plan = can_rollback e finding;
        production_safe = false;
      } in
      record checks { production_safe = is_production_safe checks }

  unfoldable pub evaluate : SafeEnforcer F → Finding F → F → Bool → EnforcementDecision
  unfolding build_rationale
  evaluate e finding epss kev =
      let checks = checks_of e finding epss kev in
      let decided = may_enforce e.mode checks finding.priority in
      record {
        should_enforce = decided;
        mode = e.mode;
        rationale = build_rationale e.mode checks decided;
        safety_checks = checks;
      }

  -- The clock is read for the cooldown's end, for the record's time and for the next cooldown; how
  -- an `Instant` prints is a parameter.
  unfoldable pub enforce :
      (ℕ → Text)
      → SafeEnforcer F
      → Finding F
      → ActionType
      → F
      → Bool
      → (now stamped cooled : ℕ) → SafeEnforcer F × Result Text
  unfolding evaluate rollback_of
  enforce show e finding action epss kev now stamped cooled =
      let decision = evaluate e finding epss kev in
      let safe_cve = sanitize_shell_arg finding.signal.cve in
      if decision.should_enforce
      then if is_cooling e now
        then (e, err (cooling_error show finding.signal.cve e.cooldown_until))
        else (record_action e safe_cve action stamped cooled, ok (applied_message safe_cve))
      else (e, err (blocked_error finding.signal.cve decision.rationale))

-- One call of `enforce`, with its readings of the clock.
pub record Attempt (F : Type 0) : Type 0 where
  pub finding : Finding F
  pub action : ActionType
  pub epss : F
  pub kev : Bool
  pub now : ℕ
  pub stamped : ℕ
  pub cooled : ℕ

module _ {F : Type 0} ⦃f : Float F⦄ (show : ℕ → Text) where
  unfoldable pub attempt : SafeEnforcer F → Attempt F → SafeEnforcer F × Result Text
  unfolding enforce
  attempt e a = enforce show e a.finding a.action a.epss a.kev a.now a.stamped a.cooled

  unfoldable pub run : SafeEnforcer F → List (Attempt F) → SafeEnforcer F
  unfolding attempt
  run e [] = e
  run e (a ∷ as') = run (attempt e a).0 as'
