-- ===== src/Enforcement/Controller.antt =====
-- `EnforcementController` of scanner-agent/src/enforcement.rs. A method that takes a lock for each of
-- its parts is one step here.
pub mod Process
mod Started
use execution_aware_scanner.Prelude.{
  ℕ, ◌/◌, Bool, true, false, not, ◌&&◌, Option, none, some, List, [], ◌∷◌, ◌++◌, if◌then◌else◌,
  keep,
}
use execution_aware_scanner.Text.{Text, codes, decimal}
use execution_aware_scanner.Outcome.{Result, ok, err, ScannerError, display_error}
use execution_aware_scanner.Common.Finding.{
  Finding, Priority, informational, low, medium, high, critical,
}
use execution_aware_scanner.Containers.Order.{nat_ord, text_ord}
use execution_aware_scanner.Containers.OrdSet.{
  OrdSet, insert as insert_ip, remove as remove_ip, insert_all,
}
use execution_aware_scanner.Containers.OrdMap.{OrdMap, or_default, lookup, update}
use execution_aware_scanner.Enforcement.Seccomp.{GeneratedProfile, profile_of}

pub data EnforcementAction : Type 0 where
  notify generate_seccomp apply_seccomp_profile block_egress_traffic block_ingress_traffic
        quarantine terminate :
      EnforcementAction

-- `action as u8`
abbrev pub discriminant : EnforcementAction → ℕ
discriminant notify = 0
discriminant generate_seccomp = 1
discriminant apply_seccomp_profile = 2
discriminant block_egress_traffic = 3
discriminant block_ingress_traffic = 4
discriminant quarantine = 5
discriminant terminate = 6

unfoldable pub from_priority : Priority → List EnforcementAction
from_priority critical = generate_seccomp ∷ apply_seccomp_profile ∷ block_egress_traffic ∷ []
from_priority high = generate_seccomp ∷ notify ∷ []
from_priority medium = notify ∷ []
from_priority _ = notify ∷ []

abbrev pub is_disruptive : EnforcementAction → Bool
is_disruptive quarantine = true
is_disruptive terminate = true
is_disruptive _ = false

pub data EnforcementStatusType : Type 0 where
  pending applying applied failed rolled_back : EnforcementStatusType

pub record EnforcementStatus : Type 0 where
  pub rule_id : Text
  pub action : EnforcementAction
  pub status : EnforcementStatusType
  pub applied_at : Option ℕ
  pub error : Option Text

pub record RemediatorConfig : Type 0 where
  pub enabled : Bool
  pub address : Text
  pub timeout_secs : ℕ
  pub max_retries : ℕ
  pub enforce_critical : Bool
  pub enforce_high : Bool
  pub auto_seccomp : Bool
  pub auto_quarantine : Bool

-- The rules are left out: they are empty from the start, and no method adds one.
pub record EnforcementController : Type 0 where
  pub config : RemediatorConfig
  pub statuses : OrdMap Text (List EnforcementStatus)
  pub syscall_baselines : OrdMap Text (OrdSet Text)
  pub blocked_ips : OrdSet ℕ

unfoldable pub new : RemediatorConfig → EnforcementController
new config = record { config = config; statuses = []; syscall_baselines = []; blocked_ips = [] }

unfoldable pub record_syscalls : EnforcementController → Text → OrdSet Text → EnforcementController
record_syscalls c workload_id syscalls = record c {
  syscall_baselines = update workload_id [] (insert_all syscalls) c.syscall_baselines;
}

unfoldable pub get_syscall_baseline : EnforcementController → Text → Option (OrdSet Text)
get_syscall_baseline c workload_id = lookup workload_id c.syscall_baselines

unfoldable pub generate_seccomp_profile :
    EnforcementController → Text → Text → Result GeneratedProfile
generate_seccomp_profile c workload_id generated_at =
    ok
      (profile_of (or_default [] (lookup workload_id c.syscall_baselines)) workload_id generated_at)

-- What the clock reads in a method: at its start, for the profile, and at its end.
pub record Readings : Type 0 where
  pub started : ℕ
  pub generated_at : Text
  pub finished : ℕ

abbrev timestamp : ℕ → Text
timestamp now = decimal (now / 1_000_000_000)

abbrev pub started_status : Text → EnforcementAction → EnforcementStatus
started_status rule_id action = record {
  rule_id = rule_id;
  action = action;
  status = applying;
  applied_at = none;
  error = none;
}

abbrev pub applied_status : EnforcementStatus → ℕ → EnforcementStatus
applied_status s now = record s { status = applied; applied_at = some now }

abbrev pub failed_status : EnforcementStatus → ScannerError → EnforcementStatus
failed_status s e = record s { status = failed; error = some (display_error e) }

-- The status that a method tried to reach, or the failure of its result.
abbrev finished_status : EnforcementStatus → ℕ → Result GeneratedProfile → EnforcementStatus
finished_status s now (ok profile) = applied_status s now
finished_status s now (err e) = failed_status s e

unfoldable pub apply_seccomp :
    EnforcementController → Text → Readings → EnforcementController × EnforcementStatus
unfolding generate_seccomp_profile
apply_seccomp c workload_id r =
    let rule_id = codes "seccomp-" ++ workload_id ++ codes "-" ++ timestamp r.started in
    let status = started_status rule_id apply_seccomp_profile in
    let stored : EnforcementController = record c {
      statuses = update workload_id [] (λ ss. ss ++ status ∷ []) c.statuses;
    } in
    (
      stored,
      finished_status status r.finished
          (generate_seccomp_profile stored workload_id r.generated_at),
    )

unfoldable pub block_ip : EnforcementController → ℕ → EnforcementController
block_ip c ip = record c { blocked_ips = insert_ip ip c.blocked_ips }

unfoldable pub unblock_ip : EnforcementController → ℕ → EnforcementController
unblock_ip c ip = record c { blocked_ips = remove_ip ip c.blocked_ips }

unfoldable pub block_egress : Text → Readings → EnforcementStatus
block_egress workload_id r =
    applied_status
      (started_status (codes "egress-" ++ workload_id ++ codes "-" ++ timestamp r.started)
        block_egress_traffic)
      r.finished

unfoldable pub quarantine_workload : {F : Type 0} → Finding F → Readings → EnforcementStatus
quarantine_workload finding r =
    applied_status
      (started_status
        (codes "quarantine-" ++ finding.identity.workload ++ codes "-" ++ timestamp r.started)
        quarantine)
      r.finished

-- `continue` where the configuration leaves the action to a person
abbrev pub is_allowed : RemediatorConfig → EnforcementAction → Bool
is_allowed config apply_seccomp_profile = config.auto_seccomp
is_allowed config quarantine = config.auto_quarantine
is_allowed config _ = true

abbrev numbered : Text → Text → EnforcementAction → Text
numbered prefix id action = prefix ++ id ++ codes "-" ++ decimal (discriminant action)

-- `match self.generate_seccomp_profile(…)` for the action of that name
abbrev generated_status : Text → ℕ → Result GeneratedProfile → EnforcementStatus
generated_status rule_id now generated =
    finished_status (started_status rule_id generate_seccomp) now generated

module _ {F : Type 0} where
  -- One round of the loop, for an action that is allowed. (`apply_seccomp` and `block_egress` never
  -- return an error, so their `unwrap_or_else` is their status.)
  unfoldable pub perform :
      EnforcementController
      → Finding F
      → EnforcementAction
      → Readings
      → EnforcementController × EnforcementStatus
  unfolding apply_seccomp block_egress generate_seccomp_profile
  perform c finding generate_seccomp r = (
    c,
    generated_status (numbered (codes "gen-") finding.id generate_seccomp) r.finished
        (generate_seccomp_profile c finding.identity.workload r.generated_at),
  )
  perform c finding apply_seccomp_profile r = apply_seccomp c finding.identity.workload r
  perform c finding block_egress_traffic r = (c, block_egress finding.identity.workload r)
  perform c finding action r = (
    c,
    applied_status (started_status (numbered (codes "notify-") finding.id action) action)
        r.finished,
  )

  unfoldable pub process_actions :
      EnforcementController
      → Finding F
      → (EnforcementAction → Readings)
      → List EnforcementAction
      → EnforcementController × List EnforcementStatus
  unfolding perform
  process_actions c finding clock [] = (c, [])
  process_actions c finding clock (action ∷ actions) =
      let skipped = process_actions c finding clock actions in
      let (c', status) = perform c finding action (clock action) in
      let (c'', statuses) = process_actions c' finding clock actions in
      if is_allowed c.config action then (c'', status ∷ statuses) else skipped

  -- The actions of a finding are distinct, so the clock is given by action.
  unfoldable pub process_finding :
      EnforcementController
      → Finding F
      → (EnforcementAction → Readings)
      → EnforcementController × List EnforcementStatus
  unfolding process_actions from_priority
  process_finding c finding clock = process_actions c finding clock (from_priority finding.priority)

unfoldable pub get_status : EnforcementController → Text → List EnforcementStatus
get_status c workload_id = or_default [] (lookup workload_id c.statuses)
