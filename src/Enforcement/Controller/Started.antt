-- ===== src/Enforcement/Controller/Started.antt =====
-- What `get_status` of scanner-agent/src/enforcement.rs reports after any calls of a controller.
use execution_aware_scanner.Prelude.{
  ℕ, ◌≡◌, refl, none, List, [], ◌∷◌, All, All-append, Bool-cases, inl, inr,
}
use execution_aware_scanner.Text.{Text}
use execution_aware_scanner.Common.Finding.{Finding}
use execution_aware_scanner.Containers.Order.{text_ord}
use execution_aware_scanner.Containers.OrdSet.{OrdSet}
use execution_aware_scanner.Containers.OrdMap.{Values, Values-update, Values-or_default}
use execution_aware_scanner.Enforcement.Controller.{
  EnforcementAction, notify, generate_seccomp, apply_seccomp_profile, block_egress_traffic,
  block_ingress_traffic, quarantine, terminate, from_priority, EnforcementStatus, applying, applied,
  RemediatorConfig, EnforcementController, Readings, new, record_syscalls, apply_seccomp, block_ip,
  unblock_ip, is_allowed, perform, process_actions, process_finding, get_status,
}

-- The calls that change a controller.
data Call (F : Type 0) : Type 0 where
  records : Text → OrdSet Text → Call F
  applies : Text → Readings → Call F
  processes : Finding F → (EnforcementAction → Readings) → Call F
  blocks unblocks : ℕ → Call F

-- Of a started action, as it was when the method began.
abbrev IsStarted : EnforcementStatus → Type 0
IsStarted s = (s.status ≡ applying) × (s.applied_at ≡ none)

abbrev AllStarted : EnforcementController → Type 0
AllStarted c = Values (All IsStarted) c.statuses

apply_seccomp-AllStarted :
    (c : EnforcementController) (workload_id : Text) (r : Readings)
    → AllStarted c
    → AllStarted (apply_seccomp c workload_id r).0
unfolding apply_seccomp
apply_seccomp-AllStarted c workload_id r h =
    Values-update (All IsStarted) workload_id [] _ c.statuses tt
      (λ ss started. All-append IsStarted ss _ started ((refl, refl), tt)) h

module _ {F : Type 0} where
  unfoldable call : EnforcementController → Call F → EnforcementController
  unfolding record_syscalls apply_seccomp process_finding block_ip unblock_ip
  call c (records workload_id syscalls) = record_syscalls c workload_id syscalls
  call c (applies workload_id r) = (apply_seccomp c workload_id r).0
  call c (processes finding clock) = (process_finding c finding clock).0
  call c (blocks ip) = block_ip c ip
  call c (unblocks ip) = unblock_ip c ip

  unfoldable run : EnforcementController → List (Call F) → EnforcementController
  unfolding call
  run c [] = c
  run c (x ∷ xs) = run (call c x) xs

  perform-AllStarted :
      (c : EnforcementController) (finding : Finding F) (a : EnforcementAction) (r : Readings)
      → AllStarted c
      → AllStarted (perform c finding a r).0
  unfolding perform
  perform-AllStarted c finding notify r h = h
  perform-AllStarted c finding generate_seccomp r h = h
  perform-AllStarted c finding apply_seccomp_profile r h =
      apply_seccomp-AllStarted c finding.identity.workload r h
  perform-AllStarted c finding block_egress_traffic r h = h
  perform-AllStarted c finding block_ingress_traffic r h = h
  perform-AllStarted c finding quarantine r h = h
  perform-AllStarted c finding terminate r h = h

  process_actions-AllStarted :
      (c : EnforcementController) (finding : Finding F) (clock : EnforcementAction → Readings)
      (actions : List EnforcementAction)
      → AllStarted c
      → AllStarted (process_actions c finding clock actions).0
  unfolding process_actions
  process_actions-AllStarted c finding clock [] h = h
  process_actions-AllStarted c finding clock (a ∷ as') h =
      elim (Bool-cases (is_allowed c.config a)) [
        | inr skipped ↦ rw skipped (process_actions-AllStarted c finding clock as' h)
        | inl allowed ↦ rw allowed (
            process_actions-AllStarted (perform c finding a (clock a)).0 finding clock as'
              (perform-AllStarted c finding a (clock a) h))
      ]

  call-AllStarted : (c : EnforcementController) (x : Call F) → AllStarted c → AllStarted (call c x)
  unfolding call record_syscalls process_finding block_ip unblock_ip
  call-AllStarted c (records workload_id syscalls) h = h
  call-AllStarted c (applies workload_id r) h = apply_seccomp-AllStarted c workload_id r h
  call-AllStarted c (processes finding clock) h =
      process_actions-AllStarted c finding clock (from_priority finding.priority) h
  call-AllStarted c (blocks ip) h = h
  call-AllStarted c (unblocks ip) h = h

  run-AllStarted :
      (c : EnforcementController) (xs : List (Call F)) → AllStarted c → AllStarted (run c xs)
  unfolding run
  run-AllStarted c [] h = h
  run-AllStarted c (x ∷ xs) h = run-AllStarted (call c x) xs (call-AllStarted c x h)

  -- Whatever calls a new controller has had, each status that it reports for a workload is one of an
  -- action under way without a time, also of a profile whose application it returned as applied.
  get_status-IsStarted :
      (config : RemediatorConfig) (xs : List (Call F)) (workload_id : Text) (r : Readings)
      → let c = run (new config) xs in
        All IsStarted (get_status c workload_id)
        × ((apply_seccomp c workload_id r).1.status ≡ applied)
  unfolding get_status new apply_seccomp
  get_status-IsStarted config xs workload_id r = (
    Values-or_default (All IsStarted) workload_id [] (run (new config) xs).statuses tt
        (run-AllStarted (new config) xs tt),
    refl,
  )
