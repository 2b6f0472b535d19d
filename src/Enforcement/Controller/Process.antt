-- ===== src/Enforcement/Controller/Process.antt =====
-- What a finding sets off, and what the controller remembers of it.
use mathlib.Core.List.{append-nil}
use execution_aware_scanner.Prelude.{
  ℕ, ◌/◌, ◌≡◌, refl, sym, Bool, true, false, none, some, ◌++◌, if◌then◌else◌, List, [], ◌∷◌, map,
  All, Bool-cases, inl, inr,
}
use execution_aware_scanner.Text.{Text, codes, decimal}
use execution_aware_scanner.Common.Finding.{
  Finding, Priority, informational, low, medium, high, critical,
}
use execution_aware_scanner.Containers.Order.{text_ord, ◌=?◌, =?_sound}
use execution_aware_scanner.Containers.OrdMap.{lookup-update}
use execution_aware_scanner.Enforcement.Controller.{
  EnforcementAction, notify, generate_seccomp, apply_seccomp_profile, block_egress_traffic,
  from_priority, EnforcementStatus, applying, applied, EnforcementController, Readings,
  apply_seccomp, perform, process_actions, process_finding, get_status,
}

-- What a priority calls for, where profiles are applied automatically or not
abbrev pub due : Bool → Priority → List EnforcementAction
due true critical = generate_seccomp ∷ apply_seccomp_profile ∷ block_egress_traffic ∷ []
due false critical = generate_seccomp ∷ block_egress_traffic ∷ []
due auto_seccomp high = generate_seccomp ∷ notify ∷ []
due auto_seccomp medium = notify ∷ []
due auto_seccomp low = notify ∷ []
due auto_seccomp informational = notify ∷ []

-- Reported as applied when its method ended
abbrev pub IsReported : (EnforcementAction → Readings) → EnforcementStatus → Type 0
IsReported clock s =
    (s.status ≡ applied) × (s.applied_at ≡ some (clock s.action).finished) × (s.error ≡ none)

-- A profile under way, by its workload and the nanosecond at which it was started
abbrev pub under_way : Text → ℕ → EnforcementStatus
under_way workload started = record {
  rule_id = codes "seccomp-" ++ workload ++ codes "-" ++ decimal (started / 1_000_000_000);
  action = apply_seccomp_profile;
  status = applying;
  applied_at = none;
  error = none;
}

-- What the controller remembers of a finding: of a critical one, where profiles are applied
-- automatically, that of its workload is under way.
abbrev pub remembered : Bool → Priority → Text → ℕ → List EnforcementStatus
remembered true critical workload started = under_way workload started ∷ []
remembered false critical workload started = []
remembered auto_seccomp high workload started = []
remembered auto_seccomp medium workload started = []
remembered auto_seccomp low workload started = []
remembered auto_seccomp informational workload started = []

get_status-apply_seccomp :
    (c : EnforcementController) (workload id : Text) (r : Readings)
    → get_status (apply_seccomp c workload r).0 id
      ≡ get_status c id ++ (if id =? workload then under_way workload r.started ∷ [] else [])
unfolding get_status apply_seccomp
get_status-apply_seccomp c workload id r =
    let put =
      lookup-update id workload [] (λ ss. ss ++ under_way workload r.started ∷ []) c.statuses in
    elim (Bool-cases (id =? workload)) [
      | inl same ↦ rw (put, same, =?_sound id workload same) refl
      | inr other ↦ rw (put, other) (sym (append-nil (get_status c id)))
    ]

unchanged : (ss : List EnforcementStatus) (here : Bool) → ss ≡ ss ++ (if here then [] else [])
unchanged ss true = sym (append-nil ss)
unchanged ss false = sym (append-nil ss)

module _ {F : Type 0} where
  abbrev Processed :
      EnforcementController → Finding F → (EnforcementAction → Readings) → Text → Priority → Type 0
  Processed c finding clock id p =
      let (after, statuses) = process_actions c finding clock (from_priority p) in
      let auto_seccomp = c.config.auto_seccomp in
      let workload = finding.identity.workload in
      (map (λ (s : EnforcementStatus). s.action) statuses ≡ due auto_seccomp p)
      × All (IsReported clock) statuses
      × (get_status after id
          ≡ get_status c id
            ++ (if id =? workload
                then remembered auto_seccomp p workload (clock apply_seccomp_profile).started
                else []))
      × (after.blocked_ips ≡ c.blocked_ips)
      × (after.syscall_baselines ≡ c.syscall_baselines)

  process_actions_lem :
      (c : EnforcementController) (finding : Finding F) (clock : EnforcementAction → Readings)
      (id : Text) (p : Priority)
      → Processed c finding clock id p
  unfolding process_actions from_priority perform get_status
  process_actions_lem c finding clock id critical = elim (Bool-cases c.config.auto_seccomp) [
    | inl auto ↦
        let begun =
          get_status-apply_seccomp c finding.identity.workload id (clock apply_seccomp_profile) in
        rw auto (
          refl,
          ((refl, refl, refl), ((refl, refl, refl), ((refl, refl, refl), tt))),
          begun,
          refl,
          refl,
        )
    | inr by_hand ↦ rw by_hand (
      refl,
      ((refl, refl, refl), ((refl, refl, refl), tt)),
      unchanged (get_status c id) (id =? finding.identity.workload),
      refl,
      refl,
    )
  ]
  process_actions_lem c finding clock id high = (
    refl,
    ((refl, refl, refl), ((refl, refl, refl), tt)),
    unchanged (get_status c id) (id =? finding.identity.workload),
    refl,
    refl,
  )
  process_actions_lem c finding clock id medium = (
    refl,
    ((refl, refl, refl), tt),
    unchanged (get_status c id) (id =? finding.identity.workload),
    refl,
    refl,
  )
  process_actions_lem c finding clock id low = (
    refl,
    ((refl, refl, refl), tt),
    unchanged (get_status c id) (id =? finding.identity.workload),
    refl,
    refl,
  )
  process_actions_lem c finding clock id informational = (
    refl,
    ((refl, refl, refl), tt),
    unchanged (get_status c id) (id =? finding.identity.workload),
    refl,
    refl,
  )

  -- A finding sets off the actions of its priority in their order: the generation of a profile, its
  -- application if `auto_seccomp` is set, and a block of the egress for a critical one, the generation
  -- and a notification for a high one, a notification for any other; no other setting has a say. Each
  -- action is reported as applied when it ended, without an error. Of all this the controller keeps
  -- one status, behind those of the finding's workload, for an application of a profile that is under
  -- way; the statuses of other workloads, the blocked addresses and the baselines are as they were.
  pub process_finding_lem :
      (c : EnforcementController) (finding : Finding F) (clock : EnforcementAction → Readings)
      (id : Text)
      → let (after, statuses) = process_finding c finding clock in
        let auto_seccomp = c.config.auto_seccomp in
        let workload = finding.identity.workload in
        (map (λ (s : EnforcementStatus). s.action) statuses ≡ due auto_seccomp finding.priority)
        × All (IsReported clock) statuses
        × (get_status after id
            ≡ get_status c id
              ++ (if id =? workload
                  then remembered auto_seccomp finding.priority workload
                      (clock apply_seccomp_profile).started
                  else []))
        × (after.blocked_ips ≡ c.blocked_ips)
        × (after.syscall_baselines ≡ c.syscall_baselines)
  unfolding process_finding
  process_finding_lem c finding clock id = process_actions_lem c finding clock id finding.priority
