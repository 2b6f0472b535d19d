-- ===== src/State/Isolation.antt =====
-- What one control group's events do, and that they do it to its own workload only.
use execution_aware_scanner.Prelude.{
  ℕ, ◌≡◌, refl, some, if◌then◌else◌, true, false, Bool, Bool-cases, inl, inr, List, [], ◌∷◌, keep,
  ◌∙◌, ap, sym,
}
use execution_aware_scanner.Containers.Order.{nat_ord, ◌=?◌, =?_sound}
use execution_aware_scanner.Containers.OrdMap.{or_default, lookup-update}
use execution_aware_scanner.Float.{Float}
use execution_aware_scanner.State.Workload.{WorkloadState, default_workload}
use execution_aware_scanner.State.Store.{
  StateStore, exec_entry, file_entry, net_entry, apply_exec, apply_file, apply_net, Event,
  exec_event, file_event, net_event, cgroup_of, apply, apply_all, workload,
}

-- The events of one control group.
abbrev pub own : ℕ → Event → Bool
own cgroup e = cgroup =? cgroup_of e

module _ {F : Type 0} ⦃f : Float F⦄ where
  -- The effect of an event on the workload that it is about.
  abbrev pub entry : Event → WorkloadState F → WorkloadState F
  entry (exec_event e) = exec_entry e
  entry (file_event e) = file_entry e
  entry (net_event e) = net_entry e

  apply_lem :
      (s : StateStore F) (e : Event) (cgroup : ℕ)
      → workload (apply s e) cgroup ≡ (
          if own cgroup e
          then some (entry e (or_default default_workload (workload s (cgroup_of e))))
          else workload s cgroup)
  unfolding apply apply_exec apply_file apply_net workload
  apply_lem s (exec_event e) cgroup =
      lookup-update cgroup e.cgroup_id default_workload (exec_entry e) s.by_cgroup
  apply_lem s (file_event e) cgroup =
      lookup-update cgroup e.cgroup_id default_workload (file_entry e) s.by_cgroup
  apply_lem s (net_event e) cgroup =
      lookup-update cgroup e.cgroup_id default_workload (net_entry e) s.by_cgroup

  pub apply_others :
      (s : StateStore F) (e : Event) (cgroup : ℕ)
      → own cgroup e ≡ false
      → workload (apply s e) cgroup ≡ workload s cgroup
  apply_others s e cgroup other = rw (apply_lem s e cgroup, other)

  pub apply-own :
      (s : StateStore F) (e : Event) (cgroup : ℕ)
      → own cgroup e ≡ true
      → workload (apply s e) cgroup
        ≡ some (entry e (or_default default_workload (workload s cgroup)))
  apply-own s e cgroup mine =
      let same : cgroup ≡ cgroup_of e = =?_sound cgroup (cgroup_of e) mine in
      apply_lem s e cgroup ∙ rw (mine, ← same)

  same_workload :
      (s t : StateStore F) (es : List Event) (cgroup : ℕ)
      → workload s cgroup ≡ workload t cgroup
      → workload (apply_all s es) cgroup ≡ workload (apply_all t (keep (own cgroup) es)) cgroup
  unfolding apply_all
  same_workload s t [] cgroup same = same
  same_workload s t (e ∷ es) cgroup same = elim (Bool-cases (own cgroup e)) [
    | inl mine ↦ rw mine (
        same_workload (apply s e) (apply t e) es cgroup (
          apply-own s e cgroup mine
          ∙ ap (λ o. some (entry e (or_default default_workload o))) same
          ∙ sym (apply-own t e cgroup mine)))
    | inr other ↦
        rw other (same_workload (apply s e) t es cgroup (apply_others s e cgroup other ∙ same))
  ]

  -- What a store knows of a control group after any events is what that group's own events alone,
  -- in their order, would have told it.
  pub workload_isolated :
      (s : StateStore F) (es : List Event) (cgroup : ℕ)
      → workload (apply_all s es) cgroup ≡ workload (apply_all s (keep (own cgroup) es)) cgroup
  workload_isolated s es cgroup = same_workload s s es cgroup refl
