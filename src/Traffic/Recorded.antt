-- ===== src/Traffic/Recorded.antt =====
-- scanner-agent/src/tc_enforcer.rs: what the enforcer has recorded as blocked against what the maps in
-- the kernel hold.
use execution_aware_scanner.Prelude.{
  ℕ, ◌≡◌, refl, true, false, none, some, List, [], ◌∷◌, arith, foldl, ◌++◌, Option-cases, inl, inr,
  ==_iff,
}
use execution_aware_scanner.Text.{Text}
use execution_aware_scanner.Outcome.{ScannerError, bpf, ok, err}
use execution_aware_scanner.Containers.Order.{nat_ord}
use execution_aware_scanner.Containers.OrdSet.{contains, contains-insert, contains-remove}
use execution_aware_scanner.Traffic.KernelMaps.{
  KernelMaps, IsHashMap, xdp_map, tc_map, denylist_map, found,
}
use execution_aware_scanner.Traffic.Rules.{
  C2Indicator, ip_indicator, domain_indicator, port_indicator, tc_insert, denylist_access,
  denylist_insert, denylist_remove, c2_reason,
}
use execution_aware_scanner.Traffic.Enforcer.{
  TcEnforcer, change, block_both, block_ip, try_remove_all, clear_both, unblock_ip, flush_all,
  block_indicator, block_c2_indicators, quarantine_workload, unquarantine_workload, with_bpf,
}
use execution_aware_scanner.Traffic.Held.{
  is_held, in_xdp, change_insert_keeps, change_remove_keeps, block_both_keeps, block_both_holds,
  clear_both_keeps, clear_both_fails, try_remove_all_keeps,
}

pub data Call : Type 0 where
  block : ℕ → Text → ℕ → Call
  unblock : ℕ → Call
  block_c2 : List (C2Indicator × ℕ) → Call
  quarantine : ℕ → ℕ → Call
  unquarantine : ℕ → Call
  flush : Call

module _ {M : Type 0} ⦃k : KernelMaps M⦄ where
  unfoldable pub step : TcEnforcer M → Call → TcEnforcer M
  step c (block ip reason now) = (block_ip c ip reason now).0
  step c (unblock ip) = (unblock_ip c ip).0
  step c (block_c2 indicators) = (block_c2_indicators c indicators).0
  step c (quarantine cgroup_id duration) = (quarantine_workload c cgroup_id duration).0
  step c (unquarantine cgroup_id) = (unquarantine_workload c cgroup_id).0
  step c flush = (flush_all c).0

  -- Every address on the enforcer's record is in both maps.
  abbrev pub IsRecorded : TcEnforcer M → Type 0
  IsRecorded c = (ip : ℕ) → contains ip c.blocked_ips ≡ true → is_held ip c.maps ≡ true

  module _ (laws : IsHashMap M) where
    block_ip-IsRecorded :
        (c : TcEnforcer M) (ip : ℕ) (reason : Text) (now : ℕ)
        → IsRecorded c
        → IsRecorded (block_ip c ip reason now).0
    unfolding block_ip
    block_ip-IsRecorded c ip reason now r j h = elim (Option-cases c.maps) [
      | inl absent ↦ ground (arith, r j)
      | inr (m, present) ↦
          let holds = block_both_holds laws ip m in
          let xdp = block_both_keeps laws ip m xdp_map j in
          let tc = block_both_keeps laws ip m tc_map j in
          let same = ==_iff j ip in
          ground (arith, r j, contains-insert j ip c.blocked_ips, holds, xdp, tc, same)
    ]

    unblock_ip-IsRecorded :
        (c : TcEnforcer M) (ip : ℕ) → IsRecorded c → IsRecorded (unblock_ip c ip).0
    unfolding unblock_ip contains
    unblock_ip-IsRecorded c ip r j h = elim (Option-cases c.maps) [
      | inl absent ↦ ground (arith, r j, contains-remove j ip c.blocked_ips)
      | inr (m, present) ↦
          let keeps = clear_both_keeps laws (ip ∷ []) m j in
          let fails = λ (e : ScannerError). clear_both_fails laws (ip ∷ []) m e j in
          ground (arith, r j, contains-remove j ip c.blocked_ips, keeps, fails)
    ]

    flush_all-IsRecorded : (c : TcEnforcer M) → IsRecorded c → IsRecorded (flush_all c).0
    unfolding flush_all contains
    flush_all-IsRecorded c r j h = elim (Option-cases c.maps) [
      | inl absent ↦ ground (arith, r j)
      | inr (m, present) ↦
          let fails = λ (e : ScannerError). clear_both_fails laws c.blocked_ips m e j in
          ground (arith, r j, fails)
    ]

    quarantine_workload-IsRecorded :
        (c : TcEnforcer M) (cgroup_id duration : ℕ)
        → IsRecorded c
        → IsRecorded (quarantine_workload c cgroup_id duration).0
    unfolding quarantine_workload
    quarantine_workload-IsRecorded c cgroup_id duration r j h = elim (Option-cases c.maps) [
      | inl absent ↦ ground (arith, r j)
      | inr (m, present) ↦
          let keeps =
            change_insert_keeps laws denylist_map denylist_access denylist_insert cgroup_id m in
          ground (arith, r j, keeps xdp_map j, keeps tc_map j)
    ]

    unquarantine_workload-IsRecorded :
        (c : TcEnforcer M) (cgroup_id : ℕ)
        → IsRecorded c
        → IsRecorded (unquarantine_workload c cgroup_id).0
    unfolding unquarantine_workload
    unquarantine_workload-IsRecorded c cgroup_id r j h = elim (Option-cases c.maps) [
      | inl absent ↦ ground (arith, r j)
      | inr (m, present) ↦
          let keeps =
            change_remove_keeps laws denylist_map denylist_access denylist_remove cgroup_id m in
          ground (arith, r j, keeps xdp_map j refl, keeps tc_map j refl)
    ]

    block_c2_indicators-IsRecorded :
        (c : TcEnforcer M) (indicators : List (C2Indicator × ℕ))
        → IsRecorded c
        → IsRecorded (block_c2_indicators c indicators).0
    unfolding block_c2_indicators block_indicator
    block_c2_indicators-IsRecorded c [] r = r
    block_c2_indicators-IsRecorded c ((ip_indicator ip, now) ∷ indicators) r =
        block_c2_indicators-IsRecorded (block_ip c ip c2_reason now).0 indicators
          (block_ip-IsRecorded c ip c2_reason now r)
    block_c2_indicators-IsRecorded c ((domain_indicator domain, now) ∷ indicators) r =
        block_c2_indicators-IsRecorded _ indicators r
    block_c2_indicators-IsRecorded c ((port_indicator port, now) ∷ indicators) r =
        block_c2_indicators-IsRecorded _ indicators r

    step-IsRecorded : (c : TcEnforcer M) (call : Call) → IsRecorded c → IsRecorded (step c call)
    unfolding step
    step-IsRecorded c (block ip reason now) r = block_ip-IsRecorded c ip reason now r
    step-IsRecorded c (unblock ip) r = unblock_ip-IsRecorded c ip r
    step-IsRecorded c (block_c2 indicators) r = block_c2_indicators-IsRecorded c indicators r
    step-IsRecorded c (quarantine cgroup_id duration) r =
        quarantine_workload-IsRecorded c cgroup_id duration r
    step-IsRecorded c (unquarantine cgroup_id) r = unquarantine_workload-IsRecorded c cgroup_id r
    step-IsRecorded c flush r = flush_all-IsRecorded c r

    run-IsRecorded :
        (calls : List Call) (c : TcEnforcer M) → IsRecorded c → IsRecorded (foldl step c calls)
    run-IsRecorded [] c r = r
    run-IsRecorded (call ∷ calls) c r =
        run-IsRecorded calls (step c call) (step-IsRecorded c call r)

    -- However the calls of the kernel's maps turn out, an address that an enforcer with a loaded
    -- object has on its record, after any sequence of calls of its methods, is in the map of the XDP
    -- program and in that of the TC program.
    pub recorded_is_held :
        (m : M) (path : Text) (now : ℕ) (calls : List Call) (ip : ℕ)
        → contains ip (foldl step (with_bpf m path now) calls).blocked_ips ≡ true
        → is_held ip (foldl step (with_bpf m path now) calls).maps ≡ true
    unfolding with_bpf contains
    recorded_is_held m path now calls = run-IsRecorded calls (with_bpf m path now) (λ ip h. cc)

    -- If the map of the XDP program takes an address and that of the TC program refuses it, `block_ip`
    -- returns an error, and the address stays in the XDP map whatever is recorded; a later `flush_all`
    -- succeeds and leaves it there, if it was not on record before.
    half_blocked_stays :
        (c : TcEnforcer M) (m : M) (ip : ℕ) (reason : Text) (now : ℕ) (e : Text)
        → c.maps ≡ some m
        → contains ip c.blocked_ips ≡ false
        → k.access xdp_map ≡ found
        → k.access tc_map ≡ found
        → (k.insert xdp_map ip m).1 ≡ none
        → (k.insert tc_map ip (k.insert xdp_map ip m).0).1 ≡ some e
        → ((block_ip c ip reason now).1 ≡ err (bpf (tc_insert ++ e)))
          × ((flush_all (block_ip c ip reason now).0).1 ≡ ok tt)
          × (in_xdp ip (flush_all (block_ip c ip reason now).0).0.maps ≡ true)
    unfolding block_ip block_both change flush_all clear_both
    half_blocked_stays c m ip reason now e hm hc hx ht ix it =
        let m' = (k.insert tc_map ip (k.insert xdp_map ip m).0).0 in
        let had = laws.has-insert xdp_map ip m ix in
        let kept = laws.insert_keeps tc_map ip (k.insert xdp_map ip m).0 xdp_map ip had in
        let flushed = try_remove_all_keeps laws xdp_map c.blocked_ips m' xdp_map ip hc in
        let flushed' =
          try_remove_all_keeps laws tc_map c.blocked_ips (try_remove_all xdp_map c.blocked_ips m')
            xdp_map ip refl in
        (ground arith, ground arith, ground (arith, kept, flushed, flushed'))
