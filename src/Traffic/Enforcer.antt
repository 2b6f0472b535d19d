-- ===== src/Traffic/Enforcer.antt =====
-- `TcEnforcer` of scanner-agent/src/tc_enforcer.rs.
use execution_aware_scanner.Prelude.{
  ℕ, true, Option, none, some, List, [], ◌∷◌, ◌++◌, length, if◌then◌else◌,
}
use execution_aware_scanner.Text.{Text, codes}
use execution_aware_scanner.Outcome.{Result, ok, err, ScannerError, bpf}
use execution_aware_scanner.Containers.Order.{nat_ord, text_ord}
use execution_aware_scanner.Containers.OrdSet
use execution_aware_scanner.Containers.OrdSet.{OrdSet}
use execution_aware_scanner.Traffic.KernelMaps.{
  KernelMaps, MapName, xdp_map, tc_map, denylist_map, not_found, mismatch, found,
}
use execution_aware_scanner.Traffic.Rules.{
  EnforcementResult, C2Indicator, TrafficRules, Unquarantine, missing, finished, is_missing,
  c2_reason, c2_result, denylist_insert, denylist_remove, denylist_access, xdp_access, xdp_insert,
  tc_insert, block_ip_rule, block_port_rule, ip_indicator, domain_indicator, port_indicator,
}

pub record TcEnforcer (M : Type 0) : Type 0 where
  pub maps : Option M
  pub bpf_path : Option Text
  pub blocked_ips : OrdSet ℕ
  pub blocked_ports : OrdSet ℕ
  pub blocked_domains : OrdSet Text
  pub quarantined_cgroups : OrdSet ℕ
  pub last_update : ℕ

module _ {M : Type 0} ⦃k : KernelMaps M⦄ where
  unfoldable pub new : ℕ → TcEnforcer M
  new now = record {
    maps = none;
    bpf_path = none;
    blocked_ips = [];
    blocked_ports = [];
    blocked_domains = [];
    quarantined_cgroups = [];
    last_update = now;
  }

  unfoldable pub with_bpf : M → Text → ℕ → TcEnforcer M
  with_bpf m path now = record {
    maps = some m;
    bpf_path = some path;
    blocked_ips = [];
    blocked_ports = [];
    blocked_domains = [];
    quarantined_cgroups = [];
    last_update = now;
  }

  -- A map is looked up and changed, where each failure is returned, under the messages given.
  unfoldable pub change :
      MapName → Text → Text → (M → M × Option Text) → M → M × Option ScannerError
  change n mismatched failing f m = elim (k.access n) [
    | not_found ↦ (m, some (missing n))
    | mismatch e ↦ (m, some (bpf (mismatched ++ e)))
    | found ↦ finished failing (f m)
  ]

  abbrev pub block_xdp : ℕ → M → M × Option ScannerError
  block_xdp ip = change xdp_map xdp_access xdp_insert (k.insert xdp_map ip)

  abbrev pub block_tc : ℕ → M → M × Option ScannerError
  block_tc ip = change tc_map tc_insert tc_insert (k.insert tc_map ip)

  abbrev blocked : TcEnforcer M → M → ℕ → ℕ → TcEnforcer M
  blocked c m ip now = record c {
    maps = some m;
    blocked_ips = OrdSet.insert ip c.blocked_ips;
    last_update = now;
  }

  abbrev with_maps : TcEnforcer M → M → TcEnforcer M
  with_maps c m = record c { maps = some m }

  -- Both maps, the second one only if the first takes the address.
  unfoldable pub block_both : ℕ → M → M × Option ScannerError
  unfolding change
  block_both ip m =
      let (m', failure) = block_xdp ip m in
      elim failure [ some e ↦ (m', some e) | none ↦ block_tc ip m' ]

  unfoldable pub block_ip : TcEnforcer M → ℕ → Text → ℕ → TcEnforcer M × Result EnforcementResult
  unfolding block_both
  block_ip c ip reason now = elim c.maps [
    | none ↦ (c, err (bpf (codes "BPF not available")))
    | some m ↦
        let (m', failure) = block_both ip m in
        elim failure [
          | some e ↦ (with_maps c m', err e)
          | none ↦ (
            blocked c m' ip now,
            ok (record { rule = block_ip_rule ip reason; applied = true; error = none }),
          )
        ]
  ]

  -- A removal whose failure is ignored, as is a map of another type
  unfoldable pub try_remove : MapName → ℕ → M → M
  try_remove n key m = elim (k.access n) [ found ↦ (k.remove n key m).0 | _ ↦ m ]

  -- The loop over the addresses
  unfoldable pub try_remove_all : MapName → List ℕ → M → M
  unfolding try_remove
  try_remove_all n [] m = m
  try_remove_all n (ip ∷ ips) m = try_remove_all n ips (try_remove n ip m)

  -- The addresses are taken from both maps, until a map is missing.
  unfoldable pub clear_both : List ℕ → M → M × Option ScannerError
  unfolding try_remove_all
  clear_both ips m =
      let m' = try_remove_all xdp_map ips m in
      if is_missing (k.access xdp_map)
      then (m, some (missing xdp_map))
      else if is_missing (k.access tc_map)
      then (m', some (missing tc_map))
      else (try_remove_all tc_map ips m', none)

  abbrev clear_maps : List ℕ → Option M → Option M × Option ScannerError
  clear_maps ips none = (none, none)
  clear_maps ips (some m) = let (m', failure) = clear_both ips m in (some m', failure)

  unfoldable pub unblock_ip : TcEnforcer M → ℕ → TcEnforcer M × Result Unit
  unfolding clear_both
  unblock_ip c ip =
      let (maps, failure) = clear_maps (ip ∷ []) c.maps in
      elim failure [
        | some e ↦ (record c { maps = maps }, err e)
        | none ↦ (record c { maps = maps; blocked_ips = OrdSet.remove ip c.blocked_ips }, ok tt)
      ]

  unfoldable pub flush_all : TcEnforcer M → TcEnforcer M × Result Unit
  unfolding clear_both
  flush_all c =
      let (maps, failure) = clear_maps c.blocked_ips c.maps in
      elim failure [
        | some e ↦ (record c { maps = maps }, err e)
        | none ↦ (
          record c { maps = maps; blocked_ips = []; blocked_ports = []; blocked_domains = [] },
          ok tt,
        )
      ]

  -- One round of the loop, with the results that it pushes
  unfoldable pub block_indicator :
      TcEnforcer M → C2Indicator → ℕ → TcEnforcer M × List EnforcementResult
  unfolding block_ip
  block_indicator c (ip_indicator ip) now =
      let (c', result) = block_ip c ip c2_reason now in (c', c2_result ip result ∷ [])
  block_indicator c (domain_indicator domain) now =
      (record c { blocked_domains = OrdSet.insert domain c.blocked_domains }, [])
  block_indicator c (port_indicator port) now = (
    record c { blocked_ports = OrdSet.insert port c.blocked_ports },
    record { rule = block_port_rule port (codes "C2 indicator port"); applied = true; error = none }
        ∷ [],
  )

  -- The clock is read for every indicator, given by its position.
  unfoldable pub block_c2_indicators :
      TcEnforcer M → List (C2Indicator × ℕ) → TcEnforcer M × List EnforcementResult
  unfolding block_indicator
  block_c2_indicators c [] = (c, [])
  block_c2_indicators c ((indicator, now) ∷ indicators) =
      let (c', results) = block_indicator c indicator now in
      let (c'', rest) = block_c2_indicators c' indicators in (c'', results ++ rest)

  abbrev change_maps : (M → M × Option ScannerError) → Option M → Option M × Option ScannerError
  change_maps f none = (none, none)
  change_maps f (some m) = let (m', failure) = f m in (some m', failure)

  -- With the task that it spawns
  unfoldable pub quarantine_workload : TcEnforcer M → ℕ → ℕ → TcEnforcer M × Result Unquarantine
  unfolding change
  quarantine_workload c cgroup_id duration =
      let (maps, failure) =
        change_maps
          (change denylist_map denylist_access denylist_insert (k.insert denylist_map cgroup_id))
          c.maps in
      elim failure [
        | some e ↦ (record c { maps = maps }, err e)
        | none ↦ (
          record c {
            maps = maps;
            quarantined_cgroups = OrdSet.insert cgroup_id c.quarantined_cgroups;
          },
          ok (record { cgroup_id = cgroup_id; duration = duration; bpf_path = c.bpf_path }),
        )
      ]

  unfoldable pub unquarantine_workload : TcEnforcer M → ℕ → TcEnforcer M × Result Unit
  unfolding change
  unquarantine_workload c cgroup_id =
      let (maps, failure) =
        change_maps
          (change denylist_map denylist_access denylist_remove (k.remove denylist_map cgroup_id))
          c.maps in
      elim failure [
        | some e ↦ (record c { maps = maps }, err e)
        | none ↦ (record c { maps = maps }, ok tt)
      ]

  abbrev pub blocked_ip_count : TcEnforcer M → ℕ
  blocked_ip_count c = length c.blocked_ips

  abbrev pub blocked_port_count : TcEnforcer M → ℕ
  blocked_port_count c = length c.blocked_ports

  abbrev pub export_rules : TcEnforcer M → TrafficRules
  export_rules c = record {
    blocked_ips = c.blocked_ips;
    blocked_ports = c.blocked_ports;
    blocked_domains = c.blocked_domains;
    last_updated = c.last_update;
  }
