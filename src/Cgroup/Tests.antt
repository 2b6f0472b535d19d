-- ===== src/Cgroup/Tests.antt =====
-- Two containers in /proc.
use execution_aware_scanner.Prelude.{◌≤◌, ◌≡◌, refl, none, some, List, [], ◌∷◌, length}
use execution_aware_scanner.Text.{codes, compare_text}
use execution_aware_scanner.Text.Parts.{
  trim_rounds, trim_end_rounds, strip_prefix, strip_suffix, split_on, lines, parse_unsigned,
  trim_start_matches, trim_end_matches,
}
use execution_aware_scanner.Containers.Order.{nat_ord, text_ord}
use execution_aware_scanner.Containers.OrdMap.{lookup}
use execution_aware_scanner.Cgroup.{
  CgroupResolver, ProcEntry, entry, new, extract_container_id, scan_for_cgroup, resolve,
  max_cache_entries,
}
use execution_aware_scanner.Cgroup.Bounded.{
  resolves, clears, call_all, IsNamedIfAny, resolve_bounded,
}
use execution_aware_scanner.Cgroup.Unified.{resolve_unified}

abbrev entries : List ProcEntry
entries =
    entry (codes "stat") none
    ∷ entry (codes "7") (some (codes "0::/system.slice/docker-a1b2c3d4e5f6.scope\n"))
    ∷ entry (codes "8") (some (codes "0::/docker/b1b2c3d4e5f6\n"))
    ∷ []

abbrev fresh : CgroupResolver
fresh = new (codes "/proc")

extracts_docker_id :
    extract_container_id (codes "/docker/a1b2c3d4e5f6") ≡ some (codes "a1b2c3d4e5f6")
unfolding extract_container_id compare_text split_on trim_end_matches trim_start_matches trim_rounds
    trim_end_rounds strip_prefix strip_suffix
extracts_docker_id = refl

extracts_kubepods_id :
    extract_container_id (codes "/kubepods/burstable/pod12345/abc123def456")
    ≡ some (codes "abc123def456")
unfolding extract_container_id compare_text split_on trim_end_matches trim_start_matches trim_rounds
    trim_end_rounds strip_prefix strip_suffix
extracts_kubepods_id = refl

extracts_containerd_id :
    extract_container_id (codes "/system.slice/containerd-a1b2c3d4.scope") ≡ some (codes "a1b2c3d4")
unfolding extract_container_id compare_text split_on trim_end_matches trim_start_matches trim_rounds
    trim_end_rounds strip_prefix strip_suffix
extracts_containerd_id = refl

resolves_first : (resolve (some entries) fresh 4026).1 ≡ some (codes "a1b2c3d4e5f6", 7)
unfolding resolve scan_for_cgroup lookup new parse_unsigned lines compare_text trim_end_matches
    trim_rounds trim_end_rounds strip_prefix strip_suffix trim_start_matches
resolves_first = refl

resolve_bounded_example :
    (length
        (resolve
          (some entries)
          (call_all fresh (resolves (some entries) 9 ∷ clears ∷ []))
          4026).0.cache
      ≤ max_cache_entries)
    × IsNamedIfAny
        (resolve (some entries) (call_all fresh (resolves (some entries) 9 ∷ clears ∷ [])) 4026).1
resolve_bounded_example =
    resolve_bounded (codes "/proc") (resolves (some entries) 9 ∷ clears ∷ []) (some entries) 4026

resolve_unified_example :
    (resolve (some entries) fresh 4026).1 ≡ (resolve (some entries) fresh 4027).1
unfolding lines split_on parse_unsigned new lookup
resolve_unified_example = resolve_unified entries fresh 4026 4027 refl refl refl
