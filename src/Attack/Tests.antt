-- ===== src/Attack/Tests.antt =====
-- Runs of the attack graph on small data.
use execution_aware_scanner.Text.Parts.{after_last, before, to_ascii_lowercase, trim_start_matches}
use execution_aware_scanner.Prelude.{
  ℕ, ◌+◌, ◌%◌, ◌≡◌, refl, Bool, true, false, not, ◌&&◌, ◌⊎◌, none, some, List, [], ◌∷◌, arith,
  foldl, map, length, leb, if◌then◌else◌,
}
use execution_aware_scanner.Text.{Text, codes, compare_text, contains, decimal}
use execution_aware_scanner.Clock.{secs, u64_mod}
use execution_aware_scanner.Common.Kind.{tcp_send}
use execution_aware_scanner.Common.Events.{NetEvent}
use execution_aware_scanner.Common.Finding.{Finding}
use execution_aware_scanner.Containers.Order.{text_ord}
use execution_aware_scanner.Containers.OrdMap.{lookup, insert, update}
use execution_aware_scanner.Float.{clamp, min}
use execution_aware_scanner.Containers.OrdSet.{insert_all}
use execution_aware_scanner.Float.Fixed.{Fixed, fixed_float}
use execution_aware_scanner.Fixtures.{finding_of_cve}
use execution_aware_scanner.Attack.DiGraph.Listed.{Listed, listed_graph, listed-IsDiGraph}
use execution_aware_scanner.Attack.Nodes.{
  RuntimeNode, RuntimeEdge, default_config, meets_enforcement_criteria, dotted, node_id,
}
use execution_aware_scanner.Attack.Runtime.{
  RuntimeAttackGraph, new, process_network_event, is_collapsed, associate_cve_with_library,
  process_library_load,
}
use execution_aware_scanner.Attack.Runtime.Identity.{
  Call, loads, sends, associates, call, one_node_per_id,
}
use execution_aware_scanner.Attack.Runtime.Traffic.{
  bytes_of, bytes_on, known_connection, process_network_event_bytes,
}
use execution_aware_scanner.Attack.Paths.{build_path_for_finding}
use execution_aware_scanner.Attack.Paths.Shape.{IsChained, path_shape}
use execution_aware_scanner.Attack.Paths.Enforceable.{has_loaded_library, enforceable_is_loaded}
use execution_aware_scanner.Attack.Ranking.{TotalCmp, candidates, build_attack_paths}
use execution_aware_scanner.Attack.Attach.{
  attach_attack_paths_to_findings, attach_some, last_path, attach_attack_paths_last,
}
use execution_aware_scanner.Attack.Ranking.Top.{smaller, reaching, IsRanked, build_attack_paths_top}

abbrev Graph : Type 0
Graph = Listed (RuntimeNode Fixed) (RuntimeEdge Fixed)

abbrev fixed_le : Fixed → Fixed → Bool
fixed_le none y = true
fixed_le (some a) none = false
fixed_le (some a) (some b) = leb a b

fixed_le_or_ge : (x y : Fixed) → (fixed_le x y ≡ true) ⊎ (fixed_le y x ≡ true)
fixed_le_or_ge x y = ground arith

fixed_le_trans : (x y z : Fixed) → fixed_le x y ≡ true → fixed_le y z ≡ true → fixed_le x z ≡ true
fixed_le_trans x y z h k = ground arith

instance abbrev fixed_cmp : TotalCmp Fixed
fixed_cmp = record { total_le = fixed_le; le_or_ge = fixed_le_or_ge; total_trans = fixed_le_trans }

-- Sent to 8.8.8.8 or, with another number, to another address.
abbrev sent : ℕ → ℕ → NetEvent
sent daddr time = record {
  timestamp_ns = time;
  pid = 7;
  tgid = 7;
  cgroup_id = 1;
  saddr = 0;
  daddr = daddr;
  sport = 40000;
  dport = 443;
  family = 2;
  protocol = 6;
  kind = tcp_send;
  data_size = 2048;
}

abbrev calls : List (Call Fixed)
calls =
    loads 7 (codes "nginx") 1 (codes "/usr/lib/libssl.so") (secs 1)
    ∷ sends 7 (codes "nginx") 1 (sent 0x08080808 (secs 2))
    ∷ associates (codes "CVE-1") (codes "openssl") (some 980) (some 91) true
    ∷ []

abbrev seen : RuntimeAttackGraph Fixed Graph
seen = foldl call (new default_config) calls

one_node_per_id_example :
    ◌≡◌ {A = ℕ} 2 2 × (lookup (codes "net:8.8.8.8:443") seen.node_indices ≡ some 2)
unfolding call associate_cve_with_library lookup process_network_event process_library_load new
    insert compare_text node_id decimal update contains to_ascii_lowercase after_last before
    trim_start_matches dotted
one_node_per_id_example =
    one_node_per_id listed-IsDiGraph default_config calls (codes "net:8.8.8.8:443") 2 2 refl refl

-- A second event within the window, to an address that is not known: its bytes are lost.
process_network_event_bytes_example :
    bytes_of (process_network_event seen 7 (codes "nginx") 1 (sent 0x01010101 (secs 3))) ≡ (
      if is_collapsed seen 7 (sent 0x01010101 (secs 3))
        && not (known_connection seen 7 (sent 0x01010101 (secs 3)))
      then bytes_of seen
      else (bytes_of seen + 2048) % u64_mod)
process_network_event_bytes_example =
    process_network_event_bytes listed-IsDiGraph seen 7 (codes "nginx") 1 (sent 0x01010101 (secs 3))

second_address_is_lost :
    bytes_of (process_network_event seen 7 (codes "nginx") 1 (sent 0x01010101 (secs 3))) ≡ 2048
unfolding call process_network_event associate_cve_with_library lookup process_library_load new
    insert compare_text node_id decimal update contains to_ascii_lowercase after_last before
    trim_start_matches dotted
second_address_is_lost = refl

abbrev found : Finding Fixed
found = finding_of_cve (codes "CVE-1")

-- A second connection, well after the first
abbrev seen_later : RuntimeAttackGraph Fixed Graph
seen_later = call seen (sends 7 (codes "nginx") 1 (sent 0x01010101 (secs 2000)))

path_shape_example :
    let p = build_path_for_finding seen_later found (codes "1") in
    (p.depth ≡ length p.nodes)
    × (length p.nodes ≡ length p.edges + 1)
    × IsChained 0 p.edges
    × (p.total_bytes ≡ bytes_on p.edges)
path_shape_example = path_shape seen_later found (codes "1")

abbrev ends : ℕ × ℕ × RuntimeEdge Fixed → ℕ × ℕ
ends (a, b, e) = (a, b)

-- The second connection is recorded from the address of the first.
second_from_first :
    map ends (build_path_for_finding seen_later found (codes "1")).edges
    ≡ (0, 1) ∷ (1, 2) ∷ (2, 3) ∷ (3, 4) ∷ []
unfolding call build_path_for_finding lookup associate_cve_with_library process_network_event
    process_library_load new insert compare_text node_id decimal update contains to_ascii_lowercase
    after_last before trim_start_matches dotted
second_from_first = refl

-- The CVE, the library, the process and the address.
found_path : (build_path_for_finding seen found (codes "1")).depth ≡ 4
unfolding call build_path_for_finding lookup associate_cve_with_library process_network_event
    process_library_load new insert compare_text node_id decimal update contains to_ascii_lowercase
    after_last before trim_start_matches
found_path = refl

enforceable_is_loaded_example : has_loaded_library seen (codes "CVE-1") ≡ true
unfolding call meets_enforcement_criteria associate_cve_with_library lookup process_network_event
    process_library_load new insert compare_text node_id decimal update contains to_ascii_lowercase
    after_last before trim_start_matches dotted build_path_for_finding insert_all clamp min
enforceable_is_loaded_example = enforceable_is_loaded seen found (codes "1") refl

build_attack_paths_top_example :
    let best = (build_attack_paths seen ((found, codes "1") ∷ (found, codes "2") ∷ [])).1 in
    (reaching (some 900) best
      ≡ smaller 3
          (reaching (some 900) (candidates seen ((found, codes "1") ∷ (found, codes "2") ∷ []))))
    × IsRanked 0 best
unfolding call associate_cve_with_library lookup process_network_event process_library_load new
    insert compare_text node_id decimal update contains to_ascii_lowercase after_last before
    trim_start_matches
build_attack_paths_top_example =
    build_attack_paths_top seen ((found, codes "1") ∷ (found, codes "2") ∷ []) (some 900)

abbrev two_findings : List (Finding Fixed × Text)
two_findings = (found, codes "1") ∷ (found, codes "2") ∷ []

-- Two findings of one CVE get the second of their two paths.
attach_attack_paths_last_example :
    let paths = (build_attack_paths seen two_findings).1 in
    (attach_attack_paths_to_findings (λ (x : Fixed). codes "x") two_findings seen).0
    ≡ map
        (λ (x : Finding Fixed × Text).
          attach_some (λ (y : Fixed). codes "x") (last_path x.0.signal.cve paths) x.0)
        two_findings
attach_attack_paths_last_example =
    attach_attack_paths_last (λ (x : Fixed). codes "x") two_findings seen
