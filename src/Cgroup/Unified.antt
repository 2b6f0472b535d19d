-- ===== src/Cgroup/Unified.antt =====
-- Control groups of the unified hierarchy in scanner-agent/src/cgroup.rs.
use execution_aware_scanner.Prelude.{
  ℕ, ◌≡◌, refl, Bool, true, false, ◌&&◌, Option, none, some, List, [], ◌∷◌, arith, all, ◌==◌,
}
use execution_aware_scanner.Text.{Text}
use execution_aware_scanner.Text.Parts.{split_on, lines, parse_unsigned}
use execution_aware_scanner.Clock.{u64_mod}
use execution_aware_scanner.Containers.Order.{nat_ord}
use execution_aware_scanner.Containers.OrdMap.{lookup}
use execution_aware_scanner.Cgroup.{
  CgroupResolver, ProcEntry, entry, failure, Proc, container_of_parts, container_of_line,
  first_container, parse_cgroup_file, scan_entries, scan_for_cgroup, resolve, scanned,
}

-- The hierarchy reads as zero, as each does under cgroup v2.
abbrev is_zero_hierarchy : List Text → Bool
is_zero_hierarchy [] = true
is_zero_hierarchy (hierarchy_id ∷ rest) = elim (parse_unsigned u64_mod hierarchy_id) [
  | none ↦ false
  | some hid ↦ hid == 0
]

abbrev is_unified_file : Option Text → Bool
is_unified_file none = true
is_unified_file (some content) =
    all (λ line. is_zero_hierarchy (split_on b':' line)) (lines content)

-- Each file that the walk reads has lines of the unified hierarchy only.
abbrev pub is_unified : List ProcEntry → Bool
is_unified [] = true
is_unified (failure ∷ es) = is_unified es
is_unified (entry name content ∷ es) = is_unified_file content && is_unified es

parts_same :
    (a b : ℕ) (parts : List Text)
    → is_zero_hierarchy parts ≡ true
    → container_of_parts a parts ≡ container_of_parts b parts
unfolding container_of_parts
parts_same a b [] h = refl
parts_same a b (hierarchy_id ∷ []) h = refl
parts_same a b (hierarchy_id ∷ controllers ∷ []) h = refl
parts_same a b (hierarchy_id ∷ controllers ∷ path ∷ more) h = ground arith

lines_same :
    (a b : ℕ) (ls : List Text)
    → all (λ (line : Text). is_zero_hierarchy (split_on b':' line)) ls ≡ true
    → first_container a ls ≡ first_container b ls
unfolding first_container container_of_line
lines_same a b [] h = refl
lines_same a b (l ∷ ls) h = ground (arith, lines_same a b ls, parts_same a b (split_on b':' l))

file_same :
    (a b : ℕ) (content : Option Text)
    → is_unified_file content ≡ true
    → parse_cgroup_file content a ≡ parse_cgroup_file content b
unfolding parse_cgroup_file
file_same a b none h = refl
file_same a b (some content) h = lines_same a b (lines content) h

entries_same :
    (a b : ℕ) (es : List ProcEntry) → is_unified es ≡ true → scan_entries es a ≡ scan_entries es b
unfolding scan_entries
entries_same a b [] h = refl
entries_same a b (failure ∷ es) h = refl
entries_same a b (entry name content ∷ es) h =
    ground (arith, file_same a b content, entries_same a b es)

answer_scanned : (r : CgroupResolver) (id : ℕ) (o : Option (Text × ℕ)) → (scanned r id o).1 ≡ o
unfolding scanned
answer_scanned r id none = refl
answer_scanned r id (some found) = refl

answer_miss :
    (proc : Proc) (r : CgroupResolver) (id : ℕ)
    → lookup id r.cache ≡ none
    → (resolve proc r id).1 ≡ scan_for_cgroup proc id
unfolding resolve scan_for_cgroup
answer_miss proc r id miss = rw (miss, resolve) (answer_scanned r id (scan_for_cgroup proc id))

-- Where /proc has lines of the unified hierarchy only, two control groups that are not cached resolve
-- to the same container and process, whichever they are.
pub resolve_unified :
    (es : List ProcEntry) (r : CgroupResolver) (a b : ℕ)
    → is_unified es ≡ true
    → lookup a r.cache ≡ none
    → lookup b r.cache ≡ none
    → (resolve (some es) r a).1 ≡ (resolve (some es) r b).1
unfolding scan_for_cgroup
resolve_unified es r a b unified miss_a miss_b =
    rw (answer_miss (some es) r a miss_a, answer_miss (some es) r b miss_b)
      (entries_same a b es unified)
