-- ===== src/Cgroup/Bounded.antt =====
-- What the cache of scanner-agent/src/cgroup.rs holds after any calls.
use execution_aware_scanner.Prelude.{
  ℕ, ◌+◌, ◌≤◌, ◌≡◌, true, Option, none, some, List, [], ◌∷◌, arith, length, leb, Bool, false, ◌||◌,
  if◌then◌else◌, keep, Option-cases, foldl, foldl_keeps, Bool-cases, inl, inr,
}
use execution_aware_scanner.Text.{Text, codes}
use execution_aware_scanner.Text.Parts.{split_on, parse_unsigned, lines}
use execution_aware_scanner.Clock.{u32_mod, u64_mod}
use execution_aware_scanner.Containers.Order.{nat_ord, text_ord, ◌=?◌}
use execution_aware_scanner.Containers.OrdMap.{
  OrdMap, Values, lookup, insert, remove, length-insert, length-remove, Values-insert,
  Values-remove, Values-lookup,
}
use execution_aware_scanner.Cgroup.{
  CgroupResolver, ProcEntry, entry, failure, Proc, new, normalize_id, is_container_id, checked_id,
  extract_from, extract_container_id, container_of_line, first_container, parse_cgroup_file,
  first_found, scanned, container_of_parts, first_of, last_of, or_else, decorated_id, found_in,
  is_filled, is_other_hierarchy, scan_entries, scan_for_cgroup, evict, resolve, clear_cache,
  max_cache_entries,
}

-- A call, and what the walk of /proc meets in it.
pub data Call : Type 0 where
  resolves : Proc → ℕ → Call
  clears : Call

abbrev pub call : CgroupResolver → Call → CgroupResolver
call r (resolves proc cgroup_id) = (resolve proc r cgroup_id).0
call r clears = clear_cache r

abbrev pub call_all : CgroupResolver → List Call → CgroupResolver
call_all r cs = foldl call r cs

-- An answer whose container passes the test for identifiers.
abbrev pub IsNamed : Text × ℕ → Type 0
IsNamed (container, pid) = is_container_id container ≡ true

abbrev pub IsNamedIfAny : Option (Text × ℕ) → Type 0
IsNamedIfAny none = Unit
IsNamedIfAny (some found) = IsNamed found

abbrev IsIdIfAny : Option Text → Type 0
IsIdIfAny none = Unit
IsIdIfAny (some s) = is_container_id s ≡ true

pub record IsSound (r : CgroupResolver) : Type 0 where
  pub bounded : length r.cache ≤ max_cache_entries
  pub named : Values IsNamed r.cache

checked_id-IsId : (o : Option Text) → IsIdIfAny (checked_id o)
unfolding checked_id
checked_id-IsId none = tt
checked_id-IsId (some s) = elim (Bool-cases (is_container_id (normalize_id s))) [
  | inl passes ↦ rw passes passes
  | inr fails ↦ rw fails tt
]

if-IsId :
    (b : Bool) (o p : Option Text) → IsIdIfAny o → IsIdIfAny p → IsIdIfAny (if b then o else p)
if-IsId true o p h k = h
if-IsId false o p h k = k

or_else-IsId : (o p : Option Text) → IsIdIfAny o → IsIdIfAny p → IsIdIfAny (or_else o p)
or_else-IsId none p h k = k
or_else-IsId (some t) p h k = h

extract_from-IsId : (ps : List Text) → IsIdIfAny (extract_from ps)
unfolding extract_from
extract_from-IsId [] = tt
extract_from-IsId (p ∷ ps) =
    if-IsId (p =? codes "docker" || p =? codes "containerd" || p =? codes "cri-o")
      (checked_id (first_of ps)) _ (checked_id-IsId (first_of ps))
      (or_else-IsId (if p =? codes "kubepods" then checked_id (some (last_of p ps)) else none) _
        (if-IsId (p =? codes "kubepods") (checked_id (some (last_of p ps))) none
          (checked_id-IsId (some (last_of p ps))) tt)
        (or_else-IsId (decorated_id p) (extract_from ps)
          (if-IsId (normalize_id p =? p) none (checked_id (some p)) tt (checked_id-IsId (some p)))
          (extract_from-IsId ps)))

of_parts-IsId : (id : ℕ) (parts : List Text) → IsIdIfAny (container_of_parts id parts)
unfolding container_of_parts extract_container_id
of_parts-IsId id [] = tt
of_parts-IsId id (hierarchy_id ∷ []) = tt
of_parts-IsId id (hierarchy_id ∷ controllers ∷ []) = tt
of_parts-IsId id (hierarchy_id ∷ controllers ∷ path ∷ more) =
    if-IsId (is_other_hierarchy id (parse_unsigned u64_mod hierarchy_id)) none
      (extract_container_id path) tt (extract_from-IsId (keep is_filled (split_on b'/' path)))

container_of_line-IsId : (id : ℕ) (line : Text) → IsIdIfAny (container_of_line id line)
unfolding container_of_line
container_of_line-IsId id line = of_parts-IsId id (split_on b':' line)

first_container-IsId : (id : ℕ) (ls : List Text) → IsIdIfAny (first_container id ls)
unfolding first_container
first_container-IsId id [] = tt
first_container-IsId id (l ∷ ls) =
    or_else-IsId (container_of_line id l) (first_container id ls) (container_of_line-IsId id l)
      (first_container-IsId id ls)

parse_cgroup_file-IsId : (content : Option Text) (id : ℕ) → IsIdIfAny (parse_cgroup_file content id)
unfolding parse_cgroup_file
parse_cgroup_file-IsId none id = tt
parse_cgroup_file-IsId (some content) id = first_container-IsId id (lines content)

found-IsNamed :
    (o : Option ℕ) (c : Option Text) (rest : Option (Text × ℕ))
    → IsIdIfAny c
    → IsNamedIfAny rest
    → IsNamedIfAny (first_found (found_in o c) rest)
found-IsNamed none c rest h k = k
found-IsNamed (some pid) none rest h k = k
found-IsNamed (some pid) (some container) rest h k = h

scan_entries-IsNamed : (es : List ProcEntry) (id : ℕ) → IsNamedIfAny (scan_entries es id)
unfolding scan_entries
scan_entries-IsNamed [] id = tt
scan_entries-IsNamed (failure ∷ es) id = tt
scan_entries-IsNamed (entry name content ∷ es) id =
    found-IsNamed (parse_unsigned u32_mod name) (parse_cgroup_file content id) (scan_entries es id)
      (parse_cgroup_file-IsId content id) (scan_entries-IsNamed es id)

scan-IsNamed : (proc : Proc) (id : ℕ) → IsNamedIfAny (scan_for_cgroup proc id)
unfolding scan_for_cgroup
scan-IsNamed none id = tt
scan-IsNamed (some es) id = scan_entries-IsNamed es id

length-evict :
    (m : OrdMap ℕ (Text × ℕ))
    → length m ≤ max_cache_entries
    → length (evict m) + 1 ≤ max_cache_entries
unfolding evict remove
length-evict [] h = omega arith
length-evict ((k, v) ∷ m) h = ground (arith, length-remove k m)

evict-IsNamed : (m : OrdMap ℕ (Text × ℕ)) → Values IsNamed m → Values IsNamed (evict m)
unfolding evict
evict-IsNamed [] h = h
evict-IsNamed ((k, v) ∷ m) h = elim (Bool-cases (leb max_cache_entries (length ((k, v) ∷ m)))) [
  | inl full ↦ rw full (Values-remove IsNamed k ((k, v) ∷ m) h)
  | inr spare ↦ rw spare h
]

insert-IsSound :
    (r : CgroupResolver) (id : ℕ) (found : Text × ℕ)
    → IsSound r
    → IsNamed found
    → IsSound (record r { cache = insert id found (evict r.cache) })
insert-IsSound r id found h k = record {
  bounded = ground (arith, length-insert id found (evict r.cache), length-evict r.cache h.bounded);
  named = Values-insert IsNamed id found (evict r.cache) k (evict-IsNamed r.cache h.named);
}

cache-IsSound :
    (r : CgroupResolver) (id : ℕ) (o : Option (Text × ℕ))
    → IsSound r
    → IsNamedIfAny o
    → IsSound (scanned r id o).0
unfolding scanned
cache-IsSound r id none h k = h
cache-IsSound r id (some found) h k = insert-IsSound r id found h k

answer_scan :
    (r : CgroupResolver) (id : ℕ) (o : Option (Text × ℕ))
    → IsNamedIfAny o
    → IsNamedIfAny (scanned r id o).1
unfolding scanned
answer_scan r id none k = tt
answer_scan r id (some found) k = k

resolve-IsSound :
    (proc : Proc) (r : CgroupResolver) (id : ℕ) → IsSound r → IsSound (resolve proc r id).0
unfolding resolve
resolve-IsSound proc r id h = elim (Option-cases (lookup id r.cache)) [
  | inl miss ↦
      rw (miss, resolve) (cache-IsSound r id (scan_for_cgroup proc id) h (scan-IsNamed proc id))
  | inr (found, hit) ↦ rw (hit, resolve) h
]

call-IsSound : (r : CgroupResolver) (c : Call) → IsSound r → IsSound (call r c)
unfolding clear_cache
call-IsSound r (resolves proc id) h = resolve-IsSound proc r id h
call-IsSound r clears h = record { bounded = omega arith; named = tt }

answer-IsNamed :
    (proc : Proc) (r : CgroupResolver) (id : ℕ) → IsSound r → IsNamedIfAny (resolve proc r id).1
unfolding resolve
answer-IsNamed proc r id h = elim (Option-cases (lookup id r.cache)) [
  | inl miss ↦
      rw (miss, resolve) (answer_scan r id (scan_for_cgroup proc id) (scan-IsNamed proc id))
  | inr (found, hit) ↦ rw (hit, resolve) (Values-lookup IsNamed id r.cache h.named hit)
]

new-IsSound : (path : Text) → IsSound (new path)
unfolding new
new-IsSound path = record { bounded = omega arith; named = tt }

-- Whatever was resolved and cleared since the resolver was made: the cache has no more entries than its
-- limit, and a container that the next call returns, out of the cache or out of /proc, passes the test
-- for identifiers.
pub resolve_bounded :
    (path : Text) (cs : List Call) (proc : Proc) (cgroup_id : ℕ)
    → (length (resolve proc (call_all (new path) cs) cgroup_id).0.cache ≤ max_cache_entries)
      × IsNamedIfAny (resolve proc (call_all (new path) cs) cgroup_id).1
resolve_bounded path cs proc cgroup_id =
    let h = foldl_keeps IsSound call call-IsSound (new path) cs (new-IsSound path) in
    (
      (resolve-IsSound proc (call_all (new path) cs) cgroup_id h).bounded,
      answer-IsNamed proc (call_all (new path) cs) cgroup_id h,
    )
