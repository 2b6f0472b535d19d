-- ===== src/Cgroup.antt =====
-- `CgroupResolver` of scanner-agent/src/cgroup.rs: which container a control group belongs to.
pub mod Bounded
pub mod Tests
pub mod Unified
use execution_aware_scanner.Prelude.{
  ℕ, ◌≡◌, Bool, true, false, not, ◌&&◌, ◌||◌, Option, none, some, List, [], ◌∷◌, ◌==◌, leb, ltb,
  length, all, keep, get_elem?, if◌then◌else◌,
}
use execution_aware_scanner.Text.{Text, codes}
use execution_aware_scanner.Text.Parts.{
  split_on, lines, parse_unsigned, trim_start_matches, trim_end_matches,
}
use execution_aware_scanner.Clock.{u32_mod, u64_mod}
use execution_aware_scanner.Containers.Order.{nat_ord, text_ord, ◌=?◌}
use execution_aware_scanner.Containers.OrdMap.{OrdMap, lookup, insert, remove}

abbrev pub max_cache_entries : ℕ
max_cache_entries = 10_000

pub record CgroupResolver : Type 0 where
  pub cache : OrdMap ℕ (Text × ℕ)
  pub proc_path : Text

-- What a walk of /proc meets: an entry with its name and what its file `cgroup` holds, if it can be
-- read; or a failure of the walk.
pub data ProcEntry : Type 0 where
  entry : Text → Option Text → ProcEntry
  failure : ProcEntry

-- The walk, if the directory can be read
abbrev pub Proc : Type 0
Proc = Option (List ProcEntry)

unfoldable pub new : Text → CgroupResolver
new proc_path = record { cache = []; proc_path = proc_path }

unfoldable pub normalize_id : Text → Text
normalize_id raw =
    let s1 = trim_start_matches raw (codes "docker-") in
    let s2 = trim_start_matches s1 (codes "containerd-") in
    let s3 = trim_start_matches s2 (codes "crio-") in
    let s4 = trim_start_matches s3 (codes "libpod-") in
    let s5 = trim_start_matches s4 (codes "systemd-") in trim_end_matches s5 (codes ".scope")

abbrev is_hexdigit : ℕ → Bool
is_hexdigit c = leb b'0' c && leb c b'9' || leb b'a' c && leb c b'f' || leb b'A' c && leb c b'F'

abbrev pub is_id_char : ℕ → Bool
is_id_char c = is_hexdigit c || c == b'-' || c == b'_'

-- All of the characters are ASCII, so their number is the length in bytes.
unfoldable pub is_container_id : Text → Bool
unfolding normalize_id
is_container_id s =
    let normalized = normalize_id s in
    leb 8 (length normalized) && leb (length normalized) 128 && all is_id_char normalized

-- `filter(|id| is_container_id(id))` after `map(normalize_id)`
unfoldable pub checked_id : Option Text → Option Text
unfolding normalize_id is_container_id
checked_id none = none
checked_id (some s) = if is_container_id (normalize_id s) then some (normalize_id s) else none

abbrev pub first_of : List Text → Option Text
first_of [] = none
first_of (p ∷ ps) = some p

abbrev pub last_of : Text → List Text → Text
last_of p [] = p
last_of p (q ∷ ps) = last_of q ps

abbrev pub or_else : Option Text → Option Text → Option Text
or_else none o = o
or_else (some t) o = some t

-- The check after the `match`: a part with a prefix or a suffix of a container runtime
abbrev pub decorated_id : Text → Option Text
decorated_id part = if normalize_id part =? part then none else checked_id (some part)

-- The loop over the parts; the rest of the parts ends in the last one of them all.
unfoldable pub extract_from : List Text → Option Text
unfolding checked_id normalize_id
extract_from [] = none
extract_from (part ∷ parts) =
    let rest = extract_from parts in
    if part =? codes "docker" || part =? codes "containerd" || part =? codes "cri-o"
    then checked_id (first_of parts)
    else or_else (if part =? codes "kubepods" then checked_id (some (last_of part parts)) else none)
        (or_else (decorated_id part) rest)

abbrev pub is_filled : Text → Bool
is_filled [] = false
is_filled (_ ∷ _) = true

unfoldable pub extract_container_id : Text → Option Text
unfolding extract_from
extract_container_id cgroup_path = extract_from (keep is_filled (split_on b'/' cgroup_path))

-- The hierarchy is a number that is neither zero nor the control group asked for.
abbrev pub is_other_hierarchy : ℕ → Option ℕ → Bool
is_other_hierarchy cgroup_id none = false
is_other_hierarchy cgroup_id (some hid) = not (hid == 0) && not (hid == cgroup_id)

-- One line, cut at its colons: `continue`, or the container if there is one
unfoldable pub container_of_parts : ℕ → List Text → Option Text
unfolding extract_container_id
container_of_parts cgroup_id (hierarchy_id ∷ controllers ∷ path ∷ more) =
    if is_other_hierarchy cgroup_id (parse_unsigned u64_mod hierarchy_id)
    then none
    else extract_container_id path
container_of_parts cgroup_id _ = none

unfoldable pub container_of_line : ℕ → Text → Option Text
unfolding container_of_parts
container_of_line cgroup_id line = container_of_parts cgroup_id (split_on b':' line)

unfoldable pub first_container : ℕ → List Text → Option Text
unfolding container_of_line
first_container cgroup_id [] = none
first_container cgroup_id (line ∷ ls) =
    or_else (container_of_line cgroup_id line) (first_container cgroup_id ls)

unfoldable pub parse_cgroup_file : Option Text → ℕ → Option Text
unfolding first_container
parse_cgroup_file none cgroup_id = none
parse_cgroup_file (some content) cgroup_id = first_container cgroup_id (lines content)

abbrev pub found_in : Option ℕ → Option Text → Option (Text × ℕ)
found_in none container = none
found_in (some pid) none = none
found_in (some pid) (some container) = some (container, pid)

abbrev pub first_found : Option (Text × ℕ) → Option (Text × ℕ) → Option (Text × ℕ)
first_found none rest = rest
first_found (some found) rest = some found

-- The loop over the entries
unfoldable pub scan_entries : List ProcEntry → ℕ → Option (Text × ℕ)
unfolding parse_cgroup_file
scan_entries [] cgroup_id = none
scan_entries (failure ∷ es) cgroup_id = none
scan_entries (entry name content ∷ es) cgroup_id =
    first_found (found_in (parse_unsigned u32_mod name) (parse_cgroup_file content cgroup_id))
      (scan_entries es cgroup_id)

-- `Err` is nothing: the caller asks only whether there is a result.
unfoldable pub scan_for_cgroup : Proc → ℕ → Option (Text × ℕ)
unfolding scan_entries
scan_for_cgroup none cgroup_id = none
scan_for_cgroup (some es) cgroup_id = scan_entries es cgroup_id

abbrev pub drop_oldest : OrdMap ℕ (Text × ℕ) → OrdMap ℕ (Text × ℕ)
drop_oldest [] = []
drop_oldest ((oldest_key, v) ∷ rest) = remove oldest_key ((oldest_key, v) ∷ rest)

-- The entry of the smallest key goes, if the cache is full.
unfoldable pub evict : OrdMap ℕ (Text × ℕ) → OrdMap ℕ (Text × ℕ)
evict cache = if leb max_cache_entries (length cache) then drop_oldest cache else cache

-- What `resolve` does with the result of the scan
unfoldable pub scanned : CgroupResolver → ℕ → Option (Text × ℕ) → CgroupResolver × Option (Text × ℕ)
unfolding evict
scanned r cgroup_id none = (r, none)
scanned r cgroup_id (some result) =
    (record r { cache = insert cgroup_id result (evict r.cache) }, some result)

unfoldable pub resolve : Proc → CgroupResolver → ℕ → CgroupResolver × Option (Text × ℕ)
unfolding scan_for_cgroup scanned
resolve proc r cgroup_id = elim (lookup cgroup_id r.cache) [
  | some cached ↦ (r, some cached)
  | none ↦ scanned r cgroup_id (scan_for_cgroup proc cgroup_id)
]

unfoldable pub clear_cache : CgroupResolver → CgroupResolver
clear_cache r = record r { cache = [] }
