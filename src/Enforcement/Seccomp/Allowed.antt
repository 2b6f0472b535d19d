-- ===== src/Enforcement/Seccomp/Allowed.antt =====
-- Which calls the generated profiles allow, and how their categories sort them.
use execution_aware_scanner.Prelude.{
  ◌≡◌, refl, ap, sym, ◌∙◌, Bool, true, false, ◌&&◌, ◌||◌, Option, none, some, List, [], ◌∷◌, ◌++◌,
  arith, if◌then◌else◌, keep, length, Bool-cases, inl, inr, map,
}
use execution_aware_scanner.Text.{Text, codes, compare_text}
use execution_aware_scanner.Common.Finding.{SeccompRule}
use execution_aware_scanner.Containers.Order.{text_ord, ◌=?◌, =?_sound}
use execution_aware_scanner.Containers.OrdSet.{
  OrdSet, contains, insert_all, contains-insert_all, contains-insert,
}
use execution_aware_scanner.Containers.OrdMap.{OrdMap, lookup, or_default, update, lookup-update}
use execution_aware_scanner.Enforcement.Seccomp.{
  categorize_syscall, essential_syscalls, engine_syscalls, allowed_syscalls, categories_of,
  profile_of, with_openat2, build_seccomp_profile,
}

-- The names of one category, in their order, or no entry where there are none.
abbrev pub entry_of : List Text → Option (List Text)
entry_of [] = none
entry_of (s ∷ ss) = some (s ∷ ss)

abbrev pub of_category : Text → List Text → List Text
of_category category = keep (λ (s : Text). category =? categorize_syscall s)

-- An entry together with the names that come after it.
abbrev joined : Option (List Text) → List Text → Option (List Text)
joined none ss = entry_of ss
joined (some names) ss = some (names ++ ss)

append_nil : (xs : List Text) → xs ++ [] ≡ xs
append_nil [] = refl
append_nil (x ∷ xs) = ap (λ r. x ∷ r) (append_nil xs)

append_assoc : (xs : List Text) (s : Text) (ss : List Text) → xs ++ s ∷ [] ++ ss ≡ xs ++ s ∷ ss
append_assoc [] s ss = refl
append_assoc (x ∷ xs) s ss = ap (λ r. x ∷ r) (append_assoc xs s ss)

joined_nil : (o : Option (List Text)) → joined o [] ≡ o
joined_nil none = refl
joined_nil (some names) = ap (λ r. some r) (append_nil names)

joined_first :
    (o : Option (List Text)) (s : Text) (ss : List Text)
    → joined (some (or_default [] o ++ s ∷ [])) ss ≡ joined o (s ∷ ss)
joined_first none s ss = refl
joined_first (some names) s ss = ap (λ r. some r) (append_assoc names s ss)

joined_step :
    (category : Text) (m : OrdMap Text (List Text)) (s : Text) (ss : List Text)
    → joined
        (if category =? categorize_syscall s
          then some (or_default [] (lookup (categorize_syscall s) m) ++ s ∷ [])
          else lookup category m)
        (of_category category ss)
      ≡ joined (lookup category m) (of_category category (s ∷ ss))
joined_step category m s ss = elim (Bool-cases (category =? categorize_syscall s)) [
  | inl same ↦ rw same (
      joined_first (lookup (categorize_syscall s) m) s (of_category category ss)
      ∙ ap (λ c. joined (lookup c m) (s ∷ of_category category ss))
          (sym (=?_sound category (categorize_syscall s) same)))
  | inr other ↦ rw other refl
]

lookup-categories_of :
    (category : Text) (m : OrdMap Text (List Text)) (ss : List Text)
    → lookup category (categories_of m ss) ≡ joined (lookup category m) (of_category category ss)
unfolding categories_of
lookup-categories_of category m [] = sym (joined_nil (lookup category m))
lookup-categories_of category m (s ∷ ss) =
    lookup-categories_of category (update (categorize_syscall s) [] (λ names. names ++ s ∷ []) m) ss
    ∙ ap (λ o. joined o (of_category category ss))
        (lookup-update category (categorize_syscall s) [] (λ names. names ++ s ∷ []) m)
    ∙ joined_step category m s ss

or_false : (b : Bool) → (b || false) ≡ b
or_false true = refl
or_false false = refl

contains_list : (s : Text) (ks : List Text) → contains s (insert_all ks []) ≡ contains s ks
unfolding contains
contains_list s ks = contains-insert_all s ks [] ∙ or_false (contains s ks)

contains-allowed :
    (s : Text) (observed : OrdSet Text)
    → contains s (allowed_syscalls observed)
      ≡ (contains s observed || contains s essential_syscalls)
unfolding allowed_syscalls
contains-allowed s observed =
    contains-insert_all s observed (insert_all essential_syscalls [])
    ∙ ap (λ b. contains s observed || b) (contains_list s essential_syscalls)

-- A profile that the controller generates for a workload allows exactly the nine essential calls and
-- those that the workload was seen to make; its categories hold each allowed call once, under the
-- category that the call has, in the profile's order.
profile_allows :
    (observed : OrdSet Text) (workload_id generated_at syscall category : Text)
    → let p = profile_of observed workload_id generated_at in
      (contains syscall p.names
        ≡ (contains syscall observed || contains syscall essential_syscalls))
      × (lookup category p.categories ≡ entry_of (of_category category p.names))
      × (p.syscall_count ≡ length p.names)
unfolding profile_of lookup
profile_allows observed workload_id generated_at syscall category = (
  contains-allowed syscall observed,
  lookup-categories_of category [] (allowed_syscalls observed),
  refl,
)

no_openat : contains (codes "openat") engine_syscalls ≡ false
unfolding contains compare_text
no_openat = refl

rearranged : (p e o : Bool) → (p || (e || o)) ≡ ((p && true) || e || o)
rearranged p e o = ground arith

rearranged' : (p e o : Bool) → (e || o) ≡ ((p && false) || e || o)
rearranged' p e o = ground arith

contains-with_openat2 :
    (observed : OrdSet Text) (s : Text)
    → contains s (with_openat2 (insert_all engine_syscalls observed)) ≡ (
        (s =? codes "openat2" && contains (codes "openat") observed)
        || contains s engine_syscalls
        || contains s observed)
contains-with_openat2 observed s = elim (Bool-cases (contains (codes "openat") observed)) [
  | inl opens ↦
      rw (contains-insert_all (codes "openat") engine_syscalls observed, opens, no_openat)
        (rw
          (
            contains-insert s (codes "openat2") (insert_all engine_syscalls observed),
            contains-insert_all s engine_syscalls observed,
          )
          (rearranged (s =? codes "openat2") (contains s engine_syscalls) (contains s observed)))
  | inr other ↦
      rw (contains-insert_all (codes "openat") engine_syscalls observed, other, no_openat)
        (rw (contains-insert_all s engine_syscalls observed)
          (rearranged' (s =? codes "openat2") (contains s engine_syscalls) (contains s observed)))
]

-- A profile that the risk engine builds allows what the workload was seen to do, eight calls in any
-- case, `mprotect` among them, and `openat2` where the workload was seen to call `openat`; nothing
-- else.
engine_allows :
    (observed : OrdSet Text) (syscall : Text)
    → map (λ (r : SeccompRule). contains syscall r.names) (build_seccomp_profile observed).syscalls
      ≡ ((syscall =? codes "openat2" && contains (codes "openat") observed)
          || contains syscall engine_syscalls
          || contains syscall observed)
        ∷ []
unfolding build_seccomp_profile
engine_allows observed syscall = ap (λ b. b ∷ []) (contains-with_openat2 observed syscall)
