-- ===== src/Policy/Reload.antt =====
-- What `reload` of scanner-agent/src/policy_engine.rs loads.
use mathlib.Core.List.{append_assoc, append-nil}
use execution_aware_scanner.Prelude.{
  ℕ, ◌+◌, ◌≡◌, refl, sym, ap, ◌∙◌, Bool, true, false, List, [], ◌∷◌, ◌++◌, arith, keep, concat_map,
  length, length-append, if◌then◌else◌,
}
use execution_aware_scanner.Text.{Text, codes}
use execution_aware_scanner.Policy.{
  PolicyInfo, PolicyEngine, PolicyFile, Outcome, done, failed, missing, unreadable, readable,
  Loading, nothing_loaded, load_policy_file, add_loaded, load_entry, load_entries, reload,
}

abbrev info_list : Outcome PolicyInfo → List PolicyInfo
info_list (done info) = info ∷ []
info_list (failed e) = []

abbrev infos_if : Bool → Outcome PolicyInfo → List PolicyInfo
infos_if false outcome = []
infos_if true outcome = info_list outcome

-- The policy of a file, if it is one and can be read
abbrev pub policy_in : PolicyFile → List PolicyInfo
policy_in f = infos_if f.is_rego (load_policy_file f)

abbrev pub is_rego : PolicyFile → Bool
is_rego f = f.is_rego

-- What the loop adds up to
record IsLoaded (fs : List PolicyFile) (l m : Loading) : Type 0 where
  policies : m.new_policies ≡ l.new_policies ++ concat_map policy_in fs
  counted :
      m.result.reloaded + length m.result.errors
      ≡ l.result.reloaded + length l.result.errors + length (keep is_rego fs)
  reloaded : m.result.reloaded ≡ l.result.reloaded + length (concat_map policy_in fs)

record IsAdded (test : Bool) (o : Outcome PolicyInfo) (l m : Loading) : Type 0 where
  policies : m.new_policies ≡ l.new_policies ++ infos_if test o
  counted :
      m.result.reloaded + length m.result.errors
      ≡ l.result.reloaded + length l.result.errors + (if test then 1 else 0)
  reloaded : m.result.reloaded ≡ l.result.reloaded + length (infos_if test o)

add_loaded-IsAdded :
    (test : Bool) (o : Outcome PolicyInfo) (path : Text) (l : Loading)
    → IsAdded test o l (add_loaded test o path l)
add_loaded-IsAdded false o path l = record {
  policies = sym (append-nil l.new_policies);
  counted = omega arith;
  reloaded = omega arith;
}
add_loaded-IsAdded true (done info) path l = record {
  policies = refl;
  counted = omega arith;
  reloaded = omega arith;
}
add_loaded-IsAdded true (failed e) path l = record {
  policies = sym (append-nil l.new_policies);
  counted =
      let n = length-append l.result.errors ((path ++ codes ": " ++ e) ∷ []) in omega (arith, n);
  reloaded = omega arith;
}

length-keep_rego :
    (f : PolicyFile) (fs : List PolicyFile)
    → length (keep is_rego (f ∷ fs)) ≡ (if f.is_rego then 1 else 0) + length (keep is_rego fs)
length-keep_rego f fs = ground arith

load_entries-IsLoaded : (l : Loading) (fs : List PolicyFile) → IsLoaded fs l (load_entries l fs)
unfolding load_entries load_entry
load_entries-IsLoaded l [] = record {
  policies = sym (append-nil l.new_policies);
  counted = omega arith;
  reloaded = omega arith;
}
load_entries-IsLoaded l (f ∷ fs) =
    let one = add_loaded-IsAdded f.is_rego (load_policy_file f) f.path l in
    let more = load_entries-IsLoaded (add_loaded f.is_rego (load_policy_file f) f.path l) fs in
    record {
      policies =
          more.policies
          ∙ ap (λ (ps : List PolicyInfo). ps ++ concat_map policy_in fs) one.policies
          ∙ append_assoc l.new_policies (policy_in f) (concat_map policy_in fs);
      counted =
          let c = more.counted in
          let d = one.counted in let n = length-keep_rego f fs in omega (arith, c, d, n);
      reloaded =
          let c = more.reloaded in
          let d = one.reloaded in
          let n = length-append (policy_in f) (concat_map policy_in fs) in omega (arith, c, d, n);
    }

-- Where the directory can be read, the policies are afterwards those of the files that are policies and
-- can be read, in the order of the entries; they are counted, and with the errors they make up all
-- files that are policies. Where it cannot be read no policy is left, and where it is missing all stay.
pub reload_lem :
    (e : PolicyEngine) (fs : List PolicyFile) (error : Text) (now : ℕ)
    → ((reload e (readable fs) now).0.policies ≡ concat_map policy_in fs)
      × (((reload e (readable fs) now).1.reloaded ≡ length (concat_map policy_in fs))
          × (((reload e (readable fs) now).1.reloaded + length (reload e (readable fs) now).1.errors
                ≡ length (keep is_rego fs))
              × (((reload e (unreadable error) now).0.policies ≡ [])
                  × ((reload e missing now).0.policies ≡ e.policies))))
unfolding reload
reload_lem e fs error now =
    let l = load_entries-IsLoaded nothing_loaded fs in
    let c = l.counted in
    let n = l.reloaded in (l.policies, (omega (arith, n), (omega (arith, c), (refl, refl))))
