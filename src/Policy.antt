-- ===== src/Policy.antt =====
-- `PolicyEngine` of scanner-agent/src/policy_engine.rs, over the file system and the program `opa`.
pub mod Reload
pub mod Decision
mod Tests
use execution_aware_scanner.Prelude.{
  ℕ, ◌+◌, Bool, true, false, Option, none, some, List, [], ◌∷◌, ◌++◌, find, leb, if◌then◌else◌,
}
use execution_aware_scanner.Text.{Text, codes, starts_with}
use execution_aware_scanner.Text.Parts.{lines, trim_start, trim, behind_first, count_matches}
use execution_aware_scanner.Containers.Order.{text_ord, ◌=?◌}
use execution_aware_scanner.Containers.OrdMap.{OrdMap}

pub record PolicyInfo : Type 0 where
  pub id : Text
  pub name : Text
  pub description : Text
  pub enabled : Bool
  pub rules_count : ℕ
  pub source_path : Text
  pub last_loaded : ℕ

pub data PolicyAction : Type 0 where
  allow alert block quarantine audit : PolicyAction

pub record PolicyDecision : Type 0 where
  pub action : PolicyAction
  pub reason : Text
  pub rule_id : Text
  pub policy_name : Text

pub record ReloadResult : Type 0 where
  pub reloaded : ℕ
  pub errors : List Text

pub record FindingInput (F : Type 0) : Type 0 where
  pub id : Text
  pub cve : Text
  pub cvss : F
  pub epss : F
  pub kev : Bool
  pub priority : Text
  pub score : F

pub record PolicyInput (F : Type 0) : Type 0 where
  pub finding : FindingInput F
  pub namespace : Text
  pub workload : Text
  pub labels : OrdMap Text Text

pub record PolicyEngine : Type 0 where
  pub policies : List PolicyInfo
  pub policy_dir : Text
  pub last_loaded : Option ℕ

unfoldable pub with_dir : Text → PolicyEngine
with_dir policy_dir = record { policies = []; policy_dir = policy_dir; last_loaded = none }

unfoldable pub new : PolicyEngine
unfolding with_dir
new = with_dir (codes "/etc/scanner/policies")

unfoldable pub get_policy : PolicyEngine → Text → Option PolicyInfo
get_policy e id = find (λ (p : PolicyInfo). p.id =? id) e.policies

-- `Result` with a message
pub data Outcome (A : Type 0) : Type 0 where
  done : A → Outcome A
  failed : Text → Outcome A

-- An entry of the policy directory that can be read: its path, the stem of its name, whether its
-- extension is `rego`, and its content, or why that cannot be read; with the identifier that is drawn
-- for it and the time.
pub record PolicyFile : Type 0 where
  pub path : Text
  pub stem : Text
  pub is_rego : Bool
  pub content : Outcome Text
  pub drawn_id : Text
  pub time : ℕ

-- What the directory is found to be
pub data Directory : Type 0 where
  missing : Directory
  unreadable : Text → Directory
  readable : List PolicyFile → Directory

unfoldable pub extract_metadata : Text → Text → Option Text
extract_metadata content key =
    let prefix = codes "# @" ++ key ++ codes ":" in
    elim (find (λ (line : Text). starts_with (trim_start line) prefix) (lines content)) [
      | none ↦ none
      | some line ↦ elim (behind_first b':' line) [ none ↦ none | some value ↦ some (trim value) ]
    ]

abbrev text_or : Text → Option Text → Text
text_or t none = t
text_or t (some u) = u

abbrev at_least_one : ℕ → ℕ
at_least_one n = if leb 1 n then n else 1

-- The metadata of a file's content
unfoldable pub info_of : PolicyFile → Text → PolicyInfo
info_of f content = record {
  id = f.drawn_id;
  name = text_or f.stem (extract_metadata content (codes "name"));
  description = text_or [] (extract_metadata content (codes "description"));
  enabled = true;
  rules_count = at_least_one (count_matches content (codes "rule"));
  source_path = f.path;
  last_loaded = f.time;
}

unfoldable pub load_policy_file : PolicyFile → Outcome PolicyInfo
load_policy_file f = elim f.content [
  | failed e ↦ failed (codes "Read error: " ++ e)
  | done content ↦ done (info_of f content)
]

-- What the loop over the entries has gathered
pub record Loading : Type 0 where
  pub new_policies : List PolicyInfo
  pub result : ReloadResult

-- An entry: whether it is a policy, and what its file comes to
abbrev pub add_loaded : Bool → Outcome PolicyInfo → Text → Loading → Loading
add_loaded false outcome path l = l
add_loaded true (done info) path l = record l {
  new_policies = l.new_policies ++ info ∷ [];
  result = record l.result { reloaded = l.result.reloaded + 1 };
}
add_loaded true (failed e) path l = record l {
  result = record l.result { errors = l.result.errors ++ (path ++ codes ": " ++ e) ∷ [] };
}

unfoldable pub load_entry : Loading → PolicyFile → Loading
load_entry l f = add_loaded f.is_rego (load_policy_file f) f.path l

abbrev pub nothing_loaded : Loading
nothing_loaded = record { new_policies = []; result = record { reloaded = 0; errors = [] } }

unfoldable pub load_entries : Loading → List PolicyFile → Loading
load_entries l [] = l
load_entries l (f ∷ fs) = load_entries (load_entry l f) fs

abbrev loaded : PolicyEngine → ℕ → Loading → PolicyEngine × ReloadResult
loaded e now l = (record e { policies = l.new_policies; last_loaded = some now }, l.result)

unfoldable pub reload : PolicyEngine → Directory → ℕ → PolicyEngine × ReloadResult
reload e missing now = (record e { last_loaded = some now }, nothing_loaded.result)
reload e (unreadable error) now = loaded e now (record nothing_loaded {
  result = record { reloaded = 0; errors = (codes "Failed to read policy dir: " ++ error) ∷ [] };
})
reload e (readable fs) now = loaded e now (load_entries nothing_loaded fs)

-- How a run of `opa` ends: it does not start, it is not waited for, or it exits.
pub data Exit : Type 0 where
  not_spawned : Text → Exit
  not_finished : Text → Exit
  exited : (success : Bool) → (stdout stderr : Text) → Exit

-- The program `opa`, from the path of a policy and what it reads from its standard input; and the
-- decision that serde_json finds in its output, if that is JSON.
pub record Opa : Type 0 where
  pub eval : Text → Text → Exit
  pub decision_of : Text → Outcome (Option PolicyDecision)

abbrev result_of : Opa → Exit → Outcome (Option PolicyDecision)
result_of opa (not_spawned e) = failed (codes "Failed to spawn OPA: " ++ e)
result_of opa (not_finished e) = failed (codes "OPA execution failed: " ++ e)
result_of opa (exited false stdout stderr) = failed (codes "OPA error: " ++ stderr)
result_of opa (exited true stdout stderr) = elim (opa.decision_of stdout) [
  | failed e ↦ failed (codes "JSON parse error: " ++ e)
  | done decision ↦ done decision
]

-- The pipe to the program's standard input is closed without anything being written to it.
unfoldable pub evaluate_policy : Opa → Text → Text → Outcome (Option PolicyDecision)
evaluate_policy opa policy_path input_json = result_of opa (opa.eval policy_path [])

-- What one policy decides, if it decides
unfoldable pub decide : Opa → PolicyInfo → Text → Option PolicyDecision
decide opa p input_json = elim (evaluate_policy opa p.source_path input_json) [
  | failed e ↦ none
  | done decision ↦ decision
]

abbrev pub if_decides : Bool → Option PolicyDecision → Option PolicyDecision → Option PolicyDecision
if_decides false decision rest = rest
if_decides true none rest = rest
if_decides true (some d) rest = some d

unfoldable pub first_decision : Opa → List PolicyInfo → Text → Option PolicyDecision
first_decision opa [] input_json = none
first_decision opa (p ∷ ps) input_json =
    if_decides p.enabled (decide opa p input_json) (first_decision opa ps input_json)

abbrev pub evaluate_all : Opa → List PolicyInfo → Option Text → Option PolicyDecision
evaluate_all opa [] input_json = none
evaluate_all opa (p ∷ ps) none = none
evaluate_all opa (p ∷ ps) (some input_json) = first_decision opa (p ∷ ps) input_json

-- With serde_json's text of the input, if it has one
unfoldable pub evaluate :
    {F : Type 0}
    → (PolicyInput F → Option Text)
    → Opa
    → PolicyEngine
    → PolicyInput F
    → Option PolicyDecision
evaluate to_json opa e input = evaluate_all opa e.policies (to_json input)
