-- ===== src/Policy/Tests.antt =====
-- Two policies, the second of which blocks.
use execution_aware_scanner.Prelude.{
  ◌+◌, ◌≡◌, refl, Bool, true, false, Option, none, some, List, [], ◌∷◌, concat_map, length,
  if◌then◌else◌,
}
use execution_aware_scanner.Text.{Text, codes, starts_with}
use execution_aware_scanner.Text.Parts.{lines, split_on, trim, trim_start, trim_end, behind_first}
use execution_aware_scanner.Containers.Order.{text_ord, ◌=?◌}
use execution_aware_scanner.Float.Fixed.{Fixed}
use execution_aware_scanner.Policy.{
  PolicyInfo, PolicyDecision, PolicyEngine, PolicyInput, PolicyFile, Opa, exited, Outcome, done,
  failed, block, readable, unreadable, missing, evaluate, extract_metadata, reload, new,
}
use execution_aware_scanner.Policy.Decision.{Decided, evaluate_first, evaluate_ignores_finding}
use execution_aware_scanner.Policy.Reload.{policy_in, reload_lem}

extracts_name :
    extract_metadata (codes "# @name: kev-auto-block\n# @description: Auto") (codes "name")
    ≡ some (codes "kev-auto-block")
unfolding extract_metadata lines split_on trim trim_start trim_end behind_first starts_with
extracts_name = refl

abbrev blocking : PolicyDecision
blocking = record {
  action = block;
  reason = codes "kev";
  rule_id = codes "r";
  policy_name = codes "b";
}

-- It decides by the policy alone.
abbrev opa : Opa
opa = record {
  eval = λ path input. exited true path [];
  decision_of = λ output. if output =? codes "b.rego" then done (some blocking) else done none;
}

abbrev policy : Text → PolicyInfo
policy path = record {
  id = path;
  name = path;
  description = [];
  enabled = true;
  rules_count = 1;
  source_path = path;
  last_loaded = 0;
}

abbrev engine : PolicyEngine
engine = record {
  policies = policy (codes "a.rego") ∷ policy (codes "b.rego") ∷ [];
  policy_dir = codes "/p";
  last_loaded = none;
}

abbrev input : Bool → PolicyInput Fixed
input kev = record {
  finding = record {
    id = codes "f";
    cve = codes "CVE-1";
    cvss = some 980;
    epss = some 90;
    kev = kev;
    priority = codes "Critical";
    score = some 900;
  };
  namespace = codes "default";
  workload = codes "nginx";
  labels = [];
}

abbrev to_json : PolicyInput Fixed → Option Text
to_json x = some (if x.finding.kev then codes "{true}" else codes "{false}")

evaluate_first_example :
    Decided opa (codes "{true}") engine.policies (evaluate to_json opa engine (input true))
evaluate_first_example = evaluate_first to_json opa engine (input true) (codes "{true}") refl

evaluate_ignores_finding_example :
    evaluate to_json opa engine (input true) ≡ evaluate to_json opa engine (input false)
evaluate_ignores_finding_example =
    evaluate_ignores_finding to_json opa engine (input true) (input false) (codes "{true}")
      (codes "{false}") refl refl

abbrev file : Text → Bool → Outcome Text → PolicyFile
file path rego content = record {
  path = path;
  stem = path;
  is_rego = rego;
  content = content;
  drawn_id = path;
  time = 1;
}

abbrev files : List PolicyFile
files =
    file (codes "a.rego") true (done (codes "# @name: a"))
    ∷ file (codes "b.rego") true (failed (codes "denied"))
    ∷ file (codes "README") false (done [])
    ∷ []

reload_lem_example :
    ((reload new (readable files) 5).0.policies ≡ concat_map policy_in files)
    × (((reload new (readable files) 5).1.reloaded ≡ length (concat_map policy_in files))
        × (((reload new (readable files) 5).1.reloaded
                + length (reload new (readable files) 5).1.errors
              ≡ 2)
            × (((reload new (unreadable (codes "denied")) 5).0.policies ≡ [])
                × ((reload new missing 5).0.policies ≡ new.policies))))
reload_lem_example = reload_lem new files (codes "denied") 5
