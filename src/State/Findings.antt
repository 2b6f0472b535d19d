-- ===== src/State/Findings.antt =====
-- `FindingStore` of scanner-agent/src/state.rs: the findings that the REST interface shows.
pub mod Stats
pub mod Acknowledge
use execution_aware_scanner.Prelude.{
  ℕ, ◌+◌, ◌≡◌, Bool, true, false, Option, none, some, List, [], ◌∷◌, ◌++◌, length, find,
  if◌then◌else◌, map, refl, arith, ◌∙◌,
}
use mathlib.Core.Option
use execution_aware_scanner.Text.{Text, codes}
use execution_aware_scanner.Common.Finding.{Finding, priority_name}
use execution_aware_scanner.Containers.Order.{text_ord, ◌=?◌}
use execution_aware_scanner.Containers.Ring.{push_capped, newest, push_all, push_all-newest}

abbrev pub max_findings : ℕ
max_findings = 10000

pub record FindingSummary (F : Type 0) : Type 0 where
  pub id : Text
  pub detected_at : ℕ
  pub cve : Text
  pub cvss : F
  pub epss : F
  pub kev : Bool
  pub priority : Text
  pub namespace : Text
  pub workload : Text
  pub pod_name : Text
  pub score : F
  pub recommendation : Text
  pub acknowledged : Bool
  pub acknowledged_at : Option ℕ
  pub acknowledged_by : Option Text

pub record FindingStats : Type 0 where
  pub total : ℕ
  pub critical : ℕ
  pub high : ℕ
  pub medium : ℕ
  pub low : ℕ
  pub informational : ℕ
  pub acknowledged : ℕ

pub record FindingStore (F : Type 0) : Type 0 where
  pub findings : List (FindingSummary F)

module _ {F : Type 0} where
  abbrev pub new : FindingStore F
  new = record { findings = [] }

  -- `From<&Finding> for FindingSummary`
  unfoldable pub summary : Finding F → FindingSummary F
  summary f = record {
    id = f.id;
    detected_at = f.detected_at;
    cve = f.signal.cve;
    cvss = f.signal.cvss;
    epss = f.signal.epss;
    kev = f.signal.kev;
    priority = priority_name f.priority;
    namespace = f.identity.namespace;
    workload = f.identity.workload;
    pod_name = f.identity.pod_name;
    score = f.score;
    recommendation = f.recommendation;
    acknowledged = false;
    acknowledged_at = none;
    acknowledged_by = none;
  }

  unfoldable pub insert : FindingStore F → Finding F → FindingStore F
  insert s finding = record s { findings = push_capped max_findings s.findings (summary finding) }

  unfoldable pub get : FindingStore F → Text → Option (FindingSummary F)
  get s id = find (λ (f : FindingSummary F). f.id =? id) s.findings

  -- What is written through the reference.
  abbrev pub mark : FindingSummary F → ℕ → Option Text → FindingSummary F
  mark f now reason = record f {
    acknowledged = true;
    acknowledged_at = some now;
    acknowledged_by = reason;
  }

  -- `iter_mut().find(…)` and the writes: the first finding with the id
  -- is changed, or there is none.
  unfoldable pub acknowledge_first :
      List (FindingSummary F) → Text → ℕ → Option Text → Option (List (FindingSummary F))
  acknowledge_first [] id now reason = none
  acknowledge_first (f ∷ fs) id now reason =
      if f.id =? id
      then some (mark f now reason ∷ fs)
      else Option.map (◌∷◌ f) (acknowledge_first fs id now reason)

pub data Result (A : Type 0) : Type 0 where
  ok : A → Result A
  err : Text → Result A

module _ {F : Type 0} where
  -- The new store, or the message of the error, at a reading of the clock.
  unfoldable pub acknowledge : FindingStore F → Text → ℕ → Option Text → Result (FindingStore F)
  unfolding acknowledge_first
  acknowledge s id now reason = elim (acknowledge_first s.findings id now reason) [
    | none ↦ err (codes "Finding " ++ id ++ codes " not found")
    | some fs ↦ ok (record s { findings = fs })
  ]

  -- One round of the loop of `stats`.
  unfoldable pub count_finding : FindingStats → FindingSummary F → FindingStats
  count_finding t f =
      let t' =
        if f.priority =? codes "Critical"
        then record t { critical = t.critical + 1 }
        else if f.priority =? codes "High"
        then record t { high = t.high + 1 }
        else if f.priority =? codes "Medium"
        then record t { medium = t.medium + 1 }
        else if f.priority =? codes "Low"
        then record t { low = t.low + 1 }
        else record t { informational = t.informational + 1 } in
      if f.acknowledged then record t' { acknowledged = t'.acknowledged + 1 } else t'

  unfoldable pub count_findings : FindingStats → List (FindingSummary F) → FindingStats
  unfolding count_finding
  count_findings t [] = t
  count_findings t (f ∷ fs) = count_findings (count_finding t f) fs

  unfoldable pub stats : FindingStore F → FindingStats
  unfolding count_findings
  stats s =
      count_findings
        (record {
          total = length s.findings;
          critical = 0;
          high = 0;
          medium = 0;
          low = 0;
          informational = 0;
          acknowledged = 0;
        })
        s.findings

  unfoldable pub insert_all : FindingStore F → List (Finding F) → FindingStore F
  unfolding insert
  insert_all s [] = s
  insert_all s (f ∷ fs) = insert_all (insert s f) fs

  insert_all_push :
      (s : FindingStore F) (fs : List (Finding F))
      → (insert_all s fs).findings ≡ push_all max_findings s.findings (map summary fs)
  unfolding insert_all push_all
  insert_all_push s [] = refl
  insert_all_push s (f ∷ fs) = insert_all_push (insert s f) fs

  -- A new store that takes in findings one after another shows the newest 10000 of them, oldest
  -- first, each as its summary.
  insert_all-newest :
      (fs : List (Finding F)) → (insert_all new fs).findings ≡ newest max_findings (map summary fs)
  insert_all-newest fs =
      insert_all_push new fs ∙ push_all-newest max_findings [] (map summary fs) (omega arith)
