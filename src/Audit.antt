-- ===== src/Audit.antt =====
-- `AuditLogger` of scanner-agent/src/audit_trail.rs over the files of its directory.
pub mod Names
pub mod Retention
mod Tests
use execution_aware_scanner.Prelude.{
  ℕ, Bool, true, false, ◌&&◌, Option, none, some, List, [], ◌∷◌, ◌++◌, Ordering, if◌then◌else◌,
}
use execution_aware_scanner.Text.{Text, codes, compare_text, starts_with, ends_with}
use execution_aware_scanner.Text.Parts.{trim_start_matches, trim_end_matches}
use execution_aware_scanner.Containers.Order.{text_ord, ◌=?◌}
use execution_aware_scanner.Containers.OrdMap.{OrdMap, lookup, insert}

pub data AuditEventType : Type 0 where
  finding_generated enforcement_action policy_decision intel_refresh : AuditEventType
  configuration_change scan_triggered webhook_sent system_start system_stop : AuditEventType

pub data AuditSeverity : Type 0 where
  info warning critical : AuditSeverity

-- The metadata is a list of names and texts: all that the code puts into it.
pub record AuditEvent : Type 0 where
  pub id : Text
  pub timestamp : ℕ
  pub event_type : AuditEventType
  pub severity : AuditSeverity
  pub actor : Text
  pub resource : Text
  pub action : Text
  pub outcome : Text
  pub metadata : Option (List (Text × Text))
  pub controls : List Text

pub record AuditLogger : Type 0 where
  pub output_dir : Text
  pub retention_days : ℕ
  pub enabled : Bool

-- The files of the output directory by their names
abbrev pub Files : Type 0
Files = OrdMap Text Text

unfoldable pub new : Text → ℕ → AuditLogger
new output_dir retention_days = record {
  output_dir = output_dir;
  retention_days = retention_days;
  enabled = true;
}

unfoldable pub disabled : AuditLogger
disabled = record { output_dir = []; retention_days = 0; enabled = false }

-- What the file system and serde_json make of a call: whether the directory is there, the text of the
-- event, whether the file opens, and what of the text and of the newline behind it is written.
pub record Writing : Type 0 where
  pub has_dir : Bool
  pub json : Option Text
  pub opens : Bool
  pub written : Text → Text
  pub ends_line : Bool

abbrev pub prefix : Text
prefix = codes "audit-"

abbrev pub suffix : Text
suffix = codes ".jsonl"

abbrev pub file_name : Text → Text
file_name date = prefix ++ (date ++ suffix)

abbrev pub content_of : Option Text → Text
content_of none = []
content_of (some content) = content

abbrev pub append_line : Files → Text → Writing → Text → Files
append_line files name w json =
    insert name
      (content_of (lookup name files) ++ (w.written json ++ (if w.ends_line then 10 ∷ [] else [])))
      files

abbrev write_json : Files → Text → Writing → Option Text → Files
write_json files name w none = files
write_json files name w (some json) = if w.opens then append_line files name w json else files

-- With the event's date, as `%Y-%m-%d` prints it
unfoldable pub log : AuditLogger → Files → Text → Writing → Files
log l files date w =
    if l.enabled
    then if w.has_dir then write_json files (file_name date) w w.json else files
    else files

abbrev pub is_before : Text → Text → Bool
is_before s t = elim (compare_text s t) [ Ordering.lt ↦ true | _ ↦ false ]

unfoldable pub is_expired : Text → Text → Bool
is_expired cutoff name =
    starts_with name prefix
    && ends_with name suffix
    && is_before (trim_end_matches (trim_start_matches name prefix) suffix) cutoff

-- The loop over the entries, some of which can be removed
unfoldable pub remove_expired : Text → (Text → Bool) → Files → Files
remove_expired cutoff removable [] = []
remove_expired cutoff removable ((name, content) ∷ files) =
    let rest = remove_expired cutoff removable files in
    if is_expired cutoff name && removable name then rest else (name, content) ∷ rest

-- With the date of the cut-off, if the directory can be read
unfoldable pub cleanup : AuditLogger → Files → Bool → Text → (Text → Bool) → Files
cleanup l files reads cutoff removable =
    if l.enabled then if reads then remove_expired cutoff removable files else files else files

unfoldable pub finding_severity : Text → AuditSeverity
finding_severity priority =
    if priority =? codes "Critical"
    then critical
    else if priority =? codes "High"
    then warning
    else info

-- With the identifier that is drawn and the time
unfoldable pub finding_event : Text → ℕ → Text → Text → Text → Text → Text → AuditEvent
finding_event id time finding_id cve priority namespace workload = record {
  id = id;
  timestamp = time;
  event_type = finding_generated;
  severity = finding_severity priority;
  actor = codes "system";
  resource = codes "finding/" ++ finding_id;
  action = codes "generate";
  outcome = codes "success";
  metadata = some (
      (codes "cve", cve)
      ∷ (codes "priority", priority)
      ∷ (codes "namespace", namespace)
      ∷ (codes "workload", workload)
      ∷ []);
  controls = codes "CC7.1" ∷ codes "A.12.6.1" ∷ [];
}

unfoldable pub enforcement_event : Text → ℕ → Text → Text → Text → Text → AuditEvent
enforcement_event id time finding_id action target result = record {
  id = id;
  timestamp = time;
  event_type = enforcement_action;
  severity = warning;
  actor = codes "system";
  resource = codes "finding/" ++ finding_id;
  action = action;
  outcome = result;
  metadata = some ((codes "target", target) ∷ []);
  controls = codes "CC6.1" ∷ codes "CC6.6" ∷ [];
}
