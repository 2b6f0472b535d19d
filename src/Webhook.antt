-- ===== src/Webhook.antt =====
-- scanner-agent/src/webhook_sender.rs: the configuration of a webhook and the payload of an alert.
pub mod Sender
pub mod Retry
pub mod Limit
pub mod Manager
mod Tests
use execution_aware_scanner.Prelude.{
  ℕ, Bool, true, false, Option, none, some, List, [], ◌∷◌, map, ltb, if◌then◌else◌,
}
use execution_aware_scanner.Text.{Text, codes}
use execution_aware_scanner.Containers.Order.{text_ord, ◌=?◌}
use execution_aware_scanner.Float.{Float, lit, ◌≤?◌}
use execution_aware_scanner.Common.Finding.{
  Finding, Priority, informational, low, medium, high, critical,
}
use execution_aware_scanner.Attack.Nodes.{AttackPath, RuntimeNode, process, node_id}

pub data WebhookType : Type 0 where
  generic elastic splunk slack teams datadog : WebhookType
  custom : Text → WebhookType

pub data WebhookAuth : Type 0 where
  no_auth : WebhookAuth
  bearer : Text → WebhookAuth
  basic : Text → Text → WebhookAuth
  api_key : Text → Text → WebhookAuth

pub data SeverityFilter : Type 0 where
  severity_critical severity_high severity_medium severity_low severity_info : SeverityFilter

unfoldable pub rank : SeverityFilter → ℕ
rank severity_info = 0
rank severity_low = 1
rank severity_medium = 2
rank severity_high = 3
rank severity_critical = 4

unfoldable pub from_priority : Priority → SeverityFilter
from_priority critical = severity_critical
from_priority high = severity_high
from_priority medium = severity_medium
from_priority low = severity_low
from_priority informational = severity_low

-- The `match` on the payload's severity
unfoldable pub parse_severity : Text → SeverityFilter
parse_severity s =
    if s =? codes "CRITICAL"
    then severity_critical
    else if s =? codes "HIGH"
    then severity_high
    else if s =? codes "MEDIUM"
    then severity_medium
    else if s =? codes "LOW"
    then severity_low
    else severity_info

pub data AlertMode : Type 0 where
  on_alert_only on_update on_every_event : AlertMode

pub record WebhookConfig : Type 0 where
  pub url : Text
  pub webhook_type : WebhookType
  pub auth : WebhookAuth
  pub rate_limit : ℕ
  pub min_severity : SeverityFilter
  pub alert_mode : AlertMode
  pub timeout_secs : ℕ
  pub retry_attempts : ℕ

unfoldable pub default_config : WebhookConfig
default_config = record {
  url = [];
  webhook_type = generic;
  auth = no_auth;
  rate_limit = 60;
  min_severity = severity_high;
  alert_mode = on_alert_only;
  timeout_secs = 30;
  retry_attempts = 3;
}

pub record AlertMetadata : Type 0 where
  pub scanner_version : Text
  pub scanner_id : Text
  pub node_name : Text
  pub namespace : Text
  pub pod_name : Text

-- The context is always absent.
pub record AlertPayload (F : Type 0) : Type 0 where
  pub event_type : Text
  pub severity : Text
  pub confidence : F
  pub risk_score : F
  pub cve : Option Text
  pub process_ : Text
  pub attack_path : List Text
  pub signals : List Text
  pub timestamp : ℕ
  pub metadata : AlertMetadata

module _ {F : Type 0} where
  -- The name of the first process
  abbrev first_process : List (RuntimeNode F) → Text
  first_process [] = codes "unknown"
  first_process (process pid name cgroup_id ∷ ns) = name
  first_process (_ ∷ ns) = first_process ns

  abbrev finding_or : {A : Type 0} → A → (Finding F → A) → Option (Finding F) → A
  finding_or a g none = a
  finding_or a g (some x) = g x

  abbrev cve_of : Option (Finding F) → Option Text
  cve_of none = none
  cve_of (some x) = some x.signal.cve

module _ {F : Type 0} ⦃f : Float F⦄ where
  unfoldable pub severity_name : F → Text
  severity_name confidence =
      if lit 90 ≤? confidence
      then codes "CRITICAL"
      else if lit 80 ≤? confidence
      then codes "HIGH"
      else if lit 60 ≤? confidence
      then codes "MEDIUM"
      else codes "LOW"

  -- With the version of the package and the time
  unfoldable pub create_alert_payload :
      Text → ℕ → AttackPath F → Option (Finding F) → Text → AlertPayload F
  unfolding severity_name
  create_alert_payload version time path finding scanner_id = record {
    event_type = codes "ATTACK_PATH_ALERT";
    severity = severity_name path.confidence;
    confidence = path.confidence;
    risk_score = path.risk_score;
    cve = cve_of finding;
    process_ = first_process path.nodes;
    attack_path = map node_id path.nodes;
    signals = path.signal_types;
    timestamp = time;
    metadata = record {
      scanner_version = version;
      scanner_id = scanner_id;
      node_name = finding_or (codes "unknown") (λ x. x.identity.node_name) finding;
      namespace = finding_or [] (λ x. x.identity.namespace) finding;
      pod_name = finding_or [] (λ x. x.identity.pod_name) finding;
    };
  }
