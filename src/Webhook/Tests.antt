-- ===== src/Webhook/Tests.antt =====
-- Alerts through a sender and a manager.
use execution_aware_scanner.Prelude.{
  ℕ, leb, if◌then◌else◌, ◌≡◌, refl, none, some, List, [], ◌∷◌, arith,
}
use execution_aware_scanner.Text.{Text, codes, compare_text}
use execution_aware_scanner.Clock.{secs}
use execution_aware_scanner.Containers.Order.{text_ord}
use execution_aware_scanner.Containers.OrdMap.{lookup}
use execution_aware_scanner.Float.Fixed.{Fixed}
use execution_aware_scanner.Webhook.{
  AlertPayload, WebhookConfig, default_config, parse_severity, rank,
}
use execution_aware_scanner.Webhook.Sender
use execution_aware_scanner.Webhook.Sender.{
  WebhookSender, Outcomes, Sent, tries, attempt, send_with_retry,
}
use execution_aware_scanner.Webhook.Retry.{IsRetried, send_with_retry_lem}
use execution_aware_scanner.Webhook.Limit.{Alert, handed, handed_lem}
use execution_aware_scanner.Webhook.Manager
use execution_aware_scanner.Webhook.Manager.{
  WebhookManager, Readings, max_dedup_entries, is_duplicate, send_alert_once,
}
use execution_aware_scanner.Webhook.Manager.Dedup.{Call, call_all}
use execution_aware_scanner.Webhook.Manager.Once.{send_alert_once_lem}

-- The first six requests fail.
abbrev seventh_try : Outcomes
seventh_try n = if leb 6 n then none else some (codes "HTTP 503")

abbrev patient : WebhookConfig
patient = record default_config { retry_attempts = 8 }

send_with_retry_lem_example :
    (s : Sent) × ((send_with_retry patient seventh_try ≡ some s) × IsRetried seventh_try 0 8 s)
send_with_retry_lem_example = send_with_retry_lem patient seventh_try

waits_longer_each_time :
    send_with_retry patient seventh_try
    ≡ some (record {
      error = none;
      requests = 7;
      delays = secs 1 ∷ secs 2 ∷ secs 4 ∷ secs 8 ∷ secs 16 ∷ secs 30 ∷ [];
    })
unfolding send_with_retry attempt
waits_longer_each_time = refl

abbrev alert_of : Text → AlertPayload Fixed
alert_of severity = record {
  event_type = codes "ATTACK_PATH_ALERT";
  severity = severity;
  confidence = some 95;
  risk_score = some 90;
  cve = none;
  process_ = codes "nginx";
  attack_path = [];
  signals = [];
  timestamp = 0;
  metadata = record {
    scanner_version = codes "1";
    scanner_id = codes "s";
    node_name = codes "n";
    namespace = [];
    pod_name = [];
  };
}

abbrev sent_as : Text → Alert Fixed
sent_as severity = record { payload = alert_of severity; outcomes = seventh_try }

abbrev sender : WebhookSender
sender = Sender.new (codes "Slack_x") (record default_config { rate_limit = 1 })

-- The second alert is over the limit, whenever it comes.
handed_lem_example :
    handed sender (sent_as (codes "LOW") ∷ sent_as (codes "HIGH") ∷ sent_as (codes "CRITICAL") ∷ [])
    ≡ sent_as (codes "HIGH") ∷ []
unfolding Sender.new default_config parse_severity rank compare_text lookup
handed_lem_example =
    handed_lem sender
      (sent_as (codes "LOW") ∷ sent_as (codes "HIGH") ∷ sent_as (codes "CRITICAL") ∷ [])
      (omega arith)

abbrev at : ℕ → Readings
at time = record { asked = secs time; noted = secs time; cleaned = secs time }

abbrev call_at : ℕ → Text → Call Fixed
call_at time path_id = record {
  path_id = path_id;
  payload = alert_of (codes "HIGH");
  readings = at time;
  outcomes = [];
}

abbrev calls : List (Call Fixed)
calls = call_at 5 (codes "a") ∷ call_at 6 (codes "b") ∷ []

send_alert_once_lem_example :
    send_alert_once (call_all Manager.new calls) (codes "a") (alert_of (codes "HIGH")) (at 50) []
    ≡ (call_all Manager.new calls, [])
unfolding Manager.new is_duplicate lookup
send_alert_once_lem_example =
    send_alert_once_lem Manager.new (call_at 5 (codes "a")) (call_at 6 (codes "b") ∷ [])
      (alert_of (codes "HIGH")) (at 50) [] refl
      ((omega arith, omega arith), ((omega arith, omega arith), tt)) (omega arith) (omega arith)
