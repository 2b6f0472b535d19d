-- ===== src/Webhook/Manager.antt =====
-- `WebhookManager` of scanner-agent/src/webhook_sender.rs.
pub mod Dedup
pub mod Once
use execution_aware_scanner.Prelude.{
  ℕ, ◌-◌, Bool, true, false, not, ◌&&◌, Option, none, some, List, [], ◌∷◌, ◌++◌, leb, ltb, length,
  if◌then◌else◌,
}
use execution_aware_scanner.Text.{Text}
use execution_aware_scanner.Clock.{secs}
use execution_aware_scanner.Containers.Order.{text_ord}
use execution_aware_scanner.Containers.OrdMap.{OrdMap, lookup, insert, remove, retain}
use execution_aware_scanner.Webhook.{WebhookConfig, AlertPayload}
use execution_aware_scanner.Webhook.Sender.{WebhookSender, Outcomes, Sending, send_alert}
use execution_aware_scanner.Webhook.Sender

abbrev pub max_dedup_entries : ℕ
max_dedup_entries = 10_000

pub record WebhookManager : Type 0 where
  pub senders : List WebhookSender
  pub dedup_cache : OrdMap Text ℕ
  pub dedup_ttl : ℕ

unfoldable pub new : WebhookManager
new = record { senders = []; dedup_cache = []; dedup_ttl = secs 60 }

unfoldable pub add_webhook : WebhookManager → Text → WebhookConfig → WebhookManager
add_webhook m webhook_id config = record m {
  senders = m.senders ++ Sender.new webhook_id config ∷ [];
}

abbrev pub is_fresh : ℕ → ℕ → ℕ → Bool
is_fresh ttl now time = ltb (now - time) ttl

abbrev pub fresh_if_any : ℕ → ℕ → Option ℕ → Bool
fresh_if_any ttl now none = false
fresh_if_any ttl now (some time) = is_fresh ttl now time

unfoldable pub is_duplicate : WebhookManager → Text → ℕ → Bool
is_duplicate m path_id now = fresh_if_any m.dedup_ttl now (lookup path_id m.dedup_cache)

-- The first of the keys with the least time, and that time
abbrev earlier : Text → ℕ → Option (Text × ℕ) → Text × ℕ
earlier k time none = (k, time)
earlier k time (some (j, t)) = if leb time t then (k, time) else (j, t)

unfoldable pub oldest : OrdMap Text ℕ → Option (Text × ℕ)
oldest [] = none
oldest ((k, time) ∷ m) = some (earlier k time (oldest m))

abbrev pub without_oldest : OrdMap Text ℕ → Option (Text × ℕ) → OrdMap Text ℕ
without_oldest m none = m
without_oldest m (some (oldest_key, time)) = remove oldest_key m

abbrev pub is_absent : Option ℕ → Bool
is_absent none = true
is_absent (some t) = false

unfoldable pub make_room : OrdMap Text ℕ → Text → OrdMap Text ℕ
make_room cache path_id =
    if leb max_dedup_entries (length cache) && is_absent (lookup path_id cache)
    then without_oldest cache (oldest cache)
    else cache

-- The clock is read for the entry and for the clean-up.
unfoldable pub mark_sent : WebhookManager → Text → ℕ → ℕ → WebhookManager
mark_sent m path_id noted now = record m {
  dedup_cache =
      retain (is_fresh m.dedup_ttl now) (insert path_id noted (make_room m.dedup_cache path_id));
}

-- The outcomes of the requests of each sender in turn
abbrev pub next_outcomes : List Outcomes → Outcomes
next_outcomes [] = λ n. none
next_outcomes (o ∷ os) = o

abbrev pub later_outcomes : List Outcomes → List Outcomes
later_outcomes [] = []
later_outcomes (o ∷ os) = os

unfoldable pub send_all :
    {F : Type 0}
    → List WebhookSender
    → AlertPayload F
    → List Outcomes
    → List WebhookSender × List Sending
send_all [] payload os = ([], [])
send_all (s ∷ ss) payload os =
    let (s', sending) = send_alert s payload (next_outcomes os) in
    let (ss', sendings) = send_all ss payload (later_outcomes os) in (s' ∷ ss', sending ∷ sendings)

unfoldable pub broadcast :
    {F : Type 0} → WebhookManager → AlertPayload F → List Outcomes → WebhookManager × List Sending
broadcast m payload os =
    let (senders, sendings) = send_all m.senders payload os in
    (record m { senders = senders }, sendings)

-- What the clock reads: for the duplicates, for the entry and for the clean-up
pub record Readings : Type 0 where
  pub asked : ℕ
  pub noted : ℕ
  pub cleaned : ℕ

unfoldable pub send_alert_once :
    {F : Type 0}
    → WebhookManager
    → Text
    → AlertPayload F
    → Readings
    → List Outcomes
    → WebhookManager × List Sending
send_alert_once m path_id payload r os =
    if is_duplicate m path_id r.asked
    then (m, [])
    else broadcast (mark_sent m path_id r.noted r.cleaned) payload os
