-- ===== src/Webhook/Sender.antt =====
-- `RateLimiter` and `WebhookSender` of scanner-agent/src/webhook_sender.rs.
use execution_aware_scanner.Prelude.{
  ℕ, zero, suc, ◌+◌, ◌-◌, ◌*◌, ◌%◌, Bool, true, false, Option, none, some, List, [], ◌∷◌, leb, ltb,
  if◌then◌else◌,
}
use execution_aware_scanner.Text.{Text}
use execution_aware_scanner.Clock.{secs, u32_mod}
use execution_aware_scanner.Containers.Order.{text_ord}
use execution_aware_scanner.Containers.OrdMap.{OrdMap, lookup, insert, or_default}
use execution_aware_scanner.Webhook.{WebhookConfig, AlertPayload, parse_severity, rank}

pub record RateLimiter : Type 0 where
  pub last_sent : OrdMap Text ℕ
  pub cooldown : ℕ
  pub event_count : OrdMap Text ℕ
  pub rate_window : ℕ

unfoldable pub new_limiter : ℕ → RateLimiter
new_limiter cooldown_secs = record {
  last_sent = [];
  cooldown = secs cooldown_secs;
  event_count = [];
  rate_window = secs 60;
}

-- At a time
unfoldable pub should_send : RateLimiter → Text → ℕ → RateLimiter × Bool
should_send l path_id now =
    let sent : RateLimiter = record l { last_sent = insert path_id now l.last_sent } in
    elim (lookup path_id l.last_sent) [
      | none ↦ (sent, true)
      | some last_time ↦ if ltb (now - last_time) l.cooldown then (l, false) else (sent, true)
    ]

abbrev pub count_of : RateLimiter → Text → ℕ
count_of l webhook_id = or_default 0 (lookup webhook_id l.event_count)

unfoldable pub check_rate_limit : RateLimiter → Text → ℕ → RateLimiter × Bool
check_rate_limit l webhook_id limit =
    let count = (count_of l webhook_id + 1) % u32_mod in
    (record l { event_count = insert webhook_id count l.event_count }, leb count limit)

unfoldable pub reset_counters : RateLimiter → RateLimiter
reset_counters l = record l { event_count = [] }

-- The sender without its HTTP client. Its identifier is made of the type and the address.
pub record WebhookSender : Type 0 where
  pub config : WebhookConfig
  pub rate_limiter : RateLimiter
  pub webhook_id : Text

unfoldable pub new : Text → WebhookConfig → WebhookSender
unfolding new_limiter
new webhook_id config = record {
  config = config;
  rate_limiter = new_limiter 60;
  webhook_id = webhook_id;
}

-- What a request of a call comes to, by its number: nothing, or an error.
abbrev pub Outcomes : Type 0
Outcomes = ℕ → Option Text

-- The result of the call, the requests that it made, and how long it slept between them.
pub record Sent : Type 0 where
  pub error : Option Text
  pub requests : ℕ
  pub delays : List ℕ

abbrev pub after_delay : ℕ → Option Sent → Option Sent
after_delay delay none = none
after_delay delay (some s) = some (record s { delays = delay ∷ s.delays })

abbrev pub next_delay : ℕ → ℕ
next_delay delay = if leb (delay * 2) (secs 30) then delay * 2 else secs 30

-- The loop, for as many rounds as there is fuel
unfoldable pub attempt : ℕ → ℕ → Outcomes → ℕ → ℕ → Option Sent
attempt retry_attempts zero outcomes attempts delay = none
attempt retry_attempts (suc fuel) outcomes attempts delay =
    let rest = attempt retry_attempts fuel outcomes (attempts + 1) (next_delay delay) in
    elim (outcomes attempts) [
      | none ↦ some (record { error = none; requests = attempts + 1; delays = [] })
      | some e ↦
          if leb retry_attempts (attempts + 1)
          then some (record { error = some e; requests = attempts + 1; delays = [] })
          else after_delay delay rest
    ]

-- The rounds of the loop: no attempt is made after the last one, but one is always made.
abbrev pub tries : ℕ → ℕ
tries zero = 1
tries (suc n) = suc n

unfoldable pub send_with_retry : WebhookConfig → Outcomes → Option Sent
unfolding attempt
send_with_retry config outcomes =
    attempt config.retry_attempts (tries config.retry_attempts) outcomes 0 (secs 1)

-- What a call comes to
pub data Sending : Type 0 where
  below_severity over_limit : Sending
  tried : Option Sent → Sending

abbrev pub is_severe : {F : Type 0} → WebhookConfig → AlertPayload F → Bool
is_severe config payload = leb (rank config.min_severity) (rank (parse_severity payload.severity))

abbrev pub if_allowed : Bool → Option Sent → Sending
if_allowed true sent = tried sent
if_allowed false sent = over_limit

unfoldable pub send_alert :
    {F : Type 0} → WebhookSender → AlertPayload F → Outcomes → WebhookSender × Sending
unfolding check_rate_limit
send_alert s payload outcomes =
    let (limiter, allowed) = check_rate_limit s.rate_limiter s.webhook_id s.config.rate_limit in
    if is_severe s.config payload
    then (
      record s { rate_limiter = limiter },
      if_allowed allowed (send_with_retry s.config outcomes),
    )
    else (s, below_severity)
