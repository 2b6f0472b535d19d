-- ===== src/Webhook/Retry.antt =====
-- The loop `send_with_retry` of scanner-agent/src/webhook_sender.rs.
use native.Mathlib.Numerals.{towards_suc}
use execution_aware_scanner.Prelude.{
  ℕ, zero, suc, ◌+◌, ◌*◌, ◌^◌, ◌≤◌, ◌<◌, ◌≡◌, ◌≢◌, refl, sym, ap, ◌∙◌, subst, ◌⊎◌, inl, inr, Bool,
  true, false, ◌&&◌, Option, none, some, List, [], ◌∷◌, arith, leb, if◌then◌else◌, Bool-cases,
  Option-cases,
}
use execution_aware_scanner.Text.{Text}
use execution_aware_scanner.Clock.{secs}
use execution_aware_scanner.Webhook.{WebhookConfig}
use execution_aware_scanner.Webhook.Sender.{
  Outcomes, Sent, next_delay, attempt, tries, send_with_retry,
}

abbrev is_failure : Option Text → Bool
is_failure none = false
is_failure (some e) = true

-- A number of requests from the k-th on have failed.
abbrev pub all_fail : Outcomes → ℕ → ℕ → Bool
all_fail outcomes k zero = true
all_fail outcomes k (suc n) = is_failure (outcomes k) && all_fail outcomes (k + 1) n

-- The pause after the k-th failure, from 0: a second, and twice as much for each failure before it,
-- up to thirty seconds.
abbrev pub pause : ℕ → ℕ
pause k =
    if leb (2 ^ k * 1_000_000_000) 30_000_000_000 then 2 ^ k * 1_000_000_000 else 30_000_000_000

-- A number of pauses from the k-th on
abbrev pub pauses : ℕ → ℕ → List ℕ
pauses k zero = []
pauses k (suc n) = pause k ∷ pauses (k + 1) n

-- From the k-th request on, with as many as there may be: each but the last failed, the last is the
-- result, it succeeded or there may be no other, and between them are the pauses.
pub record IsRetried (outcomes : Outcomes) (k most : ℕ) (s : Sent) : Type 0 where
  pub failures : ℕ
  pub requests : s.requests ≡ k + failures + 1
  pub few : failures < most
  pub failed : all_fail outcomes k failures ≡ true
  pub result : s.error ≡ outcomes (k + failures)
  pub ended : (s.error ≡ none) ⊎ (failures + 1 ≡ most)
  pub delays : s.delays ≡ pauses k failures

abbrev Attempted : ℕ → ℕ → Outcomes → ℕ → ℕ → Type 0
Attempted retry fuel outcomes k delay =
    (s : Sent) × ((attempt retry fuel outcomes k delay ≡ some s) × IsRetried outcomes k fuel s)

at_once :
    (outcomes : Outcomes) (k most : ℕ) (error : Option Text)
    → outcomes k ≡ error
    → (error ≡ none) ⊎ (1 ≡ most)
    → 0 < most
    → IsRetried outcomes k most (record { error = error; requests = k + 1; delays = [] })
at_once outcomes k most error h ended some_left = record {
  failures = 0;
  requests = omega arith;
  few = some_left;
  failed = refl;
  result = sym h ∙ ap outcomes (omega arith);
  ended = ended;
  delays = refl;
}

after_failure :
    (outcomes : Outcomes) (k most delay : ℕ) (e : Text) (s : Sent)
    → outcomes k ≡ some e
    → delay ≡ pause k
    → IsRetried outcomes (k + 1) most s
    → IsRetried outcomes k (suc most) (record s { delays = delay ∷ s.delays })
after_failure outcomes k most delay e s h now r = record {
  failures = suc r.failures;
  requests = let n = r.requests in omega (arith, n);
  few = let n = r.few in omega (arith, n);
  failed = rw h r.failed;
  result = r.result ∙ ap outcomes (omega arith);
  ended = elim r.ended [ inl fine ↦ inl fine | inr last ↦ inr (omega (arith, last)) ];
  delays = rw (now, r.delays) refl;
}

retry_le_tries : (retry : ℕ) → retry ≤ tries retry
retry_le_tries zero = omega arith
retry_le_tries (suc n) = omega arith

tries_le : (retry k : ℕ) → leb retry (k + 1) ≡ true → tries retry ≤ k + 1
tries_le zero k h = omega arith
tries_le (suc n) k h = ground (arith, h)

next_delay-pause : (k : ℕ) → next_delay (pause k) ≡ pause (k + 1)
next_delay-pause k =
    let twice : 2 ^ (k + 1) ≡ 2 * 2 ^ k = simp towards_suc (omega arith) in ground (arith, twice)

-- One round, and the others if it goes on
round_lem :
    (retry fuel : ℕ) (outcomes : Outcomes) (k delay : ℕ)
    → k + suc fuel ≡ tries retry
    → delay ≡ pause k
    → (leb retry (k + 1) ≡ false → Attempted retry fuel outcomes (k + 1) (next_delay delay))
    → Attempted retry (suc fuel) outcomes k delay
unfolding attempt
round_lem retry fuel outcomes k delay left now others = elim (Option-cases (outcomes k)) [
  | inl fine ↦ (
    record { error = none; requests = k + 1; delays = [] },
    (rw (fine, attempt) refl, at_once outcomes k (suc fuel) none fine (inl refl) (omega arith)),
  )
  | inr (e, bad) ↦ elim (Bool-cases (leb retry (k + 1))) [
    | inl last ↦ (
      record { error = some e; requests = k + 1; delays = [] },
      (
        rw (bad, attempt, last) refl,
        at_once outcomes k (suc fuel) (some e) bad
            (inr (let few = tries_le retry k last in omega (arith, few, left))) (omega arith),
      ),
    )
    | inr more ↦
        let (s, (ran, rest)) = others more in
        (
          record s { delays = delay ∷ s.delays },
          (rw (bad, attempt, more, ran) refl, after_failure outcomes k fuel delay e s bad now rest),
        )
  ]
]

no_more : (retry k : ℕ) → k + 1 ≡ tries retry → leb retry (k + 1) ≢ false
no_more retry k left more = let low = retry_le_tries retry in ground (arith, left, more, low)

attempt_lem :
    (retry fuel : ℕ) (outcomes : Outcomes) (k delay : ℕ)
    → k + suc fuel ≡ tries retry
    → delay ≡ pause k
    → Attempted retry (suc fuel) outcomes k delay
attempt_lem retry zero outcomes k delay left now =
    round_lem retry zero outcomes k delay left now (λ more. absurd (no_more retry k left more))
attempt_lem retry (suc n) outcomes k delay left now =
    round_lem retry (suc n) outcomes k delay left now (λ more.
      attempt_lem retry n outcomes (k + 1) (next_delay delay) (omega (arith, left))
        (ap next_delay now ∙ next_delay-pause k))

attempt_tries :
    (retry most : ℕ) (outcomes : Outcomes)
    → most ≡ tries retry
    → 0 < most
    → Attempted retry most outcomes 0 (secs 1)
attempt_tries retry zero outcomes same positive = absurd (omega (arith, positive))
attempt_tries retry (suc n) outcomes same positive =
    attempt_lem retry n outcomes 0 (secs 1) (omega (arith, same)) (omega arith)

tries_positive : (retry : ℕ) → 0 < tries retry
tries_positive zero = omega arith
tries_positive (suc n) = omega arith

-- As many as are configured, but one at least
abbrev pub most_requests : WebhookConfig → ℕ
most_requests config = if leb 1 config.retry_attempts then config.retry_attempts else 1

tries-most_requests : (config : WebhookConfig) → tries config.retry_attempts ≡ most_requests config
tries-most_requests config = ground arith

-- A call returns: it makes at least one request and at most as many as are configured (or one), each
-- but the last of which failed; the last is its result, and it gives up only after all of them; it
-- sleeps a second after the first failure and twice as long after each further one, but never more
-- than thirty seconds.
pub send_with_retry_lem :
    (config : WebhookConfig) (outcomes : Outcomes)
    → (s : Sent) × ((send_with_retry config outcomes ≡ some s)
        × IsRetried outcomes 0 (most_requests config) s)
unfolding send_with_retry
send_with_retry_lem config outcomes =
    let (s, (ran, right)) =
      attempt_tries config.retry_attempts (tries config.retry_attempts) outcomes refl
        (tries_positive config.retry_attempts) in
    (s, (ran, subst (λ most. IsRetried outcomes 0 most s) (tries-most_requests config) right))
