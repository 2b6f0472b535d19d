-- ===== src/Webhook/Limit.antt =====
-- The rate limit of scanner-agent/src/webhook_sender.rs.
use execution_aware_scanner.Prelude.{
  ℕ, zero, suc, ◌+◌, ◌-◌, ◌%◌, ◌<◌, ◌≡◌, refl, sym, ap, ◌∙◌, Bool, true, false, Option, List, [],
  ◌∷◌, arith, leb, length, keep, Bool-cases, inl, inr, subst, if◌then◌else◌,
}
use execution_aware_scanner.Clock.{u32_mod}
use execution_aware_scanner.Containers.Order.{text_ord}
use execution_aware_scanner.Containers.OrdMap.{or_default, lookup-insert_self}
use execution_aware_scanner.Webhook.{WebhookConfig, AlertPayload}
use execution_aware_scanner.Webhook.Sender.{
  WebhookSender, Outcomes, Sending, tried, Sent, if_allowed, is_severe, count_of, check_rate_limit,
  send_alert, send_with_retry,
}

abbrev first : {A : Type 0} → ℕ → List A → List A
first zero xs = []
first (suc n) [] = []
first (suc n) (x ∷ xs) = x ∷ first n xs

-- An alert, and what its requests come to.
pub record Alert (F : Type 0) : Type 0 where
  pub payload : AlertPayload F
  pub outcomes : Outcomes

abbrev pub is_tried : Sending → Bool
is_tried (tried s) = true
is_tried _ = false

first_nil : {A : Type 0} (n : ℕ) → ◌≡◌ {A = List A} (first n []) []
first_nil zero = refl
first_nil (suc n) = refl

first_cons :
    {A : Type 0} (limit count : ℕ) (a : A) (as' : List A)
    → leb (count + 1) limit ≡ true
    → first (limit - count) (a ∷ as') ≡ a ∷ first (limit - (count + 1)) as'
first_cons limit count a as' h =
    let one : limit - count ≡ suc (limit - (count + 1)) = ground (arith, h) in rw one refl

first_none :
    {A : Type 0} (limit count : ℕ) (xs : List A)
    → leb (count + 1) limit ≡ false
    → first (limit - count) xs ≡ []
first_none limit count xs h = let gone : limit - count ≡ zero = ground (arith, h) in rw gone refl

abbrev counted : WebhookSender → WebhookSender
counted s = record s {
  rate_limiter = (check_rate_limit s.rate_limiter s.webhook_id s.config.rate_limit).0;
}

count-counted :
    (s : WebhookSender)
    → count_of (counted s).rate_limiter s.webhook_id
      ≡ (count_of s.rate_limiter s.webhook_id + 1) % u32_mod
unfolding check_rate_limit
count-counted s = ap (or_default 0) (
    lookup-insert_self s.webhook_id ((count_of s.rate_limiter s.webhook_id + 1) % u32_mod)
      s.rate_limiter.event_count)

is_tried-if_allowed : (b : Bool) (sent : Option Sent) → is_tried (if_allowed b sent) ≡ b
is_tried-if_allowed true sent = refl
is_tried-if_allowed false sent = refl

module _ {F : Type 0} where
  -- The alerts for which requests are made.
  abbrev pub handed : WebhookSender → List (Alert F) → List (Alert F)
  handed s [] = []
  handed s (a ∷ as') =
      let (s', sending) = send_alert s a.payload a.outcomes in
      let rest = handed s' as' in if is_tried sending then a ∷ rest else rest

  abbrev pub severe : WebhookConfig → List (Alert F) → List (Alert F)
  severe config as' = keep (λ a. is_severe config a.payload) as'

  handed_mild :
      (s : WebhookSender) (a : Alert F) (as' : List (Alert F))
      → is_severe s.config a.payload ≡ false
      → handed s (a ∷ as') ≡ handed s as'
  unfolding send_alert
  handed_mild s a as' low = rw low refl

  sent_severe :
      (s : WebhookSender) (a : Alert F) (b : Bool)
      → is_severe s.config a.payload ≡ true
      → leb ((count_of s.rate_limiter s.webhook_id + 1) % u32_mod) s.config.rate_limit ≡ b
      → send_alert s a.payload a.outcomes
        ≡ (counted s, if_allowed b (send_with_retry s.config a.outcomes))
  unfolding send_alert check_rate_limit
  sent_severe s a b high allowed = rw (high, allowed) refl

  handed_severe :
      (s : WebhookSender) (a : Alert F) (as' : List (Alert F)) (b : Bool)
      → is_severe s.config a.payload ≡ true
      → leb ((count_of s.rate_limiter s.webhook_id + 1) % u32_mod) s.config.rate_limit ≡ b
      → handed s (a ∷ as') ≡ (if b then a ∷ handed (counted s) as' else handed (counted s) as')
  handed_severe s a as' b high allowed =
      rw
        (
          sent_severe s a b high allowed,
          is_tried-if_allowed b (send_with_retry s.config a.outcomes),
        )
        refl

  -- As long as the count of alerts stays below the values of a `u32`: of all alerts that are ever sent,
  -- however far apart, requests are made for the first severe ones, as many as the rate limit has left.
  pub handed_lem :
      (s : WebhookSender) (as' : List (Alert F))
      → count_of s.rate_limiter s.webhook_id + length (severe s.config as') < u32_mod
      → handed s as'
        ≡ first (s.config.rate_limit - count_of s.rate_limiter s.webhook_id) (severe s.config as')
  handed_lem s [] h = sym (first_nil (s.config.rate_limit - count_of s.rate_limiter s.webhook_id))
  handed_lem s (a ∷ as') h = elim (Bool-cases (is_severe s.config a.payload)) [
    | inl high ↦
        let count = count_of s.rate_limiter s.webhook_id in
        let limit = s.config.rate_limit in
        let same : severe s.config (a ∷ as') ≡ a ∷ severe s.config as' = rw high refl in
        let room : count + suc (length (severe s.config as')) < u32_mod =
          subst (λ xs. count + length xs < u32_mod) same h in
        let next : count_of (counted s).rate_limiter s.webhook_id ≡ count + 1 =
          count-counted s ∙ omega (arith, room) in
        let rest : handed (counted s) as' ≡ first (limit - (count + 1)) (severe s.config as') =
          handed_lem (counted s) as' (rw next (omega (arith, room)))
          ∙ ap (λ n. first (limit - n) (severe s.config as')) next in
        let unwrapped : (count + 1) % u32_mod ≡ count + 1 = omega (arith, room) in
        elim (Bool-cases (leb (count + 1) limit)) [
          | inl allowed ↦
              handed_severe s a as' true high (rw unwrapped allowed)
              ∙ ap (λ xs. a ∷ xs) rest
              ∙ sym (first_cons limit count a (severe s.config as') allowed)
              ∙ ap (first (limit - count)) (sym same)
          | inr refused ↦
              handed_severe s a as' false high (rw unwrapped refused)
              ∙ rest
              ∙ first_none limit (count + 1) (severe s.config as') (ground (arith, refused))
              ∙ sym (first_none limit count (severe s.config (a ∷ as')) refused)
        ]
    | inr low ↦
        let same : severe s.config (a ∷ as') ≡ severe s.config as' = rw low refl in
        handed_mild s a as' low
        ∙ handed_lem s as'
            (subst (λ xs. count_of s.rate_limiter s.webhook_id + length xs < u32_mod) same h)
        ∙ ap (first (s.config.rate_limit - count_of s.rate_limiter s.webhook_id)) (sym same)
  ]
