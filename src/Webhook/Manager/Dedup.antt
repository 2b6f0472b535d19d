-- ===== src/Webhook/Manager/Dedup.antt =====
-- The cache of sent alerts in scanner-agent/src/webhook_sender.rs.
use execution_aware_scanner.Prelude.{
  ℕ, ◌+◌, ◌≤◌, ◌≡◌, refl, ap, ◌∙◌, subst, true, none, some, List, [], ◌∷◌, arith, leb, length,
  foldl, foldl_keeps, Bool-cases, Option-cases, inl, inr,
}
use execution_aware_scanner.Text.{Text}
use execution_aware_scanner.Containers.Order.{text_ord, ◌=?◌, =?_refl}
use execution_aware_scanner.Containers.OrdMap.{
  OrdMap, lookup, insert, length-insert, length-retain, length-remove_found,
}
use execution_aware_scanner.Webhook.{AlertPayload}
use execution_aware_scanner.Webhook.Sender.{Outcomes}
use execution_aware_scanner.Webhook.Manager.{
  WebhookManager, Readings, max_dedup_entries, is_fresh, is_duplicate, oldest, make_room, mark_sent,
  broadcast, send_alert_once,
}

-- One call of `send_alert` of the manager, with what it reads and what its requests come to.
pub record Call (F : Type 0) : Type 0 where
  pub path_id : Text
  pub payload : AlertPayload F
  pub readings : Readings
  pub outcomes : List Outcomes

abbrev pub call : {F : Type 0} → WebhookManager → Call F → WebhookManager
call m c = (send_alert_once m c.path_id c.payload c.readings c.outcomes).0

abbrev pub call_all : {F : Type 0} → WebhookManager → List (Call F) → WebhookManager
call_all m cs = foldl call m cs

abbrev IsFound : Text → OrdMap Text ℕ → Type 0
IsFound k m = (v : ℕ) × (lookup k m ≡ some v)

first-IsFound : (k j : Text) (t : ℕ) (m : OrdMap Text ℕ) → k =? j ≡ true → IsFound k ((j, t) ∷ m)
unfolding lookup
first-IsFound k j t m here = (t, rw here refl)

behind-IsFound : (k j : Text) (t : ℕ) (m : OrdMap Text ℕ) → IsFound k m → IsFound k ((j, t) ∷ m)
unfolding lookup
behind-IsFound k j t m (v, h) = elim (Bool-cases (k =? j)) [
  | inl here ↦ (t, rw here refl)
  | inr later ↦ (v, rw later h)
]

oldest-IsFound : (m : OrdMap Text ℕ) (k : Text) (time : ℕ) → oldest m ≡ some (k, time) → IsFound k m
unfolding oldest
oldest-IsFound [] k time h = cc
oldest-IsFound ((j, t) ∷ m) k time h = elim (Option-cases (oldest m)) [
  | inl only ↦
      let same : k ≡ j = ground (arith, only, h) in first-IsFound k j t m (rw same (=?_refl j))
  | inr ((i, u), more) ↦ elim (Bool-cases (leb t u)) [
    | inl first ↦
        let same : k ≡ j = ground (arith, more, first, h) in
        first-IsFound k j t m (rw same (=?_refl j))
    | inr second ↦
        let same : i ≡ k = ground (arith, more, second, h) in
        behind-IsFound k j t m (subst (λ (x : Text). IsFound x m) same (oldest-IsFound m i u more))
  ]
]

oldest_of_some : (m : OrdMap Text ℕ) → oldest m ≡ none → length m ≡ 0
unfolding oldest
oldest_of_some [] h = refl
oldest_of_some ((j, t) ∷ m) h = cc

pub insert_grows :
    (p : Text) (noted : ℕ) (m : OrdMap Text ℕ) → length (insert p noted m) ≤ length m + 1
insert_grows p noted m = let n = length-insert p noted m in ground (arith, n)

insert_keeps :
    (m : OrdMap Text ℕ) (p : Text) (v noted : ℕ)
    → lookup p m ≡ some v
    → length (insert p noted m) ≡ length m
insert_keeps m p v noted old = length-insert p noted m ∙ rw old refl

make_room_of_old : (m : OrdMap Text ℕ) (p : Text) (v : ℕ) → lookup p m ≡ some v → make_room m p ≡ m
unfolding make_room
make_room_of_old m p v old = ground (arith, old)

-- A new entry fits into what is left.
room_for_new :
    (m : OrdMap Text ℕ) (p : Text)
    → lookup p m ≡ none
    → length m ≤ max_dedup_entries
    → length (make_room m p) + 1 ≤ max_dedup_entries
unfolding make_room
room_for_new m p new h = elim (Bool-cases (leb max_dedup_entries (length m))) [
  | inl full ↦ elim (Option-cases (oldest m)) [
    | inl empty ↦ let zero_long = oldest_of_some m empty in ground (arith, full, zero_long)
    | inr ((k, time), there) ↦
        let (v, found) = oldest-IsFound m k time there in
        let less = length-remove_found k v m found in rw (full, new, there) (omega (arith, less, h))
  ]
  | inr room ↦ rw room (ground (arith, room))
]

length-marked :
    (m : WebhookManager) (p : Text) (noted now : ℕ)
    → length m.dedup_cache ≤ max_dedup_entries
    → length (mark_sent m p noted now).dedup_cache ≤ max_dedup_entries
unfolding mark_sent
length-marked m p noted now h =
    let cleaned =
      length-retain (is_fresh m.dedup_ttl now) (insert p noted (make_room m.dedup_cache p)) in
    elim (Option-cases (lookup p m.dedup_cache)) [
      | inl new ↦
          let room = room_for_new m.dedup_cache p new h in
          let grown = insert_grows p noted (make_room m.dedup_cache p) in
          omega (arith, cleaned, room, grown)
      | inr (v, old) ↦
          let same = make_room_of_old m.dedup_cache p v old in
          let kept = insert_keeps m.dedup_cache p v noted old in
          let size : length (insert p noted (make_room m.dedup_cache p)) ≡ length m.dedup_cache =
            ap (λ (x : OrdMap Text ℕ). length (insert p noted x)) same ∙ kept in
          omega (arith, cleaned, size, h)
    ]

module _ {F : Type 0} where
  call-IsBounded :
      (m : WebhookManager) (c : Call F)
      → length m.dedup_cache ≤ max_dedup_entries
      → length (call m c).dedup_cache ≤ max_dedup_entries
  unfolding send_alert_once broadcast
  call-IsBounded m c h = elim (Bool-cases (is_duplicate m c.path_id c.readings.asked)) [
    | inl known ↦ rw (call, known) h
    | inr new ↦ rw (call, new) (length-marked m c.path_id c.readings.noted c.readings.cleaned h)
  ]

  -- After any calls of a manager whose cache is within its limit, the cache is within it.
  call_all-IsBounded :
      (m : WebhookManager) (cs : List (Call F))
      → length m.dedup_cache ≤ max_dedup_entries
      → length (call_all m cs).dedup_cache ≤ max_dedup_entries
  call_all-IsBounded m cs h =
      foldl_keeps (λ (s : WebhookManager). length s.dedup_cache ≤ max_dedup_entries) call
        call-IsBounded m cs h
