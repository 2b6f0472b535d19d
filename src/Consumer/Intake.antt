-- ===== src/Consumer/Intake.antt =====
-- The loops of scanner-agent/src/event_consumer.rs that empty a ring buffer: `consume_exec_batch`,
-- `consume_file_batch` and `consume_net_batch`. A ring buffer is the list of the records that `next`
-- yields before it yields nothing.
pub mod Steps
pub mod Accounting
pub mod Batches
use execution_aware_scanner.Prelude.{
  ℕ, ◌+◌, ◌%◌, Bool, Option, none, some, List, [], ◌∷◌, ◌++◌, leb, length, if◌then◌else◌,
}
use execution_aware_scanner.Clock.{u64_mod}
use execution_aware_scanner.Common.Events.{ExecEvent, FileEvent, NetEvent}
use execution_aware_scanner.Float.{Float}
use execution_aware_scanner.State.Store.{StateStore, apply_exec, apply_file, apply_net}
use execution_aware_scanner.Common.Events.{ExecEvent, FileEvent, NetEvent}
use execution_aware_scanner.Float.{Float}
use execution_aware_scanner.State.Store.{StateStore, apply_exec, apply_file, apply_net}
use execution_aware_scanner.Consumer.Records.{
  Parsed, rejected, undefined_value, parsed, parse_exec_event, parse_file_event, parse_net_event,
}
use execution_aware_scanner.Consumer.Filter.{
  should_filter_exec, should_filter_file, should_filter_net,
}
use execution_aware_scanner.Consumer.Filter.{
  should_filter_exec, should_filter_file, should_filter_net,
}

-- What a loop changes: its batch, the counters, the store, and the number that `inc_events` has
-- counted and that it returns.
pub record Progress (E S : Type 0) : Type 0 where
  pub batch : List E
  pub received : ℕ
  pub dropped : ℕ
  pub filtered : ℕ
  pub store : S
  pub counted : ℕ
  pub count : ℕ

module _ {E S : Type 0} (parse : List ℕ → Parsed E) (leave_out : E → Bool) (apply : S → E → S)
    (batch_size : ℕ) where
  abbrev pub drop_record : Progress E S → Progress E S
  drop_record p = record p {
    received = (p.received + 1) % u64_mod;
    dropped = (p.dropped + 1) % u64_mod;
  }

  abbrev pub filter_record : Progress E S → Progress E S
  filter_record p = record p {
    received = (p.received + 1) % u64_mod;
    filtered = (p.filtered + 1) % u64_mod;
  }

  abbrev pub accept_record : Progress E S → E → Progress E S
  accept_record p e = record p {
    batch = p.batch ++ e ∷ [];
    received = (p.received + 1) % u64_mod;
    store = apply p.store e;
    counted = p.counted + 1;
    count = p.count + 1;
  }

  abbrev pub is_full : Progress E S → Bool
  is_full p = leb batch_size (length p.batch)

  -- The loop's end and the records that are left, or nothing where a value is undefined. A filtered
  -- event goes on without the test of the batch's size.
  unfoldable pub take_records : List (List ℕ) → Progress E S → Option (Progress E S × List (List ℕ))
  take_records [] p = some (p, [])
  take_records (d ∷ ds) p = elim (parse d) [
    | undefined_value ↦ none
    | rejected ↦
        let p' = drop_record p in
        let rest = take_records ds p' in if is_full p' then some (p', ds) else rest
    | parsed e ↦
        let left_out = take_records ds (filter_record p) in
        let p' = accept_record p e in
        let rest = take_records ds p' in
        if leave_out e then left_out else if is_full p' then some (p', ds) else rest
  ]

-- The consumer of the three ring buffers of the older kernel programs. (The single one of the newer
-- programs has a loop of its own, and the sender to the streaming engine is left out.)
pub record EventConsumer : Type 0 where
  pub exec_rb : Option (List (List ℕ))
  pub file_rb : Option (List (List ℕ))
  pub net_rb : Option (List (List ℕ))
  pub exec_batch : List ExecEvent
  pub file_batch : List FileEvent
  pub net_batch : List NetEvent
  pub batch_size : ℕ
  pub batch_timeout : ℕ
  pub last_flush : ℕ
  pub events_received : ℕ
  pub events_dropped : ℕ
  pub events_filtered : ℕ
  pub batches_processed : ℕ

-- The consumer together with the store and the count of events that it shares with others.
pub record Shared (F : Type 0) : Type 0 where
  pub consumer : EventConsumer
  pub state : StateStore F
  pub events : ℕ

module _ {F : Type 0} where
  abbrev pub start : {E : Type 0} → Shared F → List E → Progress E (StateStore F)
  start s batch = record {
    batch = batch;
    received = s.consumer.events_received;
    dropped = s.consumer.events_dropped;
    filtered = s.consumer.events_filtered;
    store = s.state;
    counted = s.events;
    count = 0;
  }

  -- The counters are the loop's; the batch and the ring buffer are written by its caller.
  abbrev pub stop : {E : Type 0} → Progress E (StateStore F) → EventConsumer → Shared F × ℕ
  stop p c = (
    record {
      consumer = record c {
        events_received = p.received;
        events_dropped = p.dropped;
        events_filtered = p.filtered;
      };
      state = p.store;
      events = p.counted;
    },
    p.count,
  )

module _ {F : Type 0} ⦃f : Float F⦄ where
  -- The number of events that were accepted, with what the call changed.
  unfoldable pub consume_exec_batch : Shared F → Option (Shared F × ℕ)
  unfolding take_records
  consume_exec_batch s = elim s.consumer.exec_rb [
    | none ↦ some (s, 0)
    | some ring ↦
        elim (take_records parse_exec_event should_filter_exec apply_exec s.consumer.batch_size ring
          (start s s.consumer.exec_batch)) [
            | none ↦ none
            | some (p, rest) ↦
                some (stop p (record s.consumer { exec_rb = some rest; exec_batch = p.batch }))
          ]
  ]

  unfoldable pub consume_file_batch : Shared F → Option (Shared F × ℕ)
  unfolding take_records
  consume_file_batch s = elim s.consumer.file_rb [
    | none ↦ some (s, 0)
    | some ring ↦
        elim (take_records parse_file_event should_filter_file apply_file s.consumer.batch_size ring
          (start s s.consumer.file_batch)) [
            | none ↦ none
            | some (p, rest) ↦
                some (stop p (record s.consumer { file_rb = some rest; file_batch = p.batch }))
          ]
  ]

  unfoldable pub consume_net_batch : Shared F → Option (Shared F × ℕ)
  unfolding take_records
  consume_net_batch s = elim s.consumer.net_rb [
    | none ↦ some (s, 0)
    | some ring ↦
        elim (take_records parse_net_event should_filter_net apply_net s.consumer.batch_size ring
          (start s s.consumer.net_batch)) [
            | none ↦ none
            | some (p, rest) ↦
                some (stop p (record s.consumer { net_rb = some rest; net_batch = p.batch }))
          ]
  ]
