-- ===== src/Consumer/Loop.antt =====
-- `run` and `consume_with_timeout` of scanner-agent/src/event_consumer.rs.
pub mod Pending
pub mod Delivery
mod Tests
use execution_aware_scanner.Prelude.{
  ℕ, ◌+◌, ◌-◌, Bool, true, false, ◌||◌, Option, none, some, List, [], ◌∷◌, ◌++◌, leb, ltb, length,
  if◌then◌else◌,
}
use execution_aware_scanner.Float.{Float}
use execution_aware_scanner.Consumer.Intake.{
  EventConsumer, Shared, consume_exec_batch, consume_file_batch, consume_net_batch,
}
use execution_aware_scanner.Consumer.Security.Batch
use execution_aware_scanner.Consumer.Security.Batch.{consume_security_batch}
use execution_aware_scanner.Consumer.Flush.{Bus, flush_all}

-- The consumer with the single ring buffer of the newer programs, if it has that, and with what it
-- shares with others.
pub record Running (F : Type 0) : Type 0 where
  pub shared : Shared F
  pub security_rb : Option (List (List ℕ))
  pub has_sender : Bool
  pub bus : Bus F

-- What a round of the loop meets: the records that have come since the last one, and the clock, at the
-- test of the loop, at the test for a flush and after a flush.
pub record Round : Type 0 where
  pub exec_records : List (List ℕ)
  pub file_records : List (List ℕ)
  pub net_records : List (List ℕ)
  pub security_records : List (List ℕ)
  pub now : ℕ
  pub checked : ℕ
  pub flushed_at : ℕ

pub data Input : Type 0 where
  tick : Round → Input
  shutdown_changed : Bool → ℕ → Input

-- The ring buffers that the loader hands over
pub data EventSources : Type 0 where
  legacy : List (List ℕ) → List (List ℕ) → List (List ℕ) → EventSources
  unified : List (List ℕ) → EventSources

abbrev with_rings :
    Option (List (List ℕ)) → Option (List (List ℕ)) → Option (List (List ℕ)) → ℕ → EventConsumer
with_rings exec_rb file_rb net_rb now = record {
  exec_rb = exec_rb;
  file_rb = file_rb;
  net_rb = net_rb;
  exec_batch = [];
  file_batch = [];
  net_batch = [];
  batch_size = 100;
  batch_timeout = 100_000_000;
  last_flush = now;
  events_received = 0;
  events_dropped = 0;
  events_filtered = 0;
  batches_processed = 0;
}

-- The consumer, and the single ring buffer
unfoldable pub new : EventSources → ℕ → EventConsumer × Option (List (List ℕ))
new (legacy exec_rb file_rb net_rb) now =
    (with_rings (some exec_rb) (some file_rb) (some net_rb) now, none)
new (unified security_rb) now = (with_rings none none none now, some security_rb)

pub record ConsumerStats : Type 0 where
  pub events_received : ℕ
  pub events_dropped : ℕ
  pub events_filtered : ℕ
  pub batches_processed : ℕ
  pub exec_batch_size : ℕ
  pub file_batch_size : ℕ
  pub net_batch_size : ℕ

unfoldable pub get_stats : EventConsumer → ConsumerStats
get_stats c = record {
  events_received = c.events_received;
  events_dropped = c.events_dropped;
  events_filtered = c.events_filtered;
  batches_processed = c.batches_processed;
  exec_batch_size = length c.exec_batch;
  file_batch_size = length c.file_batch;
  net_batch_size = length c.net_batch;
}

abbrev pub grow : Option (List (List ℕ)) → List (List ℕ) → Option (List (List ℕ))
grow none more = none
grow (some ring) more = some (ring ++ more)

abbrev pub is_some : {A : Type 0} → Option A → Bool
is_some none = false
is_some (some a) = true

abbrev pub is_due : EventConsumer → ℕ → Bool
is_due c checked = leb c.batch_timeout (checked - c.last_flush)

abbrev pub has_full_batch : EventConsumer → Bool
has_full_batch c =
    leb c.batch_size (length c.exec_batch)
    || leb c.batch_size (length c.file_batch)
    || leb c.batch_size (length c.net_batch)

module _ {F : Type 0} where
  unfoldable pub set_event_sender : Running F → Running F
  set_event_sender a = record a { has_sender = true }

  abbrev pub arrive : Running F → Round → Running F
  arrive a r = record a {
    shared = record a.shared {
      consumer = record a.shared.consumer {
        exec_rb = grow a.shared.consumer.exec_rb r.exec_records;
        file_rb = grow a.shared.consumer.file_rb r.file_records;
        net_rb = grow a.shared.consumer.net_rb r.net_records;
      };
    };
    security_rb = grow a.security_rb r.security_records;
  }

  abbrev pub security_start : Shared F → Batch.Progress F
  security_start s = record {
    exec_batch = s.consumer.exec_batch;
    file_batch = s.consumer.file_batch;
    net_batch = s.consumer.net_batch;
    received = s.consumer.events_received;
    dropped = s.consumer.events_dropped;
    filtered = s.consumer.events_filtered;
    store = s.state;
    counted = s.events;
    count = 0;
  }

  abbrev pub security_stop : Shared F → Batch.Progress F → Shared F
  security_stop s p = record {
    consumer = record s.consumer {
      exec_batch = p.exec_batch;
      file_batch = p.file_batch;
      net_batch = p.net_batch;
      events_received = p.received;
      events_dropped = p.dropped;
      events_filtered = p.filtered;
    };
    state = p.store;
    events = p.counted;
  }

module _ {F : Type 0} ⦃f : Float F⦄ where
  -- The three older ring buffers, one after another
  unfoldable pub consume_older : Shared F → Option (Shared F × ℕ)
  consume_older s = elim (consume_exec_batch s) [
    | none ↦ none
    | some (s1, n1) ↦ elim (consume_file_batch s1) [
      | none ↦ none
      | some (s2, n2) ↦ elim (consume_net_batch s2) [
        | none ↦ none
        | some (s3, n3) ↦ some (s3, n1 + n2 + n3)
      ]
    ]
  ]

  unfoldable pub consume_once : Running F → Option (Running F × ℕ)
  consume_once a = elim a.security_rb [
    | some ring ↦
        let (p, rest) =
          consume_security_batch a.shared.consumer.batch_size ring (security_start a.shared) in
        some (record a { shared = security_stop a.shared p; security_rb = some rest }, p.count)
    | none ↦ elim (consume_older a.shared) [
      | none ↦ none
      | some (s, n) ↦ some (record a { shared = s }, n)
    ]
  ]

  unfoldable pub flush : Running F → ℕ → Running F
  flush a flushed_at =
      let (c, b) = flush_all a.has_sender flushed_at a.shared.consumer a.bus in
      record a { shared = record a.shared { consumer = c }; bus = b }

  -- One tick of `run`
  unfoldable pub tick_once : Running F → Round → Option (Running F)
  tick_once a r = elim (consume_once (arrive a r)) [
    | none ↦ none
    | some (b, n) ↦ some (
        if is_due b.shared.consumer r.checked || has_full_batch b.shared.consumer
        then flush b r.flushed_at
        else b)
  ]

  -- The loop over the ticks and the changes of the shutdown's channel; nothing where a value is
  -- undefined.
  unfoldable pub run : Running F → List Input → Option (Running F)
  run a [] = some a
  run a (tick r ∷ is) = elim (tick_once a r) [ none ↦ none | some b ↦ run b is ]
  run a (shutdown_changed requested flushed_at ∷ is) =
      let rest = run a is in if requested then some (flush a flushed_at) else rest

  -- One round of the loop with a deadline
  unfoldable pub timed_round : Running F → Round → Option (Running F × ℕ)
  timed_round a r = elim (consume_once (arrive a r)) [
    | none ↦ none
    | some (b, n) ↦ some (if is_due b.shared.consumer r.checked then flush b r.flushed_at else b, n)
  ]

  -- The rounds until the deadline, with the events so far, and the time of the last flush
  unfoldable pub consume_with_timeout : ℕ → ℕ → Running F → ℕ → List Round → Option (Running F × ℕ)
  consume_with_timeout deadline flushed_at a total [] = some (flush a flushed_at, total)
  consume_with_timeout deadline flushed_at a total (r ∷ rs) = elim (timed_round a r) [
    | none ↦ if ltb r.now deadline then none else some (flush a flushed_at, total)
    | some (b, n) ↦
        let rest = consume_with_timeout deadline flushed_at b (total + n) rs in
        if ltb r.now deadline then rest else some (flush a flushed_at, total)
  ]
