-- ===== src/Consumer/Loop/Delivery.antt =====
-- That `run` of scanner-agent/src/event_consumer.rs hands each process start on.
use mathlib.Core.List.{append_assoc, append-nil}
use execution_aware_scanner.Prelude.{
  ℕ, ◌≡◌, ◌≢◌, refl, ap, sym, ◌∙◌, Bool, true, false, ◌||◌, Option, none, some, List, [], ◌∷◌, ◌++◌,
  concat_map, arith, if◌then◌else◌, Bool-cases, inl, inr, All, All-append,
}
use execution_aware_scanner.Text.{Text}
use execution_aware_scanner.Float.{Float}
use execution_aware_scanner.Common.Events.{NetEvent}
use execution_aware_scanner.Consumer.Records.{
  undefined_value, parse_exec_event, parse_file_event, parse_net_event,
}
use execution_aware_scanner.Consumer.Intake.{EventConsumer, Shared}
use execution_aware_scanner.Consumer.Flush.{Bus, flush_all, is_idle, loads_library, is_connect}
use execution_aware_scanner.Consumer.Flush.Edges.{exec_targets}
use execution_aware_scanner.Consumer.Flush.Sent.{picked-flush_all}
use execution_aware_scanner.Consumer.Loop.{
  Running, Round, Input, tick, shutdown_changed, grow, arrive, consume_older, consume_once, flush,
  tick_once, run, is_due, has_full_batch, is_some,
}
use execution_aware_scanner.Consumer.Loop.Pending.{
  no_text, starts, start_of, ring_of, nothing_of, accepted_starts, pending_starts, AreDefinedFiles,
  AreDefinedNets, IsDefined, older-IsHanded, concat_map-append, accepted_start,
}

-- The inputs up to the request to shut down
abbrev pub until_shutdown : List Input → List Round
until_shutdown [] = []
until_shutdown (tick r ∷ is) = r ∷ until_shutdown is
until_shutdown (shutdown_changed requested time ∷ is) =
    let rest = until_shutdown is in if requested then [] else rest

abbrev pub arrived_starts : List Round → List Text
arrived_starts rs = concat_map (λ (r : Round). accepted_starts r.exec_records) rs

abbrev pub IsDefinedRound : Round → Type 0
IsDefinedRound r = AreDefinedFiles r.file_records × AreDefinedNets r.net_records

rb-flush_all :
    {F : Type 0} ⦃f : Float F⦄ (s : Bool) (t : ℕ) (c : EventConsumer) (b : Bus F)
    → ((flush_all s t c b).0.exec_rb ≡ c.exec_rb)
      × (((flush_all s t c b).0.file_rb ≡ c.file_rb) × ((flush_all s t c b).0.net_rb ≡ c.net_rb))
unfolding flush_all
rb-flush_all s t c b = elim (Bool-cases (is_idle c)) [
  | inl idle ↦ rw idle (refl, (refl, refl))
  | inr busy ↦ rw busy (refl, (refl, refl))
]

All-grow :
    (P : List ℕ → Type 0) (o : Option (List (List ℕ))) (more : List (List ℕ))
    → All P (ring_of o)
    → All P more
    → All P (ring_of (grow o more))
All-grow P none more h k = tt
All-grow P (some ring) more h k = All-append P ring more h k

is_some-grow :
    (o : Option (List (List ℕ))) (more : List (List ℕ)) → is_some (grow o more) ≡ is_some o
is_some-grow none more = refl
is_some-grow (some ring) more = refl

grow_starts :
    (o : Option (List (List ℕ))) (more : List (List ℕ))
    → is_some o ≡ true
    → accepted_starts (ring_of (grow o more)) ≡ accepted_starts (ring_of o) ++ accepted_starts more
grow_starts none more h = cc
grow_starts (some ring) more h =
    concat_map-append (λ (d : List ℕ). accepted_start (parse_exec_event d)) ring more

module _ {F : Type 0} ⦃f : Float F⦄ where
  -- The starts that were sent and those that are yet to be sent
  abbrev pub all_starts : Running F → List Text
  all_starts a = starts a.bus.emitted ++ pending_starts a.shared.consumer

  -- The consumer of the older programs, with a sender
  pub record IsOlder (a : Running F) : Type 0 where
    pub no_security : a.security_rb ≡ none
    pub has_sender : a.has_sender ≡ true
    pub defined : IsDefined a.shared.consumer

  starts-flush_all :
      (t : ℕ) (c : EventConsumer) (b : Bus F)
      → starts (flush_all true t c b).1.emitted
        ≡ starts b.emitted ++ concat_map exec_targets c.exec_batch
  starts-flush_all t c b =
      (picked-flush_all start_of exec_targets (λ e. no_text) (λ e. no_text) (λ e. refl)
        (λ e name. refl) (λ e name. refl) t c b).0
      ∙ rw
          (
            nothing_of loads_library c.file_batch,
            nothing_of (λ (e : NetEvent). is_connect e.kind) c.net_batch,
          )
          (ap (λ (es : List Text). starts b.emitted ++ es)
            (append-nil (concat_map exec_targets c.exec_batch)))

  batch-flush_all :
      (t : ℕ) (c : EventConsumer) (b : Bus F) → (flush_all true t c b).0.exec_batch ≡ []
  batch-flush_all t c b =
      (picked-flush_all start_of exec_targets (λ e. no_text) (λ e. no_text) (λ e. refl)
        (λ e name. refl) (λ e name. refl) t c b).1.0

  all_starts-flush_all :
      (t : ℕ) (c : EventConsumer) (b : Bus F)
      → starts (flush_all true t c b).1.emitted ++ pending_starts (flush_all true t c b).0
        ≡ starts b.emitted ++ pending_starts c
  all_starts-flush_all t c b =
      rw (starts-flush_all t c b, batch-flush_all t c b, (rb-flush_all true t c b).0)
        (append_assoc (starts b.emitted) (concat_map exec_targets c.exec_batch)
          (accepted_starts (ring_of c.exec_rb)))

  all_starts-flush :
      (a : Running F) (t : ℕ) → a.has_sender ≡ true → all_starts (flush a t) ≡ all_starts a
  unfolding flush
  all_starts-flush a t h = rw h (all_starts-flush_all t a.shared.consumer a.bus)

  flush-IsOlder : (a : Running F) (t : ℕ) → IsOlder a → IsOlder (flush a t)
  unfolding flush
  flush-IsOlder a t h =
      let rb = rb-flush_all a.has_sender t a.shared.consumer a.bus in
      record {
        no_security = h.no_security;
        has_sender = h.has_sender;
        defined = record {
          files = rw (rb.1.0) h.defined.files;
          nets = rw (rb.1.1) h.defined.nets;
          has_exec = rw (rb.0) h.defined.has_exec;
        };
      }

  arrive-IsOlder : (a : Running F) (r : Round) → IsOlder a → IsDefinedRound r → IsOlder (arrive a r)
  arrive-IsOlder a r h d = record {
    no_security = rw (h.no_security) refl;
    has_sender = h.has_sender;
    defined = record {
      files =
          All-grow (λ d. parse_file_event d ≢ undefined_value) a.shared.consumer.file_rb
            r.file_records h.defined.files d.0;
      nets =
          All-grow (λ d. parse_net_event d ≢ undefined_value) a.shared.consumer.net_rb r.net_records
            h.defined.nets d.1;
      has_exec = is_some-grow a.shared.consumer.exec_rb r.exec_records ∙ h.defined.has_exec;
    };
  }

  all_starts-arrive :
      (a : Running F) (r : Round)
      → IsOlder a
      → all_starts (arrive a r) ≡ all_starts a ++ accepted_starts r.exec_records
  all_starts-arrive a r h =
      ap
        (λ (es : List Text).
          starts a.bus.emitted ++ (concat_map exec_targets a.shared.consumer.exec_batch ++ es))
        (grow_starts a.shared.consumer.exec_rb r.exec_records h.defined.has_exec)
      ∙ rw
          (sym (
            append_assoc (concat_map exec_targets a.shared.consumer.exec_batch)
              (accepted_starts (ring_of a.shared.consumer.exec_rb))
              (accepted_starts r.exec_records)))
          (sym (
            append_assoc (starts a.bus.emitted) (pending_starts a.shared.consumer)
              (accepted_starts r.exec_records)))

  record IsKept (a : Running F) (r : Option (Running F × ℕ)) : Type 0 where
    after : Running F
    count : ℕ
    returned : r ≡ some (after, count)
    same : all_starts after ≡ all_starts a
    older : IsOlder after

  once_returns :
      (a : Running F) (s : Shared F) (n : ℕ)
      → a.security_rb ≡ none
      → consume_older a.shared ≡ some (s, n)
      → consume_once a ≡ some (record a { shared = s }, n)
  unfolding consume_once
  once_returns a s n h k = ground (arith, h, k)

  once-IsKept : (a : Running F) → IsOlder a → IsKept a (consume_once a)
  once-IsKept a h =
      let o = older-IsHanded a.shared h.defined in
      record {
        after = record a { shared = o.after };
        count = o.count;
        returned = once_returns a o.after o.count h.no_security o.returned;
        same = ap (λ (es : List Text). starts a.bus.emitted ++ es) o.pending;
        older = record {
          no_security = h.no_security;
          has_sender = h.has_sender;
          defined = o.defined;
        };
      }

  flush_if_lem :
      (test : Bool) (a : Running F) (t : ℕ)
      → IsOlder a
      → (all_starts (if test then flush a t else a) ≡ all_starts a)
        × IsOlder (if test then flush a t else a)
  flush_if_lem true a t h = (all_starts-flush a t h.has_sender, flush-IsOlder a t h)
  flush_if_lem false a t h = (refl, h)

  tick_returns :
      (a : Running F) (r : Round) (b : Running F) (n : ℕ)
      → consume_once (arrive a r) ≡ some (b, n)
      → tick_once a r
        ≡ some (
            if is_due b.shared.consumer r.checked || has_full_batch b.shared.consumer
            then flush b r.flushed_at
            else b)
  unfolding tick_once
  tick_returns a r b n h = rw (tick_once, h) refl

  tick_lem :
      (a : Running F) (r : Round)
      → IsOlder a
      → IsDefinedRound r
      → (b : Running F) × ((tick_once a r ≡ some b)
          × ((all_starts b ≡ all_starts a ++ accepted_starts r.exec_records) × IsOlder b))
  tick_lem a r h d =
      let o = once-IsKept (arrive a r) (arrive-IsOlder a r h d) in
      let c = o.after.shared.consumer in
      let test = is_due c r.checked || has_full_batch c in
      let after = flush_if_lem test o.after r.flushed_at o.older in
      (
        if test then flush o.after r.flushed_at else o.after,
        (
          tick_returns a r o.after o.count o.returned,
          (after.0 ∙ o.same ∙ all_starts-arrive a r h, after.1),
        ),
      )

  -- The consumer of the older ring buffers, with a sender, where no record has a kind that the type lacks:
  -- the loop returns, and the processes whose starts were sent to the streaming engine, then those in
  -- the batch and in the ring buffer, are those before the loop and then those that came until the
  -- shutdown, each once, in their order, without the records that are malformed or filtered.
  pub run_delivers :
      (a : Running F) (is : List Input)
      → IsOlder a
      → All IsDefinedRound (until_shutdown is)
      → (b : Running F) × ((run a is ≡ some b)
          × (all_starts b ≡ all_starts a ++ arrived_starts (until_shutdown is)))
  unfolding run
  run_delivers a [] h d = (a, (refl, sym (append-nil (all_starts a))))
  run_delivers a (tick r ∷ is) h d =
      let (b, (ticked, (same, older))) = tick_lem a r h d.0 in
      let (z, (ran, all)) = run_delivers b is older d.1 in
      (
        z,
        (
          rw (ticked, run) ran,
          all
              ∙ rw same (
                  append_assoc (all_starts a) (accepted_starts r.exec_records)
                    (arrived_starts (until_shutdown is))),
        ),
      )
  run_delivers a (shutdown_changed true time ∷ is) h d =
      (flush a time, (refl, all_starts-flush a time h.has_sender ∙ sym (append-nil (all_starts a))))
  run_delivers a (shutdown_changed false time ∷ is) h d = run_delivers a is h d
