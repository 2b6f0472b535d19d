-- ===== src/Consumer/Loop/Pending.antt =====
-- Where the process starts go that scanner-agent/src/event_consumer.rs takes off its ring buffer.
use mathlib.Core.List.{append_assoc, append-nil}
use execution_aware_scanner.Prelude.{
  ℕ, ◌≡◌, ◌≢◌, refl, ap, sym, ◌∙◌, Bool, true, false, Option, none, some, List, [], ◌∷◌, ◌++◌,
  concat_map, arith, if◌then◌else◌, Bool-cases, inl, inr, Option-cases, subst, ◌+◌, All,
}
use execution_aware_scanner.Text.{Text}
use execution_aware_scanner.Float.{Float}
use execution_aware_scanner.Common.Events.{ExecEvent}
use execution_aware_scanner.Attack.Nodes.{GraphUpdate, edge_added, process_created}
use execution_aware_scanner.Streaming.Engine.{StreamEvent}
use execution_aware_scanner.State.Store.{apply_exec, apply_file, apply_net}
use execution_aware_scanner.Consumer.Records.{
  Parsed, rejected, parsed, undefined_value, parse_exec_event, parse_file_event, parse_net_event,
}
use execution_aware_scanner.Consumer.Filter.{
  should_filter_exec, should_filter_file, should_filter_net,
}
use execution_aware_scanner.Consumer.Intake.{
  EventConsumer, Shared, start, stop, consume_exec_batch, consume_file_batch, consume_net_batch,
}
use execution_aware_scanner.Consumer.Intake.Steps.{accepted, accepted_of}
use execution_aware_scanner.Consumer.Intake.Accounting.{take_records-IsAccounted}
use execution_aware_scanner.Consumer.Intake.Batches.{exec_ring_is_defined}
use execution_aware_scanner.Consumer.Flush.Edges.{exec_targets}
use execution_aware_scanner.Consumer.Flush.Sent.{picked}
use execution_aware_scanner.Consumer.Loop.{consume_older, is_some}

-- The node of a started process, where an update is about one
abbrev pub start_of : {F : Type 0} → GraphUpdate F → List Text
start_of (edge_added from to (process_created time c)) = to ∷ []
start_of _ = []

abbrev pub starts : {F : Type 0} → List (StreamEvent F) → List Text
starts es = picked start_of es

abbrev pub ring_of : Option (List (List ℕ)) → List (List ℕ)
ring_of none = []
ring_of (some ring) = ring

abbrev pub no_text : List Text
no_text = []

pub nothing_of :
    {E : Type 0} (test : E → Bool) (es : List E)
    → concat_map (λ (e : E). if test e then no_text else []) es ≡ []
nothing_of test [] = refl
nothing_of test (e ∷ es) = elim (Bool-cases (test e)) [
  | inl holds ↦ rw holds (nothing_of test es)
  | inr fails ↦ rw fails (nothing_of test es)
]

pub concat_map-append :
    {E : Type 0} (g : E → List Text) (xs ys : List E)
    → concat_map g (xs ++ ys) ≡ concat_map g xs ++ concat_map g ys
concat_map-append g [] ys = refl
concat_map-append g (x ∷ xs) ys =
    rw (concat_map-append g xs ys) (sym (append_assoc (g x) (concat_map g xs) (concat_map g ys)))

All-rest : {A : Type 0} (P : A → Type 0) (xs ys : List A) → All P (xs ++ ys) → All P ys
All-rest P [] ys h = h
All-rest P (x ∷ xs) ys h = All-rest P xs ys h.1

-- The node of a record that is neither dropped nor filtered
abbrev pub accepted_start : Parsed ExecEvent → List Text
accepted_start (parsed e) = if should_filter_exec e then [] else exec_targets e
accepted_start _ = []

abbrev pub accepted_starts : List (List ℕ) → List Text
accepted_starts ring = concat_map (λ d. accepted_start (parse_exec_event d)) ring

-- The starts that are yet to be sent, in the batch and in the ring buffer
abbrev pub pending_starts : EventConsumer → List Text
pending_starts c = concat_map exec_targets c.exec_batch ++ accepted_starts (ring_of c.exec_rb)

-- No record of a file or a connection has a kind that the code reads but the type lacks.
abbrev pub AreDefinedFiles : List (List ℕ) → Type 0
AreDefinedFiles ds = All (λ d. parse_file_event d ≢ undefined_value) ds

abbrev pub AreDefinedNets : List (List ℕ) → Type 0
AreDefinedNets ds = All (λ d. parse_net_event d ≢ undefined_value) ds

pub record IsDefined (c : EventConsumer) : Type 0 where
  pub files : AreDefinedFiles (ring_of c.file_rb)
  pub nets : AreDefinedNets (ring_of c.net_rb)
  pub has_exec : is_some c.exec_rb ≡ true

starts-accepted_of :
    {S : Type 0} (apply : S → ExecEvent → S) (n : ℕ) (r : Parsed ExecEvent)
    → concat_map exec_targets (accepted_of parse_exec_event should_filter_exec apply n r)
      ≡ accepted_start r
starts-accepted_of apply n (parsed e) = ground (arith, append-nil (exec_targets e))
starts-accepted_of apply n rejected = refl
starts-accepted_of apply n undefined_value = refl

starts-accepted :
    {S : Type 0} (apply : S → ExecEvent → S) (n : ℕ) (ring : List (List ℕ))
    → concat_map exec_targets (accepted parse_exec_event should_filter_exec apply n ring)
      ≡ accepted_starts ring
starts-accepted apply n [] = refl
starts-accepted apply n (d ∷ ds) =
    concat_map-append exec_targets
      (accepted_of parse_exec_event should_filter_exec apply n (parse_exec_event d))
      (accepted parse_exec_event should_filter_exec apply n ds)
    ∙ rw (starts-accepted_of apply n (parse_exec_event d), starts-accepted apply n ds) refl

-- What is taken off the front of the ring buffer comes behind the batch.
pending_moved :
    {S : Type 0} (apply : S → ExecEvent → S) (n : ℕ) (batch batch' : List ExecEvent)
    (taken rest ring : List (List ℕ))
    → batch' ≡ batch ++ accepted parse_exec_event should_filter_exec apply n taken
    → ring ≡ taken ++ rest
    → concat_map exec_targets batch' ++ accepted_starts rest
      ≡ concat_map exec_targets batch ++ accepted_starts ring
pending_moved apply n batch batch' taken rest ring grown split =
    ap (λ (b : List ExecEvent). concat_map exec_targets b ++ accepted_starts rest) grown
    ∙ rw
        (
          split,
          concat_map-append exec_targets batch
              (accepted parse_exec_event should_filter_exec apply n taken),
          concat_map-append (λ (d : List ℕ). accepted_start (parse_exec_event d)) taken rest,
          starts-accepted apply n taken,
        )
        (append_assoc (concat_map exec_targets batch) (accepted_starts taken)
          (accepted_starts rest))

module _ {F : Type 0} ⦃f : Float F⦄ where
  -- A call returns and leaves the starts that are yet to be sent as they are.
  pub record IsHanded (s : Shared F) (r : Option (Shared F × ℕ)) : Type 0 where
    pub after : Shared F
    pub count : ℕ
    pub returned : r ≡ some (after, count)
    pub pending : pending_starts after.consumer ≡ pending_starts s.consumer
    pub defined : IsDefined after.consumer

  exec-IsHanded : (s : Shared F) → IsDefined s.consumer → IsHanded s (consume_exec_batch s)
  unfolding consume_exec_batch
  exec-IsHanded s h = elim (Option-cases s.consumer.exec_rb) [
    | inl absent ↦
        let contra : is_some s.consumer.exec_rb ≡ false = rw absent refl in
        ground (arith, h.has_exec, contra)
    | inr (ring, there) ↦
        let n = s.consumer.batch_size in
        let a =
          take_records-IsAccounted parse_exec_event should_filter_exec apply_exec n ring
            (start s s.consumer.exec_batch) (exec_ring_is_defined ring) in
        let (after, count) =
          stop a.final (record s.consumer { exec_rb = some a.rest; exec_batch = a.final.batch }) in
        record {
          after = after;
          count = count;
          returned = rw (there, consume_exec_batch, a.returned) refl;
          pending =
              pending_moved (apply_exec {F = F} ⦃f = f⦄) n s.consumer.exec_batch a.final.batch
                a.taken a.rest ring a.sums.batch a.split
              ∙ ap
                  (λ (r : Option (List (List ℕ))).
                    concat_map exec_targets s.consumer.exec_batch ++ accepted_starts (ring_of r))
                  (sym there);
          defined = record { files = h.files; nets = h.nets; has_exec = refl };
        }
  ]

  file-IsHanded : (s : Shared F) → IsDefined s.consumer → IsHanded s (consume_file_batch s)
  unfolding consume_file_batch
  file-IsHanded s h = elim (Option-cases s.consumer.file_rb) [
    | inl absent ↦ record {
      after = s;
      count = 0;
      returned = ground (arith, absent);
      pending = refl;
      defined = h;
    }
    | inr (ring, there) ↦
        let n = s.consumer.batch_size in
        let defined : AreDefinedFiles ring =
          subst (λ r. AreDefinedFiles (ring_of r)) there h.files in
        let a =
          take_records-IsAccounted parse_file_event should_filter_file apply_file n ring
            (start s s.consumer.file_batch) defined in
        let (after, count) =
          stop a.final (record s.consumer { file_rb = some a.rest; file_batch = a.final.batch }) in
        record {
          after = after;
          count = count;
          returned = rw (there, consume_file_batch, a.returned) refl;
          pending = refl;
          defined = record {
            files =
                All-rest (λ d. parse_file_event d ≢ undefined_value) a.taken a.rest
                  (subst AreDefinedFiles a.split defined);
            nets = h.nets;
            has_exec = h.has_exec;
          };
        }
  ]

  net-IsHanded : (s : Shared F) → IsDefined s.consumer → IsHanded s (consume_net_batch s)
  unfolding consume_net_batch
  net-IsHanded s h = elim (Option-cases s.consumer.net_rb) [
    | inl absent ↦ record {
      after = s;
      count = 0;
      returned = ground (arith, absent);
      pending = refl;
      defined = h;
    }
    | inr (ring, there) ↦
        let n = s.consumer.batch_size in
        let defined : AreDefinedNets ring = subst (λ r. AreDefinedNets (ring_of r)) there h.nets in
        let a =
          take_records-IsAccounted parse_net_event should_filter_net apply_net n ring
            (start s s.consumer.net_batch) defined in
        let (after, count) =
          stop a.final (record s.consumer { net_rb = some a.rest; net_batch = a.final.batch }) in
        record {
          after = after;
          count = count;
          returned = rw (there, consume_net_batch, a.returned) refl;
          pending = refl;
          defined = record {
            files = h.files;
            nets =
                All-rest (λ d. parse_net_event d ≢ undefined_value) a.taken a.rest
                  (subst AreDefinedNets a.split defined);
            has_exec = h.has_exec;
          };
        }
  ]

  older_returns :
      (s s1 s2 s3 : Shared F) (n1 n2 n3 : ℕ)
      → consume_exec_batch s ≡ some (s1, n1)
      → consume_file_batch s1 ≡ some (s2, n2)
      → consume_net_batch s2 ≡ some (s3, n3)
      → consume_older s ≡ some (s3, n1 + n2 + n3)
  unfolding consume_older
  older_returns s s1 s2 s3 n1 n2 n3 h1 h2 h3 = rw (consume_older, h1, h2, h3) refl

  pub older-IsHanded : (s : Shared F) → IsDefined s.consumer → IsHanded s (consume_older s)
  older-IsHanded s h =
      let a = exec-IsHanded s h in
      let b = file-IsHanded a.after a.defined in
      let c = net-IsHanded b.after b.defined in
      record {
        after = c.after;
        count = a.count + b.count + c.count;
        returned =
            older_returns s a.after b.after c.after a.count b.count c.count a.returned b.returned
              c.returned;
        pending = c.pending ∙ b.pending ∙ a.pending;
        defined = c.defined;
      }
