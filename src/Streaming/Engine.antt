-- ===== src/Streaming/Engine.antt =====
-- `StreamingEngine` of scanner-agent/src/streaming_engine.rs: what it prints and sends for the events of
-- its bus.
pub mod Run
use execution_aware_scanner.Prelude.{
  ℕ, ◌+◌, ◌%◌, Bool, true, false, ◌&&◌, Option, none, some, List, [], ◌∷◌, ◌++◌, map, ltb,
  if◌then◌else◌,
}
use execution_aware_scanner.Text.{Text, codes, decimal, join, starts_with}
use execution_aware_scanner.Text.Parts.{strip_prefix}
use execution_aware_scanner.Clock.{u64_mod}
use execution_aware_scanner.Containers.Order.{text_ord}
use execution_aware_scanner.Containers.OrdMap.{insert}
use execution_aware_scanner.Float.{Float, lit, ◌⊖◌, ◌≤?◌, ◌<?◌}
use execution_aware_scanner.Attack.Nodes.{
  AttackPath, AttackPathMetrics, GraphUpdate, edge_added, edge_updated, confidence_changed,
  new_path, RuntimeEdge, node_id, to_summary,
}
use execution_aware_scanner.Streaming.{StreamingState, should_alert}

pub record StreamingConfig (F : Type 0) : Type 0 where
  pub output_interval_ms : ℕ
  pub alert_threshold : F
  pub risk_escalation_threshold : F
  pub channel_buffer_size : ℕ
  pub stream_json : Bool
  pub top_k : ℕ
  pub export_graph : Bool
  pub graph_export_interval_secs : ℕ

pub data StreamEvent (F : Type 0) : Type 0 where
  bpf_event : ℕ → Text → Text → StreamEvent F
  graph_update : GraphUpdate F → StreamEvent F
  path_detected : AttackPath F → StreamEvent F
  confidence_moved : Text → F → F → StreamEvent F
  risk_escalated : Text → F → StreamEvent F
  shutdown : StreamEvent F

pub data AlertSeverity : Type 0 where
  critical high medium low : AlertSeverity

-- The objects that are printed as JSON; each ends in its time, and an alert in its indicators.
pub data StreamingOutput (F : Type 0) : Type 0 where
  path_updated : Text → F → Text → Text → F → ℕ → StreamingOutput F
  path_found : Text → F → List Text → Text → F → ℕ → StreamingOutput F
  alert : AlertSeverity → Text → Text → F → ℕ → List Text → StreamingOutput F
  stats : ℕ → ℕ → F → ℕ → ℕ → StreamingOutput F

-- What the engine does to the outside, the log apart.
pub data Effect (F : Type 0) : Type 0 where
  print_json : StreamingOutput F → Effect F
  print_line : Text → Effect F
  send_alert : AttackPath F → Effect F

-- How floats print with `{:.2}` and `{:+.2}`.
pub record Formats (F : Type 0) : Type 0 where
  pub fixed_two : F → Text
  pub signed_two : F → Text

-- The part of the engine that its handlers read. The scanner's identifier goes into the payload.
pub record StreamingEngine (F : Type 0) : Type 0 where
  pub config : StreamingConfig F
  pub has_webhooks : Bool
  pub formats : Formats F

-- What the clock reads for an event: twice for the cooldown, and for the times of two outputs.
pub record Readings : Type 0 where
  pub now : ℕ
  pub noted : ℕ
  pub first : ℕ
  pub second : ℕ

abbrev pub when : {A : Type 0} → Bool → List A → List A
when b as' = if b then as' else []

abbrev pub or_text : Text → Option Text → Text
or_text t none = t
or_text t (some u) = u

module _ {F : Type 0} ⦃f : Float F⦄ where
  unfoldable pub default_config : StreamingConfig F
  default_config = record {
    output_interval_ms = 1000;
    alert_threshold = lit 80;
    risk_escalation_threshold = lit 70;
    channel_buffer_size = 1000;
    stream_json = true;
    top_k = 3;
    export_graph = true;
    graph_export_interval_secs = 60;
  }

  -- `f32::abs`, as far as comparisons see
  abbrev abs : F → F
  abs x = if x <? lit 0 then lit 0 ⊖ x else x

  unfoldable pub handle_graph_update : StreamingEngine F → GraphUpdate F → List (Effect F)
  unfolding strip_prefix
  handle_graph_update e (edge_added from to edge) = when e.config.stream_json (
      if starts_with from (codes "proc:") && starts_with to (codes "lib:")
      then print_line (codes "[STREAM] mmap → " ++ or_text to (strip_prefix to (codes "lib:"))) ∷ []
      else if starts_with from (codes "proc:") && starts_with to (codes "net:")
      then print_line (codes "[STREAM] Network connection detected: " ++ to) ∷ []
      else [])
  handle_graph_update e (edge_updated from to delta_bytes) =
      when (e.config.stream_json && ltb 1024 delta_bytes) (
        print_line (codes "[STREAM] Data transfer: +" ++ decimal delta_bytes ++ codes " bytes")
        ∷ [])
  handle_graph_update e (confidence_changed cve_id old new) = []
  handle_graph_update e (new_path path) = []

  abbrev path_severity : F → AlertSeverity
  path_severity c = if lit 90 ≤? c then critical else if lit 80 ≤? c then high else medium

  abbrev path_alert : StreamingEngine F → AttackPath F → ℕ → StreamingOutput F
  path_alert e path time =
      alert (path_severity path.confidence) path.path_id
        (codes "HIGH RISK PATH ACTIVATED: "
          ++ join (codes " → ") (to_summary path).node_types
          ++ codes " (confidence: "
          ++ e.formats.fixed_two path.confidence
          ++ codes ")")
        path.confidence time path.indicators

  unfoldable pub handle_path_detected :
      StreamingEngine F
      → AttackPath F
      → StreamingState F
      → Readings
      → StreamingState F × List (Effect F)
  unfolding to_summary
  handle_path_detected e path s r = (
    record s {
      path_confidence = insert path.path_id path.confidence s.path_confidence;
      path_risk = insert path.path_id path.risk_score s.path_risk;
    },
    when e.config.stream_json (
          print_json (
            path_found path.path_id path.confidence (map node_id path.nodes)
              (join (codes " + ") path.signal_types) path.risk_score r.first)
          ∷ [])
        ++ when (e.config.alert_threshold ≤? path.confidence) (
            when e.config.stream_json (print_json (path_alert e path r.second) ∷ [])
            ++ when e.has_webhooks (send_alert path ∷ [])),
  )

  abbrev crossing_alert : StreamingEngine F → Text → F → F → ℕ → StreamingOutput F
  crossing_alert e path_id old new time =
      alert (if lit 90 ≤? new then critical else high) path_id
        (codes "CONFIDENCE THRESHOLD CROSSED: "
          ++ e.formats.fixed_two old
          ++ codes " → "
          ++ e.formats.fixed_two new)
        new time (codes "confidence_threshold_crossed" ∷ [])

  unfoldable pub handle_confidence_change :
      StreamingEngine F
      → Text
      → F
      → F
      → StreamingState F
      → Readings
      → StreamingState F × List (Effect F)
  unfolding should_alert
  handle_confidence_change e path_id old new s r =
      let delta = new ⊖ old in
      let (s', alerts) = should_alert s path_id new r.now r.noted in
      (
        s',
        when e.config.stream_json (
              print_json (
                path_updated path_id new (e.formats.signed_two delta) (codes "signal accumulation")
                  (lit 0) r.first)
              ∷ when (lit 10 <? abs delta) (
                  print_line (
                    codes "[UPDATE] Path confidence "
                    ++ e.formats.fixed_two old
                    ++ codes " → "
                    ++ e.formats.fixed_two new)
                  ∷ []))
            ++ when (alerts && e.config.stream_json)
                (print_json (crossing_alert e path_id old new r.second) ∷ []),
      )

  unfoldable pub handle_risk_escalation : StreamingEngine F → Text → F → List (Effect F)
  handle_risk_escalation e path_id risk_delta = when e.config.stream_json (
      print_line (
        codes "[ALERT] Risk escalation for "
        ++ path_id
        ++ codes ": +"
        ++ e.formats.fixed_two risk_delta)
      ∷ [])

  abbrev pub count_event : StreamingState F → StreamingState F
  count_event s = record s { events_processed = (s.events_processed + 1) % u64_mod }

  unfoldable pub process_event :
      StreamingEngine F
      → StreamEvent F
      → StreamingState F
      → Readings
      → StreamingState F × List (Effect F)
  unfolding handle_graph_update handle_path_detected handle_confidence_change handle_risk_escalation
  process_event e (graph_update update) s r = (count_event s, handle_graph_update e update)
  process_event e (path_detected path) s r = handle_path_detected e path (count_event s) r
  process_event e (confidence_moved path_id old new) s r =
      handle_confidence_change e path_id old new (count_event s) r
  process_event e (risk_escalated path_id risk_delta) s r =
      (count_event s, handle_risk_escalation e path_id risk_delta)
  process_event e (bpf_event time kind details) s r = (count_event s, [])
  process_event e shutdown s r = (count_event s, [])

  -- With the metrics of the graph and the time
  unfoldable pub emit_stats :
      StreamingEngine F → StreamingState F → AttackPathMetrics F → ℕ → List (Effect F)
  emit_stats e s m time = when e.config.stream_json (
      print_json
        (stats m.paths_total m.high_confidence_paths m.avg_confidence s.events_processed time)
      ∷ [])
