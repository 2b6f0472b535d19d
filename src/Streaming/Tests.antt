-- ===== src/Streaming/Tests.antt =====
-- Readings of one path's confidence, and a run of the engine.
use execution_aware_scanner.Prelude.{ℕ, List, none, ◌≡◌, refl, true, some, [], ◌∷◌}
use execution_aware_scanner.Text.{codes}
use execution_aware_scanner.Clock.{secs}
use execution_aware_scanner.Containers.OrdMap.{lookup}
use execution_aware_scanner.Float.Fixed.{Fixed, fixed_float}
use execution_aware_scanner.Streaming.{StreamingState, should_alert, Reading, read}
use execution_aware_scanner.Attack.Nodes.{AttackPath}
use execution_aware_scanner.Streaming.Engine.{
  StreamingEngine, Readings, path_detected, shutdown, process_event, handle_path_detected,
}
use execution_aware_scanner.Streaming.Engine.Run.{Input, received, sent, run}

abbrev quiet : StreamingState Fixed
quiet = record {
  last_alert = [];
  path_confidence = [];
  path_risk = [];
  events_processed = 0;
  alert_cooldown = secs 30;
}

abbrev reading : ℕ → ℕ → Reading Fixed
reading confidence at = record {
  path_id = codes "p";
  confidence = some confidence;
  now = secs at;
  noted = secs at;
}

first_alerts : (read quiet (reading 85 1)).1 ≡ true
unfolding read should_alert lookup
first_alerts = refl

abbrev engine : StreamingEngine Fixed
engine = record {
  config = record {
    output_interval_ms = 1000;
    alert_threshold = some 80;
    risk_escalation_threshold = some 70;
    channel_buffer_size = 1000;
    stream_json = true;
    top_k = 3;
    export_graph = true;
    graph_export_interval_secs = 60;
  };
  has_webhooks = true;
  formats = record { fixed_two = λ x. codes "0.85"; signed_two = λ x. codes "+0.85" };
}

abbrev likely : AttackPath Fixed
likely = record {
  path_id = codes "p";
  nodes = [];
  edges = [];
  confidence = some 85;
  risk_score = some 90;
  time_window_secs = 60;
  indicators = [];
  depth = 0;
  signal_types = [];
  total_bytes = 0;
  rank = none;
}

abbrev at : ℕ → Readings
at time = record { now = secs time; noted = secs time; first = secs time; second = secs time }

abbrev inputs : List (Input Fixed)
inputs =
    received (path_detected likely) (at 1)
    ∷ received (path_detected (record likely { confidence = some 70 })) (at 2)
    ∷ received (path_detected likely) (at 3)
    ∷ received shutdown (at 4)
    ∷ received (path_detected likely) (at 5)
    ∷ []

-- Two alerts within two seconds, since a detection has no cooldown.
alerts_twice : sent (run engine inputs quiet).1 ≡ likely ∷ likely ∷ []
unfolding run process_event handle_path_detected
alerts_twice = refl
