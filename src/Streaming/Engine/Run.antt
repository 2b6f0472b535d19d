-- ===== src/Streaming/Engine/Run.antt =====
-- The loop of `StreamingEngine` of scanner-agent/src/streaming_engine.rs.
use execution_aware_scanner.Prelude.{ℕ, ◌+◌, Bool, true, false, List, [], ◌∷◌, ◌++◌, if◌then◌else◌}
use execution_aware_scanner.Text.{Text}
use execution_aware_scanner.Float.{Float, ◌≤?◌}
use execution_aware_scanner.Attack.Nodes.{AttackPath, AttackPathMetrics}
use execution_aware_scanner.Streaming.{StreamingState}
use execution_aware_scanner.Streaming.Engine.{
  StreamEvent, path_detected, shutdown, Effect, print_json, print_line, send_alert, StreamingEngine,
  Readings, when, process_event, emit_stats,
}

-- What the loop waits for: an event of the bus, or a tick, at which it reads the graph's metrics.
pub data Input (F : Type 0) : Type 0 where
  received : StreamEvent F → Readings → Input F
  ticked : AttackPathMetrics F → ℕ → Input F

abbrev pub is_shutdown : {F : Type 0} → StreamEvent F → Bool
is_shutdown shutdown = true
is_shutdown _ = false

-- The inputs until the shutdown.
abbrev pub until_shutdown : {F : Type 0} → List (Input F) → List (Input F)
until_shutdown [] = []
until_shutdown (ticked m time ∷ is) = ticked m time ∷ until_shutdown is
until_shutdown (received e r ∷ is) =
    let rest = until_shutdown is in if is_shutdown e then [] else received e r ∷ rest

abbrev pub events_in : {F : Type 0} → List (Input F) → ℕ
events_in [] = 0
events_in (ticked m time ∷ is) = events_in is
events_in (received e r ∷ is) = 1 + events_in is

module _ {F : Type 0} ⦃f : Float F⦄ where
  unfoldable pub run :
      StreamingEngine F → List (Input F) → StreamingState F → StreamingState F × List (Effect F)
  unfolding process_event emit_stats
  run e [] s = (s, [])
  run e (ticked m time ∷ is) s =
      let (s', effects) = run e is s in (s', emit_stats e s m time ++ effects)
  run e (received event r ∷ is) s =
      let (s1, effects) = process_event e event s r in
      let (s2, more) = run e is s1 in if is_shutdown event then (s, []) else (s2, effects ++ more)

  -- The paths whose alerts were sent.
  abbrev pub sent : List (Effect F) → List (AttackPath F)
  sent [] = []
  sent (send_alert path ∷ es) = path ∷ sent es
  sent (print_json o ∷ es) = sent es
  sent (print_line l ∷ es) = sent es

  -- The detected paths that reach the threshold.
  abbrev pub alarming : F → List (Input F) → List (AttackPath F)
  alarming threshold [] = []
  alarming threshold (ticked m time ∷ is) = alarming threshold is
  alarming threshold (received (path_detected path) r ∷ is) =
      when (threshold ≤? path.confidence) (path ∷ []) ++ alarming threshold is
  alarming threshold (received e r ∷ is) = alarming threshold is
