-- ===== src/Streaming.antt =====
-- `StreamingState` of scanner-agent/src/streaming_engine.rs: when an attack path raises an alert, and
-- when its risk has escalated.
pub mod Alerts
pub mod Engine
mod Tests
use execution_aware_scanner.Prelude.{
  ℕ, ◌-◌, Bool, true, false, ◌&&◌, Option, none, some, List, [], ◌∷◌, ltb, if◌then◌else◌,
}
use execution_aware_scanner.Text.{Text}
use execution_aware_scanner.Clock.{secs}
use execution_aware_scanner.Containers.Order.{text_ord}
use execution_aware_scanner.Containers.OrdMap.{OrdMap, or_default, lookup, insert}
use execution_aware_scanner.Float.{Float, lit, ◌⊖◌, ◌≤?◌, ◌<?◌}

pub record StreamingState (F : Type 0) : Type 0 where
  pub last_alert : OrdMap Text ℕ
  pub path_confidence : OrdMap Text F
  pub path_risk : OrdMap Text F
  pub events_processed : ℕ
  pub alert_cooldown : ℕ

unfoldable pub new : {F : Type 0} → StreamingState F
new = record {
  last_alert = [];
  path_confidence = [];
  path_risk = [];
  events_processed = 0;
  alert_cooldown = secs 30;
}

module _ {F : Type 0} ⦃f : Float F⦄ where
  -- The confidence crosses the threshold of 0.8.
  abbrev pub crosses : StreamingState F → Text → F → Bool
  crosses s path_id new_confidence =
      (or_default (lit 0) (lookup path_id s.path_confidence) <? lit 80)
      && (lit 80 ≤? new_confidence)

  -- `duration_since(last_time) < self.alert_cooldown`, if there is a last time
  abbrev pub is_cooling : StreamingState F → Text → ℕ → Bool
  is_cooling s path_id now = elim (lookup path_id s.last_alert) [
    | none ↦ false
    | some last_time ↦ ltb (now - last_time) s.alert_cooldown
  ]

  abbrev pub with_confidence : StreamingState F → Text → F → StreamingState F
  with_confidence s path_id c = record s { path_confidence = insert path_id c s.path_confidence }

  abbrev pub with_alert : StreamingState F → Text → ℕ → StreamingState F
  with_alert s path_id noted = record s { last_alert = insert path_id noted s.last_alert }

  -- The clock is read for the cooldown and for the time of the alert.
  unfoldable pub should_alert :
      StreamingState F → Text → F → (now noted : ℕ) → StreamingState F × Bool
  should_alert s path_id new_confidence now noted =
      if crosses s path_id new_confidence
      then if is_cooling s path_id now
        then (s, false)
        else (with_confidence (with_alert s path_id noted) path_id new_confidence, true)
      else (with_confidence s path_id new_confidence, false)

  unfoldable pub check_escalation : StreamingState F → Text → F → StreamingState F × Option F
  check_escalation s path_id new_risk =
      let delta = new_risk ⊖ or_default (lit 0) (lookup path_id s.path_risk) in
      (
        record s { path_risk = insert path_id new_risk s.path_risk },
        if lit 20 <? delta then some delta else none,
      )

-- A confidence that is reported for a path, with the readings of the clock.
pub record Reading (F : Type 0) : Type 0 where
  pub path_id : Text
  pub confidence : F
  pub now : ℕ
  pub noted : ℕ

module _ {F : Type 0} ⦃f : Float F⦄ where
  unfoldable pub read : StreamingState F → Reading F → StreamingState F × Bool
  unfolding should_alert
  read s r = should_alert s r.path_id r.confidence r.now r.noted

  unfoldable pub read_all : StreamingState F → List (Reading F) → StreamingState F
  unfolding read
  read_all s [] = s
  read_all s (r ∷ rs) = read_all (read s r).0 rs
