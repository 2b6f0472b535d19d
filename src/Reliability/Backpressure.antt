-- ===== src/Reliability/Backpressure.antt =====
-- `BackpressureController` of scanner-agent/src/reliability.rs.
use execution_aware_scanner.Prelude.{
  ℕ, ◌<◌, ◌≡◌, refl, Bool, true, false, not, ◌&&◌, List, [], ◌∷◌, ◌++◌, arith, leb, if◌then◌else◌,
}
use mathlib.Core.List.{reverse, reverse-cons}
use execution_aware_scanner.Reliability.Config.{ReliabilityConfig}

pub record BackpressureController : Type 0 where
  pub config : ReliabilityConfig
  pub current_load : ℕ
  pub in_backpressure : Bool

pub new : ReliabilityConfig → BackpressureController
new config = record { config = config; current_load = 0; in_backpressure = false }

abbrev pub next_pressure : (is_high is_low in_pressure : Bool) → Bool
next_pressure is_high is_low in_pressure =
    if is_high && not in_pressure
    then true
    else if is_low && in_pressure
    then false
    else in_pressure

unfoldable pub check_backpressure : BackpressureController → ℕ → BackpressureController × Bool
check_backpressure b queue_size =
    let is_high = leb b.config.channel_high_water queue_size in
    let is_low = leb queue_size b.config.channel_low_water in
    let in_pressure = next_pressure is_high is_low b.in_backpressure in
    (record b { in_backpressure = in_pressure }, in_pressure)

unfoldable pub update_load : BackpressureController → ℕ → BackpressureController
update_load b load = record b { current_load = load }

-- Readings of the queue, one after another.
unfoldable pub check_all : BackpressureController → List ℕ → BackpressureController
check_all b [] = b
check_all b (q ∷ qs) = check_all (check_backpressure b q).0 qs

-- What a hysteresis is to do, read off the history from its latest reading back: the last reading
-- outside the band between the marks decides, and with none the flag is as it was.
unfoldable pub settled : (high low : ℕ) → Bool → List ℕ → Bool
settled high low before [] = before
settled high low before (latest ∷ earlier) =
    let rest = settled high low before earlier in
    if leb high latest then true else if leb latest low then false else rest

settled-snoc :
    (high low : ℕ) (before : Bool) (xs : List ℕ) (q : ℕ)
    → settled high low before (xs ++ q ∷ [])
      ≡ settled high low (settled high low before (q ∷ [])) xs
unfolding settled
settled-snoc high low before [] q = refl
settled-snoc high low before (x ∷ xs) q = rw (settled-snoc high low before xs q)

-- One check answers what the settled reading of that queue size says, and stores its answer.
check_lem :
    (b : BackpressureController) (q : ℕ)
    → b.config.channel_low_water < b.config.channel_high_water
    → let now =
        settled b.config.channel_high_water b.config.channel_low_water b.in_backpressure (q ∷ []) in
      (check_backpressure b q ≡ (record b { in_backpressure = now }, now))
unfolding check_backpressure settled
check_lem b q h = ground arith

-- With the low mark below the high one, the flag after any readings of the queue is the one that
-- the last reading outside the band between the marks gives, and with no such reading it is as it
-- was; nothing else of the controller changes.
pub check_all-settled :
    (b : BackpressureController) (qs : List ℕ)
    → b.config.channel_low_water < b.config.channel_high_water
    → check_all b qs ≡ record b {
      in_backpressure =
          settled b.config.channel_high_water b.config.channel_low_water b.in_backpressure
            (reverse qs);
    }
unfolding check_all settled
check_all-settled b [] h = refl
check_all-settled b (q ∷ qs) h =
    let high = b.config.channel_high_water in
    let low = b.config.channel_low_water in
    rw (check_lem b q h, reverse-cons q qs, settled-snoc high low b.in_backpressure (reverse qs) q)
      (check_all-settled
        (record b { in_backpressure = settled high low b.in_backpressure (q ∷ []) }) qs h)
