-- ===== src/Reliability/Breaker/Window.antt =====
-- When a circuit breaker opens, and how long it refuses.
use execution_aware_scanner.Prelude.{
  ℕ, ◌+◌, ◌^◌, ◌<◌, ◌≡◌, refl, ap, some, true, false, List, [], ◌∷◌, arith, leb, if◌then◌else◌, All,
  ◌∙◌,
}
use execution_aware_scanner.Clock.{elapsed_secs, u64_mod}
use execution_aware_scanner.Reliability.Breaker.{
  CircuitBreaker, closed, open_, half_open, Call, proceeds, fails, succeeds, should_proceed, step,
  run,
}
use execution_aware_scanner.Reliability.Breaker.Invariant.{failures, failures-cons}

-- Below the threshold every call counts or changes nothing.
closed_step :
    (c : CircuitBreaker) (x : Call)
    → c.state ≡ closed
    → c.failure_count + failures (x ∷ []) < c.config.circuit_breaker_threshold
    → c.config.circuit_breaker_threshold < u64_mod
    → ((step c x).state ≡ closed)
      × ((step c x).failure_count ≡ c.failure_count + failures (x ∷ []))
      × ((step c x).config ≡ c.config)
unfolding step
closed_step c (proceeds now) e h u = ground arith
closed_step c (fails now) e h u = ground arith
closed_step c succeeds e h u = ground arith

closed_run :
    (c : CircuitBreaker) (xs : List Call)
    → c.state ≡ closed
    → c.failure_count + failures xs < c.config.circuit_breaker_threshold
    → c.config.circuit_breaker_threshold < u64_mod
    → ((run c xs).state ≡ closed)
      × ((run c xs).failure_count ≡ c.failure_count + failures xs)
      × ((run c xs).config ≡ c.config)
unfolding run
closed_run c [] e h u = (e, omega arith, refl)
closed_run c (x ∷ xs) e h u =
    let split = failures-cons x xs in
    let (state, count, same) = closed_step c x e (omega arith) u in
    let same_threshold = ap (λ k. k.circuit_breaker_threshold) same in
    let (state', count', same') = closed_run (step c x) xs state (omega arith) (omega arith) in
    (state', omega arith, same' ∙ same)

closed_fails :
    (c : CircuitBreaker) (now threshold count : ℕ)
    → c.state ≡ closed
    → c.config.circuit_breaker_threshold ≡ threshold
    → c.failure_count ≡ count
    → count + 1 < u64_mod
    → ((should_proceed c now).1 ≡ true)
      × ((step c (fails now)).state ≡ (if leb threshold (count + 1) then open_ else closed))
      × ((step c (fails now)).last_failure ≡ some now)
unfolding step
closed_fails c now threshold count e et ec h = ground arith

-- A closed breaker counts the failures of a history, whatever proceeds and succeeds between them:
-- while they are fewer than the threshold (a `u32`) it stays closed and lets the next call through,
-- and one failure more opens it exactly if the count then reaches the threshold, at its time.
pub opens_at_threshold :
    (c : CircuitBreaker) (xs : List Call) (now : ℕ)
    → c.state ≡ closed
    → c.failure_count + failures xs < c.config.circuit_breaker_threshold
    → c.config.circuit_breaker_threshold < 2 ^ 32
    → ((run c xs).state ≡ closed)
      × ((run c xs).failure_count ≡ c.failure_count + failures xs)
      × ((should_proceed (run c xs) now).1 ≡ true)
      × ((step (run c xs) (fails now)).state ≡ (
          if leb c.config.circuit_breaker_threshold (c.failure_count + failures xs + 1)
          then open_
          else closed))
      × ((step (run c xs) (fails now)).last_failure ≡ some now)
opens_at_threshold c xs now e h u =
    let (state, count, same) = closed_run c xs e h (omega arith) in
    let (lets, opens, time) =
      closed_fails (run c xs) now c.config.circuit_breaker_threshold (c.failure_count + failures xs)
        state (ap (λ k. k.circuit_breaker_threshold) same) count (omega arith) in
    (state, count, lets, opens, time)

-- A call that is no failure, made while less than the recovery time has passed since `t`.
abbrev pub IsEarly : CircuitBreaker → ℕ → Call → Type 0
IsEarly c t (proceeds now) = elapsed_secs now t < c.config.circuit_breaker_recovery_secs
IsEarly c t (fails now) = ⊥
IsEarly c t succeeds = Unit

early_step :
    (c : CircuitBreaker) (t : ℕ) (x : Call)
    → c.state ≡ open_
    → c.last_failure ≡ some t
    → IsEarly c t x
    → step c x ≡ c
unfolding step
early_step c t (proceeds now) e l h = ground arith
early_step c t (fails now) e l h = absurd h
early_step c t succeeds e l h = ground arith

early_run :
    (c : CircuitBreaker) (t : ℕ) (xs : List Call)
    → c.state ≡ open_
    → c.last_failure ≡ some t
    → All (IsEarly c t) xs
    → run c xs ≡ c
unfolding run
early_run c t [] e l h = refl
early_run c t (x ∷ xs) e l h = rw (early_step c t x e l h.0) (early_run c t xs e l h.1)

open_proceeds :
    (c : CircuitBreaker) (t now : ℕ)
    → c.state ≡ open_
    → c.last_failure ≡ some t
    → should_proceed c now ≡ (
        if leb c.config.circuit_breaker_recovery_secs (elapsed_secs now t)
        then (record c { state = half_open }, true)
        else (c, false))
unfolding should_proceed
open_proceeds c t now e l = ground arith

-- An open breaker refuses every call until the recovery time has passed since its last failure,
-- whatever is asked and whatever succeeds meanwhile; the first call after that is let through as a
-- probe, in the half-open state.
refuses_until_recovery :
    (c : CircuitBreaker) (t now : ℕ) (xs : List Call)
    → c.state ≡ open_
    → c.last_failure ≡ some t
    → All (IsEarly c t) xs
    → should_proceed (run c xs) now ≡ (
        if leb c.config.circuit_breaker_recovery_secs (elapsed_secs now t)
        then (record c { state = half_open }, true)
        else (c, false))
refuses_until_recovery c t now xs e l h = rw (early_run c t xs e l h) (open_proceeds c t now e l)
