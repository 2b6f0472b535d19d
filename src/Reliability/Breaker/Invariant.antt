-- ===== src/Reliability/Breaker/Invariant.antt =====
-- What holds of a circuit breaker after any history of calls.
use execution_aware_scanner.Prelude.{
  ℕ, suc, ◌+◌, ◌≤◌, ◌<◌, ◌≡◌, ◌≢◌, refl, none, some, List, [], ◌∷◌, arith, ap, ◌∙◌,
}
use execution_aware_scanner.Clock.{u64_mod}
use execution_aware_scanner.Reliability.Config.{ReliabilityConfig}
use execution_aware_scanner.Reliability.Breaker.{
  CircuitBreaker, CircuitState, closed, open_, half_open, Call, proceeds, fails, succeeds, new,
  step, run,
}

-- The failures that were counted reach the threshold, and the last of them has its time.
pub record IsTripped (c : CircuitBreaker) : Type 0 where
  pub reached : c.config.circuit_breaker_threshold ≤ c.failure_count
  pub timed : c.last_failure ≢ none

abbrev pub TrackedIn : CircuitState → CircuitBreaker → Type 0
TrackedIn closed c = Unit
TrackedIn open_ c = IsTripped c
TrackedIn half_open c = IsTripped c

-- Outside the closed state the breaker has tripped.
abbrev pub IsTracked : CircuitBreaker → Type 0
IsTracked c = TrackedIn c.state c

-- How many calls of a history are failures.
abbrev pub failures : List Call → ℕ
failures [] = 0
failures (fails now ∷ xs) = suc (failures xs)
failures (proceeds now ∷ xs) = failures xs
failures (succeeds ∷ xs) = failures xs

step-failures :
    (c : CircuitBreaker) (x : Call) → (step c x).failure_count ≤ c.failure_count + failures (x ∷ [])
unfolding step
step-failures c (proceeds now) = ground arith
step-failures c (fails now) = ground arith
step-failures c succeeds = ground arith

pub step-IsTracked :
    (c : CircuitBreaker) (x : Call)
    → c.failure_count + failures (x ∷ []) < u64_mod
    → IsTracked c
    → IsTracked (step c x)
unfolding step
step-IsTracked c (proceeds now) h t = ground arith
step-IsTracked c (fails now) h t = ground arith
step-IsTracked c succeeds h t = ground arith

pub failures-cons :
    (x : Call) (xs : List Call) → failures (x ∷ xs) ≡ failures (x ∷ []) + failures xs
failures-cons (proceeds now) xs = omega arith
failures-cons (fails now) xs = omega arith
failures-cons succeeds xs = omega arith

-- From a tracked breaker every history of calls whose failures do not wrap the counter leads to a
-- tracked breaker, and counts no failure twice.
pub run-IsTracked :
    (c : CircuitBreaker) (xs : List Call)
    → c.failure_count + failures xs < u64_mod
    → IsTracked c
    → IsTracked (run c xs) × ((run c xs).failure_count ≤ c.failure_count + failures xs)
unfolding run
run-IsTracked c [] h t = (t, omega arith)
run-IsTracked c (x ∷ xs) h t =
    let first = step-failures c x in
    let split = failures-cons x xs in
    let rest = run-IsTracked (step c x) xs (omega arith) (step-IsTracked c x (omega arith) t) in
    (rest.0, omega (arith, rest.1))

step-config : (c : CircuitBreaker) (x : Call) → (step c x).config ≡ c.config
unfolding step
step-config c (proceeds now) = ground arith
step-config c (fails now) = refl
step-config c succeeds = ground arith

pub run-config : (c : CircuitBreaker) (xs : List Call) → (run c xs).config ≡ c.config
unfolding run
run-config c [] = refl
run-config c (x ∷ xs) = run-config (step c x) xs ∙ step-config c x

-- What the next call does to a half-open breaker.
abbrev pub ProbeDecides : CircuitBreaker → ℕ → Type 0
ProbeDecides c now =
    (c.config.circuit_breaker_threshold ≤ c.failure_count)
    × ((step c (fails now)).state ≡ open_)
    × ((step c (fails now)).last_failure ≡ some now)
    × ((step c succeeds).state ≡ closed)
    × ((step c succeeds).failure_count ≡ 0)

probe_decides :
    (c : CircuitBreaker) (now : ℕ)
    → c.failure_count + 1 < u64_mod
    → IsTracked c
    → c.state ≡ half_open
    → ProbeDecides c now
unfolding step
probe_decides c now h t e = ground arith

-- A new breaker that some history leads to the half-open state has counted the threshold's number
-- of failures in it, and the next call decides: one failure opens it again at its time, and a
-- success closes it with its counter at zero. (The history's failures do not wrap the counter.)
pub run-new_probe :
    (config : ReliabilityConfig) (xs : List Call) (now : ℕ)
    → failures xs + 1 < u64_mod
    → (run (new config) xs).state ≡ half_open
    → (config.circuit_breaker_threshold ≤ failures xs) × ProbeDecides (run (new config) xs) now
unfolding new
run-new_probe config xs now h e =
    let (t, count) = run-IsTracked (new config) xs (omega arith) tt in
    let probe = probe_decides (run (new config) xs) now (omega arith) t e in
    let same = ap (λ k. k.circuit_breaker_threshold) (run-config (new config) xs) in
    (omega (arith, probe.0, same), probe)
