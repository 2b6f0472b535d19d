-- ===== src/Clock.antt =====
-- Points in time. An `Instant` or a `DateTime` is its count of nanoseconds; every call that reads
-- the clock takes the reading as an argument.
use execution_aware_scanner.Prelude.{ℕ, ◌-◌, ◌*◌, ◌/◌, ◌^◌}

-- Nanoseconds of a whole number of seconds.
abbrev pub secs : ℕ → ℕ
secs n = n * 1_000_000_000

-- `now.duration_since(past).as_secs()`: it is zero where `past` lies ahead, and rounds down.
abbrev pub elapsed_secs : ℕ → ℕ → ℕ
elapsed_secs now past = (now - past) / 1_000_000_000

-- The values of a `u64` counter, at which `fetch_add` wraps.
abbrev pub u64_mod : ℕ
u64_mod = 2 ^ 64

-- The values of a `u32`.
abbrev pub u32_mod : ℕ
u32_mod = 2 ^ 32
