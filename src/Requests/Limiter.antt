-- ===== src/Requests/Limiter.antt =====
-- The rate limiter of backend/src/middleware/concurrentRequestHandler.js with its store in memory,
-- which is used when Redis is not. Keys are numbers that are only compared; times are arguments, in
-- milliseconds.
pub mod Burst
mod Tests
use stellar_edu_pay.Common.{
  ℕ, suc, ◌+◌, ◌-◌, ◌*◌, ◌/◌, max, Bool, Option, none, some, ltb, leb, if◌then◌else◌,
}
use stellar_edu_pay.Common.Maps.{Map, insert, lookup}

pub record Window : Type 0 where
  pub window_start : ℕ
  pub count : ℕ

pub record RateLimit : Type 0 where
  pub window_ms : ℕ
  pub max_requests : ℕ

-- The entry of a key after one more request.
unfoldable pub next_window : ℕ → ℕ → Option Window → Window
next_window window_ms now none = record { window_start = now; count = 1 }
next_window window_ms now (some w) =
    if ltb (w.window_start + window_ms) now
    then record { window_start = now; count = 1 }
    else record { window_start = w.window_start; count = suc w.count }

-- `_inMemoryIncrement`
unfoldable pub in_memory_increment : Map Window → ℕ → ℕ → ℕ → ℕ × Map Window
in_memory_increment store key now window_ms =
    let entry = next_window window_ms now (lookup key store) in
    (entry.count, insert key entry store)

-- The headers, and whether the request is passed on.
pub record Answer : Type 0 where
  pub limit : ℕ
  pub remaining : ℕ
  pub reset : ℕ
  pub passed : Bool

-- Seconds to the end of the window that the clock is in.
unfoldable pub reset_seconds : ℕ → ℕ → ℕ
reset_seconds window_ms now = max 1 ((now / window_ms * window_ms + window_ms - now + 999) / 1000)

-- `rateLimiter`
unfoldable pub rate_limiter : RateLimit → Map Window → ℕ → ℕ → Answer × Map Window
rate_limiter l store key now =
    let (count, after) = in_memory_increment store key now l.window_ms in
    (
      record {
        limit = l.max_requests;
        remaining = l.max_requests - count;
        reset = reset_seconds l.window_ms now;
        passed = leb count l.max_requests;
      },
      after,
    )
