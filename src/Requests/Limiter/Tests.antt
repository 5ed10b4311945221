-- ===== src/Requests/Limiter/Tests.antt =====
-- Runs of the rate limiter, and its theorem at concrete requests.
use stellar_edu_pay.Common.{ℕ, ◌*◌, ◌≤◌, ◌≡◌, refl, false, List, [], ◌∷◌, arith}
use stellar_edu_pay.Common.Maps.{Map, insert, lookup}
use stellar_edu_pay.Requests.Limiter.{
  Window, RateLimit, next_window, in_memory_increment, reset_seconds, rate_limiter,
}
use stellar_edu_pay.Requests.Limiter.Burst.{passed_of, passed_at_most_twice}

abbrev two_a_minute : RateLimit
two_a_minute = record { window_ms = 60_000; max_requests = 2 }

-- Client 1 has one request left in a window that began at 70 seconds.
abbrev store : Map Window
store = insert 1 (record { window_start = 70_000; count = 1 }) []

-- It uses it late, and the next window at once; client 2 comes in between.
abbrev requests : List (ℕ × ℕ)
requests = (1, 129_000) ∷ (2, 129_500) ∷ (1, 130_001) ∷ (1, 130_002) ∷ (1, 130_003) ∷ []

passed_three : passed_of two_a_minute 1 requests store ≡ 3
unfolding rate_limiter in_memory_increment next_window insert lookup
passed_three = refl

reset_aligned : reset_seconds 60_000 100_000 ≡ 20
unfolding reset_seconds
reset_aligned = refl

-- A client that waits as long as it is told, from 100 to 120 seconds, is refused again.
refused_again :
    (rate_limiter two_a_minute
      (insert 1 (record { window_start = 70_000; count = 3 }) [])
      1
      120_000).0.passed
    ≡ false
unfolding rate_limiter in_memory_increment next_window insert lookup
refused_again = refl

passed_at_most_twice_example : passed_of two_a_minute 1 requests store ≤ 2 * 2
passed_at_most_twice_example = passed_at_most_twice two_a_minute 1 129_000 requests store (
  λ e. (omega arith, omega arith),
  (
    λ e. (omega arith, omega arith),
    (
      λ e. (omega arith, omega arith),
      (λ e. (omega arith, omega arith), (λ e. (omega arith, omega arith), _)),
    ),
  ),
)
