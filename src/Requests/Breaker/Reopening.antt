-- ===== src/Requests/Breaker/Reopening.antt =====
-- How the circuit breaker of backend/src/middleware/concurrentRequestHandler.js recovers after a
-- failed probe.
use stellar_edu_pay.Common.{
  ℕ, zero, suc, ◌+◌, ◌≤◌, ◌<◌, Bool, true, false, ◌≡◌, refl, ap, ◌∙◌, leb, arith,
}
use stellar_edu_pay.Requests.Breaker.{
  Answer, Breaker, closed, open_, half_open, on_success_at, on_failure_at, execute, execute_times,
}

success_last :
    (now k : ℕ) (b : Breaker)
    → k + 1 ≡ b.half_open_success_threshold
    → (execute true now (record b { state = half_open; success_count = k })).1.state ≡ closed
unfolding execute on_success_at
success_last now k b e =
    let enough : leb b.half_open_success_threshold (k + 1) ≡ true = ground arith in rw enough refl

success_more :
    (now k : ℕ) (b : Breaker)
    → k + 1 < b.half_open_success_threshold
    → (execute true now (record b { state = half_open; success_count = k })).1
      ≡ record b { state = half_open; success_count = k + 1 }
unfolding execute on_success_at
success_more now k b h =
    let few : leb b.half_open_success_threshold (k + 1) ≡ false = ground arith in rw few refl

successes_close :
    (n now k : ℕ) (b : Breaker)
    → k + suc n ≡ b.half_open_success_threshold
    → (execute_times (suc n) now (record b { state = half_open; success_count = k })).state ≡ closed
unfolding execute_times
successes_close zero now k b e = success_last now k b (omega arith)
successes_close (suc n) now k b e =
    ap (λ (x : Breaker). (execute_times (suc n) now x).state) (success_more now k b (omega arith))
    ∙ successes_close n now (k + 1) b (omega arith)

-- The first call after the timeout is a call on the half-open breaker.
execute-expired :
    (works : Bool) (now : ℕ) (b : Breaker)
    → b.last_failure_time + b.reset_timeout_ms ≤ now
    → execute works now (record b { state = open_ })
      ≡ execute works now (record b { state = half_open })
unfolding execute
execute-expired works now b h =
    let passed : leb (b.last_failure_time + b.reset_timeout_ms) now ≡ true = ground arith in
    rw passed refl

failure_opens :
    (now : ℕ) (b : Breaker)
    → (execute false now (record b { state = half_open })).1
      ≡ record b { failure_count = b.failure_count + 1; last_failure_time = now; state = open_ }
unfolding execute on_failure_at
failure_opens now b = refl

-- A failed probe does not reset the count of successful ones: a breaker that was half open after
-- k successes and is opened again by a failure closes, after its timeout, with only as many
-- successes as were lacking before that failure.
pub reopened_early :
    (n k now later : ℕ) (b : Breaker)
    → k + suc n ≡ b.half_open_success_threshold
    → now + b.reset_timeout_ms ≤ later
    → (execute_times
        (suc n)
        later
        (execute false now (record b { state = half_open; success_count = k })).1).state
      ≡ closed
unfolding execute_times
reopened_early n k now later b e h =
    let opened : Breaker = record b {
      failure_count = b.failure_count + 1;
      last_failure_time = now;
      success_count = k;
    } in
    rw (failure_opens now (record b { success_count = k })) (
      ap (λ (x : Answer × Breaker). (execute_times n later x.1).state)
        (execute-expired true later opened h)
      ∙ successes_close n later k opened e)
