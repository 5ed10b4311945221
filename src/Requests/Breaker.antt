-- ===== src/Requests/Breaker.antt =====
-- `class CircuitBreaker` of backend/src/middleware/concurrentRequestHandler.js, which is not the one
-- of backend/src/utils/circuitBreaker.js. An operation settles before the next one is executed; the
-- time is an argument.
pub mod Reopening
use stellar_edu_pay.Common.{ℕ, zero, suc, ◌+◌, Bool, true, false, leb, if◌then◌else◌}

-- `CIRCUIT_STATES`.
pub data State : Type 0 where
  closed open_ half_open : State

pub record Breaker : Type 0 where
  pub failure_threshold : ℕ
  pub reset_timeout_ms : ℕ
  pub half_open_success_threshold : ℕ
  pub state : State
  pub failure_count : ℕ
  pub success_count : ℕ
  pub last_failure_time : ℕ

-- `onSuccess()`.
unfoldable pub on_success_at : State → Breaker → Breaker
on_success_at half_open b =
    if leb b.half_open_success_threshold (b.success_count + 1)
    then record b { state = closed; failure_count = 0; success_count = 0 }
    else record b { success_count = b.success_count + 1 }
on_success_at _ b = record b { failure_count = 0 }

-- `onFailure()`, at a time.
unfoldable pub on_failure_at : State → ℕ → Breaker → Breaker
on_failure_at half_open now b = record b {
  failure_count = b.failure_count + 1;
  last_failure_time = now;
  state = open_;
}
on_failure_at s now b = record b {
  failure_count = b.failure_count + 1;
  last_failure_time = now;
  state = if leb b.failure_threshold (b.failure_count + 1) then open_ else s;
}

-- What an operation does; a call that is refused does not run it.
pub data Answer : Type 0 where
  refused succeeded failed : Answer

unfoldable pub settle : Bool → ℕ → Breaker → Answer × Breaker
unfolding on_success_at on_failure_at
settle true now b = (succeeded, on_success_at b.state b)
settle false now b = (failed, on_failure_at b.state now b)

-- `execute(operation)`, with whether the operation succeeds.
unfoldable pub execute_at : State → Bool → ℕ → Breaker → Answer × Breaker
unfolding settle
execute_at open_ works now b =
    if leb (b.last_failure_time + b.reset_timeout_ms) now
    then settle works now (record b { state = half_open })
    else (refused, b)
execute_at _ works now b = settle works now b

unfoldable pub execute : Bool → ℕ → Breaker → Answer × Breaker
unfolding execute_at
execute works now b = execute_at b.state works now b

-- n calls at a time, all of which succeed.
unfoldable pub execute_times : ℕ → ℕ → Breaker → Breaker
unfolding execute
execute_times zero now b = b
execute_times (suc n) now b = execute_times n now (execute true now b).1
