-- ===== src/Horizon/Breaker.antt =====
-- `class CircuitBreaker` of backend/src/utils/circuitBreaker.js. `Date.now()` is an argument, and
-- the callback, whose exceptions are swallowed, is left out.
pub mod Trips
use stellar_edu_pay.Common.{
  ℕ, ◌+◌, ◌-◌, Bool, true, false, ◌||◌, List, [], ◌∷◌, Option, none, some, ltb, leb, ◌==◌,
  if◌then◌else◌,
}

-- `CB_STATE`.
pub data State : Type 0 where
  closed open_ half_open : State

pub record Breaker : Type 0 where
  pub failure_threshold : ℕ
  pub reset_timeout_ms : ℕ
  pub success_threshold : ℕ
  pub state : State
  pub failures : ℕ
  pub half_open_successes : ℕ
  pub opened_at : Option ℕ

-- `opts.x || d`: a missing option and 0 give the default.
abbrev or_default : Option ℕ → ℕ → ℕ
or_default none d = d
or_default (some n) d = if n == 0 then d else n

-- The constructor.
unfoldable pub new : Option ℕ → Option ℕ → Option ℕ → Breaker
new failure_threshold reset_timeout_ms success_threshold = record {
  failure_threshold = or_default failure_threshold 5;
  reset_timeout_ms = or_default reset_timeout_ms 30_000;
  success_threshold = or_default success_threshold 2;
  state = closed;
  failures = 0;
  half_open_successes = 0;
  opened_at = none;
}

-- `null` counts as 0 in `Date.now() - this.openedAt`.
abbrev pub opened : Breaker → ℕ
opened b = elim b.opened_at [ none ↦ 0 | some t ↦ t ]

-- `_transition(newState)`: staying in a state changes nothing.
abbrev transition : State → Breaker → Breaker
transition s b = record b { state = s }

-- `isAvailable()`; the difference `now - openedAt` is signed.
available : ℕ → State → Breaker → Breaker × Bool
available now closed b = (b, true)
available now half_open b = (b, true)
available now open_ b =
    if leb (opened b + b.reset_timeout_ms) now then (transition half_open b, true) else (b, false)

unfoldable pub is_available : ℕ → Breaker → Breaker × Bool
unfolding available
is_available now b = available now b.state b

-- `recordSuccess()`.
success : State → Breaker → Breaker
success half_open b =
    if leb b.success_threshold (b.half_open_successes + 1)
    then transition closed (record b { failures = 0; half_open_successes = 0 })
    else record b { half_open_successes = b.half_open_successes + 1 }
success closed b = record b { failures = 0 }
success open_ b = b

unfoldable pub record_success : Breaker → Breaker
unfolding success
record_success b = success b.state b

abbrev is_half_open : State → Bool
is_half_open half_open = true
is_half_open _ = false

-- `recordFailure()`.
unfoldable pub record_failure : ℕ → Breaker → Breaker
record_failure now b =
    let failed : Breaker = record b { failures = b.failures + 1; half_open_successes = 0 } in
    if is_half_open b.state || leb b.failure_threshold (b.failures + 1)
    then transition open_ (record failed { opened_at = some now })
    else failed

abbrev is_open : State → Bool
is_open open_ = true
is_open _ = false

-- `getTimeUntilRetry()`; `-` stops at 0, as `Math.max(0, …)` does.
unfoldable pub get_time_until_retry : ℕ → Breaker → ℕ
get_time_until_retry now b = if is_open b.state then opened b + b.reset_timeout_ms - now else 0

-- `reset()`.
unfoldable pub reset : Breaker → Breaker
reset b = record b { state = closed; failures = 0; half_open_successes = 0; opened_at = none }

-- The calls on a breaker, with the time at which each is made.
pub data Call : Type 0 where
  ask fail : ℕ → Call
  succeed clear : Call

unfoldable pub apply : Call → Breaker → Breaker
unfolding is_available record_success record_failure reset
apply (ask now) b = (is_available now b).0
apply (fail now) b = record_failure now b
apply succeed b = record_success b
apply clear b = reset b

unfoldable pub run : List Call → Breaker → Breaker
run [] b = b
run (c ∷ cs) b = run cs (apply c b)
