-- ===== src/Horizon/Tests.antt =====
-- Runs of the request budget and the circuit breaker, and their theorems at concrete states.
use stellar_edu_pay.Common.{◌≡◌, refl, [], ◌∷◌, none, some, List}
use stellar_edu_pay.Horizon.Budget.{
  Call, begin, consume, rate_limited, give_back, deferred, run, apply, new,
}
use stellar_edu_pay.Horizon.Budget.Ceiling
use stellar_edu_pay.Horizon.Budget.Ceiling.{new-IsSound}
use stellar_edu_pay.Horizon.Breaker.Trips
use stellar_edu_pay.Horizon.Breaker.Trips.{breaker-IsSound}
use stellar_edu_pay.Horizon.Breaker
use stellar_edu_pay.Horizon.Breaker.{
  Breaker, closed, open_, half_open, ask, fail, succeed, opened, is_available, get_time_until_retry,
  record_failure,
}

abbrev calls : List Call
calls =
    begin
    ∷ consume 30
    ∷ rate_limited
    ∷ begin
    ∷ consume 9
    ∷ consume 1
    ∷ give_back 2
    ∷ deferred 7
    ∷ []

-- After a 429 the ceiling of 18 is halved, so the second of two requests is denied.
budget_runs :
    let b = run 4 calls (new 18) in
    (b.current_ceiling ≡ 9) × (b.remaining ≡ 2) × (b.denied_this_cycle ≡ 1)
unfolding run apply new
budget_runs = (refl, refl, refl)

new-IsSound_example : Ceiling.IsSound 18 4 (run 4 calls (new 18))
new-IsSound_example = new-IsSound 18 4 calls

abbrev probing : Breaker
probing = record {
  failure_threshold = 5;
  reset_timeout_ms = 30_000;
  success_threshold = 2;
  state = half_open;
  failures = 5;
  half_open_successes = 0;
  opened_at = some 100;
}

abbrev trip : List Breaker.Call
trip = fail 1 ∷ fail 2 ∷ ask 3 ∷ ask 30_002 ∷ succeed ∷ fail 30_005 ∷ []

breaker_runs :
    let b = Breaker.run trip (Breaker.new (some 2) none none) in
    (b.state ≡ open_) × (b.opened_at ≡ some 30_005) × (b.failures ≡ 3)
unfolding Breaker.run Breaker.apply Breaker.new
breaker_runs = (refl, refl, refl)

abbrev shut : Breaker
shut = record probing { state = closed; failures = 3 }

breaker-IsSound_example : Trips.IsSound (Breaker.run trip (Breaker.new (some 2) none none))
breaker-IsSound_example = breaker-IsSound (some 2) none none trip
