-- ===== src/Horizon/Failover/Tests.antt =====
-- Runs of the failover client, and its theorem at a concrete call.
use stellar_edu_pay.Common.{Bool-cases, ℕ, ◌≡◌, refl, inl, inr, arith, if◌then◌else◌, ◌==◌}
use stellar_edu_pay.Horizon.Failover.{
  open_, Config, new_breaker, is_available, record_success, record_failure, ask, scan,
  next_available_index, Outcome, value, transient, Client, returned, thrown, call_loop, call,
}
use stellar_edu_pay.Horizon.Failover.Served.{IsServed, available-IsServed}

abbrev cfg : Config
cfg = record { failure_threshold = 5; reset_timeout = 30_000; success_threshold = 2 }

-- Of three endpoints, the last is active and about to trip, and the first is open.
abbrev client : Client
client = record {
  active_index = 2;
  breakers = λ k.
      if k == 0
      then record new_breaker { state = open_; opened_at = 50_000 }
      else if k == 2
      then record new_breaker { failures = 4 }
      else new_breaker;
}

-- The second endpoint alone serves.
abbrev outcome : ℕ → Outcome
outcome k = if k == 1 then value 7 else transient 503

second_serves : (call cfg 60_000 3 outcome client).0 ≡ returned 7
unfolding call call_loop ask is_available next_available_index scan record_failure record_success
second_serves = refl

last_opens : ((call cfg 60_000 3 outcome client).1.breakers 2).state ≡ open_
unfolding call call_loop ask is_available next_available_index scan record_failure record_success
last_opens = refl

-- Without it, the error of the last is thrown: the scan comes back to the endpoint that failed.
none_serves :
    (call cfg 60_000 1
      (λ k. transient 503)
      (record client { active_index = 0; breakers = λ k. new_breaker })).0
    ≡ thrown 503
unfolding call call_loop ask is_available next_available_index scan record_failure record_success
none_serves = refl

available-IsServed_example : IsServed (call cfg 60_000 3 outcome client)
unfolding is_available
available-IsServed_example =
    available-IsServed cfg 60_000 3 outcome 1 7 client
      (λ i. elim (Bool-cases (i == 1)) [
        | inl y ↦ inl (7, rw y refl)
        | inr y ↦ inr (503, rw y refl)
      ])
      refl (omega arith) (omega arith) refl
