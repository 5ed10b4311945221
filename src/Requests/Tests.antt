-- ===== src/Requests/Tests.antt =====
-- Runs of the request queue, and its theorems at concrete calls.
use stellar_edu_pay.Common.{false, arith, ℕ, ◌≡◌, refl, List, [], ◌∷◌, ◌+◌, some}
use stellar_edu_pay.Requests.{
  apply, contains, remove, Item, Queue, new, Call, arrive, settle_one, expire, run,
}
use stellar_edu_pay.Requests.Invariants.{IsSound, queue-IsSound}
use stellar_edu_pay.Requests.Accounts.{accounted, arrivals, run-accounted}
use stellar_edu_pay.Requests.Breaker.{Breaker, closed, half_open, execute, execute_times}
use stellar_edu_pay.Requests.Breaker.Reopening.{reopened_early}

abbrev item : ℕ → ℕ → Item
item id priority = record { id = id; priority = priority }

-- One place and room for two: the fourth request is refused, the urgent one overtakes, and the
-- other times out.
abbrev calls : List Call
calls =
    arrive (item 1 0)
    ∷ arrive (item 2 0)
    ∷ arrive (item 3 5)
    ∷ arrive (item 4 9)
    ∷ settle_one
    ∷ expire 2
    ∷ settle_one
    ∷ []

abbrev after : Queue
after = run calls (new (some 2) (some 1))

started_in_order : after.started ≡ 1 ∷ 3 ∷ []
unfolding run apply contains new remove
started_in_order = refl

timed_out_two : after.timed_out ≡ 2 ∷ []
unfolding run apply contains new remove
timed_out_two = refl

queue-IsSound_example : IsSound (run calls (new (some 2) (some 1)))
queue-IsSound_example = queue-IsSound (some 2) (some 1) calls

run-accounted_example :
    accounted 3 (run calls (new (some 2) (some 1)))
    ≡ arrivals 3 calls + accounted 3 (new (some 2) (some 1))
run-accounted_example = run-accounted 3 calls (new (some 2) (some 1))

-- Three successes are asked for, two are counted.
abbrev probing : Breaker
probing = record {
  failure_threshold = 5;
  reset_timeout_ms = 30_000;
  half_open_success_threshold = 3;
  state = half_open;
  failure_count = 5;
  success_count = 2;
  last_failure_time = 1_000;
}

reopened_early_example : (execute_times 1 70_000 (execute false 40_000 probing).1).state ≡ closed
reopened_early_example = reopened_early 0 2 40_000 70_000 probing refl (omega arith)
