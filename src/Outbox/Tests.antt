-- ===== src/Outbox/Tests.antt =====
-- Runs of the model of backend/src/services/outboxDispatcher.js, and the theorems at concrete inputs.
use stellar_edu_pay.Common.{
  length, ◌+◌, ◌≤◌, ℕ, ◌≡◌, ◌≢◌, refl, Bool, true, false, List, [], ◌∷◌, map, none, some, ◌==◌,
  if◌then◌else◌, arith,
}
use stellar_edu_pay.Outbox.{
  pending, completed, Event, Config, next_attempt_date, recover, recover_stale_leases, is_eligible,
  claimed, oldest_eligible, update_one, claim_next_event, Call, add_to_set, deliver,
  pending_listeners, settle, dispatch_event, dispatch_claims, dispatch_batch,
}
use stellar_edu_pay.Outbox.Histories.{
  Happening, attempted, cut_short, recovered, attempt, attempt_cut, happen, run,
}
use stellar_edu_pay.Outbox.Shared.{
  untaken, Step, claims, ends, calls, recovers, step, run_shared, AllLeased,
}
use stellar_edu_pay.Outbox.Timer.{
  Scheduler, initial, start, stop, fire, finish, schedule_tick, at_first, started, fired,
}
use stellar_edu_pay.Outbox.Overlap.{batches_apart}
use stellar_edu_pay.Outbox.Stops.{stop_never_waits}
use stellar_edu_pay.Outbox.Claims.{claim_excludes}
use stellar_edu_pay.Outbox.Deliveries.{IsOnce}
use stellar_edu_pay.Outbox.Once.{calls-IsOnce}
use stellar_edu_pay.Outbox.Ends.{IsFinal, attempts, attempts-IsFinal}
use stellar_edu_pay.Outbox.Completion.{IsDelivered, run-IsDelivered}

-- The defaults of the dispatcher.
abbrev cfg : Config
cfg = record { max_retries = 10; lease_duration = 30000; base_backoff = 1000; max_backoff = 600000 }

abbrev event : ℕ → ℕ → Event
event n created = record {
  id = n;
  event_type = 0;
  created_at = created;
  status = pending;
  next_attempt_at = created;
  locked_until = 0;
  locked_by = none;
  delivered_to = [];
  retry_count = 0;
}

abbrev docs : List Event
docs = event 1 70 ∷ event 2 50 ∷ event 3 60 ∷ []

abbrev names : List ℕ
names = 4 ∷ 5 ∷ 6 ∷ []

-- Listener 5 fails at first.
abbrev five_fails : ℕ → Bool
five_fails n = if n == 5 then false else true

abbrev none_fails : ℕ → Bool
none_fails n = true

-- The fifth wait is 32 seconds, the tenth ten minutes.
wait_fifth : next_attempt_date cfg 0 5 ≡ 32000
unfolding next_attempt_date
wait_fifth = refl

wait_capped : next_attempt_date cfg 0 10 ≡ 600000
unfolding next_attempt_date
wait_capped = refl

-- The oldest event is claimed first, whatever its place.
oldest_first : oldest_eligible 100 docs ≡ some (event 2 50)
unfolding oldest_eligible is_eligible
oldest_first = refl

abbrev history : List Happening
history =
    attempted 100 five_fails
    ∷ cut_short 3000 1 none_fails
    ∷ recovered 40000
    ∷ attempted 40001 none_fails
    ∷ []

abbrev call_pair : Call → ℕ × Bool
call_pair c = (c.listener, c.succeeded)

-- The calls of a history in which a listener fails and a process ends.
history_calls :
    map call_pair (run cfg 0 names history (event 1 70)).1
    ≡ (4, true) ∷ (5, false) ∷ (6, true) ∷ (5, true) ∷ []
unfolding run happen attempt attempt_cut recover dispatch_event deliver pending_listeners settle
    is_eligible claimed add_to_set next_attempt_date
history_calls = refl

history_completed : (run cfg 0 names history (event 1 70)).0.status ≡ completed
unfolding run happen attempt attempt_cut recover dispatch_event deliver pending_listeners settle
    is_eligible claimed add_to_set next_attempt_date
history_completed = refl

-- A batch of two out of three events; the oldest two are completed.
batch_statuses :
    map
      (λ (e : Event). e.status)
      (dispatch_batch cfg 0 (λ n. 100) (λ t. names) (λ e. none_fails) 2 docs).1
    ≡ pending ∷ completed ∷ completed ∷ []
unfolding dispatch_batch dispatch_claims recover_stale_leases recover claim_next_event claimed
    update_one oldest_eligible is_eligible dispatch_event deliver pending_listeners settle
    add_to_set
batch_statuses = refl

first_claim : (claim_next_event cfg 7 100 docs).0 ≡ some (claimed cfg 7 100 (event 2 50))
unfolding claim_next_event oldest_eligible is_eligible
first_claim = refl

second_claim :
    (claim_next_event cfg 8 200 (recover_stale_leases 200 (claim_next_event cfg 7 100 docs).1)).0
    ≡ some (claimed cfg 8 200 (event 3 60))
unfolding claim_next_event oldest_eligible is_eligible recover_stale_leases recover claimed
    update_one
second_claim = refl

claim_excludes_example : (claimed cfg 8 200 (event 3 60)).id ≢ (claimed cfg 7 100 (event 2 50)).id
claim_excludes_example = claim_excludes cfg 7 8 100 200 docs first_claim (omega arith) second_claim

-- Two dispatchers on one event: the first, 1, fails at listener 5 and ends before its lease does, and
-- 2 goes on when the wait is over.
abbrev shared_steps : List (ℕ × Step)
shared_steps =
    (100, claims 1)
    ∷ (110, claims 2)
    ∷ (200, calls 1 true)
    ∷ (300, calls 1 false)
    ∷ (400, calls 1 true)
    ∷ (500, ends 1)
    ∷ (3000, claims 2)
    ∷ (3100, recovers)
    ∷ (3200, calls 2 true)
    ∷ (3300, ends 2)
    ∷ []

shared_calls :
    map call_pair (run_shared cfg names shared_steps (untaken (event 1 70))).0
    ≡ (4, true) ∷ (5, false) ∷ (6, true) ∷ (5, true) ∷ []
unfolding run_shared step is_eligible claimed pending_listeners add_to_set settle next_attempt_date
    recover
shared_calls = refl

shared_leased : AllLeased cfg names 0 shared_steps (untaken (event 1 70))
unfolding step is_eligible claimed pending_listeners add_to_set settle next_attempt_date recover
shared_leased = (
  omega arith,
  _,
  (
    omega arith,
    _,
    (
      omega arith,
      omega arith,
      (
        omega arith,
        omega arith,
        (
          omega arith,
          omega arith,
          (
            omega arith,
            omega arith,
            (
              omega arith,
              _,
              (omega arith, _, (omega arith, omega arith, (omega arith, omega arith, _))),
            ),
          ),
        ),
      ),
    ),
  ),
)

calls-IsOnce_example : IsOnce [] (run_shared cfg names shared_steps (untaken (event 1 70))).0
calls-IsOnce_example =
    calls-IsOnce cfg names (refl, (refl, (refl, _))) shared_steps 0 (event 1 70) shared_leased

-- Dispatcher 1 outlives its lease, and 2 serves listener 5 in the meantime; then 1 goes on from its
-- copy of `deliveredTo`, and calls listener 5 again.
outlived_calls :
    map call_pair
      (run_shared cfg names
        ((100, claims 1)
          ∷ (200, calls 1 true)
          ∷ (40000, recovers)
          ∷ (40001, claims 2)
          ∷ (40100, calls 2 true)
          ∷ (40200, calls 1 true)
          ∷ [])
        (untaken (event 1 70))).0
    ≡ (4, true) ∷ (5, true) ∷ (5, true) ∷ []
unfolding run_shared step is_eligible claimed pending_listeners add_to_set recover
outlived_calls = refl

run-IsDelivered_example : IsDelivered names (run cfg 0 names history (event 1 70)).0
run-IsDelivered_example =
    run-IsDelivered cfg 0 names history (event 1 70) (λ c. absurd (ground arith))

attempts-IsFinal_example : IsFinal (attempts cfg 0 names (λ n. five_fails) 10 (event 1 70))
attempts-IsFinal_example =
    attempts-IsFinal cfg 0 names (λ n. five_fails) 10 (event 1 70) (refl, omega arith, omega arith)
      (omega arith)

-- The timer fires, and the dispatcher is stopped while the batch is in flight; the stop does not
-- wait, so that the dispatcher is started again before the batch ends.
abbrev busy : Scheduler
busy = fire 0 (start initial)

abbrev restarted : Scheduler
restarted = finish (start (stop busy).1)

-- Then two timers are armed, and two batches are in flight at a time.
batches_overlap : (fire 2 (fire 1 restarted)).in_flight ≡ 2
unfolding start stop fire finish schedule_tick
batches_overlap = refl

batches_apart_example : busy.in_flight + length busy.armed ≤ 1
batches_apart_example =
    batches_apart (fired {s = start initial} 0 (started {s = initial} at_first (λ q r. refl)))

stop_never_waits_example : (stop busy).0 ≡ true
stop_never_waits_example =
    stop_never_waits (fired {s = start initial} 0 (started {s = initial} at_first (λ q r. refl)))
