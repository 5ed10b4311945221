-- ===== src/Leader/Jobs.antt =====
-- The durable jobs of backend/src/services/leaderElection.js. The collection with the time of each
-- job's last run is a map; what becomes of a job's turn, where any call may throw, is given.
pub mod Spacing
use stellar_edu_pay.Common.{
  ℕ, ◌+◌, Bool, true, false, Option, none, some, List, [], ◌∷◌, ◌++◌, leb, any, ◌==◌, if◌then◌else◌,
}
use stellar_edu_pay.Common.Maps.{Map, lookup, insert}

pub record Job : Type 0 where
  pub name : ℕ
  pub interval : ℕ

-- `registerDurableJob`.
unfoldable pub register_durable_job : Job → List Job → List Job
register_durable_job job jobs =
    if any (λ j. j.name == job.name) jobs then jobs else jobs ++ job ∷ []

-- What becomes of a turn: its query throws before the job is started; the job throws, or it
-- completes, at a time, and then the write of that time throws or succeeds.
pub data Outcome : Type 0 where
  not_read : Outcome
  threw completed_only recorded : ℕ → Outcome

-- A start of a job, with the time at which it ended and whether that is recorded.
pub record Execution : Type 0 where
  pub job : ℕ
  pub started : ℕ
  pub ended : ℕ
  pub is_recorded : Bool

-- `!lastRunAt || now - lastRunAt >= intervalMs`
abbrev pub is_due : ℕ → ℕ → Option ℕ → Bool
is_due now interval none = true
is_due now interval (some last) = leb (last + interval) now

abbrev pub unrecorded_start : ℕ → Job → ℕ → Execution
unrecorded_start now job at = record {
  job = job.name;
  started = now;
  ended = at;
  is_recorded = false;
}

-- One turn of the loop: what was started, and the times of the last runs.
abbrev pub turn_found : ℕ → Job → Outcome → Bool → Map ℕ → List Execution × Map ℕ
turn_found now job not_read due last = ([], last)
turn_found now job (threw at) due last =
    ((if due then unrecorded_start now job at ∷ [] else []), last)
turn_found now job (completed_only at) due last =
    ((if due then unrecorded_start now job at ∷ [] else []), last)
turn_found now job (recorded at) false last = ([], last)
turn_found now job (recorded at) true last = (
  record { job = job.name; started = now; ended = at; is_recorded = true } ∷ [],
  insert job.name at last,
)

unfoldable pub job_turn : ℕ → (ℕ → Outcome) → Job → Map ℕ → List Execution × Map ℕ
job_turn now outcome job last =
    turn_found now job (outcome job.name) (is_due now job.interval (lookup job.name last)) last

unfoldable pub job_loop : ℕ → (ℕ → Outcome) → List Job → Map ℕ → List Execution × Map ℕ
job_loop now outcome [] last = ([], last)
job_loop now outcome (job ∷ jobs) last =
    let (ran, mid) = job_turn now outcome job last in
    let (rest, after) = job_loop now outcome jobs mid in (ran ++ rest, after)

-- `runDurableJobs`; the flag is `durableJobsRunning`, which an earlier call still holds.
unfoldable pub run_durable_jobs :
    Bool → ℕ → (ℕ → Outcome) → List Job → Map ℕ → List Execution × Map ℕ
run_durable_jobs true now outcome jobs last = ([], last)
run_durable_jobs false now outcome jobs last = job_loop now outcome jobs last

-- A call of `runDurableJobs`.
pub record Call : Type 0 where
  pub running : Bool
  pub now : ℕ
  pub outcome : ℕ → Outcome

unfoldable pub run_calls : List Job → List Call → Map ℕ → List Execution × Map ℕ
run_calls jobs [] last = ([], last)
run_calls jobs (c ∷ calls) last =
    let (ran, mid) = run_durable_jobs c.running c.now c.outcome jobs last in
    let (rest, after) = run_calls jobs calls mid in (ran ++ rest, after)
