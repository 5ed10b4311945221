-- ===== src/Leader/Tests.antt =====
-- The theorems on leaders and durable jobs at concrete steps.
use stellar_edu_pay.Common.{ℕ, ◌≡◌, refl, true, false, none, List, [], ◌∷◌}
use stellar_edu_pay.Common.Maps.{lookup, insert}
use stellar_edu_pay.Leader.{
  of_schema, initial, leads, Step, starts, ticks, stops, crashes, run, step, start, tick,
  acquire_lock, renew_lock,
}
use stellar_edu_pay.Leader.Terms.{one_leader}
use stellar_edu_pay.Leader.Vacancy.{no_successor}
use stellar_edu_pay.Leader.Jobs.{
  Outcome, not_read, threw, completed_only, recorded, Job, Call, register_durable_job, run_calls,
  run_durable_jobs, job_loop, job_turn,
}
use stellar_edu_pay.Leader.Jobs.Spacing.{IsSpaced, of_job, jobs-IsSpaced}

-- Two instances start, the first one crashes, and long after its lease the second one turns.
abbrev beginning : List Step
beginning = starts 1 1_000 ∷ starts 2 2_000 ∷ ticks 1 11_000 ∷ []

abbrev later : List Step
later = ticks 2 100_000 ∷ starts 1 200_000 ∷ []

first_leads : leads (run (of_schema 30_000) beginning initial) 1 ≡ true
unfolding run step start tick acquire_lock renew_lock
first_leads = refl

one_leader_example :
    let c = run (of_schema 30_000) beginning initial in
    ((i j : ℕ) → leads c i ≡ true → leads c j ≡ true → i ≡ j)
    × ((i : ℕ) → (c.instances i).schedulers ≡ leads c i)
one_leader_example = one_leader 30_000 beginning

no_successor_example :
    (leads (run (of_schema 30_000) (stops 1 ∷ later) (run (of_schema 30_000) beginning initial)) 2
      ≡ false)
    × (leads
          (run (of_schema 30_000) (crashes 1 ∷ later) (run (of_schema 30_000) beginning initial))
          2
        ≡ false)
no_successor_example = no_successor 30_000 beginning later 1 first_leads 2

-- A daily job, in hours, that fails once, and whose next run is not recorded.
abbrev daily : Job
daily = record { name = 5; interval = 24 }

abbrev call : ℕ → Outcome → Call
call now result = record { running = false; now = now; outcome = λ name. result }

abbrev calls : List Call
calls =
    call 0 (recorded 1)
    ∷ call 10 (recorded 11)
    ∷ call 30 (threw 30)
    ∷ call 31 (completed_only 33)
    ∷ call 32 not_read
    ∷ call 34 (recorded 35)
    ∷ []

jobs_test :
    (run_calls (register_durable_job daily []) calls []).0
    ≡ record { job = 5; started = 0; ended = 1; is_recorded = true }
      ∷ record { job = 5; started = 30; ended = 30; is_recorded = false }
      ∷ record { job = 5; started = 31; ended = 33; is_recorded = false }
      ∷ record { job = 5; started = 34; ended = 35; is_recorded = true }
      ∷ []
unfolding run_calls run_durable_jobs job_loop job_turn register_durable_job lookup insert
jobs_test = refl

jobs-IsSpaced_example : IsSpaced 24 none (of_job 5 (run_calls (daily ∷ []) calls []).0)
unfolding lookup
jobs-IsSpaced_example = jobs-IsSpaced 5 24 (daily ∷ []) calls [] (λ e. refl, _)
