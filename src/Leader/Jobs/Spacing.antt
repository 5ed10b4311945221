-- ===== src/Leader/Jobs/Spacing.antt =====
-- How far apart the runs of a durable job are (backend/src/services/leaderElection.js).
use mathlib.Core.List.{append_assoc}
use mathlib.Core.Path.{subst}
use stellar_edu_pay.Common.{
  ℕ, ◌+◌, ◌≤◌, ◌≡◌, refl, sym, ◌∙◌, Bool, true, false, Option, none, some, List, [], ◌∷◌, ◌++◌,
  filter, All, arith, Bool-cases, inl, inr, ◌==◌, if◌then◌else◌,
}
use stellar_edu_pay.Common.Maps.{Map, lookup, insert, lookup-insert}
use stellar_edu_pay.Leader.Jobs.{
  Outcome, not_read, threw, completed_only, recorded, unrecorded_start, Job, Execution, is_due,
  turn_found, job_turn, job_loop, run_durable_jobs, Call, run_calls,
}

abbrev pub of_job : ℕ → List Execution → List Execution
of_job n es = filter (λ e. e.job == n) es

abbrev NotBefore : Option ℕ → ℕ → ℕ → Type 0
NotBefore none interval started = Unit
NotBefore (some last) interval started = last + interval ≤ started

abbrev pub last_recorded : Option ℕ → Execution → Option ℕ
last_recorded last e = if e.is_recorded then some e.ended else last

-- Each start is at least the interval after the end of the last run before it that is recorded.
abbrev pub IsSpaced : ℕ → Option ℕ → List Execution → Type 0
IsSpaced interval last [] = Unit
IsSpaced interval last (e ∷ es) =
    NotBefore last interval e.started × IsSpaced interval (last_recorded last e) es

-- The jobs of this name have this interval.
abbrev pub HaveInterval : ℕ → ℕ → List Job → Type 0
HaveInterval n interval jobs = All (λ j. (j.name == n) ≡ true → j.interval ≡ interval) jobs

due-NotBefore :
    (now interval : ℕ) (last : Option ℕ)
    → is_due now interval last ≡ true
    → NotBefore last interval now
due-NotBefore now interval none h = _
due-NotBefore now interval (some last) h = ground arith

module _ (n interval : ℕ) where
  abbrev Follows : Map ℕ → List Execution → Type 0
  Follows last es = IsSpaced interval (lookup n last) (of_job n es)

  early :
      (now : ℕ) (job : Job) (last : Map ℕ)
      → ((job.name == n) ≡ true → job.interval ≡ interval)
      → is_due now job.interval (lookup job.name last) ≡ true
      → (job.name == n) ≡ true
      → NotBefore (lookup n last) interval now
  early now job last h e own =
      let at_n : job.name ≡ n = ground arith in
      subst (λ (k : ℕ). NotBefore (lookup k last) interval now) at_n
        (subst (λ (d : ℕ). NotBefore (lookup job.name last) d now) (h own)
          (due-NotBefore now job.interval (lookup job.name last) e))

  -- A start that is not recorded.
  unrecorded-Follows :
      (now at : ℕ) (job : Job) (due : Bool) (last : Map ℕ) (rest : List Execution)
      → ((job.name == n) ≡ true → job.interval ≡ interval)
      → due ≡ is_due now job.interval (lookup job.name last)
      → Follows last rest
      → Follows last ((if due then unrecorded_start now job at ∷ [] else []) ++ rest)
  unrecorded-Follows now at job false last rest h e f = f
  unrecorded-Follows now at job true last rest h e f = elim (Bool-cases (job.name == n)) [
    | inl own ↦ rw own (early now job last h (sym e) own, f)
    | inr other ↦ rw other f
  ]

  turn_found-Follows :
      (now : ℕ) (job : Job) (result : Outcome) (due : Bool) (last : Map ℕ) (rest : List Execution)
      → ((job.name == n) ≡ true → job.interval ≡ interval)
      → due ≡ is_due now job.interval (lookup job.name last)
      → let r = turn_found now job result due last in Follows r.1 rest → Follows last (r.0 ++ rest)
  turn_found-Follows now job not_read due last rest h e f = f
  turn_found-Follows now job (threw at) due last rest h e f =
      unrecorded-Follows now at job due last rest h e f
  turn_found-Follows now job (completed_only at) due last rest h e f =
      unrecorded-Follows now at job due last rest h e f
  turn_found-Follows now job (recorded at) false last rest h e f = f
  turn_found-Follows now job (recorded at) true last rest h e f =
      elim (Bool-cases (job.name == n)) [
        | inl own ↦
            let stored : lookup n (insert job.name at last) ≡ some at =
              lookup-insert job.name n at last ∙ rw own refl in
            rw own (
              early now job last h (sym e) own,
              subst (λ (o : Option ℕ). IsSpaced interval o (of_job n rest)) stored f,
            )
        | inr other ↦
            let same : lookup n (insert job.name at last) ≡ lookup n last =
              lookup-insert job.name n at last ∙ rw other refl in
            rw other (subst (λ (o : Option ℕ). IsSpaced interval o (of_job n rest)) same f)
      ]

  job_loop-Follows :
      (now : ℕ) (outcome : ℕ → Outcome) (jobs : List Job) (last : Map ℕ) (rest : List Execution)
      → HaveInterval n interval jobs
      → let r = job_loop now outcome jobs last in Follows r.1 rest → Follows last (r.0 ++ rest)
  unfolding job_loop job_turn
  job_loop-Follows now outcome [] last rest h f = f
  job_loop-Follows now outcome (job ∷ jobs) last rest h f =
      let due : Bool = is_due now job.interval (lookup job.name last) in
      let turn : List Execution × Map ℕ = turn_found now job (outcome job.name) due last in
      let behind : List Execution = (job_loop now outcome jobs turn.1).0 in
      rw (append_assoc turn.0 behind rest) (
        turn_found-Follows now job (outcome job.name) due last (behind ++ rest) h.0 refl
          (job_loop-Follows now outcome jobs turn.1 rest h.1 f))

  one_call-Follows :
      (jobs : List Job) (running : Bool) (now : ℕ) (outcome : ℕ → Outcome) (last : Map ℕ)
      → (rest : List Execution) → HaveInterval n interval jobs
      → let r = run_durable_jobs running now outcome jobs last in
        Follows r.1 rest → Follows last (r.0 ++ rest)
  unfolding run_durable_jobs
  one_call-Follows jobs true now outcome last rest h f = f
  one_call-Follows jobs false now outcome last rest h f =
      job_loop-Follows now outcome jobs last rest h f

  run_calls-Follows :
      (jobs : List Job) (calls : List Call) (last : Map ℕ)
      → HaveInterval n interval jobs
      → Follows last (run_calls jobs calls last).0
  unfolding run_calls
  run_calls-Follows jobs [] last h = _
  run_calls-Follows jobs (c ∷ calls) last h =
      one_call-Follows jobs c.running c.now c.outcome last _ h (run_calls-Follows jobs calls _ h)

-- However often `runDurableJobs` is called, at whatever times, whatever jobs and queries throw and
-- whichever calls find another one running: each start of a job, also of one that fails or whose
-- completion is not recorded, is at least the job's interval after the end of its last run that
-- is recorded, the one stored before included, when all jobs of its name have that interval.
pub jobs-IsSpaced :
    (n interval : ℕ) (jobs : List Job) (calls : List Call) (last : Map ℕ)
    → HaveInterval n interval jobs
    → IsSpaced interval (lookup n last) (of_job n (run_calls jobs calls last).0)
jobs-IsSpaced n interval jobs calls last h = run_calls-Follows n interval jobs calls last h
