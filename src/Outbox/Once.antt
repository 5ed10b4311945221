-- ===== src/Outbox/Once.antt =====
-- No listener gets an event again (backend/src/services/outboxDispatcher.js).
use mathlib.Core.Path.{subst}
use stellar_edu_pay.Common.{
  ℕ, suc, ◌≡◌, refl, Bool, true, false, List, [], ◌∷◌, ◌++◌, Option, none, some, if◌then◌else◌, All,
  leb, arith, Bool-cases, inl, inr,
}
use stellar_edu_pay.Outbox.{Event, Config, recover, is_eligible, claimed, Call, add_to_set, settle}
use stellar_edu_pay.Outbox.Deliveries.{Missing, AllDistinct, IsOnce, IsOnce-same, contains-outcome}
use stellar_edu_pay.Outbox.Shared.{
  Dispatch, Shared, untaken, Step, claims, ends, crashes, calls, recovers, claim_if, call_next,
  call_if, closed, end_next, end_if, step, run_shared, Within, IsLeased, AllLeased,
}
use stellar_edu_pay.Outbox.Leases.{IsExclusive, later-IsExclusive}
use stellar_edu_pay.Outbox.Exclusive.{step-IsExclusive}

settle-delivered :
    (cfg : Config) (now retry_count : ℕ) (failed : Bool) (e : Event)
    → (settle cfg now retry_count failed e).delivered_to ≡ e.delivered_to
unfolding settle
settle-delivered cfg now retry_count false e = refl
settle-delivered cfg now retry_count true e =
    elim (Bool-cases (leb cfg.max_retries (suc retry_count))) [
      | inl y ↦ rw y refl
      | inr y ↦ rw y refl
    ]

recover-delivered : (now : ℕ) (e : Event) → (recover now e).delivered_to ≡ e.delivered_to
unfolding recover
recover-delivered now e = ground arith

-- A step that leaves `deliveredTo` alone.
unserved-IsOnce :
    (after before : List ℕ) (rest : List Call)
    → after ≡ before
    → IsOnce after rest
    → IsOnce before rest
unserved-IsOnce after before rest h o = subst (λ (xs : List ℕ). IsOnce xs rest) h o

module _ (cfg : Config) (listeners : List ℕ) where
  claim_if-delivered :
      (i now : ℕ) (o : Option Dispatch) (s : Shared)
      → (claim_if cfg listeners i now o s).doc.delivered_to ≡ s.doc.delivered_to
  unfolding claimed
  claim_if-delivered i now (some d) s = refl
  claim_if-delivered i now none s = elim (Bool-cases (is_eligible now s.doc)) [
    | inl y ↦ simp y refl
    | inr y ↦ simp y refl
  ]

  closed-delivered :
      (names : List ℕ) (now : ℕ) (d : Dispatch) (doc : Event)
      → (closed cfg listeners names now d doc).delivered_to ≡ doc.delivered_to
  closed-delivered [] now d doc = refl
  closed-delivered (l ∷ ls) now d doc = settle-delivered cfg now d.event.retry_count d.failed doc

  end_next-delivered :
      (i now : ℕ) (d : Dispatch) (w : List ℕ) (s : Shared)
      → (end_next cfg listeners i now d w s).doc.delivered_to ≡ s.doc.delivered_to
  end_next-delivered i now d [] s = closed-delivered listeners now d s.doc
  end_next-delivered i now d (n ∷ names) s = refl

  end_if-delivered :
      (i now : ℕ) (o : Option Dispatch) (s : Shared)
      → (end_if cfg listeners i now o s).doc.delivered_to ≡ s.doc.delivered_to
  end_if-delivered i now none s = refl
  end_if-delivered i now (some d) s = end_next-delivered i now d d.waiting s

  call_next-IsOnce :
      (i : ℕ) (b : Bool) (d : Dispatch) (w : List ℕ) (s : Shared) (rest : List Call)
      → All (Missing s.doc.delivered_to) w
      → let r = call_next cfg listeners i b d w s in
        IsOnce r.1.doc.delivered_to rest → IsOnce s.doc.delivered_to (r.0 ++ rest)
  call_next-IsOnce i b d [] s rest a o = o
  call_next-IsOnce i b d (n ∷ names) s rest a o = (
    a.0,
    IsOnce-same (if b then add_to_set n s.doc else s.doc).delivered_to
        (if b then n ∷ s.doc.delivered_to else s.doc.delivered_to) rest
        (contains-outcome n s.doc b a.0) o,
  )

  call_if-IsOnce :
      (now i : ℕ) (b : Bool) (o : Option Dispatch) (s : Shared) (rest : List Call)
      → s.dispatches i ≡ o
      → Within now o
      → IsExclusive now s
      → let r = call_if cfg listeners i b o s in
        IsOnce r.1.doc.delivered_to rest → IsOnce s.doc.delivered_to (r.0 ++ rest)
  call_if-IsOnce now i b none s rest found l x o = o
  call_if-IsOnce now i b (some d) s rest found l x o =
      call_next-IsOnce i b d d.waiting s rest (x.held i d found l).undelivered o

  step-IsOnce :
      (now : ℕ) (y : Step) (s : Shared) (rest : List Call)
      → IsLeased now y s
      → IsExclusive now s
      → let r = step cfg listeners now y s in
        IsOnce r.1.doc.delivered_to rest → IsOnce s.doc.delivered_to (r.0 ++ rest)
  unfolding step
  step-IsOnce now (claims i) s rest l x =
      unserved-IsOnce _ _ rest (claim_if-delivered i now (s.dispatches i) s)
  step-IsOnce now (calls i b) s rest l x = call_if-IsOnce now i b (s.dispatches i) s rest refl l x
  step-IsOnce now (ends i) s rest l x =
      unserved-IsOnce _ _ rest (end_if-delivered i now (s.dispatches i) s)
  step-IsOnce now (crashes i) s rest l x = λ o. o
  step-IsOnce now recovers s rest l x = unserved-IsOnce _ _ rest (recover-delivered now s.doc)

  run-IsOnce :
      (steps : List (ℕ × Step)) (before : ℕ) (s : Shared)
      → AllDistinct listeners
      → IsExclusive before s
      → AllLeased cfg listeners before steps s
      → IsOnce s.doc.delivered_to (run_shared cfg listeners steps s).0
  unfolding run_shared
  run-IsOnce [] before s d x l = _
  run-IsOnce ((now, y) ∷ steps) before s d x l =
      let here = later-IsExclusive before now s l.0 x in
      step-IsOnce now y s _ l.1 here
        (run-IsOnce steps now _ d (step-IsExclusive cfg listeners now y s d l.1 here) l.2)

untaken-IsExclusive : (now : ℕ) (doc : Event) → IsExclusive now (untaken doc)
untaken-IsExclusive now doc = record {
  held = λ i d found l. absurd (ground (arith, found));
  alone = λ i j d e found l f k. absurd (ground (arith, found));
}

-- When the listeners of an event have different names, time does not go back, and no dispatch calls
-- a listener or ends later than its lease: through any interleaving of the claims, listener calls
-- and ends of any number of dispatchers, of crashes and of recoveries, with any outcomes, from an
-- event that none of them has claimed, no listener is called for the event once a call to it has
-- succeeded and been recorded, in `deliveredTo` at the start included.
pub calls-IsOnce :
    (cfg : Config) (listeners : List ℕ)
    → AllDistinct listeners
    → (steps : List (ℕ × Step)) (start : ℕ) (doc : Event)
    → AllLeased cfg listeners start steps (untaken doc)
    → IsOnce doc.delivered_to (run_shared cfg listeners steps (untaken doc)).0
calls-IsOnce cfg listeners d steps start doc l =
    run-IsOnce cfg listeners steps start (untaken doc) d (untaken-IsExclusive start doc) l
