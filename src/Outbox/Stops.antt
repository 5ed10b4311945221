-- ===== src/Outbox/Stops.antt =====
-- When the promise of `stopOutboxDispatcher` is resolved (backend/src/services/outboxDispatcher.js).
use stellar_edu_pay.Common.{
  ℕ, zero, suc, ◌≡◌, refl, Bool, true, false, Option, none, some, arith, Bool-cases, inl, inr,
}
use stellar_edu_pay.Outbox.Timer.{
  at_first, started, stopped, fired, finished, IsReached, Scheduler, is_armed, schedule_tick, start,
  stop_timer, stop, fire, finish_batch, finish,
}

-- A running dispatcher has a timer, fired or not.
abbrev HasTimer : Scheduler → Type 0
HasTimer s = s.running ≡ true → (t : ℕ) × (s.timer ≡ some t)

schedule_tick-HasTimer : (s : Scheduler) → HasTimer (schedule_tick s)
unfolding schedule_tick
schedule_tick-HasTimer s = elim (Bool-cases s.running) [
  | inl y ↦ rw y (λ r. (s.next_timer, refl))
  | inr y ↦ rw y (λ r. absurd (ground arith))
]

stop_timer_ends : (s : Scheduler) (o : Option ℕ) → (stop_timer s o).1.running ≡ false
stop_timer_ends s none = refl
stop_timer_ends s (some t) = refl

stop_ends : (s : Scheduler) → (stop s).1.running ≡ false
unfolding stop
stop_ends s = elim (Bool-cases s.running) [
  | inl y ↦ simp y (stop_timer_ends s s.timer)
  | inr y ↦ rw y refl
]

clash : {b : Bool} → b ≡ false → b ≡ true → ⊥
clash e f = ground arith

finish_batch-HasTimer : (s : Scheduler) (n : ℕ) → HasTimer s → HasTimer (finish_batch s n)
finish_batch-HasTimer s zero h = h
finish_batch-HasTimer s (suc n) h = schedule_tick-HasTimer (record s { in_flight = n })

reached-HasTimer : {quiet : Bool} {s : Scheduler} → IsReached quiet s → HasTimer s
unfolding start fire finish
reached-HasTimer at_first = λ r. absurd (ground arith)
reached-HasTimer (started {s = s} p q) = elim (Bool-cases s.running) [
  | inl y ↦ rw y (λ r. reached-HasTimer p y)
  | inr y ↦ rw y (schedule_tick-HasTimer (record s { running = true }))
]
reached-HasTimer (stopped {s = s} p) = λ r. absurd (clash (stop_ends s) r)
reached-HasTimer (fired {s = s} t p) = elim (Bool-cases (is_armed s.armed t)) [
  | inl y ↦ rw y (reached-HasTimer p)
  | inr y ↦ rw y (reached-HasTimer p)
]
reached-HasTimer (finished {s = s} p) = finish_batch-HasTimer s s.in_flight (reached-HasTimer p)

stop-resolved : (s : Scheduler) → HasTimer s → (stop s).0 ≡ true
unfolding stop
stop-resolved s h = elim (Bool-cases s.running) [
  | inl y ↦ let (t, e) = h y in ground arith
  | inr y ↦ rw y refl
]

-- The promise that `stopOutboxDispatcher` returns is resolved at once in every state that the calls
-- reach, also when a batch is in flight.
pub stop_never_waits : {s : Scheduler} → IsReached false s → (stop s).0 ≡ true
stop_never_waits {s = s} p = stop-resolved s (reached-HasTimer p)
