-- ===== src/Outbox/Overlap.antt =====
-- Batches of one process and the timer (backend/src/services/outboxDispatcher.js).
use stellar_edu_pay.Common.{
  ℕ, zero, suc, ◌+◌, ◌≤◌, ◌≡◌, refl, sym, ap, ◌∙◌, true, false, List, [], ◌∷◌, none, some, ◌==◌,
  length, arith, Bool-cases, inl, inr,
}
use mathlib.Core.Path.{subst}
use stellar_edu_pay.Outbox.Timer.{
  at_first, started, stopped, fired, finished, IsReached, Scheduler, is_armed, disarm,
  schedule_tick, start, stop, fire, finish_batch, finish,
}

-- What a timer keeps to: it waits, its batch is in flight, or the dispatcher is stopped.
data IsSingle (s : Scheduler) : Type 0 where
  waits :
      (t : ℕ)
      → s.running ≡ true
      → s.timer ≡ some t
      → s.armed ≡ t ∷ []
      → s.in_flight ≡ 0
      → IsSingle s
  works :
      (t : ℕ) → s.running ≡ true → s.timer ≡ some t → s.armed ≡ [] → s.in_flight ≡ 1 → IsSingle s
  rests : s.running ≡ false → s.armed ≡ [] → s.in_flight ≤ 1 → IsSingle s

schedule-running :
    (s : Scheduler)
    → s.running ≡ true
    → schedule_tick s ≡ record s {
      timer = some s.next_timer;
      armed = s.next_timer ∷ s.armed;
      next_timer = suc s.next_timer;
    }
unfolding schedule_tick
schedule-running s y = simp y refl

schedule-stopped :
    (s : Scheduler) → s.running ≡ false → schedule_tick s ≡ record s { stop_waits = false }
unfolding schedule_tick
schedule-stopped s y = simp y refl

start-running : (s : Scheduler) → s.running ≡ true → start s ≡ s
unfolding start
start-running s y = simp y refl

start-stopped :
    (s : Scheduler) → s.running ≡ false → start s ≡ schedule_tick (record s { running = true })
unfolding start
start-stopped s y = simp y refl

tick-IsSingle :
    (s : Scheduler) → s.running ≡ true → s.armed ≡ [] → s.in_flight ≡ 0 → IsSingle (schedule_tick s)
tick-IsSingle s r a f =
    subst IsSingle (sym (schedule-running s r))
      (waits s.next_timer r refl (ap (λ (ts : List ℕ). s.next_timer ∷ ts) a) f)

start-IsSingle :
    (s : Scheduler) → (s.running ≡ false → s.in_flight ≡ 0) → IsSingle s → IsSingle (start s)
start-IsSingle s q (waits t r m a f) = subst IsSingle (sym (start-running s r)) (waits t r m a f)
start-IsSingle s q (works t r m a f) = subst IsSingle (sym (start-running s r)) (works t r m a f)
start-IsSingle s q (rests r a f) =
    subst IsSingle (sym (start-stopped s r))
      (tick-IsSingle (record s { running = true }) refl a (q r))

disarm_self : (t : ℕ) → disarm t (t ∷ []) ≡ []
disarm_self t = ground arith

stop-running :
    (s : Scheduler) (t : ℕ)
    → s.running ≡ true
    → s.timer ≡ some t
    → (stop s).1 ≡ record s { running = false; timer = none; armed = disarm t s.armed }
unfolding stop
stop-running s t r m = simp (r, m) refl

stop-stopped : (s : Scheduler) → s.running ≡ false → (stop s).1 ≡ s
unfolding stop
stop-stopped s r = simp r refl

stop-IsSingle : (s : Scheduler) → IsSingle s → IsSingle (stop s).1
stop-IsSingle s (waits t r m a f) =
    subst IsSingle (sym (stop-running s t r m))
      (rests refl (ap (λ ts. disarm t ts) a ∙ disarm_self t) (omega (arith, f)))
stop-IsSingle s (works t r m a f) =
    subst IsSingle (sym (stop-running s t r m))
      (rests refl (ap (λ ts. disarm t ts) a) (omega (arith, f)))
stop-IsSingle s (rests r a f) = subst IsSingle (sym (stop-stopped s r)) (rests r a f)

finish_batch-IsSingle :
    (s : Scheduler) (n : ℕ) → s.in_flight ≡ n → IsSingle s → IsSingle (finish_batch s n)
finish_batch-IsSingle s zero e h = h
finish_batch-IsSingle s (suc n) e (waits t r m a f) = absurd (omega (arith, e, f))
finish_batch-IsSingle s (suc n) e (works t r m a f) =
    tick-IsSingle (record s { in_flight = n }) r a (omega (arith, e, f))
finish_batch-IsSingle s (suc n) e (rests r a f) =
    subst IsSingle (sym (schedule-stopped (record s { in_flight = n }) r))
      (rests r a (omega (arith, e, f)))

fire-armed :
    (s : Scheduler) (t : ℕ)
    → is_armed s.armed t ≡ true
    → fire t s ≡ record s { armed = disarm t s.armed; in_flight = suc s.in_flight }
unfolding fire
fire-armed s t y = simp y refl

fire-disarmed : (s : Scheduler) (t : ℕ) → is_armed s.armed t ≡ false → fire t s ≡ s
unfolding fire
fire-disarmed s t y = simp y refl

none_armed : (s : Scheduler) (t : ℕ) → s.armed ≡ [] → is_armed s.armed t ≡ false
none_armed s t a = rw a refl

fire-IsSingle : (s : Scheduler) (t : ℕ) → IsSingle s → IsSingle (fire t s)
fire-IsSingle s u (waits t r m a f) = elim (Bool-cases (t == u)) [
  | inl same ↦
      subst IsSingle (sym (fire-armed s u (ground (arith, a, same))))
        (works t r m (ground (arith, a, same)) (omega (arith, f)))
  | inr other ↦
      subst IsSingle (sym (fire-disarmed s u (ground (arith, a, other)))) (waits t r m a f)
]
fire-IsSingle s u (works t r m a f) =
    subst IsSingle (sym (fire-disarmed s u (none_armed s u a))) (works t r m a f)
fire-IsSingle s u (rests r a f) =
    subst IsSingle (sym (fire-disarmed s u (none_armed s u a))) (rests r a f)

reached-IsSingle : {s : Scheduler} → IsReached true s → IsSingle s
unfolding finish
reached-IsSingle at_first = rests refl refl (omega arith)
reached-IsSingle (started {s = s} p q) = start-IsSingle s (q refl) (reached-IsSingle p)
reached-IsSingle (stopped {s = s} p) = stop-IsSingle s (reached-IsSingle p)
reached-IsSingle (fired {s = s} t p) = fire-IsSingle s t (reached-IsSingle p)
reached-IsSingle (finished {s = s} p) =
    finish_batch-IsSingle s s.in_flight refl (reached-IsSingle p)

single_batch : (s : Scheduler) → IsSingle s → s.in_flight + length s.armed ≤ 1
single_batch s (waits t r m a f) = rw (a, f) (omega arith)
single_batch s (works t r m a f) = rw (a, f) (omega arith)
single_batch s (rests r a f) = rw a (omega (arith, f))

-- As long as a stopped dispatcher is started again only when no batch is in flight, the batches of
-- a process never overlap: through any starts, stops, timers that fire and batches that end, there
-- is at most one batch in flight or timer armed.
pub batches_apart : {s : Scheduler} → IsReached true s → s.in_flight + length s.armed ≤ 1
batches_apart {s = s} p = single_batch s (reached-IsSingle p)
