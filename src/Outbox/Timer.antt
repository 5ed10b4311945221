-- ===== src/Outbox/Timer.antt =====
-- The timer of backend/src/services/outboxDispatcher.js: `scheduleTick`, `startOutboxDispatcher` and
-- `stopOutboxDispatcher`. The runtime keeps the timers that are armed, by their numbers, and how many
-- batches are in flight; a timer that fires and a batch that ends are calls of their own.
use stellar_edu_pay.Common.{
  ℕ, zero, suc, ◌≡◌, Bool, true, false, not, List, [], ◌∷◌, Option, none, some, ◌==◌, if◌then◌else◌,
  any, filter,
}

pub record Scheduler : Type 0 where
  pub running : Bool
  pub timer : Option ℕ
  pub stop_waits : Bool
  pub armed : List ℕ
  pub in_flight : ℕ
  pub next_timer : ℕ

abbrev pub initial : Scheduler
initial = record {
  running = false;
  timer = none;
  stop_waits = false;
  armed = [];
  in_flight = 0;
  next_timer = 0;
}

abbrev pub is_armed : List ℕ → ℕ → Bool
is_armed armed t = any (λ u. u == t) armed

-- `clearTimeout`, and what the runtime does when a timer fires.
abbrev pub disarm : ℕ → List ℕ → List ℕ
disarm t armed = filter (λ u. not (u == t)) armed

-- `scheduleTick`: the promise of a stop that waits is resolved when the dispatcher no longer runs.
unfoldable pub schedule_tick : Scheduler → Scheduler
schedule_tick s =
    if s.running
    then record s {
      timer = some s.next_timer;
      armed = s.next_timer ∷ s.armed;
      next_timer = suc s.next_timer;
    }
    else record s { stop_waits = false }

-- `startOutboxDispatcher`
unfoldable pub start : Scheduler → Scheduler
start s = if s.running then s else schedule_tick (record s { running = true })

abbrev pub stop_timer : Scheduler → Option ℕ → Bool × Scheduler
stop_timer s (some t) = (true, record s { running = false; timer = none; armed = disarm t s.armed })
stop_timer s none = (false, record s { running = false; stop_waits = true })

-- `stopOutboxDispatcher`, with whether the promise that it returns is resolved already.
unfoldable pub stop : Scheduler → Bool × Scheduler
stop s = if s.running then stop_timer s s.timer else (true, s)

-- A timer fires: the callback begins its batch.
unfoldable pub fire : ℕ → Scheduler → Scheduler
fire t s =
    if is_armed s.armed t
    then record s { armed = disarm t s.armed; in_flight = suc s.in_flight }
    else s

abbrev pub finish_batch : Scheduler → ℕ → Scheduler
finish_batch s zero = s
finish_batch s (suc n) = schedule_tick (record s { in_flight = n })

-- A batch ends, and the callback schedules the next tick.
unfoldable pub finish : Scheduler → Scheduler
finish s = finish_batch s s.in_flight

-- The states that the calls reach: with any starts, or with starts of a stopped dispatcher only
-- when no batch is in flight.
pub data IsReached (quiet : Bool) : Scheduler → Type 0 where
  at_first : IsReached quiet initial
  started :
      {s : Scheduler}
      → IsReached quiet s
      → (quiet ≡ true → s.running ≡ false → s.in_flight ≡ 0)
      → IsReached quiet (start s)
  stopped : {s : Scheduler} → IsReached quiet s → IsReached quiet (stop s).1
  fired : {s : Scheduler} (t : ℕ) → IsReached quiet s → IsReached quiet (fire t s)
  finished : {s : Scheduler} → IsReached quiet s → IsReached quiet (finish s)
