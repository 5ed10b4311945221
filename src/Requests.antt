-- ===== src/Requests.antt =====
-- `class RequestQueue` of backend/src/middleware/concurrentRequestHandler.js: requests that wait by
-- priority for one of a bounded number of places. Requests are numbers that are only compared; the
-- events that the runtime delivers (an operation that settles, a timer that fires) are calls.
pub mod Invariants
pub mod Accounts
pub mod Breaker
pub mod Limiter
pub mod Dedup
mod Tests
use stellar_edu_pay.Common.{
  ℕ, zero, suc, ◌+◌, ◌-◌, Bool, true, false, List, [], ◌∷◌, ◌++◌, Option, none, some, ltb, leb,
  ◌==◌, if◌then◌else◌, length,
}

pub record Item : Type 0 where
  pub id : ℕ
  pub priority : ℕ

-- The queue, with the requests whose operation was started, and those whose promise was rejected
-- by a full queue and by a timeout.
pub record Queue : Type 0 where
  pub max_size : ℕ
  pub max_concurrent : ℕ
  pub waiting : List Item
  pub processing : ℕ
  pub started : List ℕ
  pub refused : List ℕ
  pub timed_out : List ℕ

-- `options.x || d`.
abbrev or_default : Option ℕ → ℕ → ℕ
or_default none d = d
or_default (some zero) d = d
or_default (some (suc n)) d = suc n

-- The constructor.
unfoldable pub new : Option ℕ → Option ℕ → Queue
new max_size max_concurrent = record {
  max_size = or_default max_size 1_000;
  max_concurrent = or_default max_concurrent 50;
  waiting = [];
  processing = 0;
  started = [];
  refused = [];
  timed_out = [];
}

-- `findIndex` and `splice`: before the first item of a lower priority, or at the end.
unfoldable pub insert : Item → List Item → List Item
insert x [] = x ∷ []
insert x (y ∷ ys) = if ltb y.priority x.priority then x ∷ y ∷ ys else y ∷ insert x ys

-- The loop of `processQueue`, on the items that wait.
unfoldable pub drain : List Item → Queue → Queue
drain [] q = record q { waiting = [] }
drain (x ∷ xs) q =
    if ltb q.processing q.max_concurrent
    then drain xs (record q { processing = q.processing + 1; started = q.started ++ x.id ∷ [] })
    else record q { waiting = x ∷ xs }

-- `processQueue()`.
unfoldable pub process_queue : Queue → Queue
unfolding drain
process_queue q = drain q.waiting q

-- `enqueue(operation, priority)`.
unfoldable pub enqueue : Item → Queue → Queue
unfolding insert process_queue
enqueue x q =
    if leb q.max_size (length q.waiting)
    then record q { refused = q.refused ++ x.id ∷ [] }
    else process_queue (record q { waiting = insert x q.waiting })

-- What `finally` runs when an operation has settled.
unfoldable pub settled : Queue → Queue
unfolding process_queue
settled q = process_queue (record q { processing = q.processing - 1 })

unfoldable pub contains : ℕ → List Item → Bool
contains id [] = false
contains id (x ∷ xs) = if x.id == id then true else contains id xs

unfoldable pub remove : ℕ → List Item → List Item
remove id [] = []
remove id (x ∷ xs) = if x.id == id then xs else x ∷ remove id xs

-- The timer of a request, which does nothing once the request is no longer waiting.
unfoldable pub timeout : ℕ → Queue → Queue
timeout id q =
    if contains id q.waiting
    then record q { waiting = remove id q.waiting; timed_out = q.timed_out ++ id ∷ [] }
    else q

pub data Call : Type 0 where
  arrive : Item → Call
  settle_one : Call
  expire : ℕ → Call

unfoldable pub apply : Call → Queue → Queue
unfolding enqueue settled timeout
apply (arrive x) q = enqueue x q
apply settle_one q = settled q
apply (expire id) q = timeout id q

unfoldable pub run : List Call → Queue → Queue
run [] q = q
run (c ∷ cs) q = run cs (apply c q)
