-- ===== src/Requests/Invariants.antt =====
-- What holds of the request queue of backend/src/middleware/concurrentRequestHandler.js through any
-- calls.
use stellar_edu_pay.Common.{
  ℕ, ◌+◌, ◌-◌, ◌≤◌, ◌<◌, ◌≡◌, refl, ap, List, [], ◌∷◌, Option, ltb, leb, ◌==◌, length, arith, All,
  Bool-cases, inl, inr,
}
use stellar_edu_pay.Requests.{
  Item, Queue, new, insert, drain, process_queue, enqueue, settled, contains, remove, timeout, Call,
  arrive, settle_one, expire, apply, run,
}

abbrev IsBelow : ℕ → Item → Type 0
IsBelow p y = y.priority ≤ p

-- No item is behind one of a lower priority.
abbrev pub IsDescending : List Item → Type 0
IsDescending [] = Unit
IsDescending (x ∷ xs) = All (λ y. y.priority ≤ x.priority) xs × IsDescending xs

insert-All :
    (p : ℕ) (x : Item) (ys : List Item)
    → x.priority ≤ p
    → All (IsBelow p) ys
    → All (IsBelow p) (insert x ys)
unfolding insert
insert-All p x [] h k = (h, tt)
insert-All p x (y ∷ ys) h k = elim (Bool-cases (ltb y.priority x.priority)) [
  | inl before ↦ rw before (h, k)
  | inr behind ↦ rw behind (k.0, insert-All p x ys h k.1)
]

All-mono : (p p' : ℕ) (ys : List Item) → p ≤ p' → All (IsBelow p) ys → All (IsBelow p') ys
All-mono p p' [] h k = tt
All-mono p p' (y ∷ ys) h k = (omega arith, All-mono p p' ys h k.1)

insert-IsDescending : (x : Item) (ys : List Item) → IsDescending ys → IsDescending (insert x ys)
unfolding insert
insert-IsDescending x [] h = (tt, tt)
insert-IsDescending x (y ∷ ys) h = elim (Bool-cases (ltb y.priority x.priority)) [
  | inl before ↦
      let lt : y.priority ≤ x.priority = ground arith in
      rw before ((lt, All-mono y.priority x.priority ys lt h.0), h)
  | inr behind ↦
      let le : x.priority ≤ y.priority = ground arith in
      rw behind (insert-All y.priority x ys le h.0, insert-IsDescending x ys h.1)
]

length-insert : (x : Item) (ys : List Item) → length (insert x ys) ≡ length ys + 1
unfolding insert
length-insert x [] = refl
length-insert x (y ∷ ys) = elim (Bool-cases (ltb y.priority x.priority)) [
  | inl before ↦ rw before (omega arith)
  | inr behind ↦ rw behind (omega (arith, length-insert x ys))
]

remove-All : (p id : ℕ) (ys : List Item) → All (IsBelow p) ys → All (IsBelow p) (remove id ys)
unfolding remove
remove-All p id [] h = tt
remove-All p id (y ∷ ys) h = elim (Bool-cases (y.id == id)) [
  | inl it ↦ rw it h.1
  | inr other ↦ rw other (h.0, remove-All p id ys h.1)
]

remove-IsDescending : (id : ℕ) (ys : List Item) → IsDescending ys → IsDescending (remove id ys)
unfolding remove
remove-IsDescending id [] h = tt
remove-IsDescending id (y ∷ ys) h = elim (Bool-cases (y.id == id)) [
  | inl it ↦ rw it h.1
  | inr other ↦ rw other (remove-All y.priority id ys h.0, remove-IsDescending id ys h.1)
]

length-remove : (id : ℕ) (ys : List Item) → length (remove id ys) ≤ length ys
unfolding remove
length-remove id [] = omega arith
length-remove id (y ∷ ys) = elim (Bool-cases (y.id == id)) [
  | inl it ↦ rw it (omega arith)
  | inr other ↦ rw other (omega (arith, length-remove id ys))
]

-- The places and the room are not exceeded, the items wait by priority, and none waits while a
-- place is free.
pub record IsSound (q : Queue) : Type 0 where
  pub places : q.processing ≤ q.max_concurrent
  pub room : length q.waiting ≤ q.max_size
  pub ordered : IsDescending q.waiting
  pub busy : q.processing < q.max_concurrent → q.waiting ≡ []

drain-IsSound :
    (xs : List Item) (q : Queue)
    → q.processing ≤ q.max_concurrent
    → length xs ≤ q.max_size
    → IsDescending xs
    → IsSound (drain xs q)
unfolding drain
drain-IsSound [] q places room ordered = record {
  places = places;
  room = omega arith;
  ordered = tt;
  busy = λ h. refl;
}
drain-IsSound (x ∷ xs) q places room ordered =
    elim (Bool-cases (ltb q.processing q.max_concurrent)) [
      | inl free ↦ rw free (drain-IsSound xs _ (ground arith) (omega arith) ordered.1)
      | inr full ↦ rw full (record {
        places = places;
        room = room;
        ordered = ordered;
        busy = λ h. absurd (ground arith);
      })
    ]

process_queue-IsSound :
    (q : Queue)
    → q.processing ≤ q.max_concurrent
    → length q.waiting ≤ q.max_size
    → IsDescending q.waiting
    → IsSound (process_queue q)
unfolding process_queue
process_queue-IsSound q places room ordered = drain-IsSound q.waiting q places room ordered

enqueue-IsSound : (x : Item) (q : Queue) → IsSound q → IsSound (enqueue x q)
unfolding enqueue
enqueue-IsSound x q s = elim (Bool-cases (leb q.max_size (length q.waiting))) [
  | inl full ↦
      rw full (record { places = s.places; room = s.room; ordered = s.ordered; busy = s.busy })
  | inr open_ ↦ rw open_ (
      process_queue-IsSound (record q { waiting = insert x q.waiting }) s.places
        (ground (arith, length-insert x q.waiting)) (insert-IsDescending x q.waiting s.ordered))
]

timeout-IsSound : (id : ℕ) (q : Queue) → IsSound q → IsSound (timeout id q)
unfolding timeout remove
timeout-IsSound id q s = elim (Bool-cases (contains id q.waiting)) [
  | inr gone ↦ rw gone s
  | inl there ↦ rw there (record {
    places = s.places;
    room = omega (arith, length-remove id q.waiting, s.room);
    ordered = remove-IsDescending id q.waiting s.ordered;
    busy = λ h. ap (remove id) (s.busy h);
  })
]

apply-IsSound : (c : Call) (q : Queue) → IsSound q → IsSound (apply c q)
unfolding apply settled
apply-IsSound (arrive x) q s = enqueue-IsSound x q s
apply-IsSound settle_one q s =
    process_queue-IsSound (record q { processing = q.processing - 1 }) (omega (arith, s.places))
      s.room s.ordered
apply-IsSound (expire id) q s = timeout-IsSound id q s

run-IsSound : (cs : List Call) (q : Queue) → IsSound q → IsSound (run cs q)
unfolding run
run-IsSound [] q s = s
run-IsSound (c ∷ cs) q s = run-IsSound cs (apply c q) (apply-IsSound c q s)

-- Through any calls from a new queue, with any options, at most the allowed number of operations
-- run and at most the allowed number of requests wait; none waits behind one of a lower
-- priority, and none waits while an operation could start.
pub queue-IsSound :
    (max_size max_concurrent : Option ℕ) (cs : List Call)
    → IsSound (run cs (new max_size max_concurrent))
unfolding new
queue-IsSound max_size max_concurrent cs =
    run-IsSound cs (new max_size max_concurrent)
      (record { places = omega arith; room = omega arith; ordered = tt; busy = λ h. refl })
