-- ===== src/Requests/Accounts.antt =====
-- What becomes of the requests to the queue of backend/src/middleware/concurrentRequestHandler.js.
use stellar_edu_pay.Common.{
  ℕ, ◌+◌, ◌-◌, Bool, true, false, ◌≡◌, refl, ◌∙◌, List, [], ◌∷◌, ◌++◌, ltb, leb, ◌==◌, length,
  arith, Bool-cases, inl, inr,
}
use stellar_edu_pay.Requests.{
  Item, Queue, insert, drain, process_queue, enqueue, settled, contains, remove, timeout, Call,
  arrive, settle_one, expire, apply, run,
}

abbrev one_if : Bool → ℕ
one_if true = 1
one_if false = 0

-- How often a request stands among numbers, and among items.
pub times : ℕ → List ℕ → ℕ
times id [] = 0
times id (x ∷ xs) = one_if (x == id) + times id xs

pub times_waiting : ℕ → List Item → ℕ
times_waiting id [] = 0
times_waiting id (x ∷ xs) = one_if (x.id == id) + times_waiting id xs

-- How often a request was started, waits, was refused, or timed out, taken together.
abbrev pub accounted : ℕ → Queue → ℕ
accounted id q =
    times id q.started + times_waiting id q.waiting + times id q.refused + times id q.timed_out

abbrev arrival : ℕ → Call → ℕ
arrival id (arrive x) = one_if (x.id == id)
arrival id settle_one = 0
arrival id (expire n) = 0

-- How often a request arrives in a run.
abbrev pub arrivals : ℕ → List Call → ℕ
arrivals id [] = 0
arrivals id (c ∷ cs) = arrival id c + arrivals id cs

times-append_one :
    (id n : ℕ) (xs : List ℕ) → times id (xs ++ n ∷ []) ≡ times id xs + one_if (n == id)
unfolding times
times-append_one id n [] = omega arith
times-append_one id n (x ∷ xs) = omega (arith, times-append_one id n xs)

times-insert :
    (id : ℕ) (x : Item) (ys : List Item)
    → times_waiting id (insert x ys) ≡ one_if (x.id == id) + times_waiting id ys
unfolding times_waiting insert
times-insert id x [] = refl
times-insert id x (y ∷ ys) = elim (Bool-cases (ltb y.priority x.priority)) [
  | inl before ↦ rw before refl
  | inr behind ↦ rw behind (omega (arith, times-insert id x ys))
]

times-remove :
    (id n : ℕ) (ys : List Item)
    → contains n ys ≡ true
    → times_waiting id (remove n ys) + one_if (n == id) ≡ times_waiting id ys
unfolding times_waiting remove contains
times-remove id n [] h = ground arith
times-remove id n (y ∷ ys) h = elim (Bool-cases (y.id == n)) [
  | inl it ↦ let same : y.id ≡ n = ground arith in rw it (rw same (omega arith))
  | inr other ↦ rw other (omega (arith, times-remove id n ys (rw other at h)))
]

drain-accounted :
    (id : ℕ) (xs : List Item) (q : Queue)
    → accounted id (drain xs q) ≡ accounted id (record q { waiting = xs })
unfolding drain times_waiting
drain-accounted id [] q = refl
drain-accounted id (x ∷ xs) q = elim (Bool-cases (ltb q.processing q.max_concurrent)) [
  | inl free ↦ rw free (drain-accounted id xs _ ∙ omega (arith, times-append_one id x.id q.started))
  | inr full ↦ rw full refl
]

enqueue-accounted :
    (id : ℕ) (x : Item) (q : Queue)
    → accounted id (enqueue x q) ≡ one_if (x.id == id) + accounted id q
unfolding enqueue process_queue
enqueue-accounted id x q = elim (Bool-cases (leb q.max_size (length q.waiting))) [
  | inl full ↦ rw full (omega (arith, times-append_one id x.id q.refused))
  | inr open_ ↦ rw open_ (
      drain-accounted id (insert x q.waiting) (record q { waiting = insert x q.waiting })
      ∙ omega (arith, times-insert id x q.waiting))
]

timeout-accounted : (id n : ℕ) (q : Queue) → accounted id (timeout n q) ≡ accounted id q
unfolding timeout
timeout-accounted id n q = elim (Bool-cases (contains n q.waiting)) [
  | inr gone ↦ rw gone refl
  | inl there ↦
      rw there (omega (arith, times-append_one id n q.timed_out, times-remove id n q.waiting there))
]

apply-accounted :
    (id : ℕ) (c : Call) (q : Queue) → accounted id (apply c q) ≡ arrival id c + accounted id q
unfolding apply settled process_queue
apply-accounted id (arrive x) q = enqueue-accounted id x q
apply-accounted id settle_one q =
    drain-accounted id q.waiting (record q { processing = q.processing - 1 }) ∙ omega arith
apply-accounted id (expire n) q = timeout-accounted id n q ∙ omega arith

-- Through any calls, each arrival of a request is accounted for exactly once: it was started, is
-- waiting, was refused by a full queue, or timed out; nothing is lost and nothing runs twice.
pub run-accounted :
    (id : ℕ) (cs : List Call) (q : Queue)
    → accounted id (run cs q) ≡ arrivals id cs + accounted id q
unfolding run
run-accounted id [] q = omega arith
run-accounted id (c ∷ cs) q =
    run-accounted id cs (apply c q) ∙ omega (arith, apply-accounted id c q)
