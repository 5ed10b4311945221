-- ===== src/Lock/Fencing.antt =====
-- The fencing tokens of backend/src/services/distributedLock.js.
use stellar_edu_pay.Common.{
  ℕ, ◌<◌, ◌≡◌, refl, List, [], ◌∷◌, Option, none, some, arith, ◌==◌, if◌then◌else◌,
}
use stellar_edu_pay.Common.Maps.{lookup, lookup-insert}
use stellar_edu_pay.Lock.{Locks, Call, take_, free, extend, acquire, apply, next_fence}

-- The last fencing token granted for a key, 0 before the first.
abbrev pub last_fence : ℕ → Locks → ℕ
last_fence key s = elim (lookup key s.fences) [ none ↦ 0 | some n ↦ n ]

-- The fencing token that a call is granted for a key.
abbrev pub granted : ℕ → Call → Locks → Option ℕ
granted key (take_ k ttl t at) s = if k == key then (acquire k ttl t at s).0 else none
granted key _ s = none

abbrev push : Option ℕ → List ℕ → List ℕ
push none fs = fs
push (some f) fs = f ∷ fs

-- The fencing tokens granted for a key in a run.
abbrev pub grants : ℕ → List Call → Locks → List ℕ
grants key [] s = []
grants key (c ∷ cs) s = push (granted key c s) (grants key cs (apply c s))

-- Strictly ascending, and above a bound.
abbrev pub AscendsFrom : ℕ → List ℕ → Type 0
AscendsFrom n [] = Unit
AscendsFrom n (f ∷ fs) = (n < f) × AscendsFrom f fs

abbrev or_last : Option ℕ → ℕ → ℕ
or_last none n = n
or_last (some f) n = f

abbrev IsAbove : ℕ → Option ℕ → Type 0
IsAbove n none = Unit
IsAbove n (some f) = n < f

-- A call that grants a token makes it the last, and one that grants none keeps the last.
last_fence-apply :
    (key : ℕ) (c : Call) (s : Locks)
    → last_fence key (apply c s) ≡ or_last (granted key c s) (last_fence key s)
unfolding apply
last_fence-apply key (take_ k ttl t at) s =
    ground (arith, lookup-insert k key (next_fence (lookup k s.fences)) s.fences)
last_fence-apply key (free k none) s = refl
last_fence-apply key (free k (some t)) s = ground arith
last_fence-apply key (extend k none ttl at) s = refl
last_fence-apply key (extend k (some t) ttl at) s = ground arith

granted-IsAbove : (key : ℕ) (c : Call) (s : Locks) → IsAbove (last_fence key s) (granted key c s)
unfolding acquire
granted-IsAbove key (take_ k ttl t at) s = ground arith
granted-IsAbove key (free k t) s = tt
granted-IsAbove key (extend k t ttl at) s = tt

push-AscendsFrom :
    (g : Option ℕ) (n m : ℕ) (fs : List ℕ)
    → IsAbove n g
    → m ≡ or_last g n
    → AscendsFrom m fs
    → AscendsFrom n (push g fs)
push-AscendsFrom none n m fs h e a = rw e at a
push-AscendsFrom (some f) n m fs h e a = (h, rw e at a)

-- In any run of acquires, releases and renewals, by any callers and with any clock, the fencing
-- tokens granted for a key are strictly ascending, from the last one granted before the run.
pub fencing_ascends :
    (key : ℕ) (cs : List Call) (s : Locks) → AscendsFrom (last_fence key s) (grants key cs s)
fencing_ascends key [] s = tt
fencing_ascends key (c ∷ cs) s =
    push-AscendsFrom (granted key c s) (last_fence key s) (last_fence key (apply c s)) _
      (granted-IsAbove key c s) (last_fence-apply key c s) (fencing_ascends key cs (apply c s))
