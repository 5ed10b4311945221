-- ===== src/Outbox/Ends.antt =====
-- How the events of backend/src/services/outboxDispatcher.js end.
use stellar_edu_pay.Common.{
  ℕ, zero, suc, ◌+◌, ◌≤◌, ◌<◌, ◌≡◌, refl, Bool, true, false, List, [], ◌∷◌, leb, ltb, arith,
  Bool-cases, inl, inr, ◌⊎◌,
}
use stellar_edu_pay.Outbox.{
  pending, completed, dead_letter, Event, Config, is_eligible, claimed, Call, deliver, settle,
  some_failed, dispatch_to, dispatch_event,
}
use stellar_edu_pay.Outbox.Histories.{attempt}

abbrev pub IsFinal : Event → Type 0
IsFinal e = (e.status ≡ completed) ⊎ (e.status ≡ dead_letter)

-- An event that waits for its next attempt, with retries left.
abbrev pub IsWaiting : Config → Event → Type 0
IsWaiting cfg e =
    (e.status ≡ pending) × (e.locked_until ≤ e.next_attempt_at) × (e.retry_count < cfg.max_retries)

abbrev Progress : Config → ℕ → Event → Type 0
Progress cfg retry_count e = IsFinal e ⊎ (IsWaiting cfg e × (e.retry_count ≡ suc retry_count))

settle-Progress :
    (cfg : Config) (now retry_count : ℕ) (failed : Bool) (e : Event)
    → Progress cfg retry_count (settle cfg now retry_count failed e)
unfolding settle
settle-Progress cfg now retry_count false e = inl (inl refl)
settle-Progress cfg now retry_count true e =
    elim (Bool-cases (leb cfg.max_retries (suc retry_count))) [
      | inl out ↦ rw out (inl (inr refl))
      | inr left ↦ rw left (inr ((refl, omega arith, ground arith), refl))
    ]

dispatch_to-Progress :
    (cfg : Config) (now : ℕ) (listeners : List ℕ) (outcome : ℕ → Bool) (waiting : List ℕ)
    → (retry_count : ℕ) (doc : Event)
    → Progress cfg retry_count (dispatch_to cfg now listeners outcome waiting retry_count doc).0
dispatch_to-Progress cfg now [] outcome waiting retry_count doc = inl (inr refl)
dispatch_to-Progress cfg now (l ∷ ls) outcome [] retry_count doc = inl (inl refl)
dispatch_to-Progress cfg now (l ∷ ls) outcome (n ∷ names) retry_count doc =
    let r : Event × List Call = deliver outcome (n ∷ names) doc in
    settle-Progress cfg now retry_count (some_failed r.1) r.0

not_eligible : (now : ℕ) (e : Event) → IsFinal e → is_eligible now e ≡ false
unfolding is_eligible
not_eligible now e (inl f) = rw f refl
not_eligible now e (inr f) = rw f refl

module _ (cfg : Config) (instance_id : ℕ) (listeners : List ℕ) where
  -- Attempts one after the other, each as soon as the event is due.
  abbrev pub attempts : (ℕ → ℕ → Bool) → ℕ → Event → Event
  attempts outcome zero e = e
  attempts outcome (suc n) e =
      attempts outcome n (attempt cfg instance_id listeners (suc e.next_attempt_at) (outcome n) e).0

  attempt-Progress :
      (outcome : ℕ → Bool) (e : Event)
      → IsWaiting cfg e
      → Progress cfg e.retry_count
          (attempt cfg instance_id listeners (suc e.next_attempt_at) outcome e).0
  unfolding attempt dispatch_event is_eligible claimed
  attempt-Progress outcome e (p, l, r) =
      let a : leb e.next_attempt_at (suc e.next_attempt_at) ≡ true = ground arith in
      let b : ltb e.locked_until (suc e.next_attempt_at) ≡ true = ground arith in
      rw (p, a, b) (dispatch_to-Progress cfg _ listeners outcome _ e.retry_count _)

  attempt-IsFinal :
      (now : ℕ) (outcome : ℕ → Bool) (e : Event)
      → IsFinal e
      → IsFinal (attempt cfg instance_id listeners now outcome e).0
  unfolding attempt
  attempt-IsFinal now outcome e f =
      let idle : is_eligible now e ≡ false = not_eligible now e f in rw idle f

  later_attempts :
      (outcome : ℕ → ℕ → Bool) (n : ℕ) (e : Event) → IsFinal e → IsFinal (attempts outcome n e)
  later_attempts outcome zero e f = f
  later_attempts outcome (suc n) e f =
      later_attempts outcome n _ (attempt-IsFinal _ (outcome n) e f)

  attempts-enough :
      (outcome : ℕ → ℕ → Bool) (n : ℕ) (e : Event)
      → IsWaiting cfg e
      → cfg.max_retries ≤ n + e.retry_count
      → IsFinal (attempts outcome n e)
  attempts-enough outcome zero e w h = absurd (omega (arith, w.2, h))
  attempts-enough outcome (suc n) e w h = elim (attempt-Progress (outcome n) e w) [
    | inl f ↦ later_attempts outcome n _ f
    | inr (w', r) ↦ attempts-enough outcome n _ w' (omega (arith, h, r))
  ]

-- An event that waits with retries left, its lock not beyond its due time, is final once it has been
-- attempted as many times as `OUTBOX_MAX_RETRIES` allows, each time as soon as it is due: it is
-- completed or dead-lettered, whatever the listeners do, and later attempts do not change that.
pub attempts-IsFinal :
    (cfg : Config) (instance_id : ℕ) (listeners : List ℕ) (outcome : ℕ → ℕ → Bool) (n : ℕ)
    → (e : Event) → IsWaiting cfg e
    → cfg.max_retries ≤ n
    → IsFinal (attempts cfg instance_id listeners outcome n e)
attempts-IsFinal cfg instance_id listeners outcome n e w h =
    attempts-enough cfg instance_id listeners outcome n e w (omega (arith, h))
