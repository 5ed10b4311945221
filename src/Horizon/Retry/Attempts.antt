-- ===== src/Horizon/Retry/Attempts.antt =====
-- How the retry loop of backend/src/utils/withStellarRetry.js ends, how long it waits, and what a
-- second classification of an error does.
use stellar_edu_pay.Common.{
  ℕ, zero, suc, ◌+◌, ◌*◌, ◌/◌, ◌≤◌, Bool, true, not, ◌||◌, ◌≡◌, ◌≢◌, refl, sym, List, [], Option,
  some, arith, ◌==◌, length, All, Bool-cases, inl, inr,
}
use stellar_edu_pay.Horizon.Retry.{
  Code, stellar_network_error, horizon_unavailable, Failure, is_transient, classify_horizon_error,
  Call, returned, failed, Outcome, value, thrown, delay_of, or_default, after_call, attempts,
  with_stellar_retry,
}

module _ {A : Type 0} (jitter : ℕ → ℕ → ℕ) (base : ℕ) (fn : ℕ → Call A) where
  -- The call of the n-th attempt after one.
  abbrev pub nth_call : ℕ → ℕ → Call A
  nth_call attempt zero = fn attempt
  nth_call attempt (suc n) = nth_call (attempt + 1) n

  abbrev IsRetried : Call A → Type 0
  IsRetried (returned a) = ⊥
  IsRetried (failed e) = is_transient e ≡ true

  -- The first n calls from an attempt failed transiently.
  abbrev pub AllRetried : ℕ → ℕ → Type 0
  AllRetried attempt zero = Unit
  AllRetried attempt (suc n) = IsRetried (fn attempt) × AllRetried (attempt + 1) n

  -- The outcome of the last call: its value, or its classified error, which was not transient or
  -- left no attempt.
  abbrev pub Decides : Bool → Call A → Outcome A → Type 0
  Decides is_last (returned a) r = r ≡ value a
  Decides is_last (failed e) r =
      (not (is_transient e) || is_last ≡ true) × (r ≡ thrown (classify_horizon_error e))

  abbrev pub Ends : ℕ → ℕ → Outcome A × List ℕ → Type 0
  Ends left attempt (r, ws) =
      (n : ℕ) × (n ≤ left)
      × (length ws ≡ n)
      × AllRetried attempt n
      × Decides (n == left) (nth_call attempt n) r

  suc_== : (n left : ℕ) → (suc n == suc left) ≡ (n == left)
  suc_== n left = ground arith

  stopped-Ends :
      (left attempt : ℕ) (e : Failure)
      → fn attempt ≡ failed e
      → not (is_transient e) || left == 0 ≡ true
      → Ends left attempt (thrown (classify_horizon_error e), [])
  stopped-Ends left attempt e call stop = (0, omega arith, refl, tt, rw call (ground arith, refl))

  after_call-Ends :
      (left attempt : ℕ) (c : Call A) (rest : Outcome A × List ℕ)
      → fn attempt ≡ c
      → ((before : ℕ) → left ≡ suc before → Ends before (attempt + 1) rest)
      → Ends left attempt (after_call jitter base fn (left == 0) attempt c rest)
  unfolding after_call
  after_call-Ends left attempt (returned a) rest call k = (0, omega arith, refl, tt, rw call refl)
  after_call-Ends zero attempt (failed e) rest call k =
      let stop : not (is_transient e) || true ≡ true = ground arith in
      rw stop (stopped-Ends zero attempt e call stop)
  after_call-Ends (suc left) attempt (failed e) (r, ws) call k =
      elim (Bool-cases (not (is_transient e) || suc left == 0)) [
        | inl stop ↦ rw stop (stopped-Ends (suc left) attempt e call stop)
        | inr go ↦
            let (n, le, len, all, decides) = k left refl in
            let passing : is_transient e ≡ true = ground arith in
            rw go
              (suc n, omega arith, omega arith, (rw call passing, all), rw (suc_== n left) decides)
      ]

  attempts-Ends :
      (left attempt : ℕ) → Ends left attempt (attempts jitter base fn (suc left) attempt)
  unfolding attempts
  attempts-Ends zero attempt =
      after_call-Ends zero attempt (fn attempt) _ refl (λ before e. absurd (omega arith))
  attempts-Ends (suc left) attempt =
      after_call-Ends (suc left) attempt (fn attempt) _ refl (λ before e.
        let s : left ≡ before = omega arith in rw (sym s) (attempts-Ends left (attempt + 1)))

  abbrev AreShort : List ℕ → Type 0
  AreShort = All (λ w. w ≤ 13_000)

  after_call-AreShort :
      (is_last : Bool) (attempt : ℕ) (c : Call A) (rest : Outcome A × List ℕ)
      → jitter attempt (delay_of base attempt) ≤ delay_of base attempt * 3 / 10
      → AreShort rest.1
      → AreShort (after_call jitter base fn is_last attempt c rest).1
  unfolding after_call
  after_call-AreShort is_last attempt (returned a) rest h k = tt
  after_call-AreShort is_last attempt (failed e) (r, ws) h k =
      elim (Bool-cases (not (is_transient e) || is_last)) [
        | inl stop ↦ rw stop tt
        | inr go ↦ rw go (omega arith, k)
      ]

  attempts-AreShort :
      ((attempt delay : ℕ) → jitter attempt delay ≤ delay * 3 / 10)
      → (left attempt : ℕ) → AreShort (attempts jitter base fn left attempt).1
  unfolding attempts
  attempts-AreShort h zero attempt = tt
  attempts-AreShort h (suc left) attempt =
      after_call-AreShort (left == 0) attempt (fn attempt) _ (h attempt (delay_of base attempt))
        (attempts-AreShort h left (attempt + 1))

module _ {A : Type 0} (jitter : ℕ → ℕ → ℕ) (env_attempts env_delay : ℕ) where
  -- With at least one attempt allowed, the retries end with the outcome of a call. With n the
  -- number of waits, which is below the number of attempts, the first n calls failed transiently;
  -- the one after them returned the value, or threw the classified error, which was not transient
  -- unless no attempt was left.
  pub with_stellar_retry-Ends :
      (max_attempts base_delay : Option ℕ) (fn : ℕ → Call A) (left : ℕ)
      → or_default max_attempts env_attempts ≡ suc left
      → Ends jitter
          (or_default base_delay env_delay)
          fn
          left
          1
          (with_stellar_retry jitter env_attempts env_delay max_attempts base_delay fn)
  unfolding with_stellar_retry
  with_stellar_retry-Ends max_attempts base_delay fn left e =
      rw e (attempts-Ends jitter (or_default base_delay env_delay) fn left 1)

  -- If the random part is at most three tenths of its delay, no wait is longer than 13 seconds,
  -- with any base delay and any number of attempts.
  waits_bounded :
      (max_attempts base_delay : Option ℕ) (fn : ℕ → Call A)
      → ((attempt delay : ℕ) → jitter attempt delay ≤ delay * 3 / 10)
      → All
          (λ w. w ≤ 13_000)
          (with_stellar_retry jitter env_attempts env_delay max_attempts base_delay fn).1
  unfolding with_stellar_retry
  waits_bounded max_attempts base_delay fn h =
      attempts-AreShort jitter (or_default base_delay env_delay) fn h
        (or_default max_attempts env_attempts) 1

abbrev pub reclassified : Option Code → Option Code
reclassified (some stellar_network_error) = some horizon_unavailable
reclassified c = c

-- An error that does not carry the code of a Stellar network error keeps its code when it is
-- classified twice, except that one that the first time makes a Stellar network error is made
-- an outage of Horizon by the second.
classify_twice :
    (e : Failure)
    → e.code ≢ some stellar_network_error
    → (classify_horizon_error (classify_horizon_error e)).code
      ≡ reclassified (classify_horizon_error e).code
unfolding classify_horizon_error is_transient
classify_twice e ne = ground arith
