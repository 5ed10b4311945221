-- ===== src/Horizon/Breaker/Trips.antt =====
-- When the breaker of backend/src/utils/circuitBreaker.js opens, closes and refuses.
use stellar_edu_pay.Common.{
  ℕ, zero, suc, ◌+◌, ◌≤◌, ◌<◌, ◌≡◌, ◌↔◌, true, false, List, [], ◌∷◌, Option, some, arith, ◌⊎◌, inl,
  inr, is_some,
}
use stellar_edu_pay.Horizon.Breaker.{
  closed, open_, half_open, Breaker, new, opened, is_available, record_success, record_failure,
  get_time_until_retry, Call, apply, run,
}

-- What holds between two calls.
pub record IsSound (b : Breaker) : Type 0 where
  pub positive : (0 < b.failure_threshold) × (0 < b.success_threshold)
  pub closed_below : b.state ≡ closed → b.failures < b.failure_threshold
  pub open_dated : b.state ≡ open_ → is_some b.opened_at ≡ true
  pub probing_below : b.half_open_successes < b.success_threshold
  pub counts_probes : 0 < b.half_open_successes → b.state ≡ half_open

new-IsSound : (f r s : Option ℕ) → IsSound (new f r s)
unfolding new
new-IsSound f r s = ground arith

apply-IsSound : (c : Call) (b : Breaker) → IsSound b → IsSound (apply c b)
unfolding apply
apply-IsSound (Call.fail now) b h = ground arith
apply-IsSound _ b h = ground arith

run-IsSound : (cs : List Call) (b : Breaker) → IsSound b → IsSound (run cs b)
unfolding run
run-IsSound [] b h = h
run-IsSound (c ∷ cs) b h = run-IsSound cs (apply c b) (apply-IsSound c b h)

-- Whatever the options and the calls: a closed breaker has fewer failures than its threshold, an
-- open one knows when it opened, and probes are counted, below their threshold, only half open.
pub breaker-IsSound : (f r s : Option ℕ) (cs : List Call) → IsSound (run cs (new f r s))
breaker-IsSound f r s cs = run-IsSound cs (new f r s) (new-IsSound f r s)

-- A request is refused exactly when the breaker is open and its timeout has not passed; then the
-- breaker is unchanged and a positive time is left until a retry. Otherwise none is left.
refusal_exact :
    (now : ℕ) (b : Breaker)
    → ((is_available now b).1 ≡ false ↔ (b.state ≡ open_) × (now < opened b + b.reset_timeout_ms))
      × ((is_available now b).1 ≡ false
          → ((is_available now b).0 ≡ b) × (0 < get_time_until_retry now b))
      × ((is_available now b).1 ≡ true → get_time_until_retry now b ≡ 0)
unfolding is_available get_time_until_retry
refusal_exact now b = ground arith

abbrev pub fail_at : List ℕ → Breaker → Breaker
fail_at [] b = b
fail_at (t ∷ ts) b = fail_at ts (record_failure t b)

abbrev pub length_of : List ℕ → ℕ
length_of [] = 0
length_of (t ∷ ts) = suc (length_of ts)

stays_open : (ts : List ℕ) (b : Breaker) → b.state ≡ open_ → (fail_at ts b).state ≡ open_
unfolding record_failure
stays_open [] b h = h
stays_open (t ∷ ts) b h = stays_open ts (record_failure t b) (ground arith)

one_failure :
    (t : ℕ) (b : Breaker)
    → b.state ≡ closed
    → let b' = record_failure t b in
      (b.failure_threshold ≤ b.failures + 1) × (b'.state ≡ open_)
      ⊎ (b.failures + 1 < b.failure_threshold)
        × (b'.state ≡ closed)
        × (b'.failures ≡ b.failures + 1)
        × (b'.failure_threshold ≡ b.failure_threshold)
unfolding record_failure
one_failure t b h = ground arith

-- From a closed breaker, failures with no success between them open it exactly when they and those
-- already counted reach the threshold.
failures_open :
    (ts : List ℕ) (b : Breaker)
    → b.state ≡ closed
    → b.failures < b.failure_threshold
    → ((fail_at ts b).state ≡ open_) ↔ (b.failure_threshold ≤ b.failures + length_of ts)
failures_open [] b h f = ground arith
failures_open (t ∷ ts) b h f = elim (one_failure t b h) [
  | inl (enough, opens) ↦ (λ _. omega arith, λ _. stays_open ts (record_failure t b) opens)
  | inr (few, still, more, same) ↦
      let (to, from) = failures_open ts (record_failure t b) still (omega arith) in
      (λ o. let r = to o in omega arith, λ l. from (omega arith))
]

abbrev pub succeed_times : ℕ → Breaker → Breaker
succeed_times zero b = b
succeed_times (suc n) b = succeed_times n (record_success b)

one_success :
    (b : Breaker)
    → b.state ≡ half_open
    → b.half_open_successes + 1 < b.success_threshold
    → let b' = record_success b in
      (b'.state ≡ half_open)
      × (b'.half_open_successes ≡ b.half_open_successes + 1)
      × (b'.success_threshold ≡ b.success_threshold)
unfolding record_success
one_success b h l = ground arith

last_success :
    (b : Breaker)
    → b.state ≡ half_open
    → b.success_threshold ≤ b.half_open_successes + 1
    → ((record_success b).state ≡ closed) × ((record_success b).failures ≡ 0)
unfolding record_success
last_success b h l = ground arith

-- A half-open breaker that lacks n + 1 successes is half open after n of them and closed, with no
-- failure counted, after n + 1; one failure at any time opens it, dated at that time.
probes_close :
    (n now : ℕ) (b : Breaker)
    → b.state ≡ half_open
    → b.success_threshold ≡ b.half_open_successes + suc n
    → ((succeed_times n b).state ≡ half_open)
      × ((succeed_times (suc n) b).state ≡ closed)
      × ((succeed_times (suc n) b).failures ≡ 0)
      × ((record_failure now b).state ≡ open_)
      × ((record_failure now b).opened_at ≡ some now)
probes_close zero now b h e =
    let (shut, cleared) = last_success b h (omega arith) in
    (h, shut, cleared, unfold record_failure in ground arith, unfold record_failure in ground arith)
probes_close (suc n) now b h e =
    let (still, more, same) = one_success b h (omega arith) in
    let (probing, shut, cleared, _, _) =
      probes_close n now (record_success b) still (omega arith) in
    (
      probing,
      shut,
      cleared,
      unfold record_failure in ground arith,
      unfold record_failure in ground arith,
    )
