-- ===== src/Horizon/Retry.antt =====
-- backend/src/utils/withStellarRetry.js: the classification of Horizon's errors and the retry loop.
-- The calls are given by the attempt at which they are made; the sleeping and the tracing spans are
-- left out, and the random part of a wait is an argument.
pub mod Attempts
mod Tests
use stellar_edu_pay.Common.{
  ℕ, zero, suc, ◌+◌, ◌-◌, ◌*◌, ◌^◌, min, Bool, true, false, not, ◌&&◌, ◌||◌, List, [], ◌∷◌, Option,
  none, some, is_some, ltb, leb, ◌==◌, if◌then◌else◌,
}

-- A code: one of `NETWORK_CODES`, one that the classification gives, or another.
pub data Code : Type 0 where
  network not_found horizon_unavailable stellar_network_error : Code
  other : ℕ → Code

-- An error: its four places for a status, its code, whether it has a message, and whether the
-- message matches `/timeout|network|socket hang up/i`. An empty code is `none`.
pub record Failure : Type 0 where
  pub response_status : Option ℕ
  pub response_status_code : Option ℕ
  pub status : Option ℕ
  pub status_code : Option ℕ
  pub code : Option Code
  pub has_message : Bool
  pub mentions_network : Bool

-- `a || b` on statuses: a missing one and 0 give the second.
abbrev or_status : Option ℕ → Option ℕ → Option ℕ
or_status none b = b
or_status (some zero) b = b
or_status (some (suc n)) b = some (suc n)

-- `getStatus(err)`.
abbrev pub get_status : Failure → Option ℕ
get_status e =
    or_status e.response_status
      (or_status e.response_status_code (or_status e.status e.status_code))

abbrev is_busy : Option ℕ → Bool
is_busy none = false
is_busy (some s) = s == 429 || (leb 500 s && ltb s 600)

abbrev is_missing : Option ℕ → Bool
is_missing none = false
is_missing (some s) = s == 404

abbrev is_network : Option Code → Bool
is_network (some network) = true
is_network _ = false

-- `isTransient(err)`; the classification repeats this test.
unfoldable pub is_transient : Failure → Bool
is_transient e = is_network e.code || e.mentions_network || is_busy (get_status e)

-- `Object.assign(new Error(message), { code, status })`.
abbrev classified : Code → ℕ → Bool → Failure
classified code status mentions = record {
  response_status = none;
  response_status_code = none;
  status = some status;
  status_code = none;
  code = some code;
  has_message = true;
  mentions_network = mentions;
}

-- `err.code && err.status`.
abbrev is_classified : Failure → Bool
is_classified e = is_some e.code && is_some (or_status e.status none)

-- `classifyHorizonError(err)`. The message for NOT_FOUND and the one for an error without a message
-- say 'network', the one for HORIZON_UNAVAILABLE matches nothing.
unfoldable pub classify_horizon_error : Failure → Failure
unfolding is_transient
classify_horizon_error e =
    if is_missing (get_status e)
    then classified not_found 404 true
    else if is_transient e
    then classified horizon_unavailable 503 false
    else if is_classified e
    then e
    else classified stellar_network_error 502 (not e.has_message)

-- What a call does, and what the loop does: it may end with neither a value nor an error.
pub data Call (A : Type 0) : Type 0 where
  returned : A → Call A
  failed : Failure → Call A

pub data Outcome (A : Type 0) : Type 0 where
  nothing : Outcome A
  value : A → Outcome A
  thrown : Failure → Outcome A

-- `MAX_DELAY`.
abbrev pub max_delay : ℕ
max_delay = 10_000

-- `Math.min(baseDelay * 2 ** (attempt - 1), MAX_DELAY)`, with the random part of the wait.
abbrev pub delay_of : ℕ → ℕ → ℕ
delay_of base attempt = min (base * 2 ^ (attempt - 1)) max_delay

abbrev pub wait_of : (ℕ → ℕ → ℕ) → ℕ → ℕ → ℕ
wait_of jitter base attempt = delay_of base attempt + jitter attempt (delay_of base attempt)

-- `opts.x || d`.
abbrev pub or_default : Option ℕ → ℕ → ℕ
or_default none d = d
or_default (some zero) d = d
or_default (some (suc n)) d = suc n

abbrev wait_then {ℓ} : {A : Type ℓ} → ℕ → A × List ℕ → A × List ℕ
wait_then w (r, ws) = (r, w ∷ ws)

module _ {A : Type 0} (jitter : ℕ → ℕ → ℕ) (base : ℕ) (fn : ℕ → Call A) where
  unfoldable pub after_call : Bool → ℕ → Call A → Outcome A × List ℕ → Outcome A × List ℕ
  unfolding classify_horizon_error
  after_call is_last attempt (returned a) rest = (value a, [])
  after_call is_last attempt (failed e) rest =
      if not (is_transient e) || is_last
      then (thrown (classify_horizon_error e), [])
      else wait_then (wait_of jitter base attempt) rest

  -- The loop from an attempt, with the attempts that are left: the outcome and the waits.
  unfoldable pub attempts : ℕ → ℕ → Outcome A × List ℕ
  unfolding after_call
  attempts zero attempt = (nothing, [])
  attempts (suc left) attempt =
      let rest = attempts left (attempt + 1) in after_call (left == 0) attempt (fn attempt) rest

-- `withStellarRetry(fn, opts)`, with `MAX_ATTEMPTS` and `BASE_DELAY` of the environment.
unfoldable pub with_stellar_retry :
    {A : Type 0}
    → (jitter : ℕ → ℕ → ℕ) → (env_attempts env_delay : ℕ) → (max_attempts base_delay : Option ℕ)
    → (fn : ℕ → Call A) → Outcome A × List ℕ
unfolding attempts
with_stellar_retry jitter env_attempts env_delay max_attempts base_delay fn =
    attempts jitter (or_default base_delay env_delay) fn (or_default max_attempts env_attempts) 1
