-- ===== src/Horizon/Retry/Tests.antt =====
-- Runs of the retry loop, and its theorems at concrete calls.
use stellar_edu_pay.Common.{◌==◌, if◌then◌else◌, ℕ, ◌≡◌, refl, [], ◌∷◌, none, some, true, false}
use stellar_edu_pay.Horizon.Retry.{
  is_transient, Failure, Call, returned, failed, network, with_stellar_retry, value,
}
use stellar_edu_pay.Horizon.Retry.Attempts.{Ends, with_stellar_retry-Ends}

-- A refused connection, and an error with no status, code or network word in its message.
abbrev refused : Failure
refused = record {
  response_status = none;
  response_status_code = none;
  status = none;
  status_code = none;
  code = some network;
  has_message = true;
  mentions_network = false;
}

abbrev strange : Failure
strange = record refused { code = none }

-- Two refused connections, then a value.
abbrev third_time : ℕ → Call ℕ
third_time attempt = if attempt == 3 then returned 42 else failed refused

abbrev no_jitter : ℕ → ℕ → ℕ
no_jitter attempt delay = 0

retried : with_stellar_retry no_jitter 3 1_000 none none third_time ≡ (value 42, 1_000 ∷ 2_000 ∷ [])
unfolding with_stellar_retry is_transient
retried = refl

with_stellar_retry-Ends_example :
    Ends no_jitter 1_000 third_time 2 1 (with_stellar_retry no_jitter 3 1_000 none none third_time)
with_stellar_retry-Ends_example =
    with_stellar_retry-Ends no_jitter 3 1_000 none none third_time 2 refl
