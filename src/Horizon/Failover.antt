-- ===== src/Horizon/Failover.antt =====
-- backend/src/services/horizonFailoverClient.js: the choice among Horizon's endpoints, each behind a
-- circuit breaker. The endpoints are numbers below their count; a call takes place at one time, in
-- milliseconds, and what a request of it to an endpoint comes to is given.
pub mod Scan
pub mod Distances
pub mod Served
mod Tests
use stellar_edu_pay.Common.{
  ℕ, zero, suc, ◌+◌, ◌%◌, Bool, true, false, ◌||◌, List, [], ◌∷◌, Option, none, some, leb, ◌==◌,
  if◌then◌else◌, any,
}

pub data State : Type 0 where
  closed open_ half_open : State

-- The thresholds of the environment.
pub record Config : Type 0 where
  pub failure_threshold : ℕ
  pub reset_timeout : ℕ
  pub success_threshold : ℕ

pub record Breaker : Type 0 where
  pub state : State
  pub failures : ℕ
  pub half_open_successes : ℕ
  pub opened_at : ℕ

abbrev pub new_breaker : Breaker
new_breaker = record { state = closed; failures = 0; half_open_successes = 0; opened_at = 0 }

-- `isAvailable`, by the state: an open breaker whose time is over becomes half-open.
abbrev pub available_in : Config → ℕ → Breaker → State → Bool × Breaker
available_in cfg now cb closed = (true, cb)
available_in cfg now cb half_open = (true, cb)
available_in cfg now cb open_ =
    if leb (cb.opened_at + cfg.reset_timeout) now
    then (true, record cb { state = half_open })
    else (false, cb)

unfoldable pub is_available : Config → ℕ → Breaker → Bool × Breaker
is_available cfg now cb = available_in cfg now cb cb.state

abbrev pub success_in : Config → Breaker → State → Breaker
success_in cfg cb half_open =
    if leb cfg.success_threshold (suc cb.half_open_successes)
    then record cb { failures = 0; half_open_successes = 0; state = closed }
    else record cb { half_open_successes = suc cb.half_open_successes }
success_in cfg cb _ = record cb { failures = 0 }

-- `recordSuccess`
unfoldable pub record_success : Config → Breaker → Breaker
record_success cfg cb = success_in cfg cb cb.state

abbrev pub is_half_open : State → Bool
is_half_open half_open = true
is_half_open _ = false

-- `recordFailure`
unfoldable pub record_failure : Config → ℕ → Breaker → Breaker
record_failure cfg now cb =
    let counted = record cb { failures = suc cb.failures; half_open_successes = 0 } in
    if is_half_open cb.state || leb cfg.failure_threshold (suc cb.failures)
    then record counted { opened_at = now; state = open_ }
    else counted

-- The breakers of the endpoints.
abbrev pub Breakers : Type 0
Breakers = ℕ → Breaker

abbrev pub put : ℕ → Breaker → Breakers → Breakers
put idx cb breakers = λ k. if k == idx then cb else breakers k

-- `this._servers[idx].cb.isAvailable()`
unfoldable pub ask : Config → ℕ → ℕ → Breakers → Bool × Breakers
ask cfg now idx breakers =
    let (up, cb) = is_available cfg now (breakers idx) in (up, put idx cb breakers)

-- `_nextAvailableIndex`: the loop from its step `i` on, with as many steps as are left; `base` is
-- the index behind the one that is skipped.
unfoldable pub scan : Config → ℕ → ℕ → ℕ → ℕ → ℕ → Breakers → Option ℕ × Breakers
scan cfg now count base i zero breakers = (none, breakers)
scan cfg now count base i (suc left) breakers =
    let idx = (base + i) % count in
    let (up, asked) = ask cfg now idx breakers in
    let rest = scan cfg now count base (suc i) left asked in if up then (some idx, asked) else rest

unfoldable pub next_available_index : Config → ℕ → ℕ → ℕ → Breakers → Option ℕ × Breakers
next_available_index cfg now count base breakers = scan cfg now count base 0 count breakers

-- What a request to an endpoint comes to: a value, or an error that is transient or is not.
pub data Outcome : Type 0 where
  value : ℕ → Outcome
  transient : ℕ → Outcome
  permanent : ℕ → Outcome

pub record Client : Type 0 where
  pub active_index : ℕ
  pub breakers : Breakers

pub data Result : Type 0 where
  returned : ℕ → Result
  thrown : ℕ → Result
  all_failed all_unavailable : Result

abbrev pub contains : List ℕ → ℕ → Bool
contains tried idx = any (λ k. k == idx) tried

-- After a transient failure: the error is thrown when there is no other endpoint.
abbrev pub go_on :
    ℕ → ℕ → Option ℕ × Breakers → (ℕ → Client → Result × Client) → Client → Result × Client
go_on err current (none, asked) next client = (thrown err, record client { breakers = asked })
go_on err current (some idx, asked) next client =
    if idx == current
    then (thrown err, record client { breakers = asked })
    else next idx (record client { active_index = idx; breakers = asked })

-- One turn of the loop of `call`, by the outcome of the request.
abbrev pub turn :
    Config → ℕ → ℕ → ℕ → Outcome → (ℕ → Client → Result × Client) → Client → Result × Client
turn cfg now count current (value v) next client = (
  returned v,
  record client {
    active_index = current;
    breakers = put current (record_success cfg (client.breakers current)) client.breakers;
  },
)
turn cfg now count current (transient err) next client =
    let failed = put current (record_failure cfg now (client.breakers current)) client.breakers in
    go_on err current (next_available_index cfg now count (suc current) failed) next
      (record client { breakers = failed })
turn cfg now count current (permanent err) next client = (thrown err, client)

-- The loop of `call`, with the number of endpoints that are not tried yet.
unfoldable pub call_loop :
    Config → ℕ → ℕ → (ℕ → Outcome) → ℕ → List ℕ → ℕ → Client → Result × Client
call_loop cfg now count outcome zero tried current client = (all_failed, client)
call_loop cfg now count outcome (suc left) tried current client =
    if contains tried current
    then (all_failed, client)
    else turn cfg now count current (outcome current)
        (λ idx moved. call_loop cfg now count outcome left (current ∷ tried) idx moved) client

abbrev pub call_from :
    Config → ℕ → ℕ → (ℕ → Outcome) → Option ℕ × Breakers → Client → Result × Client
call_from cfg now count outcome (none, asked) client =
    (all_unavailable, record client { breakers = asked })
call_from cfg now count outcome (some idx, asked) client =
    call_loop cfg now count outcome count [] idx
      (record client { active_index = idx; breakers = asked })

-- `call`
unfoldable pub call : Config → ℕ → ℕ → (ℕ → Outcome) → Client → Result × Client
call cfg now count outcome client =
    let (up, asked) = ask cfg now client.active_index client.breakers in
    if up
    then call_loop cfg now count outcome count [] client.active_index
        (record client { breakers = asked })
    else call_from cfg now count outcome
        (next_available_index cfg now count client.active_index asked) client
