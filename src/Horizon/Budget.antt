-- ===== src/Horizon/Budget.antt =====
-- `class HorizonPollBudget` of backend/src/services/horizonPollBudget.js. Schools are numbers that
-- are only compared; `MIN_BUDGET_PER_CYCLE`, which the environment sets, is an argument.
pub mod Ceiling
pub mod Deferral
use stellar_edu_pay.Common.{
  ℕ, ◌+◌, ◌-◌, ◌/◌, min, max, Bool, true, false, not, List, [], ◌∷◌, Option, none, some, ltb, leb,
  ◌==◌, if◌then◌else◌,
}
use stellar_edu_pay.Common.Maps.{Map, lookup, insert, erase}

pub record Budget : Type 0 where
  pub nominal_budget : ℕ
  pub current_ceiling : ℕ
  pub remaining : ℕ
  pub consumed_this_cycle : ℕ
  pub denied_this_cycle : ℕ
  pub rate_limit_events_this_cycle : ℕ
  pub cycles_deferred : Map ℕ
  pub cycles : ℕ

-- The constructor, from the nominal budget that it is given or computes.
unfoldable pub new : ℕ → Budget
new nominal = record {
  nominal_budget = nominal;
  current_ceiling = nominal;
  remaining = nominal;
  consumed_this_cycle = 0;
  denied_this_cycle = 0;
  rate_limit_events_this_cycle = 0;
  cycles_deferred = [];
  cycles = 0;
}

-- The first part of `startCycle`: half the ceiling after a 429, two more tokens after a clean
-- cycle; `AIMD_DECREASE_FACTOR` is 0.5 and `AIMD_INCREASE_TOKENS` is 2.
next_ceiling : ℕ → Budget → ℕ
next_ceiling min_budget b =
    if ltb 0 b.cycles
    then (if ltb 0 b.rate_limit_events_this_cycle
        then max min_budget (b.current_ceiling / 2)
        else if ltb b.current_ceiling b.nominal_budget
        then min b.nominal_budget (b.current_ceiling + 2)
        else b.current_ceiling)
    else b.current_ceiling

-- `startCycle`; its result is the new `remaining`.
unfoldable pub start_cycle : ℕ → Budget → Budget
unfolding next_ceiling
start_cycle min_budget b =
    let ceiling : ℕ = next_ceiling min_budget b in
    record b {
      current_ceiling = ceiling;
      remaining = ceiling;
      consumed_this_cycle = 0;
      denied_this_cycle = 0;
      rate_limit_events_this_cycle = 0;
      cycles = b.cycles + 1;
    }

-- `tryConsume(n)`.
unfoldable pub try_consume : ℕ → Budget → Budget × Bool
try_consume n b =
    if ltb b.remaining n
    then (record b { denied_this_cycle = b.denied_this_cycle + n }, false)
    else (
      record b { remaining = b.remaining - n; consumed_this_cycle = b.consumed_this_cycle + n },
      true,
    )

-- `refund(n)`; `-` stops at 0, as `Math.max(0, …)` does.
unfoldable pub refund : ℕ → Budget → Budget
refund n b = record b {
  remaining = min b.current_ceiling (b.remaining + n);
  consumed_this_cycle = b.consumed_this_cycle - n;
}

-- `recordRateLimited()`.
unfoldable pub record_rate_limited : Budget → Budget
record_rate_limited b = record b {
  rate_limit_events_this_cycle = b.rate_limit_events_this_cycle + 1;
}

abbrev or_zero : Option ℕ → ℕ
or_zero none = 0
or_zero (some n) = n

-- `getDeferralCount(schoolId)`.
unfoldable pub get_deferral_count : ℕ → Budget → ℕ
get_deferral_count school b = or_zero (lookup school b.cycles_deferred)

-- `recordDeferred(schoolId)`.
unfoldable pub record_deferred : ℕ → Budget → Budget
unfolding get_deferral_count
record_deferred school b = record b {
  cycles_deferred = insert school (get_deferral_count school b + 1) b.cycles_deferred;
}

-- `recordPolled(schoolId)`.
unfoldable pub record_polled : ℕ → Budget → Budget
record_polled school b = record b { cycles_deferred = erase school b.cycles_deferred }

-- The loop of `getMaxDeferralCycles()`.
max_from : ℕ → Map ℕ → ℕ
max_from best [] = best
max_from best ((_, count) ∷ rest) = max_from (if ltb best count then count else best) rest

unfoldable pub get_max_deferral_cycles : Budget → ℕ
unfolding max_from
get_max_deferral_cycles b = max_from 0 b.cycles_deferred

-- The calls that change a budget.
pub data Call : Type 0 where
  begin rate_limited : Call
  consume give_back deferred polled : ℕ → Call

unfoldable pub apply : ℕ → Call → Budget → Budget
unfolding start_cycle try_consume refund record_rate_limited record_deferred record_polled
apply min_budget begin b = start_cycle min_budget b
apply min_budget rate_limited b = record_rate_limited b
apply min_budget (consume n) b = (try_consume n b).0
apply min_budget (give_back n) b = refund n b
apply min_budget (deferred school) b = record_deferred school b
apply min_budget (polled school) b = record_polled school b

unfoldable pub run : ℕ → List Call → Budget → Budget
run min_budget [] b = b
run min_budget (c ∷ cs) b = run min_budget cs (apply min_budget c b)
