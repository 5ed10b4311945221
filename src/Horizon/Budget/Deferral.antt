-- ===== src/Horizon/Budget/Deferral.antt =====
-- The aging counters of backend/src/services/horizonPollBudget.js.
use stellar_edu_pay.Common.{ℕ, ◌+◌, ◌≤◌, ◌≡◌, [], ◌∷◌, arith, if◌then◌else◌, ◌==◌, ltb}
use stellar_edu_pay.Common.Maps.{Map, lookup, lookup-insert, lookup-erase}
use stellar_edu_pay.Horizon.Budget.{
  Budget, record_deferred, record_polled, get_deferral_count, get_max_deferral_cycles, max_from,
  or_zero,
}

-- A deferral adds one to its own school's counter and to no other; a poll clears it alone.
deferral_counts :
    (school other : ℕ) (b : Budget)
    → (get_deferral_count other (record_deferred school b)
        ≡ (if school == other then get_deferral_count other b + 1 else get_deferral_count other b))
      × (get_deferral_count other (record_polled school b)
          ≡ (if school == other then 0 else get_deferral_count other b))
unfolding get_deferral_count record_deferred record_polled
deferral_counts school other b = ground (
  arith,
  lookup-insert school other (or_zero (lookup school b.cycles_deferred) + 1) b.cycles_deferred,
  lookup-erase school other b.cycles_deferred,
)

max_from-le : (best : ℕ) (m : Map ℕ) → best ≤ max_from best m
unfolding max_from
max_from-le best [] = omega arith
max_from-le best ((k, n) ∷ m) = ground (arith, max_from-le (if ltb best n then n else best) m)

max_from-lookup : (best school : ℕ) (m : Map ℕ) → or_zero (lookup school m) ≤ max_from best m
unfolding max_from lookup
max_from-lookup best school [] = omega arith
max_from-lookup best school ((k, n) ∷ m) = ground (
  arith,
  max_from-le (if ltb best n then n else best) m,
  max_from-lookup (if ltb best n then n else best) school m,
)

-- The reported worst staleness is at least every school's own.
get_deferral_count-le_max :
    (school : ℕ) (b : Budget) → get_deferral_count school b ≤ get_max_deferral_cycles b
unfolding get_deferral_count get_max_deferral_cycles
get_deferral_count-le_max school b = max_from-lookup 0 school b.cycles_deferred
