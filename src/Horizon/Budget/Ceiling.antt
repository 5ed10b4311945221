-- ===== src/Horizon/Budget/Ceiling.antt =====
-- The budget of backend/src/services/horizonPollBudget.js is never overdrawn.
use stellar_edu_pay.Common.{ℕ, ◌+◌, ◌≤◌, min, max, ◌≡◌, List, [], ◌∷◌, arith}
use stellar_edu_pay.Horizon.Budget.{Budget, Call, new, apply, run}

-- What holds between two calls.
pub record IsSound (nominal min_budget : ℕ) (b : Budget) : Type 0 where
  pub not_overdrawn : b.remaining + b.consumed_this_cycle ≤ b.current_ceiling
  pub above_floor : min nominal min_budget ≤ b.current_ceiling
  pub below_top : b.current_ceiling ≤ max nominal min_budget
  pub nominal_kept : b.nominal_budget ≡ nominal

apply-IsSound :
    (nominal min_budget : ℕ) (c : Call) (b : Budget)
    → IsSound nominal min_budget b
    → IsSound nominal min_budget (apply min_budget c b)
unfolding apply
apply-IsSound nominal min_budget Call.begin b h = ground arith
apply-IsSound nominal min_budget _ b h = ground arith

run-IsSound :
    (nominal min_budget : ℕ) (cs : List Call) (b : Budget)
    → IsSound nominal min_budget b
    → IsSound nominal min_budget (run min_budget cs b)
unfolding run
run-IsSound nominal min_budget [] b h = h
run-IsSound nominal min_budget (c ∷ cs) b h =
    run-IsSound nominal min_budget cs (apply min_budget c b)
      (apply-IsSound nominal min_budget c b h)

-- Through any calls from a new budget, what is left and what is granted in the cycle together never
-- exceed the ceiling, and the ceiling stays between the smaller and the greater of the nominal
-- budget and the configured minimum.
pub new-IsSound :
    (nominal min_budget : ℕ) (cs : List Call)
    → IsSound nominal min_budget (run min_budget cs (new nominal))
unfolding new
new-IsSound nominal min_budget cs = run-IsSound nominal min_budget cs _ (omega arith)
