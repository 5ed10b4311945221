-- ===== src/Requests/Dedup/Tests.antt =====
-- Runs of the deduplicator, and its theorem at concrete calls.
use stellar_edu_pay.Common.{suc, ◌≤◌, ◌≡◌, refl, List, [], ◌∷◌, some}
use stellar_edu_pay.Common.Maps.{insert, erase, lookup}
use stellar_edu_pay.Requests.Dedup.{
  answered_with, try_start, complete, time_out, deduplicate, Call, arrived, completed, timed_out,
  apply,
}
use stellar_edu_pay.Requests.Dedup.Originals.{originals, ends, originals_bounded}

-- Request 1 ends, request 2 of the same key begins, and the timer of request 1 fires: request 3 is
-- passed on while request 2 is pending.
abbrev calls : List Call
calls =
    arrived (some 7) 1
    ∷ arrived (some 7) 9
    ∷ completed 7
    ∷ arrived (some 7) 2
    ∷ timed_out 7
    ∷ arrived (some 7) 3
    ∷ []

three_passed : originals 7 calls [] ≡ 3
unfolding apply deduplicate try_start complete time_out lookup insert erase
three_passed = refl

-- A duplicate is answered while the original is pending.
answered_early : (deduplicate (some 7) 9 (insert 7 1 [])).0 ≡ answered_with 1
unfolding deduplicate try_start lookup insert
answered_early = refl

originals_bounded_example : originals 7 calls [] ≤ suc (ends 7 calls)
originals_bounded_example = originals_bounded 7 calls []
