-- ===== src/Outbox/Histories.antt =====
-- What can happen to an event of backend/src/services/outboxDispatcher.js, in any order: attempts, one
-- after another, each over before its lease is (Outbox/Shared.antt has those that overlap).
use stellar_edu_pay.Common.{ℕ, Bool, List, [], ◌∷◌, ◌++◌, if◌then◌else◌, take}
use stellar_edu_pay.Outbox.{
  Event, Config, recover, is_eligible, claimed, Call, deliver, pending_listeners, dispatch_event,
}

-- What can happen to one event: an attempt at it, an attempt whose process ends after some of the
-- calls, and a recovery; at a time, with the outcomes of the listeners.
pub data Happening : Type 0 where
  attempted : ℕ → (ℕ → Bool) → Happening
  cut_short : ℕ → ℕ → (ℕ → Bool) → Happening
  recovered : ℕ → Happening

unfoldable pub attempt : Config → ℕ → List ℕ → ℕ → (ℕ → Bool) → Event → Event × List Call
attempt cfg instance_id listeners now outcome e =
    if is_eligible now e
    then dispatch_event cfg now listeners outcome (claimed cfg instance_id now e)
        (claimed cfg instance_id now e)
    else (e, [])

unfoldable pub attempt_cut : Config → ℕ → List ℕ → ℕ → ℕ → (ℕ → Bool) → Event → Event × List Call
attempt_cut cfg instance_id listeners now calls outcome e =
    if is_eligible now e
    then deliver outcome (take calls (pending_listeners listeners e))
        (claimed cfg instance_id now e)
    else (e, [])

unfoldable pub happen : Config → ℕ → List ℕ → Happening → Event → Event × List Call
happen cfg instance_id listeners (attempted now outcome) e =
    attempt cfg instance_id listeners now outcome e
happen cfg instance_id listeners (cut_short now calls outcome) e =
    attempt_cut cfg instance_id listeners now calls outcome e
happen cfg instance_id listeners (recovered now) e = (recover now e, [])

unfoldable pub run : Config → ℕ → List ℕ → List Happening → Event → Event × List Call
run cfg instance_id listeners [] e = (e, [])
run cfg instance_id listeners (h ∷ hs) e =
    let (mid, calls) = happen cfg instance_id listeners h e in
    let (after, rest) = run cfg instance_id listeners hs mid in (after, calls ++ rest)
