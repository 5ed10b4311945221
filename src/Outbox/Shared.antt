-- ===== src/Outbox/Shared.antt =====
-- Dispatchers that share one event of backend/src/services/outboxDispatcher.js: the claims, listener
-- calls and ends of their dispatches in any interleaving. A dispatch keeps the event as it was
-- claimed, as `dispatchEvent` does, while its writes go to the document; a dispatch that goes on
-- after its lease was recovered is among them.
use stellar_edu_pay.Common.{
  ℕ, ◌≤◌, Bool, false, not, ◌||◌, List, [], ◌∷◌, ◌++◌, Option, none, some, ◌==◌, if◌then◌else◌,
}
use stellar_edu_pay.Outbox.{
  Event, Config, recover, is_eligible, claimed, Call, add_to_set, pending_listeners, settle, dead,
}

-- A dispatch: the claimed event, the listeners still to be called, and whether one has failed.
pub record Dispatch : Type 0 where
  pub event : Event
  pub waiting : List ℕ
  pub failed : Bool

pub record Shared : Type 0 where
  pub doc : Event
  pub dispatches : ℕ → Option Dispatch

abbrev pub untaken : Event → Shared
untaken doc = record { doc = doc; dispatches = λ i. none }

abbrev pub with_dispatch : ℕ → Option Dispatch → Event → Shared → Shared
with_dispatch i d doc s = record {
  doc = doc;
  dispatches = λ j. if j == i then d else s.dispatches j;
}

-- What a dispatcher does, by its number, and a recovery.
pub data Step : Type 0 where
  claims ends crashes : ℕ → Step
  calls : ℕ → Bool → Step
  recovers : Step

module _ (cfg : Config) (listeners : List ℕ) where
  -- `claimNextEvent`, and the head of `dispatchEvent`.
  abbrev pub begun : ℕ → ℕ → Event → Dispatch
  begun i now e =
      let c = claimed cfg i now e in
      record { event = c; waiting = pending_listeners listeners c; failed = false }

  abbrev pub claim_if : ℕ → ℕ → Option Dispatch → Shared → Shared
  claim_if i now (some d) s = s
  claim_if i now none s =
      if is_eligible now s.doc
      then with_dispatch i (some (begun i now s.doc)) (claimed cfg i now s.doc) s
      else s

  -- A turn of the loop over the pending listeners.
  abbrev pub call_next : ℕ → Bool → Dispatch → List ℕ → Shared → List Call × Shared
  call_next i succeeds d [] s = ([], s)
  call_next i succeeds d (n ∷ names) s = (
    record { listener = n; succeeded = succeeds } ∷ [],
    with_dispatch i (some (record d { waiting = names; failed = d.failed || not succeeds }))
        (if succeeds then add_to_set n s.doc else s.doc) s,
  )

  abbrev pub call_if : ℕ → Bool → Option Dispatch → Shared → List Call × Shared
  call_if i succeeds none s = ([], s)
  call_if i succeeds (some d) s = call_next i succeeds d d.waiting s

  -- What follows the loop, or is done in its place.
  abbrev pub closed : List ℕ → ℕ → Dispatch → Event → Event
  closed [] now d doc = dead doc
  closed (l ∷ ls) now d doc = settle cfg now d.event.retry_count d.failed doc

  abbrev pub end_next : ℕ → ℕ → Dispatch → List ℕ → Shared → Shared
  end_next i now d [] s = with_dispatch i none (closed listeners now d s.doc) s
  end_next i now d (n ∷ names) s = s

  abbrev pub end_if : ℕ → ℕ → Option Dispatch → Shared → Shared
  end_if i now none s = s
  end_if i now (some d) s = end_next i now d d.waiting s

  unfoldable pub step : ℕ → Step → Shared → List Call × Shared
  step now (claims i) s = ([], claim_if i now (s.dispatches i) s)
  step now (calls i succeeds) s = call_if i succeeds (s.dispatches i) s
  step now (ends i) s = ([], end_if i now (s.dispatches i) s)
  step now (crashes i) s = ([], with_dispatch i none s.doc s)
  step now recovers s = ([], record s { doc = recover now s.doc })

  unfoldable pub run_shared : List (ℕ × Step) → Shared → List Call × Shared
  run_shared [] s = ([], s)
  run_shared ((now, x) ∷ steps) s =
      let (made, mid) = step now x s in
      let (rest, after) = run_shared steps mid in (made ++ rest, after)

abbrev pub Within : ℕ → Option Dispatch → Type 0
Within now none = Unit
Within now (some d) = now ≤ d.event.locked_until

-- A step of a dispatch comes no later than the end of its lease.
abbrev pub IsLeased : ℕ → Step → Shared → Type 0
IsLeased now (calls i succeeds) s = Within now (s.dispatches i)
IsLeased now (ends i) s = Within now (s.dispatches i)
IsLeased now _ s = Unit

-- Time does not go back, and no dispatch outlives its lease.
abbrev pub AllLeased : Config → List ℕ → ℕ → List (ℕ × Step) → Shared → Type 0
AllLeased cfg listeners before [] s = Unit
AllLeased cfg listeners before ((now, x) ∷ steps) s =
    (before ≤ now)
    × IsLeased now x s
    × AllLeased cfg listeners now steps (step cfg listeners now x s).1
