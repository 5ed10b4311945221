-- ===== src/Outbox.antt =====
-- backend/src/services/outboxDispatcher.js: events of the outbox and their delivery to the listeners.
-- A document is updated by single atomic writes, each on its `_id`; an event type's listeners are
-- the list of their names, and what a listener does is whether it and the write that records it
-- succeed. Times are arguments, in milliseconds.
mod Claims
mod Histories
mod Deliveries
pub mod Shared
mod Leases
mod Exclusive
mod Once
mod Ends
mod Completion
mod Timer
mod Stops
mod Overlap
mod Tests
use stellar_edu_pay.Common.{
  ℕ, zero, suc, ◌+◌, ◌*◌, ◌^◌, min, Bool, true, false, not, ◌&&◌, ◌||◌, List, [], ◌∷◌, ◌++◌, map,
  Option, none, some, ltb, leb, ◌==◌, if◌then◌else◌, any, filter, take,
}

pub data EventStatus : Type 0 where
  pending processing completed dead_letter : EventStatus

abbrev pub is_pending : EventStatus → Bool
is_pending pending = true
is_pending _ = false

abbrev pub is_processing : EventStatus → Bool
is_processing processing = true
is_processing _ = false

-- A document of the outbox, less its payload and what is kept for operators.
pub record Event : Type 0 where
  pub id : ℕ
  pub event_type : ℕ
  pub created_at : ℕ
  pub status : EventStatus
  pub next_attempt_at : ℕ
  pub locked_until : ℕ
  pub locked_by : Option ℕ
  pub delivered_to : List ℕ
  pub retry_count : ℕ

pub record Config : Type 0 where
  pub max_retries : ℕ
  pub lease_duration : ℕ
  pub base_backoff : ℕ
  pub max_backoff : ℕ

-- `nextAttemptDate`.
unfoldable pub next_attempt_date : Config → ℕ → ℕ → ℕ
next_attempt_date cfg now retry_count =
    now + min (cfg.base_backoff * 2 ^ retry_count) cfg.max_backoff

abbrev pub contains : List ℕ → ℕ → Bool
contains names n = any (λ m. m == n) names

abbrev pub unlocked : Event → Event
unlocked e = record e { locked_until = 0; locked_by = none }

-- `recoverStaleLeases`, on one document and on all.
unfoldable pub recover : ℕ → Event → Event
recover now e =
    if is_processing e.status && ltb e.locked_until now
    then unlocked (record e { status = pending })
    else e

unfoldable pub recover_stale_leases : ℕ → List Event → List Event
recover_stale_leases now docs = map (recover now) docs

-- `claimNextEvent`: whether a document may be claimed, and the document once it is.
unfoldable pub is_eligible : ℕ → Event → Bool
is_eligible now e = is_pending e.status && leb e.next_attempt_at now && ltb e.locked_until now

unfoldable pub claimed : Config → ℕ → ℕ → Event → Event
claimed cfg instance_id now e = record e {
  status = processing;
  locked_until = now + cfg.lease_duration;
  locked_by = some instance_id;
}

-- The oldest of two documents, and of the eligible ones.
abbrev pub older : Event → Option Event → Option Event
older e none = some e
older e (some f) = if leb e.created_at f.created_at then some e else some f

unfoldable pub oldest_eligible : ℕ → List Event → Option Event
oldest_eligible now [] = none
oldest_eligible now (e ∷ docs) =
    let rest = oldest_eligible now docs in if is_eligible now e then older e rest else rest

-- `updateOne({ _id }, …)`
unfoldable pub update_one : ℕ → (Event → Event) → List Event → List Event
update_one id f docs = map (λ e. if e.id == id then f e else e) docs

abbrev pub claim_found : Config → ℕ → ℕ → List Event → Option Event → Option Event × List Event
claim_found cfg instance_id now docs none = (none, docs)
claim_found cfg instance_id now docs (some e) =
    (some (claimed cfg instance_id now e), update_one e.id (claimed cfg instance_id now) docs)

unfoldable pub claim_next_event : Config → ℕ → ℕ → List Event → Option Event × List Event
claim_next_event cfg instance_id now docs =
    claim_found cfg instance_id now docs (oldest_eligible now docs)

-- A call of a listener, with its outcome.
pub record Call : Type 0 where
  pub listener : ℕ
  pub succeeded : Bool

-- `$addToSet: { deliveredTo: name }`
unfoldable pub add_to_set : ℕ → Event → Event
add_to_set n e =
    if contains e.delivered_to n then e else record e { delivered_to = e.delivered_to ++ n ∷ [] }

-- The loop over the pending listeners, on the document, with the calls that it makes.
unfoldable pub deliver : (ℕ → Bool) → List ℕ → Event → Event × List Call
deliver outcome [] e = (e, [])
deliver outcome (n ∷ names) e =
    let (after, calls) = deliver outcome names (if outcome n then add_to_set n e else e) in
    (after, record { listener = n; succeeded = outcome n } ∷ calls)

-- `pendingListeners`.
unfoldable pub pending_listeners : List ℕ → Event → List ℕ
pending_listeners listeners event = filter (λ n. not (contains event.delivered_to n)) listeners

abbrev pub dead : Event → Event
dead e = unlocked (record e { status = dead_letter })

abbrev pub done : Event → Event
done e = unlocked (record e { status = completed })

-- What follows the loop: a listener failed, or none did; the count is that of the claimed event.
unfoldable pub settle : Config → ℕ → ℕ → Bool → Event → Event
settle cfg now retry_count false e = done e
settle cfg now retry_count true e =
    if leb cfg.max_retries (suc retry_count)
    then dead (record e { retry_count = suc retry_count })
    else unlocked (record e {
      status = pending;
      next_attempt_at = next_attempt_date cfg now (suc retry_count);
      retry_count = suc retry_count;
    })

abbrev pub some_failed : List Call → Bool
some_failed calls = any (λ c. not c.succeeded) calls

-- `dispatchEvent`, with the claimed event and the document that its writes change.
abbrev pub dispatch_to : Config → ℕ → List ℕ → (ℕ → Bool) → List ℕ → ℕ → Event → Event × List Call
dispatch_to cfg now [] outcome waiting retry_count doc = (dead doc, [])
dispatch_to cfg now (l ∷ ls) outcome [] retry_count doc = (done doc, [])
dispatch_to cfg now (l ∷ ls) outcome (n ∷ names) retry_count doc =
    let (after, calls) = deliver outcome (n ∷ names) doc in
    (settle cfg now retry_count (some_failed calls) after, calls)

unfoldable pub dispatch_event : Config → ℕ → List ℕ → (ℕ → Bool) → Event → Event → Event × List Call
dispatch_event cfg now listeners outcome event doc =
    dispatch_to cfg now listeners outcome (pending_listeners listeners event) event.retry_count doc

-- The loop of `dispatchBatch`, with the number of events that it claims; the clock, the listeners of
-- an event type and the outcomes of an event's listeners are given.
unfoldable pub dispatch_claims :
    Config → ℕ → (ℕ → ℕ) → (ℕ → List ℕ) → (ℕ → ℕ → Bool) → ℕ → List Event → ℕ × List Event
dispatch_claims cfg instance_id clock listeners outcome zero docs = (0, docs)
dispatch_claims cfg instance_id clock listeners outcome (suc size) docs =
    let now = clock (suc size) in
    let (claim, held) = claim_next_event cfg instance_id now docs in
    elim claim [
      | none ↦ (0, docs)
      | some e ↦
          let dispatched =
            update_one e.id
              (λ d. (dispatch_event cfg now (listeners e.event_type) (outcome e.id) e d).0) held in
          let (n, after) =
            dispatch_claims cfg instance_id clock listeners outcome size dispatched in
          (suc n, after)
    ]

-- `dispatchBatch`.
unfoldable pub dispatch_batch :
    Config → ℕ → (ℕ → ℕ) → (ℕ → List ℕ) → (ℕ → ℕ → Bool) → ℕ → List Event → ℕ × List Event
dispatch_batch cfg instance_id clock listeners outcome size docs =
    dispatch_claims cfg instance_id clock listeners outcome size
      (recover_stale_leases (clock (suc size)) docs)
