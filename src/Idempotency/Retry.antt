-- ===== src/Idempotency/Retry.antt =====
-- What happens to a key whose first request failed or was abandoned, in
-- backend/src/services/idempotencyStore.js and backend/src/middleware/idempotency.js.
use stellar_edu_pay.Common.{
  List, ◌∷◌, ℕ, true, false, ◌≡◌, refl, Option, none, some, arith, Option-cases, inl, inr,
}
use stellar_edu_pay.Idempotency.Collection.{Collection}
use stellar_edu_pay.Idempotency.Store.{
  held, Body, Reservation, release, get_full, unless_outdated, in_progress, Doc, Settings, reserved,
  is_stale, is_outdated, is_running, renewed, claim, reserve, claimed, take_over, reserved_or_held,
}
use stellar_edu_pay.Idempotency.Replay.{on_events-first}
use stellar_edu_pay.Idempotency.Acceptance.{accepted-IsReserved}
use stellar_edu_pay.Idempotency.Middleware.{
  Converter, Options, run_handler, Request, Fault, no_fault, at_lookup, at_reserve, Ending,
  finished, aborted, answer_of, claim_key, looked_up, with_key, handle, is_cached, settle,
  on_events,
}
use stellar_edu_pay.Idempotency.Records.{take_over-IsReserved}

module _ (m : Collection Doc) (c : Settings) where
  reserve-free :
      (key scope : ℕ) (fp : Option ℕ) (now : ℕ) (s : m.Docs)
      → m.find key s ≡ none
      → (reserve m c key scope fp now s).0 ≡ reserved
  unfolding reserve claimed
  reserve-free key scope fp now s free = elim (Option-cases (m.create key (claim scope fp now) s)) [
    | inl refused ↦
        let (d, taken) = m.create_refused key (claim scope fp now) s refused in
        absurd (ground arith)
    | inr (s', made) ↦ rw made refl
  ]

  take_over-running :
      (key scope : ℕ) (fp : Option ℕ) (now : ℕ) (s : m.Docs) {d : Doc}
      → m.find key s ≡ some d
      → d.state ≡ in_progress
      → (take_over m c key scope fp now s).0 ≡ reserved
  unfolding take_over reserved_or_held
  take_over-running key scope fp now s {d} found running =
      elim (Option-cases (m.update_where key is_running (renewed scope fp now) s)) [
        | inl refused ↦
            let no = m.update_refused key is_running (renewed scope fp now) s refused d found in
            absurd (ground arith)
        | inr (s', made) ↦ rw made refl
      ]

  -- Two requests that have both read the same stale reservation, which is current, both take it
  -- over, one after the other, so that both run their handlers.
  take_over_twice :
      (key scope scope' : ℕ) (fp fp' : Option ℕ) (now now' : ℕ) (s : m.Docs) (d : Doc)
      → m.find key s ≡ some d
      → is_stale c now d ≡ true
      → is_outdated c.version d.schema_version ≡ false
      → ((take_over m c key scope fp now s).0 ≡ reserved)
        × ((take_over m c key scope' fp' now' (take_over m c key scope fp now s).1).0 ≡ reserved)
  take_over_twice key scope scope' fp fp' now now' s d found stale current =
      let first = take_over-running key scope fp now s found (ground arith) in
      let (e, found', running, _, _, _) =
        take_over-IsReserved m c key scope fp now s found current first in
      (first, take_over-running key scope' fp' now' _ found' running)

module _ (m : Collection Doc) (c : Settings) (convert : Converter) (o : Options) where
  -- A response that is not kept: the client left before the flush, or the status is 404 or at
  -- least 500.
  abbrev pub IsDropped : Ending → ℕ → Type 0
  IsDropped finished status = is_cached status ≡ false
  IsDropped aborted status = Unit

  dropped-release :
      (key scope fp status : ℕ) (body : Option Body) (now : ℕ) (e : Ending) (s : m.Docs)
      → IsDropped e status
      → settle m c convert o key scope fp status body now true e s ≡ release m c key true s
  unfolding settle
  dropped-release key scope fp status body now finished s h = rw h refl
  dropped-release key scope fp status body now aborted s h = refl

  released :
      (key : ℕ) (s : m.Docs) {d : Doc}
      → m.find key s ≡ some d
      → d.state ≡ in_progress
      → m.find key (release m c key true s) ≡ none
  unfolding release
  released key s found running = ground (arith, m.find-delete key key is_running s)

  free-accepted :
      (f : Fault) (q : Request) (key : ℕ) (s : m.Docs)
      → f ≡ no_fault
      → m.find key s ≡ none
      → (with_key m c convert o (record q { fault = f }) (some key) s).0 ≡ run_handler
  unfolding with_key get_full unless_outdated looked_up claim_key answer_of
  free-accepted no_fault q key s calm free = rw free (
      answered (reserve m c key q.scope (some q.fingerprint) q.now s)
        (reserve-free m c key q.scope (some q.fingerprint) q.now s free))
    where
      answered :
          (r : Reservation × m.Docs)
          → r.0 ≡ reserved
          → (answer_of m c convert o q.fingerprint r).0 ≡ run_handler
      answered (reserved, s') h = refl
      answered (held d, s') h = ground arith
  free-accepted at_lookup q key s calm free = ground arith
  free-accepted at_reserve q key s calm free = ground arith

  handle-free :
      (q : Request) (key : ℕ) (s : m.Docs)
      → q.key ≡ some key
      → q.fault ≡ no_fault
      → m.find key s ≡ none
      → (handle m c convert o q s).0 ≡ run_handler
  unfolding handle
  handle-free q key s its calm free = rw its (free-accepted q.fault q key s calm free)

  -- After a request that was let through and whose response is not kept, once the release of its
  -- reservation has succeeded, whichever of its events follow: the next request with the key runs
  -- its handler at once, with any body. The store throws at neither request.
  pub dropped_retries :
      (q q' : Request) (key status : ℕ) (body : Option Body) (now : ℕ) (e : Ending)
      (es : List Ending) (s : m.Docs)
      → q.key ≡ some key
      → q.fault ≡ no_fault
      → (handle m c convert o q s).0 ≡ run_handler
      → IsDropped e status
      → q'.key ≡ some key
      → q'.fault ≡ no_fault
      → (handle m c convert o q' (
          on_events m c convert o key q.scope q.fingerprint status body now true false
            (e ∷ es)
            (handle m c convert o q s).1)).0
        ≡ run_handler
  dropped_retries q q' key status body now e es s its calm ran dropped its' calm' =
      let (d, found, running, _, _, _) = accepted-IsReserved m c convert o q key s its calm ran in
      handle-free q' key _ its' calm' (
        rw
          (on_events-first m c convert o key q.scope q.fingerprint status body now true e es
            (handle m c convert o q s).1)
          (rw
            (dropped-release key q.scope q.fingerprint status body now e
              (handle m c convert o q s).1 dropped)
            (released key _ found running)))
