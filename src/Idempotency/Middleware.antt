-- ===== src/Idempotency/Middleware.antt =====
-- backend/src/middleware/idempotency.js: what a request with a key is answered, and what is stored
-- when its response ends. The currency service, which the replay asks for a fresh rate, is a
-- parameter that may throw.
use stellar_edu_pay.Common.{
  ℕ, Bool, true, false, not, ◌&&◌, ◌||◌, List, [], ◌∷◌, Option, none, some, ltb, ◌==◌,
  if◌then◌else◌,
}
use stellar_edu_pay.Idempotency.Collection.{Collection}
use stellar_edu_pay.Idempotency.Store.{
  in_progress, completed, Local, Body, Doc, Settings, Reservation, reserved, held, is_stale,
  get_full, reserve, complete, release,
}

-- `convertToLocalCurrency(amount, asset, currency)`, `none` for an exception.
abbrev pub Converter : Type 0
Converter = ℕ → ℕ → ℕ → Option Local

-- `fresh.available ? fresh.localAmount : null`.
abbrev shown : Local → Local
shown l = if l.available then l else record l { amount = none }

abbrev or_asset : Option ℕ → ℕ
or_asset none = 0
or_asset (some a) = a

abbrev with_fresh : Body → Option Local → Body
with_fresh b none = b
with_fresh b (some l) = record b { local_currency = some (shown l) }

abbrev refreshed : Converter → Body → Option Local → Option ℕ → Body
refreshed convert b none amount = b
refreshed convert b (some l) none = b
refreshed convert b (some l) (some amount) = elim l.currency [
  | none ↦ b
  | some currency ↦ with_fresh b (convert amount (or_asset b.asset_code) currency)
]

-- `refreshVolatileFields(body)`; the asset 0 stands for 'XLM'.
unfoldable pub refresh_volatile_fields : Converter → Option Body → Option Body
refresh_volatile_fields convert none = none
refresh_volatile_fields convert (some b) = some (refreshed convert b b.local_currency b.amount)

-- What the client is answered: an error, the stored status and body, or what the handler does;
-- `silence` is a request that is neither answered nor passed on.
pub data Answer : Type 0 where
  missing_idempotency_key idempotency_key_reuse idempotency_key_in_progress : Answer
  service_unavailable silence run_handler : Answer
  replay : Option ℕ → Option Body → Answer

-- `record.requestFingerprint && record.requestFingerprint !== fingerprint`.
abbrev pub is_reused : Option ℕ → ℕ → Bool
is_reused none fp = false
is_reused (some f) fp = not (f == fp)

-- `resolveExisting(record)`.
unfoldable pub resolve_existing : Converter → ℕ → Option Doc → Answer
resolve_existing convert fp none = silence
resolve_existing convert fp (some d) = elim d.state [
  | completed ↦
      if is_reused d.request_fingerprint fp
      then idempotency_key_reuse
      else replay d.response_status (refresh_volatile_fields convert d.response_body)
  | in_progress ↦ idempotency_key_in_progress
]

-- The two options that make the middleware refuse when the store fails.
pub record Options : Type 0 where
  pub fail_closed : Bool
  pub critical_payment_endpoints : Bool

-- The `catch` of the chain.
unfoldable pub on_store_error : Options → Answer
on_store_error o =
    if o.fail_closed || o.critical_payment_endpoints then service_unavailable else run_handler

-- Where the store throws.
pub data Fault : Type 0 where
  no_fault at_lookup at_reserve : Fault

-- A request: its key, if the header has one, the scope and the fingerprint of its body.
pub record Request : Type 0 where
  pub key : Option ℕ
  pub scope : ℕ
  pub fingerprint : ℕ
  pub now : ℕ
  pub fault : Fault

-- How the response ends: flushed, or closed by the client before that.
pub data Ending : Type 0 where
  finished aborted : Ending

-- `res.statusCode < 500 && res.statusCode !== 404`.
abbrev pub is_cached : ℕ → Bool
is_cached status = ltb status 500 && not (status == 404)

module _ (m : Collection Doc) (c : Settings) (convert : Converter) (o : Options) where
  unfoldable pub answer_of : ℕ → Reservation × m.Docs → Answer × m.Docs
  unfolding resolve_existing
  answer_of fp (reserved, s) = (run_handler, s)
  answer_of fp (held d, s) = (resolve_existing convert fp d, s)

  unfoldable pub claim_key : Request → ℕ → m.Docs → Answer × m.Docs
  unfolding answer_of
  claim_key q key s = elim q.fault [
    | no_fault ↦ answer_of q.fingerprint (reserve m c key q.scope (some q.fingerprint) q.now s)
    | at_lookup ↦ (on_store_error o, s)
    | at_reserve ↦ (on_store_error o, s)
  ]

  -- The fast path for a record that is not stale, and the claim otherwise.
  unfoldable pub looked_up : Request → ℕ → Option Doc × m.Docs → Answer × m.Docs
  unfolding claim_key
  looked_up q key (none, s) = claim_key q key s
  looked_up q key (some d, s) =
      if is_stale c q.now d
      then claim_key q key s
      else (resolve_existing convert q.fingerprint (some d), s)

  unfoldable pub with_key : Request → Option ℕ → m.Docs → Answer × m.Docs
  unfolding looked_up
  with_key q none s = (missing_idempotency_key, s)
  with_key q (some key) s = elim q.fault [
    | no_fault ↦ looked_up q key (get_full m c key s)
    | at_lookup ↦ (on_store_error o, s)
    | at_reserve ↦ looked_up q key (get_full m c key s)
  ]

  -- `idempotencyMiddleware(req, res, next)`.
  unfoldable pub handle : Request → m.Docs → Answer × m.Docs
  unfolding with_key
  handle q s = with_key q q.key s

  -- `completeReservation` and `releaseReservation`, at most one of which acts, when their write is
  -- done; the flag is whether it succeeds, and an error of it is only logged.
  unfoldable pub settle : ℕ → ℕ → ℕ → ℕ → Option Body → ℕ → Bool → Ending → m.Docs → m.Docs
  settle key scope fp status body now succeeds finished s =
      if is_cached status
      then (if succeeds then complete m c key scope status body (some fp) now s else s)
      else release m c key succeeds s
  settle key scope fp status body now succeeds aborted s = release m c key succeeds s

  -- The events `finish` and `close` of one response: `settled` lets only the first one act.
  unfoldable pub on_events :
      ℕ → ℕ → ℕ → ℕ → Option Body → ℕ → Bool → Bool → List Ending → m.Docs → m.Docs
  unfolding settle
  on_events key scope fp status body now succeeds settled [] s = s
  on_events key scope fp status body now succeeds true (e ∷ es) s =
      on_events key scope fp status body now succeeds true es s
  on_events key scope fp status body now succeeds false (e ∷ es) s =
      on_events key scope fp status body now succeeds true es
        (settle key scope fp status body now succeeds e s)
