-- ===== src/Idempotency/Store.antt =====
-- backend/src/services/idempotencyStore.js with REDIS_HOST unset. Canonical keys, fingerprints,
-- scopes and versions are numbers that are only compared; a canonical key is never empty. Each call
-- runs without another between its database operations; `take_over`, which two callers may reach
-- from the same read, is an operation of its own.
use stellar_edu_pay.Common.{
  ℕ, ◌+◌, Bool, true, false, not, ◌&&◌, Option, none, some, leb, ◌==◌, if◌then◌else◌,
}
use stellar_edu_pay.Idempotency.Collection.{Collection}

pub data State : Type 0 where
  in_progress completed : State

abbrev pub is_in_progress : State → Bool
is_in_progress in_progress = true
is_in_progress completed = false

-- The `localCurrency` of a response.
pub record Local : Type 0 where
  pub amount : Option ℕ
  pub currency : Option ℕ
  pub rate : Option ℕ
  pub rate_timestamp : Option ℕ
  pub available : Bool

-- A response body that is an object: the fields that the middleware reads, and the others.
pub record Body : Type 0 where
  pub amount : Option ℕ
  pub asset_code : Option ℕ
  pub local_currency : Option Local
  pub others : ℕ

-- A document of `idempotencyKeySchema`, without its key.
pub record Doc : Type 0 where
  pub scope : ℕ
  pub state : State
  pub request_fingerprint : Option ℕ
  pub response_status : Option ℕ
  pub response_body : Option Body
  pub schema_version : Option ℕ
  pub created_at : ℕ

-- What the environment fixes: `APP_SCHEMA_VERSION`, `IN_FLIGHT_TTL_MS` and the time after which the
-- TTL index on `createdAt` lets a record be deleted.
pub record Settings : Type 0 where
  pub version : ℕ
  pub in_flight_ttl_ms : ℕ
  pub record_ttl_ms : ℕ

-- `record.schemaVersion && record.schemaVersion !== APP_SCHEMA_VERSION`.
abbrev pub is_outdated : ℕ → Option ℕ → Bool
is_outdated version none = false
is_outdated version (some v) = not (v == version)

-- `{ reserved: true }`, or `{ reserved: false, record }`.
pub data Reservation : Type 0 where
  reserved : Reservation
  held : Option Doc → Reservation

abbrev pub claim : ℕ → Option ℕ → ℕ → Doc
claim scope fingerprint now = record {
  scope = scope;
  state = in_progress;
  request_fingerprint = fingerprint;
  response_status = none;
  response_body = none;
  schema_version = none;
  created_at = now;
}

-- The filter and the update of a takeover.
abbrev pub is_running : Doc → Bool
is_running d = is_in_progress d.state

abbrev pub renewed : ℕ → Option ℕ → ℕ → Doc → Doc
renewed scope fingerprint now d = record d {
  scope = scope;
  request_fingerprint = fingerprint;
  created_at = now;
}

-- An abandoned reservation: `age >= IN_FLIGHT_TTL_MS` while in progress.
abbrev pub is_stale : Settings → ℕ → Doc → Bool
is_stale c now d = is_in_progress d.state && leb (d.created_at + c.in_flight_ttl_ms) now

abbrev pub created_or : ℕ → Option Doc → ℕ
created_or now none = now
created_or now (some d) = d.created_at

-- `$set` and `$setOnInsert` of `complete`; an existing document keeps its time.
abbrev pub completion : Settings → ℕ → ℕ → Option Body → Option ℕ → ℕ → Option Doc → Doc
completion c scope status body fingerprint now old = record {
  scope = scope;
  state = completed;
  request_fingerprint = fingerprint;
  response_status = some status;
  response_body = body;
  schema_version = some c.version;
  created_at = created_or now old;
}

module _ (m : Collection Doc) (c : Settings) where
  unfoldable pub unless_outdated : ℕ → Option Doc → m.Docs → Option Doc × m.Docs
  unless_outdated key none s = (none, s)
  unless_outdated key (some d) s =
      if is_outdated c.version d.schema_version
      then (none, m.delete_where key (λ x. true) s)
      else (some d, s)

  -- `getFull(key)`; a document of another version is deleted.
  unfoldable pub get_full : ℕ → m.Docs → Option Doc × m.Docs
  unfolding unless_outdated
  get_full key s = unless_outdated key (m.find key s) s

  abbrev pub response_of : Option Doc → Option (Option ℕ × Option Body)
  response_of none = none
  response_of (some d) = some (d.response_status, d.response_body)

  -- `get(key)`, which gives only the response.
  unfoldable pub get : ℕ → m.Docs → Option (Option ℕ × Option Body) × m.Docs
  unfolding get_full
  get key s = let (d, s') = get_full key s in (response_of d, s')

  abbrev pub or_same : Option m.Docs → m.Docs → m.Docs
  or_same none s = s
  or_same (some s') s = s'

  -- `set(key, record)`; a duplicate key is taken as success.
  unfoldable pub set : ℕ → ℕ → ℕ → Option Body → ℕ → m.Docs → m.Docs
  set key scope status body now s =
      or_same
        (m.create key
          (record {
            scope = scope;
            state = completed;
            request_fingerprint = none;
            response_status = some status;
            response_body = body;
            schema_version = some c.version;
            created_at = now;
          })
          s)
        s

  unfoldable pub held_now : ℕ → m.Docs → Reservation × m.Docs
  unfolding get_full
  held_now key s = let (d, s') = get_full key s in (held d, s')

  unfoldable pub reserved_or_held : ℕ → Option m.Docs → m.Docs → Reservation × m.Docs
  unfolding held_now
  reserved_or_held key (some s') s = (reserved, s')
  reserved_or_held key none s = held_now key s

  -- The update of a stale reservation, which asks only that it is still in progress.
  unfoldable pub take_over : ℕ → ℕ → Option ℕ → ℕ → m.Docs → Reservation × m.Docs
  unfolding reserved_or_held
  take_over key scope fingerprint now s =
      reserved_or_held key (m.update_where key is_running (renewed scope fingerprint now) s) s

  unfoldable pub inspect : ℕ → ℕ → Option ℕ → ℕ → Option Doc × m.Docs → Reservation × m.Docs
  unfolding reserved_or_held take_over
  inspect key scope fingerprint now (none, s) =
      reserved_or_held key (m.create key (claim scope fingerprint now) s) s
  inspect key scope fingerprint now (some d, s) =
      let taken = take_over key scope fingerprint now s in
      if is_stale c now d then taken else (held (some d), s)

  unfoldable pub claimed : ℕ → ℕ → Option ℕ → ℕ → Option m.Docs → m.Docs → Reservation × m.Docs
  unfolding inspect get_full
  claimed key scope fingerprint now (some s') s = (reserved, s')
  claimed key scope fingerprint now none s = inspect key scope fingerprint now (get_full key s)

  -- `reserve(key, { scope, fingerprint })`.
  unfoldable pub reserve : ℕ → ℕ → Option ℕ → ℕ → m.Docs → Reservation × m.Docs
  unfolding claimed
  reserve key scope fingerprint now s =
      claimed key scope fingerprint now (m.create key (claim scope fingerprint now) s) s

  -- `complete(key, record)`.
  unfoldable pub complete : ℕ → ℕ → ℕ → Option Body → Option ℕ → ℕ → m.Docs → m.Docs
  complete key scope status body fingerprint now s =
      m.upsert key (completion c scope status body fingerprint now) s

  -- `release(key)`, with whether its delete succeeds; an error of it is swallowed.
  unfoldable pub release : ℕ → Bool → m.Docs → m.Docs
  release key succeeds s = if succeeds then m.delete_where key is_running s else s

  -- MongoDB's monitor of the TTL index, at a time, on the record of a key.
  unfoldable pub expire : ℕ → ℕ → m.Docs → m.Docs
  expire key now s = m.delete_where key (λ d. leb (d.created_at + c.record_ttl_ms) now) s
