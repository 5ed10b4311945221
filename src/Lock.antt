-- ===== src/Lock.antt =====
-- backend/src/services/distributedLock.js, in-process fallback: the lock with fencing tokens that
-- guards a school's sync, a student's balance and a payment's refunds. Keys and tokens are numbers
-- that are only compared; `none` is a missing token. The fencing counters, which the code keeps in
-- the same `Map` under prefixed keys, are a map of their own.
pub mod Exclusion
pub mod Fencing
pub mod Sections
mod Tests
use stellar_edu_pay.Common.{
  ℕ, ◌+◌, Bool, true, false, ◌&&◌, List, [], ◌∷◌, Option, none, some, ltb, ◌==◌, if◌then◌else◌,
}
use stellar_edu_pay.Common.Maps.{Map, lookup, insert, erase}

-- An entry of `localLocks`.
pub record Entry : Type 0 where
  pub token : ℕ
  pub fencing_token : ℕ
  pub expires_at : ℕ

pub record Locks : Type 0 where
  pub entries : Map Entry
  pub fences : Map ℕ

abbrev pub empty : Locks
empty = record { entries = []; fences = [] }

-- `existing && existing.expiresAt > now`.
abbrev is_held : ℕ → Option Entry → Bool
is_held now none = false
is_held now (some e) = ltb now e.expires_at

-- One more than the counter, or 1.
abbrev next_fence : Option ℕ → ℕ
next_fence none = 1
next_fence (some n) = n + 1

-- `acquire(key, ttlMs)`, with the new token that it draws and the time: the fencing token or `null`.
unfoldable pub acquire : ℕ → ℕ → ℕ → ℕ → Locks → Option ℕ × Locks
acquire key ttl token now s =
    let fence : ℕ = next_fence (lookup key s.fences) in
    if is_held now (lookup key s.entries) then (none, s) else (
      some fence,
      record {
        entries =
            insert key (record { token = token; fencing_token = fence; expires_at = now + ttl })
              s.entries;
        fences = insert key fence s.fences;
      },
    )

-- `existing && existing.token === token`.
abbrev is_owner : ℕ → Option Entry → Bool
is_owner token none = false
is_owner token (some e) = e.token == token

-- `release(key, token)`.
unfoldable pub release : ℕ → Option ℕ → Locks → Bool × Locks
release key none s = (false, s)
release key (some token) s =
    if is_owner token (lookup key s.entries)
    then (true, record s { entries = erase key s.entries })
    else (false, s)

abbrev extended : ℕ → Option Entry → Map Entry → ℕ → Map Entry
extended key none m until = m
extended key (some e) m until = insert key (record e { expires_at = until }) m

-- `renew(key, token, ttlMs)` at a time, which the watchdog calls too.
unfoldable pub renew : ℕ → Option ℕ → ℕ → ℕ → Locks → Bool × Locks
renew key none ttl now s = (false, s)
renew key (some token) ttl now s =
    let existing : Option Entry = lookup key s.entries in
    if is_owner token existing && is_held now existing
    then (true, record s { entries = extended key existing s.entries (now + ttl) })
    else (false, s)

-- `getCurrentFence(key)`.
abbrev fence_of : Option Entry → Option ℕ
fence_of none = none
fence_of (some e) = some e.fencing_token

unfoldable pub get_current_fence : ℕ → Locks → Option ℕ
get_current_fence key s = fence_of (lookup key s.entries)

-- What `withLock` gives: the value for a contended lock, or what `fn` returned or threw.
pub data Outcome (A : Type 0) : Type 0 where
  contended thrown : Outcome A
  result : A → ℕ → Outcome A

-- What `fn` did, `none` for an exception; other callers act on the locks while it runs.
abbrev pub Body : Type 0 → Type 0
Body A = ℕ → ℕ → Locks → Option A × Locks

abbrev settled : {A : Type 0} → Option A → ℕ → Outcome A
settled none fence = thrown
settled (some a) fence = result a fence

pub enter : {A : Type 0} → ℕ → ℕ → Body A → Option ℕ → Locks → Outcome A × Locks
enter key token fn none s = (contended, s)
enter key token fn (some fence) s =
    let (a, s') = fn token fence s in (settled a fence, (release key (some token) s').1)

-- `withLock(key, ttlMs, fn)`: the `finally` block releases the lock also when `fn` throws.
unfoldable pub with_lock : {A : Type 0} → ℕ → ℕ → ℕ → ℕ → Body A → Locks → Outcome A × Locks
unfolding enter
with_lock key ttl token now fn s =
    let (got, s') = acquire key ttl token now s in enter key token fn got s'

-- The calls that change the locks, with the time at which each is made.
pub data Call : Type 0 where
  take_ : ℕ → ℕ → ℕ → ℕ → Call
  free : ℕ → Option ℕ → Call
  extend : ℕ → Option ℕ → ℕ → ℕ → Call

unfoldable pub apply : Call → Locks → Locks
unfolding acquire release renew
apply (take_ key ttl token now) s = (acquire key ttl token now s).1
apply (free key token) s = (release key token s).1
apply (extend key token ttl now) s = (renew key token ttl now s).1
