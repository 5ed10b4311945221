-- ===== src/Requests/Dedup.antt =====
-- `class RequestDeduplicator` and the middleware `deduplicate` of
-- backend/src/middleware/concurrentRequestHandler.js. Keys and requests are numbers that are only
-- compared; a timer that fires is a call.
pub mod Originals
mod Tests
use stellar_edu_pay.Common.{ℕ, Bool, true, false, List, [], ◌∷◌, Option, none, some}
use stellar_edu_pay.Common.Maps.{Map, insert, erase, lookup}

-- `pendingRequests`: the request whose promise an entry holds.
abbrev pub Pending : Type 0
Pending = Map ℕ

abbrev pub start_found : Option ℕ → ℕ → ℕ → Pending → Option ℕ × Pending
start_found (some original) key request pending = (some original, pending)
start_found none key request pending = (none, insert key request pending)

-- `tryStart`: the entry that makes the request a duplicate, if there is one.
unfoldable pub try_start : ℕ → ℕ → Pending → Option ℕ × Pending
try_start key request pending = start_found (lookup key pending) key request pending

-- `complete`: the request whose promise is settled.
unfoldable pub complete : ℕ → Pending → Option ℕ × Pending
complete key pending = (lookup key pending, erase key pending)

-- The timer of `tryStart`.
unfoldable pub time_out : ℕ → Pending → Pending
time_out key pending = erase key pending

-- What the middleware does with a request: it passes it on, or answers it with what it awaits, which
-- is the entry itself, no promise, and therefore there at once.
pub data Reply : Type 0 where
  passed_on : Reply
  answered_with : ℕ → Reply

abbrev pub reply : Option ℕ → Reply
reply none = passed_on
reply (some original) = answered_with original

-- `deduplicate`; a request may have no key.
unfoldable pub deduplicate : Option ℕ → ℕ → Pending → Reply × Pending
deduplicate none request pending = (passed_on, pending)
deduplicate (some key) request pending =
    let (found, after) = try_start key request pending in (reply found, after)

pub data Call : Type 0 where
  arrived : Option ℕ → ℕ → Call
  completed : ℕ → Call
  timed_out : ℕ → Call

unfoldable pub apply : Call → Pending → Pending
apply (arrived key request) pending = (deduplicate key request pending).1
apply (completed key) pending = (complete key pending).1
apply (timed_out key) pending = time_out key pending
