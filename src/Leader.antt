-- ===== src/Leader.antt =====
-- backend/src/services/leaderElection.js: the class LeaderElection over the document of its lock, and
-- the instances of the backend that share it. The model SystemConfig that the file requires is not in
-- the repository at its path; the collection is that of backend/src/models/systemConfigModel.js, whose
-- operations are atomic. Jobs has the durable jobs of the file.
mod Documents
mod Terms
mod Vacancy
pub mod Jobs
mod Tests
use stellar_edu_pay.Common.{
  ℕ, ◌+◌, Bool, true, false, Option, none, some, List, [], ◌∷◌, ltb, ◌==◌, if◌then◌else◌,
}

-- `value` of the document: `locked`, or the empty text.
pub data LockValue : Type 0 where
  locked unlocked : LockValue

pub record LockDoc : Type 0 where
  pub value : LockValue
  pub expires_at : Option ℕ

-- `keeps_expiry` tells whether the schema of the collection has the path `expiresAt`. mongoose
-- drops what a strict schema does not have from an update.
pub record Election : Type 0 where
  pub lease_duration : ℕ
  pub keeps_expiry : Bool

-- The schema of backend/src/models/systemConfigModel.js has the paths `key` and `value` alone.
abbrev pub of_schema : ℕ → Election
of_schema lease = record { lease_duration = lease; keeps_expiry = false }

abbrev pub stored_expiry : Election → ℕ → Option ℕ
stored_expiry e at = if e.keeps_expiry then some at else none

-- `expiresAt: { $lt: now }`, which no missing value satisfies.
abbrev pub has_expired : ℕ → Option ℕ → Bool
has_expired now none = false
has_expired now (some at) = ltb at now

abbrev pub fresh_lock : Election → ℕ → LockDoc
fresh_lock e now = record { value = locked; expires_at = stored_expiry e (now + e.lease_duration) }

-- `acquireLock`. Every document has a `value`; where the filter does not match, the upsert fails
-- with the error 11000 of the unique `key`.
unfoldable pub acquire_lock : Election → ℕ → Option LockDoc → Bool × Option LockDoc
acquire_lock e now none = (true, some (fresh_lock e now))
acquire_lock e now (some d) =
    if has_expired now d.expires_at then (true, some (fresh_lock e now)) else (false, some d)

-- `renewLock`, on the value of the document: the filter asks for `locked`.
abbrev pub renew_found : Election → ℕ → LockDoc → LockValue → Bool × Option LockDoc
renew_found e now d unlocked = (false, some d)
renew_found e now d locked = (
  true,
  some (record d {
    expires_at = if e.keeps_expiry then some (now + e.lease_duration) else d.expires_at;
  }),
)

unfoldable pub renew_lock : Election → ℕ → Option LockDoc → Bool × Option LockDoc
renew_lock e now none = (false, none)
renew_lock e now (some d) = renew_found e now d d.value

-- `releaseLock`, with `expiresAt` the start of the epoch.
abbrev pub release_found : Election → LockDoc → LockValue → LockDoc
release_found e d unlocked = d
release_found e d locked = record {
  value = unlocked;
  expires_at = if e.keeps_expiry then some 0 else d.expires_at;
}

unfoldable pub release_lock : Election → Option LockDoc → Option LockDoc
release_lock e none = none
release_lock e (some d) = some (release_found e d d.value)

-- `isLeader`, whether `renewTimer` is set, and whether the leader-only schedulers have been started
-- and not stopped since.
pub record Instance : Type 0 where
  pub is_leader : Bool
  pub timer : Bool
  pub schedulers : Bool

pub record Cluster : Type 0 where
  pub doc : Option LockDoc
  pub instances : ℕ → Instance

abbrev pub idle : Instance
idle = record { is_leader = false; timer = false; schedulers = false }

abbrev pub initial : Cluster
initial = record { doc = none; instances = λ i. idle }

abbrev pub leads : Cluster → ℕ → Bool
leads c i = (c.instances i).is_leader

abbrev pub with_instance : ℕ → Instance → Option LockDoc → Cluster → Cluster
with_instance i x doc c = record { doc = doc; instances = λ j. if j == i then x else c.instances j }

-- Leadership that was acquired, `startLeaderSchedulers` included.
abbrev pub promoted : Bool → Instance → Instance
promoted acquired x = if acquired then record x { is_leader = true; schedulers = true } else x

-- `start`, without the timer's turns.
unfoldable pub start : Election → ℕ → ℕ → Cluster → Cluster
start e i now c =
    let (acquired, doc) = acquire_lock e now c.doc in
    with_instance i (record (promoted acquired (c.instances i)) { timer = true }) doc c

-- A turn of the timer that `start` sets.
abbrev pub renewed : Bool → Instance → Instance
renewed kept x = if kept then x else record x { is_leader = false; schedulers = false }

abbrev pub timer_turn : Election → ℕ → ℕ → Cluster → Bool → Bool → Cluster
timer_turn e i now c false is_leader = c
timer_turn e i now c true true =
    let (still, doc) = renew_lock e now c.doc in
    with_instance i (renewed still (c.instances i)) doc c
timer_turn e i now c true false =
    let (acquired, doc) = acquire_lock e now c.doc in
    with_instance i (promoted acquired (c.instances i)) doc c

unfoldable pub tick : Election → ℕ → ℕ → Cluster → Cluster
tick e i now c = timer_turn e i now c (c.instances i).timer (c.instances i).is_leader

-- `stop`, with its update of the lock, which succeeds, in one step.
unfoldable pub stop : Election → ℕ → Cluster → Cluster
stop e i c =
    let x = c.instances i in
    with_instance i idle (if x.is_leader then release_lock e c.doc else c.doc) c

-- A process that ends without `stop`.
unfoldable pub crash : ℕ → Cluster → Cluster
crash i c = with_instance i idle c.doc c

pub data Step : Type 0 where
  starts ticks : ℕ → ℕ → Step
  stops crashes : ℕ → Step

unfoldable pub step : Election → Step → Cluster → Cluster
unfolding start tick stop crash
step e (starts i now) c = start e i now c
step e (ticks i now) c = tick e i now c
step e (stops i) c = stop e i c
step e (crashes i) c = crash i c

unfoldable pub run : Election → List Step → Cluster → Cluster
run e [] c = c
run e (s ∷ steps) c = run e steps (step e s c)
