-- ===== src/Lock/Exclusion.antt =====
-- Mutual exclusion of backend/src/services/distributedLock.js while a lease runs.
use stellar_edu_pay.Common.{
  ℕ, ◌+◌, ◌≤◌, ◌<◌, ◌≡◌, refl, ◌≢◌, false, List, [], ◌∷◌, none, some, arith, Option-cases, inl, inr,
  ap, All,
}
use stellar_edu_pay.Common.Maps.{lookup, lookup-insert, lookup-erase}
use stellar_edu_pay.Lock.{
  Entry, Locks, Call, take_, free, extend, acquire, release, renew, apply, next_fence,
}

-- The token holds the lock at a time: its entry stands and its lease runs.
pub record Holds (key token now : ℕ) (s : Locks) : Type 0 where
  pub entry : Entry
  pub stands : lookup key s.entries ≡ some entry
  pub owned : entry.token ≡ token
  pub running : now < entry.expires_at

-- A call that is not made with the token; a call made at a time is made no later than `now`.
abbrev pub Foreign : ℕ → ℕ → Call → Type 0
Foreign token now (take_ key ttl t at) = (t ≢ token) × (at ≤ now)
Foreign token now (free key t) = t ≢ some token
Foreign token now (extend key t ttl at) = t ≢ some token

acquire-refused :
    {key token now : ℕ} {s : Locks} (ttl t at : ℕ)
    → Holds key token now s
    → at ≤ now
    → acquire key ttl t at s ≡ (none, s)
unfolding acquire
acquire-refused ttl t at h le = ground arith

release-refused :
    {key token now : ℕ} {s : Locks} (t : ℕ)
    → Holds key token now s
    → t ≢ token
    → (release key (some t) s).0 ≡ false
unfolding release
release-refused t h ne = ground arith

renew-refused :
    {key token now : ℕ} {s : Locks} (t ttl at : ℕ)
    → Holds key token now s
    → t ≢ token
    → (renew key (some t) ttl at s).0 ≡ false
unfolding renew
renew-refused t ttl at h ne = ground arith

some_ne : (t token : ℕ) → some t ≢ some token → t ≢ token
some_ne t token f e = f (ap some e)

-- A foreign call leaves the holder's entry as it is.
apply-Holds :
    {key token now : ℕ} {s : Locks} (c : Call)
    → Foreign token now c
    → Holds key token now s
    → Holds key token now (apply c s)
unfolding apply
apply-Holds {key} {token} {now} {s} (take_ k ttl t at) f h = record {
  entry = h.entry;
  stands = ground (
    arith,
    lookup-insert k key
        (record {
          token = t;
          fencing_token = next_fence (lookup k s.fences);
          expires_at = at + ttl;
        })
        s.entries,
  );
  owned = h.owned;
  running = h.running;
}
apply-Holds (free k none) f h = h
apply-Holds {key} {token} {now} {s} (free k (some t)) f h = record {
  entry = h.entry;
  stands = ground (arith, lookup-erase k key s.entries, some_ne t token f);
  owned = h.owned;
  running = h.running;
}
apply-Holds (extend k none ttl at) f h = h
apply-Holds {key} {token} {now} {s} (extend k (some t) ttl at) f h = record {
  entry = h.entry;
  stands = elim (Option-cases (lookup k s.entries)) [
    | inl absent ↦ ground arith
    | inr (e, found) ↦ ground (
      arith,
      some_ne t token f,
      lookup-insert k key (record e { expires_at = at + ttl }) s.entries,
    )
  ];
  owned = h.owned;
  running = h.running;
}

abbrev pub run : List Call → Locks → Locks
run [] s = s
run (c ∷ cs) s = run cs (apply c s)

run-Holds :
    {key token now : ℕ} (s : Locks) (cs : List Call)
    → All (Foreign token now) cs
    → Holds key token now s
    → Holds key token now (run cs s)
run-Holds s [] f h = h
run-Holds s (c ∷ cs) f h = run-Holds (apply c s) cs f.1 (apply-Holds c f.0 h)

acquire-Holds :
    (key ttl token at now : ℕ) {fence : ℕ} (s : Locks)
    → (acquire key ttl token at s).0 ≡ some fence
    → now < at + ttl
    → Holds key token now (acquire key ttl token at s).1
unfolding acquire
acquire-Holds key ttl token at now s got l = record {
  entry = record {
    token = token;
    fencing_token = next_fence (lookup key s.fences);
    expires_at = at + ttl;
  };
  stands = ground (
    arith,
    lookup-insert key key
        (record {
          token = token;
          fencing_token = next_fence (lookup key s.fences);
          expires_at = at + ttl;
        })
        s.entries,
  );
  owned = refl;
  running = l;
}

-- After a successful acquire, and whatever other callers do with their own tokens before its time
-- runs out, the caller holds the lock, nobody else can acquire it, and a release or renewal with
-- another token is refused.
pub lease_excludes :
    (key ttl token at now : ℕ) {fence : ℕ} (s : Locks) (cs : List Call)
    → (acquire key ttl token at s).0 ≡ some fence
    → now < at + ttl
    → All (Foreign token now) cs
    → let s' = run cs (acquire key ttl token at s).1 in
      Holds key token now s'
      × ((ttl' t at' : ℕ) → at' ≤ now → (acquire key ttl' t at' s').0 ≡ none)
      × ((t : ℕ) → t ≢ token → (release key (some t) s').0 ≡ false)
      × ((t ttl' at' : ℕ) → t ≢ token → (renew key (some t) ttl' at' s').0 ≡ false)
lease_excludes key ttl token at now s cs got l f =
    let h : Holds key token now (run cs (acquire key ttl token at s).1) =
      run-Holds _ cs f (acquire-Holds key ttl token at now s got l) in
    (
      h,
      λ ttl' t at' le. ap (λ r. r.0) (acquire-refused ttl' t at' h le),
      λ t ne. release-refused t h ne,
      λ t ttl' at' ne. renew-refused t ttl' at' h ne,
    )
