-- ===== src/Lock/Sections.antt =====
-- What `withLock` of backend/src/services/distributedLock.js guarantees to its caller.
use stellar_edu_pay.Common.{ℕ, ◌≡◌, none, some, arith, false, ap, ◌∙◌}
use stellar_edu_pay.Common.Maps.{lookup, lookup-erase}
use stellar_edu_pay.Lock.{
  Locks, acquire, release, with_lock, Body, contended, settled, is_owner, enter,
}

-- No entry of the key has the token.
abbrev pub IsFreed : ℕ → ℕ → Locks → Type 0
IsFreed key token s = is_owner token (lookup key s.entries) ≡ false

release-IsFreed : (key token : ℕ) (s : Locks) → IsFreed key token (release key (some token) s).1
unfolding release
release-IsFreed key token s = ground (arith, lookup-erase key key s.entries)

refused_unchanged :
    (key ttl token now : ℕ) (s : Locks)
    → (acquire key ttl token now s).0 ≡ none
    → (acquire key ttl token now s).1 ≡ s
unfolding acquire
refused_unchanged key ttl token now s h = ground arith

-- A section is entered only with the lock: refused, it leaves the locks alone and `fn` is not run.
-- Entered, its outcome is the one of `fn`, with the fencing token that `fn` was given, and the
-- caller's token does not hold the lock afterwards, also when `fn` throws.
pub with_lock_guards :
    {A : Type 0} (key ttl token now : ℕ) (fn : Body A) (s : Locks)
    → ((acquire key ttl token now s).0 ≡ none → with_lock key ttl token now fn s ≡ (contended, s))
      × ((fence : ℕ)
          → (acquire key ttl token now s).0 ≡ some fence
          → let r = with_lock key ttl token now fn s in
            let ran = fn token fence (acquire key ttl token now s).1 in
            (r.0 ≡ settled ran.0 fence) × IsFreed key token r.1)
unfolding with_lock
with_lock_guards key ttl token now fn s =
    let s' : Locks = (acquire key ttl token now s).1 in
    (
      λ e.
          ap (λ g. enter key token fn g s') e
          ∙ ap (λ t. (contended, t)) (refused_unchanged key ttl token now s e),
      λ fence e.
          let p : with_lock key ttl token now fn s ≡ enter key token fn (some fence) s' =
            ap (λ g. enter key token fn g s') e in
          (
            ap (λ r. r.0) p,
            ap (λ r. is_owner token (lookup key r.1.entries)) p
                ∙ release-IsFreed key token (fn token fence s').1,
          ),
    )
