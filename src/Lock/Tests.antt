-- ===== src/Lock/Tests.antt =====
-- Runs of the lock, and its theorems at concrete states.
use stellar_edu_pay.Common.{ℕ, ◌≡◌, refl, ◌≤◌, ◌≢◌, false, [], ◌∷◌, some, none, Option, List, arith}
use stellar_edu_pay.Common.Maps.{lookup, insert}
use stellar_edu_pay.Lock.{
  empty, acquire, release, renew, with_lock, Body, contended, settled, Call, take_, free, extend,
  apply,
}
use stellar_edu_pay.Lock.Exclusion.{Holds, run, lease_excludes}
use stellar_edu_pay.Lock.Fencing.{AscendsFrom, grants, last_fence, fencing_ascends}
use stellar_edu_pay.Lock.Sections.{IsFreed, with_lock_guards}

-- Two other callers knock at the key 5 while the first lease of 100 ms runs; then it has run out.
abbrev knocks : List Call
knocks = take_ 5 100 8 20 ∷ free 5 (some 8) ∷ extend 5 (some 9) 50 60 ∷ []

granted_after_expiry : (acquire 5 100 9 130 (run knocks (acquire 5 100 7 10 empty).1)).0 ≡ some 2
unfolding acquire apply lookup insert
granted_after_expiry = refl

lease_excludes_example :
    let s' = run knocks (acquire 5 100 7 10 empty).1 in
    Holds 5 7 70 s'
    × ((ttl' t at' : ℕ) → at' ≤ 70 → (acquire 5 ttl' t at' s').0 ≡ none)
    × ((t : ℕ) → t ≢ 7 → (release 5 (some t) s').0 ≡ false)
    × ((t ttl' at' : ℕ) → t ≢ 7 → (renew 5 (some t) ttl' at' s').0 ≡ false)
unfolding acquire lookup
lease_excludes_example =
    lease_excludes 5 100 7 10 70 {fence = 1} empty knocks refl (omega arith)
      ((omega arith, omega arith), (ne 8 (omega arith), (ne 9 (omega arith), tt)))
  where
    ne : (n : ℕ) → n ≢ 7 → ◌≢◌ {A = Option ℕ} (some n) (some 7)
    ne n h e = ground arith

fencing_ascends_example :
    AscendsFrom (last_fence 5 empty) (grants 5 (take_ 5 100 7 10 ∷ take_ 5 100 8 200 ∷ []) empty)
fencing_ascends_example = fencing_ascends 5 (take_ 5 100 7 10 ∷ take_ 5 100 8 200 ∷ []) empty

abbrev thrower : Body ℕ
thrower token fence s = (none, s)

with_lock_guards_example :
    ((acquire 5 100 7 10 empty).0 ≡ none → with_lock 5 100 7 10 thrower empty ≡ (contended, empty))
    × ((fence : ℕ)
        → (acquire 5 100 7 10 empty).0 ≡ some fence
        → let r = with_lock 5 100 7 10 thrower empty in
          let ran = thrower 7 fence (acquire 5 100 7 10 empty).1 in
          (r.0 ≡ settled ran.0 fence) × IsFreed 5 7 r.1)
with_lock_guards_example = with_lock_guards 5 100 7 10 thrower empty
