-- ===== src/Leader/Documents.antt =====
-- The document of the lock of backend/src/services/leaderElection.js, which without a path for
-- `expiresAt` never expires.
use stellar_edu_pay.Common.{
  ℕ, ◌≡◌, refl, Bool, true, false, Option, none, some, arith, inl, inr, ◌⊎◌,
}
use stellar_edu_pay.Leader.{
  LockValue, locked, unlocked, LockDoc, renew_found, release_found, of_schema, fresh_lock,
  acquire_lock, renew_lock, release_lock,
}

abbrev pub NoExpiry : Option LockDoc → Type 0
NoExpiry none = Unit
NoExpiry (some d) = d.expires_at ≡ none

pub false_not_true : false ≡ true → ⊥
false_not_true h = ground arith

pub not_true : {b : Bool} → (b ≡ true → ⊥) → b ≡ false
not_true {b = true} h = absurd (h refl)
not_true {b = false} h = refl

-- The operations on the document, under the schema.
pub acquire_lock-cases :
    (lease now : ℕ) (doc : Option LockDoc)
    → NoExpiry doc
    → ((doc ≡ none)
        × (acquire_lock (of_schema lease) now doc
            ≡ (true, some (fresh_lock (of_schema lease) now))))
      ⊎ ((d : LockDoc) × (doc ≡ some d) × (acquire_lock (of_schema lease) now doc ≡ (false, doc)))
unfolding acquire_lock
acquire_lock-cases lease now none n = inl (refl, refl)
acquire_lock-cases lease now (some d) n = inr (d, refl, rw n refl)

renew_found-keeps :
    (lease now : ℕ) (d : LockDoc) (v : LockValue)
    → d.expires_at ≡ none
    → (doc : LockDoc) × ((renew_found (of_schema lease) now d v).1 ≡ some doc)
      × (doc.expires_at ≡ none)
renew_found-keeps lease now d locked n = (_, refl, n)
renew_found-keeps lease now d unlocked n = (d, refl, n)

pub renew_lock-keeps :
    (lease now : ℕ) (doc : Option LockDoc)
    → NoExpiry doc
    → NoExpiry (renew_lock (of_schema lease) now doc).1
      × ((renew_lock (of_schema lease) now doc).1 ≡ none → doc ≡ none)
unfolding renew_lock
renew_lock-keeps lease now none n = (n, λ e. e)
renew_lock-keeps lease now (some d) n =
    let (after, e, m) = renew_found-keeps lease now d d.value n in
    (rw e m, λ f. absurd (ground arith))

release_found-keeps :
    (lease : ℕ) (d : LockDoc) (v : LockValue)
    → d.expires_at ≡ none
    → (release_found (of_schema lease) d v).expires_at ≡ none
release_found-keeps lease d locked n = n
release_found-keeps lease d unlocked n = n

pub release_lock-keeps :
    (lease : ℕ) (doc : Option LockDoc)
    → NoExpiry doc
    → NoExpiry (release_lock (of_schema lease) doc)
      × (release_lock (of_schema lease) doc ≡ none → doc ≡ none)
unfolding release_lock
release_lock-keeps lease none n = (n, λ e. e)
release_lock-keeps lease (some d) n =
    (release_found-keeps lease d d.value n, λ e. absurd (ground arith))
