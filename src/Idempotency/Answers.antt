-- ===== src/Idempotency/Answers.antt =====
-- How backend/src/middleware/idempotency.js answers a request, by the document under its key.
use stellar_edu_pay.Common.{
  ℕ, false, ◌≡◌, ◌≢◌, refl, ap, ◌∙◌, Option, none, some, Option-cases, Bool-cases, inl, inr,
}
use stellar_edu_pay.Idempotency.Collection.{Collection}
use stellar_edu_pay.Idempotency.Store.{
  Doc, Settings, Reservation, reserved, held, is_stale, is_outdated, get_full, reserve,
}
use stellar_edu_pay.Idempotency.Middleware.{
  Converter, Options, resolve_existing, Request, Fault, no_fault, at_lookup, at_reserve, answer_of,
  claim_key, looked_up, with_key, handle,
}
use stellar_edu_pay.Idempotency.Records.{get_full-current, get_full-find, reserve-find}

module _ (m : Collection Doc) (c : Settings) (convert : Converter) (o : Options) where
  -- A stored document that is current and not stale decides the answer, and stays.
  with_key-current :
      (f : Fault) (q : Request) (key : ℕ) (d : Doc) (s : m.Docs)
      → f ≢ at_lookup
      → m.find key s ≡ some d
      → is_outdated c.version d.schema_version ≡ false
      → is_stale c q.now d ≡ false
      → with_key m c convert o (record q { fault = f }) (some key) s
        ≡ (resolve_existing convert q.fingerprint (some d), s)
  unfolding with_key looked_up
  with_key-current no_fault q key d s ne found current recent =
      rw (get_full-current m c key s found current) (rw recent refl)
  with_key-current at_lookup q key d s ne found current recent = absurd (ne refl)
  with_key-current at_reserve q key d s ne found current recent =
      rw (get_full-current m c key s found current) (rw recent refl)

  pub handle-current :
      (q : Request) (key : ℕ) (d : Doc) (s : m.Docs)
      → q.key ≡ some key
      → q.fault ≢ at_lookup
      → m.find key s ≡ some d
      → is_outdated c.version d.schema_version ≡ false
      → is_stale c q.now d ≡ false
      → handle m c convert o q s ≡ (resolve_existing convert q.fingerprint (some d), s)
  unfolding handle
  handle-current q key d s its ne found current recent =
      rw its (with_key-current q.fault q key d s ne found current recent)

  -- A request with another key, or none, leaves the document under a key.
  answer_of-docs : (fp : ℕ) (r : Reservation × m.Docs) → (answer_of m c convert o fp r).1 ≡ r.1
  unfolding answer_of
  answer_of-docs fp (reserved, s) = refl
  answer_of-docs fp (held d, s) = refl

  claim_key-find :
      (f : Fault) (q : Request) (key j : ℕ) (s : m.Docs)
      → key ≢ j
      → m.find j (claim_key m c convert o (record q { fault = f }) key s).1 ≡ m.find j s
  unfolding claim_key
  claim_key-find no_fault q key j s ne =
      rw (answer_of-docs q.fingerprint (reserve m c key q.scope (some q.fingerprint) q.now s))
        (reserve-find m c key j q.scope (some q.fingerprint) q.now s ne)
  claim_key-find at_lookup q key j s ne = refl
  claim_key-find at_reserve q key j s ne = refl

  looked_up-find :
      (f : Fault) (q : Request) (key j : ℕ) (got : Option Doc × m.Docs)
      → key ≢ j
      → m.find j (looked_up m c convert o (record q { fault = f }) key got).1 ≡ m.find j got.1
  unfolding looked_up
  looked_up-find f q key j (none, s) ne = claim_key-find f q key j s ne
  looked_up-find f q key j (some d, s) ne = elim (Bool-cases (is_stale c q.now d)) [
    | inl stale ↦ rw stale (claim_key-find f q key j s ne)
    | inr recent ↦ rw recent refl
  ]

  with_key-find :
      (f : Fault) (q : Request) (key j : ℕ) (s : m.Docs)
      → key ≢ j
      → m.find j (with_key m c convert o (record q { fault = f }) (some key) s).1 ≡ m.find j s
  unfolding with_key
  with_key-find no_fault q key j s ne =
      looked_up-find no_fault q key j (get_full m c key s) ne ∙ get_full-find m c key j s ne
  with_key-find at_lookup q key j s ne = refl
  with_key-find at_reserve q key j s ne =
      looked_up-find at_reserve q key j (get_full m c key s) ne ∙ get_full-find m c key j s ne

  pub handle-find :
      (q : Request) (j : ℕ) (s : m.Docs)
      → q.key ≢ some j
      → m.find j (handle m c convert o q s).1 ≡ m.find j s
  unfolding handle with_key
  handle-find q j s ne = elim (Option-cases q.key) [
    | inl absent ↦ rw absent refl
    | inr (key, its) ↦
        rw its (with_key-find q.fault q key j s (λ (e : key ≡ j). ne (its ∙ ap some e)))
  ]
