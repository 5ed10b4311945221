-- ===== src/Idempotency/Acceptance.antt =====
-- A request that backend/src/middleware/idempotency.js lets through has reserved its key.
use stellar_edu_pay.Common.{ℕ, ◌≡◌, ◌≢◌, refl, Option, none, some, arith, Bool-cases, inl, inr}
use stellar_edu_pay.Idempotency.Collection.{Collection}
use stellar_edu_pay.Idempotency.Store.{
  Doc, Settings, Reservation, reserved, held, is_stale, get_full, reserve,
}
use stellar_edu_pay.Idempotency.Middleware.{
  Converter, Options, run_handler, resolve_existing, Request, Fault, no_fault, at_lookup,
  at_reserve, answer_of, claim_key, looked_up, with_key, handle,
}
use stellar_edu_pay.Idempotency.Records.{IsReserved, reserve-IsReserved}

module _ (m : Collection Doc) (c : Settings) (convert : Converter) (o : Options) where
  resolve-not_run : (fp : ℕ) (d : Doc) → resolve_existing convert fp (some d) ≢ run_handler
  unfolding resolve_existing
  resolve-not_run fp d e = ground arith

  answered_run :
      (key fp now : ℕ) (r : Reservation × m.Docs)
      → (r.0 ≡ reserved → IsReserved m c key (some fp) now r.1)
      → (answer_of m c convert o fp r).0 ≡ run_handler
      → IsReserved m c key (some fp) now (answer_of m c convert o fp r).1
  unfolding answer_of resolve_existing
  answered_run key fp now (reserved, s) k h = k refl
  answered_run key fp now (held none, s) k h = ground arith
  answered_run key fp now (held (some d), s) k h = absurd (resolve-not_run fp d h)

  accepted_claim :
      (q : Request) (key : ℕ) (s : m.Docs)
      → (claim_key m c convert o (record q { fault = no_fault }) key s).0 ≡ run_handler
      → IsReserved m c key
          (some q.fingerprint)
          q.now
          (claim_key m c convert o (record q { fault = no_fault }) key s).1
  unfolding claim_key
  accepted_claim q key s h =
      answered_run key q.fingerprint q.now (reserve m c key q.scope (some q.fingerprint) q.now s)
        (reserve-IsReserved m c key q.scope (some q.fingerprint) q.now s) h

  accepted_lookup :
      (q : Request) (key : ℕ) (s : m.Docs) (got : Option Doc × m.Docs)
      → (looked_up m c convert o (record q { fault = no_fault }) key got).0 ≡ run_handler
      → IsReserved m c key
          (some q.fingerprint)
          q.now
          (looked_up m c convert o (record q { fault = no_fault }) key got).1
  unfolding looked_up
  accepted_lookup q key s (none, s') h = accepted_claim q key s' h
  accepted_lookup q key s (some d, s') h = elim (Bool-cases (is_stale c q.now d)) [
    | inl stale ↦ rw stale (accepted_claim q key s' (rw stale at h))
    | inr recent ↦ absurd (resolve-not_run q.fingerprint d (rw recent at h))
  ]

  accepted_fault :
      (f : Fault) (q : Request) (key : ℕ) (s : m.Docs)
      → f ≡ no_fault
      → (with_key m c convert o (record q { fault = f }) (some key) s).0 ≡ run_handler
      → IsReserved m c key
          (some q.fingerprint)
          q.now
          (with_key m c convert o (record q { fault = f }) (some key) s).1
  unfolding with_key
  accepted_fault no_fault q key s calm h = accepted_lookup q key s (get_full m c key s) h
  accepted_fault at_lookup q key s calm h = ground arith
  accepted_fault at_reserve q key s calm h = ground arith

  -- A request that the store let through has reserved its key.
  pub accepted-IsReserved :
      (q : Request) (key : ℕ) (s : m.Docs)
      → q.key ≡ some key
      → q.fault ≡ no_fault
      → (handle m c convert o q s).0 ≡ run_handler
      → IsReserved m c key (some q.fingerprint) q.now (handle m c convert o q s).1
  unfolding handle
  accepted-IsReserved q key s its calm h =
      rw its (accepted_fault q.fault q key s calm (rw its at h))
