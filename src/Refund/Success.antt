-- ===== src/Refund/Success.antt =====
-- What an operation of backend/src/services/refundService.js went through where it succeeds.
use stellar_edu_pay.Common.{ℕ, Bool, true, false, ◌≡◌, refl, Option, none, some, arith}
use stellar_edu_pay.Lock.{Locks}
use stellar_edu_pay.Refund.Data.{Refund, Result, ok, err}
use stellar_edu_pay.Refund.Store.{Mongo, World}
use stellar_edu_pay.Refund.Plans.{Plan}
use stellar_edu_pay.Refund.Service.{Turn, commit, transact, guarded, under_lock, read_then_lock}

module _ (m : Mongo) (lock_key : ℕ → ℕ → ℕ) where
  transact_ok :
      (t : Turn) (plan : Result Plan) (w : World) {r : Refund}
      → (transact m lock_key t plan w).0 ≡ ok r
      → (p : Plan) × (plan ≡ ok p) × (p.0 ≡ r)
  unfolding transact
  transact_ok t (err e) w h = ground arith
  transact_ok t (ok p) w h = (p, refl, committed t.commits h)
    where
      committed :
          (c : Bool) {r : Refund}
          → (commit m lock_key (record t { commits = c }) p w).0 ≡ ok r
          → p.0 ≡ r
      committed true e = ground arith
      committed false e = ground arith

  pub guarded_ok :
      (t : Turn) (key : ℕ) (plan : World → Result Plan) (got : Option ℕ × Locks) (w : World)
      {r : Refund}
      → (guarded m lock_key t key plan got w).0 ≡ ok r
      → (locks : Locks) × (p : Plan) × (plan (record w { locks = locks }) ≡ ok p) × (p.0 ≡ r)
  unfolding guarded
  guarded_ok t key plan (none, locks) w h = ground arith
  guarded_ok t key plan (some fence, locks) w h =
      let (p, e, same) =
        transact_ok t (plan (record w { locks = locks })) (record w { locks = locks }) h in
      (locks, p, e, same)

  pub read_then_lock_ok :
      (t : Turn) (checks : Result Refund) (plan : Refund → World → Result Plan) (w : World)
      {r : Refund}
      → (read_then_lock m lock_key t checks plan w).0 ≡ ok r
      → (read : Refund) × (locks : Locks) × (p : Plan) × (checks ≡ ok read)
        × (plan read (record w { locks = locks }) ≡ ok p)
        × (p.0 ≡ r)
  unfolding read_then_lock under_lock
  read_then_lock_ok t (err e) plan w h = ground arith
  read_then_lock_ok t (ok read) plan w h =
      let (locks, p, e, same) =
        guarded_ok t (lock_key read.school_id read.original_tx_hash) (plan read) _ w h in
      (read, locks, p, refl, e, same)
