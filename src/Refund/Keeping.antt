-- ===== src/Refund/Keeping.antt =====
-- How a property of the stored payments and refunds is carried through the locks and transactions
-- of backend/src/services/refundService.js.
use stellar_edu_pay.Common.{ℕ, Bool, true, false, ◌≡◌, refl, List, Option, none, some}
use stellar_edu_pay.Lock.{Locks}
use stellar_edu_pay.Refund.Data.{Refund, Paid, Result, ok, err}
use stellar_edu_pay.Refund.Store.{Mongo, World, write_all}
use stellar_edu_pay.Refund.Plans.{Plan}
use stellar_edu_pay.Refund.Service.{Turn, commit, transact, guarded, under_lock, read_then_lock}

module _ (m : Mongo) (lock_key : ℕ → ℕ → ℕ) (Q : List Paid → List Refund → Type 0) where
  abbrev pub Keeps : World → Type 0
  Keeps w = Q w.payments w.refunds

  -- Where the plan is made, its writes keep the property.
  abbrev pub PlanKeeps : World → Result Plan → Type 0
  PlanKeeps w plan = (p : Plan) → plan ≡ ok p → Keeps (write_all m p.1 w)

  pub transact-Keeps :
      (t : Turn) (plan : Result Plan) (w : World)
      → Keeps w
      → PlanKeeps w plan
      → Keeps (transact m lock_key t plan w).1
  unfolding transact
  transact-Keeps t (err e) w h k = h
  transact-Keeps t (ok p) w h k = committed t.commits
    where
      committed : (c : Bool) → Keeps (commit m lock_key (record t { commits = c }) p w).1
      committed true = k p refl
      committed false = h

  -- The lock that is taken in between is no part of what is kept.
  guarded-Keeps :
      (t : Turn) (key : ℕ) (plan : World → Result Plan) (got : Option ℕ × Locks) (w : World)
      → Keeps w
      → ((locks : Locks)
          → PlanKeeps (record w { locks = locks }) (plan (record w { locks = locks })))
      → Keeps (guarded m lock_key t key plan got w).1
  unfolding guarded
  guarded-Keeps t key plan (none, locks) w h k = h
  guarded-Keeps t key plan (some fence, locks) w h k =
      transact-Keeps t (plan (record w { locks = locks })) (record w { locks = locks }) h (k locks)

  pub under_lock-Keeps :
      (t : Turn) (school tx : ℕ) (plan : World → Result Plan) (w : World)
      → Keeps w
      → ((locks : Locks)
          → PlanKeeps (record w { locks = locks }) (plan (record w { locks = locks })))
      → Keeps (under_lock m lock_key t school tx plan w).1
  unfolding under_lock
  under_lock-Keeps t school tx plan w h k = guarded-Keeps t (lock_key school tx) plan _ w h k

  pub read_then_lock-Keeps :
      (t : Turn) (checks : Result Refund) (plan : Refund → World → Result Plan) (w : World)
      → Keeps w
      → ((r : Refund) (locks : Locks)
          → checks ≡ ok r
          → PlanKeeps (record w { locks = locks }) (plan r (record w { locks = locks })))
      → Keeps (read_then_lock m lock_key t checks plan w).1
  unfolding read_then_lock
  read_then_lock-Keeps t (err e) plan w h k = h
  read_then_lock-Keeps t (ok r) plan w h k =
      under_lock-Keeps t r.school_id r.original_tx_hash (plan r) w h (λ locks. k r locks refl)
