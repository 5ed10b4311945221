-- ===== src/Refund/Service.antt =====
-- The operations of backend/src/services/refundService.js: the checks, the lock of the payment
-- (backend/src/services/distributedLock.js) and the transaction. The environment chooses whether a
-- transaction commits; `lock_key` stands for the text `refund:lock:<school>:<tx>`.
use stellar_edu_pay.Common.{ℕ, Bool, true, false, List, [], ◌∷◌, Option, none, some}
use stellar_edu_pay.Text.{Text}
use stellar_edu_pay.Lock.{Locks, acquire, release}
use stellar_edu_pay.Refund.Data.{
  RefundStatus, UserId, is_known, Refund, Result, ok, err, unknown_principal, lock_contended,
  aborted,
}
use stellar_edu_pay.Refund.Store.{Mongo, World, write_all}
use stellar_edu_pay.Refund.Plans.{
  Plan, Request, initiate_plan, approve_plan, reject_checks, reject_plan, complete_checks,
  complete_plan, update_checks, update_plan,
}

-- `REFUND_LOCK_TTL_MS`.
abbrev refund_lock_ttl_ms : ℕ
refund_lock_ttl_ms = 30_000

-- What the environment supplies to a call: the time, the random lock token, and whether the
-- transaction commits.
pub record Turn : Type 0 where
  pub now : ℕ
  pub token : ℕ
  pub commits : Bool

-- The calls that the routes make: to request, approve, reject and complete a refund.
pub data Call : Type 0 where
  ask : Request → Call
  agree : ℕ → UserId → ℕ → Call
  refuse : ℕ → UserId → Text → ℕ → Call
  finish : ℕ → Text → UserId → ℕ → Call

abbrev pub Outcome : Type 0
Outcome = Result Refund × World

module _ (m : Mongo) (lock_key : ℕ → ℕ → ℕ) where
  -- `session.withTransaction`: all the writes, or none and an exception.
  pub commit : Turn → Plan → World → Outcome
  commit t (r, ws) w = elim t.commits [ true ↦ (ok r, write_all m ws w) | false ↦ (err aborted, w) ]

  unfoldable pub transact : Turn → Result Plan → World → Outcome
  unfolding commit
  transact t (err e) w = (err e, w)
  transact t (ok plan) w = commit t plan w

  pub unlock : Turn → ℕ → Outcome → Outcome
  unlock t key (r, w) = (r, record w { locks = (release key (some t.token) w.locks).1 })

  unfoldable pub guarded : Turn → ℕ → (World → Result Plan) → Option ℕ × Locks → World → Outcome
  unfolding transact unlock
  guarded t key plan (none, locks) w = (err lock_contended, record w { locks = locks })
  guarded t key plan (some fence, locks) w =
      let w' : World = record w { locks = locks } in unlock t key (transact t (plan w') w')

  -- `lock.acquire`, and `try { … } finally { lock.release }`.
  unfoldable pub under_lock : Turn → ℕ → ℕ → (World → Result Plan) → World → Outcome
  unfolding guarded
  under_lock t school tx plan w =
      let key : ℕ = lock_key school tx in
      guarded t key plan (acquire key refund_lock_ttl_ms t.token t.now w.locks) w

  -- A read before the lock, whose error ends the call, and the rest under the lock of its payment.
  unfoldable pub read_then_lock :
      Turn → Result Refund → (Refund → World → Result Plan) → World → Outcome
  unfolding under_lock
  read_then_lock t (err e) plan w = (err e, w)
  read_then_lock t (ok r) plan w = under_lock t r.school_id r.original_tx_hash (plan r) w

  unfoldable pub initiate_if : Bool → Turn → Request → World → Outcome
  initiate_if false t q w = (err unknown_principal, w)
  initiate_if true t q w = under_lock t q.school q.tx (initiate_plan m t.now q) w

  -- `initiateRefund`; the principal is tested before the lock is taken.
  unfoldable pub initiate : Turn → Request → World → Outcome
  unfolding initiate_if
  initiate t q w = initiate_if (is_known q.principal) t q w

  -- `approveRefund`, which takes no lock.
  unfoldable pub approve : Turn → ℕ → UserId → ℕ → World → Outcome
  approve t id principal school w = transact t (approve_plan m t.now id principal school w) w

  unfoldable pub reject : Turn → ℕ → UserId → Text → ℕ → World → Outcome
  reject t id principal reason school w =
      read_then_lock t (reject_checks m t.now id principal reason school w)
        (λ r w'. reject_plan m t.now r principal reason w') w

  unfoldable pub complete : Turn → ℕ → Text → UserId → ℕ → World → Outcome
  complete t id tx_hash principal school w =
      read_then_lock t (complete_checks m t.now id tx_hash principal school w)
        (λ r w'. complete_plan m t.now r tx_hash w') w

  unfoldable pub update_status : Turn → ℕ → RefundStatus → Text → Text → Option ℕ → World → Outcome
  update_status t id new_status tx why school w =
      read_then_lock t (update_checks m t.now id school w)
        (λ r w'. update_plan m t.now id new_status tx why school w') w

  unfoldable pub apply : Turn → Call → World → World
  unfolding initiate approve reject complete
  apply t (ask q) w = (initiate t q w).1
  apply t (agree id principal school) w = (approve t id principal school w).1
  apply t (refuse id principal reason school) w = (reject t id principal reason school w).1
  apply t (finish id tx_hash principal school) w = (complete t id tx_hash principal school w).1

  unfoldable pub run : List (Turn × Call) → World → World
  run [] w = w
  run ((t, c) ∷ cs) w = run cs (apply t c w)
