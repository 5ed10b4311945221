-- ===== src/Refund/Amounts.antt =====
-- What a successful request of backend/src/services/refundService.js has checked, and that it is
-- refused where a refund has been paid out before.
use stellar_edu_pay.Common.{
  ℕ, ◌≤◌, ◌<◌, Bool, true, false, ◌&&◌, ◌||◌, ◌≡◌, refl, ap, sym, ◌∙◌, List, [], ◌∷◌, arith, any,
  filter,
}
use stellar_edu_pay.Lock.{Locks}
use stellar_edu_pay.Payment.Status.{Status}
use stellar_edu_pay.Refund.Data.{confirmed, is_known, Refund, Paid, ok, is_active, same_status}
use stellar_edu_pay.Refund.Store.{Mongo, World, total_of}
use stellar_edu_pay.Refund.Plans.{
  Plan, Request, units_of, new_refund, is_refund_of, is_payment, is_status, initiate_plan,
}
use stellar_edu_pay.Refund.Service.{Turn, under_lock, initiate, initiate_if}
use stellar_edu_pay.Refund.Success.{guarded_ok}
use stellar_edu_pay.Refund.Inversion.{initiate_plan_inv}

-- The refunds of a payment that count as active, and those that were paid out.
abbrev pub is_active_of : ℕ → ℕ → Refund → Bool
is_active_of school tx r = is_refund_of school tx r && is_active r.status

abbrev pub is_confirmed_of : ℕ → ℕ → Refund → Bool
is_confirmed_of school tx r = is_refund_of school tx r && same_status r.status confirmed

confirmed-is_active :
    (school tx : ℕ) (r : Refund)
    → is_active_of school tx r ≡ false
    → is_confirmed_of school tx r ≡ false
confirmed-is_active school tx r h = ground arith

or_false : (a b : Bool) → a || b ≡ false → (a ≡ false) × (b ≡ false)
or_false a b h = ground arith

and_true : (a b : Bool) → a && b ≡ true → (a ≡ true) × (b ≡ true)
and_true a b h = ground arith

-- `confirmed` is among the active statuses, so with no active refund nothing was paid out.
paid_out-zero :
    (school tx : ℕ) (rs : List Refund)
    → any (is_active_of school tx) rs ≡ false
    → total_of (λ r. r.amount) (filter (is_confirmed_of school tx) rs) ≡ 0
paid_out-zero school tx [] h = refl
paid_out-zero school tx (r ∷ rs) h =
    let (here, later) = or_false (is_active_of school tx r) (any (is_active_of school tx) rs) h in
    rw (confirmed-is_active school tx r here) (paid_out-zero school tx rs later)

module _ (m : Mongo) (lock_key : ℕ → ℕ → ℕ) where
  initiate_if_ok :
      (b : Bool) (t : Turn) (q : Request) (w : World) {r : Refund}
      → (initiate_if m lock_key b t q w).0 ≡ ok r
      → (b ≡ true)
        × (locks : Locks) × (p : Plan) × (initiate_plan m t.now q (record w { locks = locks })
            ≡ ok p)
        × (p.0 ≡ r)
  unfolding initiate_if under_lock
  initiate_if_ok false t q w h = ground arith
  initiate_if_ok true t q w h =
      let (locks, p, e, same) =
        guarded_ok m lock_key t (lock_key q.school q.tx) (initiate_plan m t.now q) _ w h in
      (refl, locks, p, e, same)

  -- A successful request is for a positive amount of at most the whole payment, which stands at
  -- SUCCESS; its principal is known; the payment has no other active refund; and none was confirmed
  -- before, so that a second partial refund of one payment is never accepted.
  pub initiate_checked :
      (t : Turn) (q : Request) (w : World) {r : Refund}
      → (initiate m lock_key t q w).0 ≡ ok r
      → (r ≡ new_refund q)
        × (is_known q.principal ≡ true)
        × (0 < units_of q.amount)
        × ((pay : Paid) × (is_payment q.school q.tx pay ≡ true)
            × (is_status Status.success pay.life.status ≡ true)
            × (units_of q.amount ≤ pay.amount))
        × (any (is_active_of q.school q.tx) w.refunds ≡ false)
        × (total_of (λ x. x.amount) (filter (is_confirmed_of q.school q.tx) w.refunds) ≡ 0)
  unfolding initiate
  initiate_checked t q w h =
      let (known, locks, p, e, same) = initiate_if_ok (is_known q.principal) t q w h in
      let (pay, found, positive, covered, no_other, made) =
        initiate_plan_inv m t.now (record w { locks = locks }) q e in
      let (is_its, success) =
        and_true (is_payment q.school q.tx pay) (is_status Status.success pay.life.status)
          (m.find_one_sound Paid _ w.payments pay found).0 in
      let alone : any (is_active_of q.school q.tx) w.refunds ≡ false =
        m.find_one_complete Refund (is_active_of q.school q.tx) w.refunds no_other in
      (
        sym same ∙ ap (λ (x : Plan). x.0) made,
        known,
        positive,
        (pay, is_its, success, omega arith),
        alone,
        paid_out-zero q.school q.tx w.refunds alone,
      )
