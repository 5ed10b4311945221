-- ===== src/Refund/Inversion.antt =====
-- What holds where a plan of backend/src/services/refundService.js is reached.
use stellar_edu_pay.Common.{
  ℕ, ◌-◌, ◌≤◌, ◌<◌, true, false, ◌&&◌, ◌≡◌, [], ◌∷◌, none, some, arith, Option-cases, inl, inr,
}
use stellar_edu_pay.Text.{Text}
use stellar_edu_pay.Payment.Status.{Status}
use stellar_edu_pay.Refund.Data.{
  RefundStatus, approval_pending, pending, confirmed, same_status, is_active, UserId, is_known,
  same_user, Refund, Paid, ok, status_changed, approved, rejected_event, initiated,
}
use stellar_edu_pay.Refund.Store.{
  Mongo, World, create_refund, save_refund, save_payment, create_event,
}
use stellar_edu_pay.Refund.Plans.{
  Plan, Request, units_of, new_refund, with_status, is_refund, is_payment, is_refund_of, is_status,
  initiate_plan, approve_plan, reject_checks, reject_plan, complete_checks, complete_plan,
}

module _ (m : Mongo) (now : ℕ) (w : World) where
  pub approve_plan_inv :
      (id : ℕ) (u : UserId) (school : ℕ) {p : Plan}
      → approve_plan m now id u school w ≡ ok p
      → (r : Refund) × (m.find_one Refund (is_refund id school) w.refunds ≡ some r)
        × (is_known u ≡ true)
        × (r.status ≡ approval_pending)
        × (same_user r.initiated_by u ≡ false)
        × (p ≡ (
          record r { status = pending; approved_by = u },
          save_refund (record r { status = pending; approved_by = u })
              ∷ create_event (approved id)
              ∷ [],
        ))
  unfolding approve_plan
  approve_plan_inv id u school h =
      elim (Option-cases (m.find_one Refund (is_refund id school) w.refunds)) [
        | inl absent ↦ ground arith
        | inr (r, found) ↦ (r, found, ground arith, ground arith, ground arith, ground arith)
      ]

  pub reject_checks_inv :
      (id : ℕ) (u : UserId) (reason : Text) (school : ℕ) {r : Refund}
      → reject_checks m now id u reason school w ≡ ok r
      → (m.find_one Refund (is_refund id school) w.refunds ≡ some r)
        × (is_known u ≡ true)
        × (r.status ≡ approval_pending)
        × (same_user r.initiated_by u ≡ false)
  unfolding reject_checks
  reject_checks_inv id u reason school h =
      elim (Option-cases (m.find_one Refund (is_refund id school) w.refunds)) [
        | inl absent ↦ ground arith
        | inr (r, found) ↦ ground arith
      ]

  pub complete_checks_inv :
      (id : ℕ) (tx : Text) (u : UserId) (school : ℕ) {r : Refund}
      → complete_checks m now id tx u school w ≡ ok r
      → (m.find_one Refund (is_refund id school) w.refunds ≡ some r)
        × (is_known u ≡ true)
        × (r.status ≡ pending)
  unfolding complete_checks
  complete_checks_inv id tx u school h =
      elim (Option-cases (m.find_one Refund (is_refund id school) w.refunds)) [
        | inl absent ↦ ground arith
        | inr (r, found) ↦ ground arith
      ]

  pub reject_plan_inv :
      (r : Refund) (u : UserId) (reason : Text) {p : Plan}
      → reject_plan m now r u reason w ≡ ok p
      → let updated : Refund = record r {
        status = RefundStatus.rejected;
        rejected_by = u;
        rejection_reason = reason;
      } in
        (pay : Paid) × (m.find_one Paid (is_payment r.school_id r.original_tx_hash) w.payments
          ≡ some pay)
        × (p ≡ (
          updated,
          save_refund updated
              ∷ save_payment (with_status now Status.success pay)
              ∷ create_event (rejected_event r.id)
              ∷ [],
        ))
  unfolding reject_plan
  reject_plan_inv r u reason h =
      elim (Option-cases (m.find_one Paid (is_payment r.school_id r.original_tx_hash) w.payments)) [
        | inl absent ↦ ground arith
        | inr (pay, found) ↦ (pay, found, ground arith)
      ]

  pub complete_plan_inv :
      (r : Refund) (tx : Text) {p : Plan}
      → complete_plan m now r tx w ≡ ok p
      → let updated : Refund = record r { status = confirmed; refund_tx_hash = tx } in
        (pay : Paid) × (m.find_one Paid (is_payment r.school_id r.original_tx_hash) w.payments
          ≡ some pay)
        × (p ≡ (
          updated,
          save_refund updated
              ∷ save_payment (with_status now Status.refunded pay)
              ∷ create_event (status_changed r.id pending confirmed)
              ∷ [],
        ))
  unfolding complete_plan
  complete_plan_inv r tx h =
      elim (Option-cases (m.find_one Paid (is_payment r.school_id r.original_tx_hash) w.payments)) [
        | inl absent ↦ ground arith
        | inr (pay, found) ↦ (pay, found, ground arith)
      ]

  pub initiate_plan_inv :
      (q : Request) {p : Plan}
      → initiate_plan m now q w ≡ ok p
      → (pay : Paid) × (m.find_one Paid
            (λ x. is_payment q.school q.tx x && is_status Status.success x.life.status)
            w.payments
          ≡ some pay)
        × (0 < units_of q.amount)
        × (units_of q.amount
            ≤ pay.amount
              - m.sum_where Refund
                  (λ r. is_refund_of q.school q.tx r && same_status r.status confirmed)
                  (λ r. r.amount)
                  w.refunds)
        × (m.find_one Refund (λ r. is_refund_of q.school q.tx r && is_active r.status) w.refunds
            ≡ none)
        × (p ≡ (
          new_refund q,
          create_refund (new_refund q)
              ∷ save_payment (with_status now Status.refund_pending pay)
              ∷ create_event (initiated q.new_id)
              ∷ [],
        ))
  unfolding initiate_plan
  initiate_plan_inv q h =
      elim (Option-cases (
        m.find_one Paid (λ x. is_payment q.school q.tx x && is_status Status.success x.life.status)
          w.payments)) [
            | inl absent ↦ ground arith
            | inr (pay, found) ↦
                (pay, found, ground arith, ground arith, ground arith, ground arith)
          ]
