-- ===== src/Refund/Plans.antt =====
-- The checks of backend/src/services/refundService.js, each up to the transaction that follows it:
-- what the operation returns and the writes of that transaction, or the error that it throws.
use stellar_edu_pay.Common.{
  ℕ, ◌-◌, Bool, true, false, not, ◌&&◌, List, [], ◌∷◌, Option, none, some, ◌==◌, ltb, any,
}
use stellar_edu_pay.Text.{Text, trim}
use stellar_edu_pay.Payment.Status.{Status, same}
use stellar_edu_pay.Payment.Model.{Stored, known, rejected, Payment}
use stellar_edu_pay.Payment.Model as Model
use stellar_edu_pay.Refund.Data.{
  RefundStatus, approval_pending, pending, confirmed, failed, same_status, is_active,
  refund_status_transitions, UserId, missing, is_known, same_user, Refund, Paid, initiated,
  approved, rejected_event, status_changed, Result, ok, ◌>>=◌, ◌>>◌, throw_if, or_throw,
  unknown_principal, payment_not_found, invalid_amount, exceeds_refundable, already_exists,
  not_found, invalid_state, self_approval, validation_error, invalid_status_transition,
}
use stellar_edu_pay.Refund.Store.{
  Mongo, World, Write, create_refund, save_refund, save_payment, create_event,
}

-- What an operation returns, and its writes.
abbrev pub Plan : Type 0
Plan = Refund × List Write

abbrev pub is_status : Status → Stored → Bool
is_status s (known t) = same s t
is_status s rejected = false

-- `!s || !s.trim()`.
abbrev pub is_blank : Text → Bool
is_blank s = elim (trim s) [ [] ↦ true | c ∷ cs ↦ false ]

-- `payment.status = s; payment.save()`, with the model's hook.
abbrev pub with_status : ℕ → Status → Paid → Paid
with_status now s p = record p { life = Model.write now (some (known s)) p.life }

-- The documents of one payment: `{ schoolId, txHash }` and `{ schoolId, originalTxHash }`.
abbrev pub is_payment : ℕ → ℕ → Paid → Bool
is_payment school tx p = p.school_id == school && p.tx_hash == tx

abbrev pub is_refund_of : ℕ → ℕ → Refund → Bool
is_refund_of school tx r = r.school_id == school && r.original_tx_hash == tx

abbrev pub is_refund : ℕ → ℕ → Refund → Bool
is_refund id school r = r.id == id && r.school_id == school

-- The amount that a caller asks for, a whole multiple of the precision where it is a number that is
-- not below zero; `unusable` is a missing one or NaN.
pub data Asked : Type 0 where
  unusable : Asked
  negative units : ℕ → Asked

abbrev pub units_of : Asked → ℕ
units_of unusable = 0
units_of (negative n) = 0
units_of (units n) = n

-- The arguments of `initiateRefund`, with the id that the new document gets.
pub record Request : Type 0 where
  pub new_id : ℕ
  pub school : ℕ
  pub tx : ℕ
  pub student : ℕ
  pub amount : Asked
  pub reason : Text
  pub principal : UserId

abbrev pub new_refund : Request → Refund
new_refund q = record {
  id = q.new_id;
  school_id = q.school;
  original_tx_hash = q.tx;
  student_id = q.student;
  amount = units_of q.amount;
  status = approval_pending;
  reason = q.reason;
  initiated_by = q.principal;
  approved_by = missing;
  rejected_by = missing;
  rejection_reason = [];
  refund_tx_hash = [];
  failure_reason = [];
}

module _ (m : Mongo) (now : ℕ) where
  -- `initiateRefund`, under the lock. `!amount || amount <= 0` holds of what has no units. `-` stops at 0, which refuses every amount that passes
  -- the test before, as the negative difference does.
  unfoldable pub initiate_plan : Request → World → Result Plan
  initiate_plan q w = do
    payment ←
        or_throw
          (m.find_one Paid
            (λ p. is_payment q.school q.tx p && is_status Status.success p.life.status) w.payments)
          payment_not_found
    throw_if (not (ltb 0 (units_of q.amount))) invalid_amount
    throw_if
        (ltb
          (payment.amount
            - m.sum_where Refund
                (λ r. is_refund_of q.school q.tx r && same_status r.status confirmed)
                (λ r. r.amount) w.refunds)
          (units_of q.amount))
        exceeds_refundable
    throw_if
        (elim (m.find_one Refund (λ r. is_refund_of q.school q.tx r && is_active r.status)
          w.refunds) [ none ↦ false | some r ↦ true ])
        already_exists
    ok (
      new_refund q,
      create_refund (new_refund q)
          ∷ save_payment (with_status now Status.refund_pending payment)
          ∷ create_event (initiated q.new_id)
          ∷ [],
    )

  -- The common head of the operations on one refund: `Refund.findOne({ _id, schoolId })`.
  find_refund : ℕ → ℕ → World → Result Refund
  find_refund id school w = or_throw (m.find_one Refund (is_refund id school) w.refunds) not_found

  -- `approveRefund`.
  unfoldable pub approve_plan : ℕ → UserId → ℕ → World → Result Plan
  unfolding find_refund
  approve_plan id principal school w = do
    throw_if (not (is_known principal)) unknown_principal
    refund ← find_refund id school w
    throw_if (not (same_status refund.status approval_pending)) invalid_state
    throw_if (same_user refund.initiated_by principal) self_approval
    let updated : Refund = record refund { status = pending; approved_by = principal }
    ok (updated, save_refund updated ∷ create_event (approved id) ∷ [])

  -- `rejectRefund`, up to the lock.
  unfoldable pub reject_checks : ℕ → UserId → Text → ℕ → World → Result Refund
  unfolding find_refund
  reject_checks id principal reason school w = do
    throw_if (not (is_known principal)) unknown_principal
    throw_if (is_blank reason) validation_error
    refund ← find_refund id school w
    throw_if (not (same_status refund.status approval_pending)) invalid_state
    throw_if (same_user refund.initiated_by principal) self_approval
    ok refund

  find_payment : ℕ → ℕ → World → Result Paid
  find_payment school tx w =
      or_throw (m.find_one Paid (is_payment school tx) w.payments) payment_not_found

  -- `rejectRefund`, under the lock, on the refund that was read before it.
  unfoldable pub reject_plan : Refund → UserId → Text → World → Result Plan
  unfolding find_payment
  reject_plan refund principal reason w = do
    payment ← find_payment refund.school_id refund.original_tx_hash w
    let updated : Refund = record refund {
      status = RefundStatus.rejected;
      rejected_by = principal;
      rejection_reason = reason;
    }
    ok (
      updated,
      save_refund updated
          ∷ save_payment (with_status now Status.success payment)
          ∷ create_event (rejected_event refund.id)
          ∷ [],
    )

  -- `completeRefund`, up to the lock and under it.
  unfoldable pub complete_checks : ℕ → Text → UserId → ℕ → World → Result Refund
  unfolding find_refund
  complete_checks id tx_hash principal school w = do
    throw_if (not (is_known principal)) unknown_principal
    throw_if (is_blank tx_hash) validation_error
    refund ← find_refund id school w
    throw_if (not (same_status refund.status pending)) invalid_state
    ok refund

  unfoldable pub complete_plan : Refund → Text → World → Result Plan
  unfolding find_payment
  complete_plan refund tx_hash w = do
    payment ← find_payment refund.school_id refund.original_tx_hash w
    let updated : Refund = record refund { status = confirmed; refund_tx_hash = tx_hash }
    ok (
      updated,
      save_refund updated
          ∷ save_payment (with_status now Status.refunded payment)
          ∷ create_event (status_changed refund.id pending confirmed)
          ∷ [],
    )

  unfoldable pub is_refund_in : ℕ → Option ℕ → Refund → Bool
  is_refund_in id none r = r.id == id
  is_refund_in id (some school) r = is_refund id school r

  -- `updateRefundStatus`: the read before the lock, and the same read under it with the rest.
  unfoldable pub update_checks : ℕ → Option ℕ → World → Result Refund
  unfolding is_refund_in
  update_checks id school w =
      or_throw (m.find_one Refund (is_refund_in id school) w.refunds) not_found

  -- `if (newStatus === 'confirmed' && txHash) … else if (newStatus === 'failed' && failureReason)`.
  abbrev pub moved : RefundStatus → Text → Text → Refund → Refund
  moved confirmed (c ∷ cs) why r = record r { status = confirmed; refund_tx_hash = c ∷ cs }
  moved failed tx (c ∷ cs) r = record r { status = failed; failure_reason = c ∷ cs }
  moved s tx why r = record r { status = s }

  unfoldable pub update_plan : ℕ → RefundStatus → Text → Text → Option ℕ → World → Result Plan
  unfolding update_checks
  update_plan id new_status tx why school w = do
    refund ← update_checks id school w
    throw_if (not (any (same_status new_status) (refund_status_transitions refund.status)))
        invalid_status_transition
    let updated : Refund = moved new_status tx why refund
    ok (
      updated,
      save_refund updated ∷ create_event (status_changed id refund.status new_status) ∷ [],
    )
