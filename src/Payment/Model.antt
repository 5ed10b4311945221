-- ===== src/Payment/Model.antt =====
-- backend/src/models/paymentModel.js: the life-cycle fields of a payment document, the hook that
-- derives two of them from `status` on every save, and the predicates exposed on the model.
pub mod Derived
use stellar_edu_pay.Common.{ℕ, Bool, true, false, not, ◌||◌, Option, none, some, if◌then◌else◌}
use stellar_edu_pay.Payment.Status
use stellar_edu_pay.Payment.Status.{Status, LegacyStatus}
use stellar_edu_pay.Payment.Confirmation.{State}

-- The `enum` of the field `status`: `PAYMENT_STATUS_VALUES` and 'REJECTED'.
pub data Stored : Type 0 where
  known : Status → Stored
  rejected : Stored

-- The life-cycle fields of a document. `rejected_at` is a time in milliseconds.
pub record Payment : Type 0 where
  pub status : Stored
  pub confirmation_state : State
  pub confirmation_status : LegacyStatus
  pub rejected_at : Option ℕ

-- `deriveConfirmationState` of the model: `STATUS_TO_CONFIRMATION_STATE[status] || DETECTED`.
unfoldable pub derive_confirmation_state : Stored → State
derive_confirmation_state (known Status.pending) = State.detected
derive_confirmation_state (known Status.submitted) = State.pending
derive_confirmation_state (known Status.success) = State.finalized
derive_confirmation_state (known Status.failed) = State.failed
derive_confirmation_state (known Status.refunded) = State.finalized
derive_confirmation_state rejected = State.failed
derive_confirmation_state _ = State.detected

-- `deriveConfirmationStatus` of the model.
unfoldable pub derive_confirmation_status : Stored → LegacyStatus
derive_confirmation_status (known Status.pending) = LegacyStatus.pending_confirmation
derive_confirmation_status (known Status.submitted) = LegacyStatus.pending_confirmation
derive_confirmation_status (known Status.success) = LegacyStatus.confirmed
derive_confirmation_status (known Status.failed) = LegacyStatus.failed
derive_confirmation_status (known Status.refunded) = LegacyStatus.confirmed
derive_confirmation_status rejected = LegacyStatus.failed
derive_confirmation_status _ = LegacyStatus.pending_confirmation

-- `isCountedAsPaid` of the model.
unfoldable pub is_counted_as_paid : Stored → Bool
is_counted_as_paid (known s) = Status.same s Status.success || Status.same s Status.refunded
is_counted_as_paid rejected = false

-- `isRejected`, which is also what `existingPaymentFilter` excludes.
unfoldable pub is_rejected : Stored → Bool
is_rejected (known s) = false
is_rejected rejected = true

stamp_rejection : ℕ → Stored → Option ℕ → Option ℕ
stamp_rejection now rejected none = some now
stamp_rejection now _ at = at

-- The hook `syncDerivedLifecycleFields`; `touched` is `this.isModified('status') || this.isNew`.
unfoldable pub sync_derived_lifecycle_fields : ℕ → Bool → Payment → Payment
unfolding derive_confirmation_state derive_confirmation_status stamp_rejection
sync_derived_lifecycle_fields now touched p =
    let q : Payment =
      if touched
      then record p {
        confirmation_state = derive_confirmation_state p.status;
        confirmation_status = derive_confirmation_status p.status;
      }
      else p in
    record q { rejected_at = stamp_rejection now q.status q.rejected_at }

-- What a caller assigns to the life-cycle fields before it saves; `none` leaves a field alone.
pub record Change : Type 0 where
  pub new_status : Option Stored
  pub new_state : Option State
  pub new_confirmation : Option LegacyStatus

abbrev or_kept : {A : Type 0} → Option A → A → A
or_kept none old = old
or_kept (some a) old = a

abbrev pub assigned : Change → Payment → Payment
assigned c p = record p {
  status = or_kept c.new_status p.status;
  confirmation_state = or_kept c.new_state p.confirmation_state;
  confirmation_status = or_kept c.new_confirmation p.confirmation_status;
}

abbrev pub same_stored : Stored → Stored → Bool
same_stored (known a) (known b) = Status.same a b
same_stored rejected rejected = true
same_stored _ _ = false

-- `isModified('status')` behind an assignment: mongoose ignores an equal value.
abbrev pub is_modified : Change → Payment → Bool
is_modified c p = not (same_stored (or_kept c.new_status p.status) p.status)

-- `save()` of a document that was read, and of a new one.
unfoldable pub save : ℕ → Change → Payment → Payment
unfolding sync_derived_lifecycle_fields
save now c p = sync_derived_lifecycle_fields now (is_modified c p) (assigned c p)

unfoldable pub save_new : ℕ → Payment → Payment
unfolding sync_derived_lifecycle_fields
save_new now p = sync_derived_lifecycle_fields now true p

-- An assignment of `status`, or none, and then `save()`.
unfoldable pub write : ℕ → Option Stored → Payment → Payment
unfolding save
write now s p = save now (record { new_status = s; new_state = none; new_confirmation = none }) p
