-- ===== src/Payment/Status.antt =====
-- backend/src/constants/paymentStatus.js: the status values, the two transition tables and the
-- predicates that are derived from a status.
pub mod Histories
use stellar_edu_pay.Common.{ℕ, Bool, true, false, ◌||◌, List, [], ◌∷◌, ◌==◌, if◌then◌else◌, any}

-- `PAYMENT_STATUS`.
pub data Status : Type 0 where
  pending submitted success failed disputed refund_pending refunded invalid : Status

abbrev index : Status → ℕ
index pending = 0
index submitted = 1
index success = 2
index failed = 3
index disputed = 4
index refund_pending = 5
index refunded = 6
index invalid = 7

-- `===` on two status strings.
abbrev pub same : Status → Status → Bool
same a b = index a == index b

-- `PAYMENT_STATUS_TRANSITIONS`; a status with no entry has `table[from] || []`.
pub transitions : Status → List Status
transitions success = disputed ∷ refund_pending ∷ []
transitions refund_pending = refunded ∷ success ∷ []
transitions pending = success ∷ failed ∷ []
transitions submitted = failed ∷ []
transitions _ = []

-- `ADMIN_PAYMENT_STATUS_TRANSITIONS`.
pub admin_transitions : Status → List Status
admin_transitions success = disputed ∷ refund_pending ∷ refunded ∷ []
admin_transitions refund_pending = refunded ∷ success ∷ []
admin_transitions pending = success ∷ failed ∷ []
admin_transitions submitted = failed ∷ []
admin_transitions disputed = refunded ∷ []
admin_transitions failed = success ∷ disputed ∷ []
admin_transitions _ = []

-- `isTransitionAllowed(from, to, adminOverride)`.
unfoldable pub is_transition_allowed : Status → Status → Bool → Bool
unfolding transitions admin_transitions
is_transition_allowed from to admin =
    any (same to) (if admin then admin_transitions from else transitions from)

-- `COUNTED_AS_PAID_STATUSES`.
abbrev counted_as_paid_statuses : List Status
counted_as_paid_statuses = success ∷ []

-- `isCountedAsPaid`.
unfoldable pub is_counted_as_paid : Status → Bool
is_counted_as_paid status = any (same status) counted_as_paid_statuses

-- The values of the legacy field `confirmationStatus`.
pub data LegacyStatus : Type 0 where
  pending_confirmation confirmed failed : LegacyStatus

-- `deriveConfirmationStatus`.
unfoldable pub derive_confirmation_status : Status → LegacyStatus
derive_confirmation_status status =
    if same status success || same status refunded
    then LegacyStatus.confirmed
    else if same status Status.failed || same status invalid
    then LegacyStatus.failed
    else LegacyStatus.pending_confirmation

-- `deriveConfirmationState`, which the `pre('save')` hook of the payment model writes into
-- `confirmationState`.
unfoldable pub derive_confirmation_state : Status → LegacyStatus
unfolding derive_confirmation_status
derive_confirmation_state status = derive_confirmation_status status
