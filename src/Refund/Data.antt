-- ===== src/Refund/Data.antt =====
-- What backend/src/services/refundService.js reads and writes: refunds, payments, outbox events and
-- the errors that it throws. Amounts are whole numbers of 10^-7 units, the precision to which the
-- service rounds. Identifiers are numbers that are only compared; time stamps and display names
-- are left out.
use stellar_edu_pay.Common.{
  ℕ, Bool, true, false, List, [], ◌∷◌, Option, none, some, ◌==◌, any, if◌then◌else◌,
}
use stellar_edu_pay.Text.{Text}
use stellar_edu_pay.Payment.Model.{Payment}

-- The statuses of `refundSchema`.
pub data RefundStatus : Type 0 where
  approval_pending pending submitted confirmed rejected failed : RefundStatus

abbrev index : RefundStatus → ℕ
index approval_pending = 0
index pending = 1
index submitted = 2
index confirmed = 3
index rejected = 4
index failed = 5

abbrev pub same_status : RefundStatus → RefundStatus → Bool
same_status a b = index a == index b

-- `ACTIVE_REFUND_STATUSES`.
abbrev pub active_refund_statuses : List RefundStatus
active_refund_statuses = approval_pending ∷ pending ∷ submitted ∷ confirmed ∷ []

abbrev pub is_active : RefundStatus → Bool
is_active s = any (same_status s) active_refund_statuses

-- `REFUND_STATUS_TRANSITIONS`.
abbrev pub refund_status_transitions : RefundStatus → List RefundStatus
refund_status_transitions approval_pending = pending ∷ rejected ∷ failed ∷ []
refund_status_transitions pending = submitted ∷ failed ∷ []
refund_status_transitions submitted = confirmed ∷ failed ∷ []
refund_status_transitions confirmed = []
refund_status_transitions rejected = []
refund_status_transitions failed = []

-- A `userId`: absent or empty, the text 'unknown', or a stable one.
pub data UserId : Type 0 where
  missing unknown : UserId
  user : ℕ → UserId

-- The negation of `!principal || !principal.userId || principal.userId === 'unknown'`.
abbrev pub is_known : UserId → Bool
is_known missing = false
is_known unknown = false
is_known (user n) = true

-- `===` on two user ids.
abbrev pub same_user : UserId → UserId → Bool
same_user missing missing = true
same_user unknown unknown = true
same_user (user a) (user b) = a == b
same_user _ _ = false

pub record Refund : Type 0 where
  pub id : ℕ
  pub school_id : ℕ
  pub original_tx_hash : ℕ
  pub student_id : ℕ
  pub amount : ℕ
  pub status : RefundStatus
  pub reason : Text
  pub initiated_by : UserId
  pub approved_by : UserId
  pub rejected_by : UserId
  pub rejection_reason : Text
  pub refund_tx_hash : Text
  pub failure_reason : Text

-- The fields of a payment document that the service uses.
pub record Paid : Type 0 where
  pub id : ℕ
  pub school_id : ℕ
  pub tx_hash : ℕ
  pub amount : ℕ
  pub life : Payment

-- The outbox events, with what their payloads say of the refund.
pub data Event : Type 0 where
  initiated approved rejected_event : ℕ → Event
  status_changed : ℕ → RefundStatus → RefundStatus → Event

-- The codes of the errors; `aborted` is a transaction that does not commit.
pub data Code : Type 0 where
  unknown_principal lock_contended payment_not_found invalid_amount : Code
  exceeds_refundable already_exists not_found invalid_state : Code
  self_approval validation_error invalid_status_transition aborted : Code

pub data Result (A : Type 0) : Type 0 where
  ok : A → Result A
  err : Code → Result A

infixl 5 ◌>>=◌ ◌>>◌
abbrev pub ◌>>=◌ : {A B : Type 0} → Result A → (A → Result B) → Result B
ok a >>= f = f a
err e >>= f = err e

abbrev pub ◌>>◌ : {B : Type 0} → Result (Unit {0}) → Result B → Result B
m >> k = m >>= λ _. k

abbrev pub throw_if : Bool → Code → Result (Unit {0})
throw_if true e = err e
throw_if false e = ok tt

abbrev pub or_throw : {A : Type 0} → Option A → Code → Result A
or_throw none e = err e
or_throw (some a) e = ok a

-- `buildPrincipal`: the first of the candidates that is present, unless it is 'unknown'.
abbrev or_else : UserId → UserId → UserId
or_else missing v = v
or_else u v = u

unfoldable pub build_principal : UserId → UserId → UserId → UserId → Result UserId
build_principal admin_id admin__id admin_user performed_by =
    let u = or_else admin_id (or_else admin__id (or_else admin_user performed_by)) in
    if is_known u then ok u else err unknown_principal
