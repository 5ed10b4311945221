-- ===== src/Payment.antt =====
-- The life of a payment record: its business status (backend/src/constants/paymentStatus.js) and
-- its confirmation state on the ledger (backend/src/services/paymentConfirmationStateMachine.js).
pub mod Status
pub mod Confirmation
pub mod Model
mod Tests
