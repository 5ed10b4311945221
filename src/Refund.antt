-- ===== src/Refund.antt =====
-- backend/src/services/refundService.js: the life of a refund, from the request through the
-- approval by a second person to its confirmation on the ledger.
pub mod Data
pub mod Store
pub mod Plans
pub mod Service
mod Inversion
mod Keeping
mod Success
pub mod Approval
pub mod Amounts
pub mod Updates
mod Tests
