-- ===== src/Limits.antt =====
-- Payment limits: backend/src/services/paymentLimitsService.js and the check of an amount in
-- backend/src/utils/paymentLimits.js.
pub mod Data
pub mod Service
pub mod Sane
pub mod Writes
mod Tests
