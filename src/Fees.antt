-- ===== src/Fees.antt =====
-- backend/src/services/feeAdjustmentService.js: the fee after the adjustment rules of a school.
pub mod Rules
pub mod Loop
pub mod Bounds
pub mod Policies
pub mod Sorting
pub mod Determinism
mod Tests
