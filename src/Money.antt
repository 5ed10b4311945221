-- ===== src/Money.antt =====
-- Exact money: amounts in stroops (backend/src/utils/stellarAmount.js).
pub mod Amount
mod Tests
