-- ===== src/Balance.antt =====
-- backend/src/utils/money.js and backend/src/utils/studentBalanceUpdater.js: what a student has
-- paid, and how that compares with the fee.
pub mod Decimals
pub mod Classify
mod Orders
pub mod Exactness
mod Instalments
pub mod Students
pub mod Totals
pub mod Updates
mod Tests
