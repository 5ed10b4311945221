-- ===== src/Horizon.antt =====
-- The backend's dealings with Horizon: the shared request budget of the poller
-- (backend/src/services/horizonPollBudget.js), the circuit breaker
-- (backend/src/utils/circuitBreaker.js), and the retries of its calls
-- (backend/src/utils/withStellarRetry.js), below which endpoints are chosen
-- (backend/src/services/horizonFailoverClient.js).
pub mod Budget
pub mod Breaker
pub mod Retry
pub mod Failover
mod Tests
