-- ===== src/Lib.antt =====
-- StellarEduPay, a school fee payment system on the Stellar ledger: the core logic of its backend.
--
-- The backend watches a school's Stellar account, stores what it finds as payment documents, and
-- moves each along a life cycle until it is final. Payment models that life cycle:
-- Payment/Status.antt is backend/src/constants/paymentStatus.js (PAYMENT_STATUS and its transition
-- tables), Payment/Confirmation.antt is backend/src/services/paymentConfirmationStateMachine.js
-- with the poll determineConfirmationState of backend/src/services/stellarService.js, and
-- Payment/Model.antt is the life-cycle part of backend/src/models/paymentModel.js with its save
-- hook. The confirmation state is a separate axis that the polls raise from the depth of the
-- ledger; the save hook derives it again from the status.
--
-- Money is backend/src/utils/stellarAmount.js: decimal text to whole stroops and back, sums and
-- comparisons. A text is the list of its UTF-16 code units (Text.antt); BigInt is the whole
-- numbers of Common/Int.antt. A number is printed with a fuel of one more than the number, which
-- is enough because it has at most that many digits.
--
-- Horizon holds what protects the ledger's API from the backend: Horizon/Budget.antt is the class
-- HorizonPollBudget of backend/src/services/horizonPollBudget.js, Horizon/Breaker.antt the class
-- CircuitBreaker of backend/src/utils/circuitBreaker.js, and Horizon/Retry.antt the retries of
-- backend/src/utils/withStellarRetry.js, a loop by recursion on the attempts that are left.
-- Horizon/Failover.antt is backend/src/services/horizonFailoverClient.js, whose loop is by
-- recursion on the number of endpoints not tried yet, which each turn lowers by one. Clocks are
-- arguments, in milliseconds.
--
-- Lock.antt is backend/src/services/distributedLock.js in its in-process mode: keys and tokens are
-- numbers that are only compared, and each call carries the time at which it is made. The Redis
-- mode runs scripts on a server and is not modelled. The watchdog is a sequence of renewals.
--
-- Refund models backend/src/services/refundService.js on top of Lock and Payment/Model:
-- Refund/Plans.antt has the checks of each operation and the writes of its transaction,
-- Refund/Service.antt composes them with the lock and the transaction, and Refund/Store.antt is
-- the interface of MongoDB, as documented, which the theorems take as a parameter. Refund amounts
-- are whole multiples of the precision to which the service rounds. Whether a transaction commits
-- is chosen by the environment. After a completed refund the code recalculates the student's
-- balance and emits an in-process event; neither is modelled.
--
-- Idempotency models backend/src/services/idempotencyStore.js (Idempotency/Store.antt) and
-- backend/src/middleware/idempotency.js (Idempotency/Middleware.antt) with REDIS_HOST unset. The
-- collection of backend/src/models/idempotencyKeyModel.js is the interface
-- Idempotency/Collection.antt, with the documented behaviour of mongoose; Idempotency/Records.antt
-- and Idempotency/Answers.antt hold the lemmas. Canonical keys and fingerprints, which are hashes
-- in the code, are numbers that are only compared. MongoDB deletes a record some time after the
-- end of its TTL, which is a step of its own.
--
-- Limits models backend/src/services/paymentLimitsService.js and validatePaymentAmount of
-- backend/src/utils/paymentLimits.js: Limits/Data.antt has the documents, their validation and the
-- choice among them, Limits/Service.antt the cache and the database, again an interface. Finite
-- numbers, which are only compared, are integers; toUpperCase of an asset code is a parameter.
--
-- Requests.antt models the class RequestQueue of
-- backend/src/middleware/concurrentRequestHandler.js, Requests/Breaker.antt its circuit breaker,
-- Requests/Dedup.antt its deduplicator and Requests/Limiter.antt its rate limiter with the store
-- in memory, Redis being left out: requests wait by priority for a place, and what the runtime
-- delivers later, an operation that settles or a timer that fires, is a call of its own.
--
-- Balance models what a student has paid: Balance/Classify.antt is backend/src/utils/money.js,
-- over the interface Balance/Decimals.antt of the exact decimals of decimal.js, and
-- Balance/Students.antt is backend/src/utils/studentBalanceUpdater.js, which sums the payments
-- whose status (Payment/Status.antt) counts, classifies the sum against the fee and stores the
-- result in the student, its fee categories and the fee of the current period. The updater runs
-- within a transaction; concurrent updates are one after the other.
--
-- Fees is backend/src/services/feeAdjustmentService.js with the rules of
-- backend/src/models/feeAdjustmentRuleModel.js: Fees/Rules.antt has the rules and JavaScript's
-- numbers, an interface with laws of IEEE 754, Fees/Loop.antt the loop that applies them and
-- Fees/Sorting.antt the order in which the stored rules come. The engine of
-- backend/src/services/feeAdjustmentEngine.js, which is not on the live path, is not modelled.
--
-- Leader is backend/src/services/leaderElection.js: Leader.antt has the operations on the document
-- of the lock and the steps of the instances that share it, and Leader/Jobs.antt the durable jobs.
-- The file uses a model with a path expiresAt; the schema of
-- backend/src/models/systemConfigModel.js has none, and mongoose drops what a schema does not
-- have, so the model has a flag for it that the theorems set as the schema does.
--
-- Memo is the encoder of frontend/src/utils/stellarMemo.js and the decoder of
-- backend/src/utils/stellarMemo.js: Memo/Hex.antt and Memo/Base64.antt write out the text formats
-- of the runtime, and Memo/Codec.antt the two files. Upper case outside ASCII is a parameter.
-- Printing in hexadecimal has a fuel of one more than the number, which is enough because it has
-- at most that many digits.
--
-- Outbox is backend/src/services/outboxDispatcher.js: Outbox.antt has the events of
-- backend/src/models/outboxModel.js, their claims, deliveries and retries, Outbox/Histories.antt
-- attempts at one event, one after another, Outbox/Shared.antt the steps of dispatchers that share
-- one event, in any interleaving, and Outbox/Timer.antt the timer that runs the batches. A
-- listener is its name, and its outcome says whether it and the write that records it succeed; the
-- calls made are a part of the result. The loop of a batch is by recursion on what is left of its
-- size.
--
-- Not modelled: time stamps kept for display, the text of errors and log lines everywhere; and
-- controllers, routes, authentication, notifications, reports and the pages of the frontend, which
-- are glue around libraries. Retry queues, webhooks and reconciliation are left for later.
pub mod Common
pub mod Text
pub mod Money
pub mod Payment
pub mod Lock
pub mod Refund
pub mod Horizon
pub mod Idempotency
pub mod Limits
pub mod Requests
pub mod Balance
pub mod Fees
pub mod Leader
pub mod Memo
pub mod Outbox
