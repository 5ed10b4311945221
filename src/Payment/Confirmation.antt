-- ===== src/Payment/Confirmation.antt =====
-- backend/src/services/paymentConfirmationStateMachine.js: the pure state machine that follows a
-- payment from its first sight on the ledger to finality, and the poll that drives it
-- (`determineConfirmationState` of backend/src/services/stellarService.js).
pub mod Polling
use stellar_edu_pay.Common.{
  ℕ, ◌+◌, Bool, true, false, not, ◌&&◌, ◌||◌, List, [], ◌∷◌, Option, none, some, ◌==◌, leb,
  if◌then◌else◌, any,
}
use stellar_edu_pay.Payment.Status.{LegacyStatus}

-- `CONFIRMATION_STATES`.
pub data State : Type 0 where
  detected pending confirmed finalized failed : State

-- `STATE_RANK`.
abbrev pub rank : State → ℕ
rank detected = 0
rank pending = 1
rank confirmed = 2
rank finalized = 3
rank failed = 99

abbrev same : State → State → Bool
same a b = rank a == rank b

-- `TERMINAL_STATES.has`.
abbrev pub is_terminal : State → Bool
is_terminal s = same s finalized || same s failed

-- `CONFIRMATION_STATE_TRANSITIONS`.
abbrev transitions : State → List State
transitions detected = pending ∷ confirmed ∷ finalized ∷ failed ∷ []
transitions pending = confirmed ∷ finalized ∷ failed ∷ []
transitions confirmed = finalized ∷ failed ∷ []
transitions finalized = []
transitions failed = []

-- The two thresholds of the configuration, in ledgers.
pub record Thresholds : Type 0 where
  pub confirmation : ℕ
  pub finalization : ℕ

-- `!txLedger || !latestLedgerSequence`: a missing ledger, or ledger 0.
abbrev is_absent : Option ℕ → Bool
is_absent none = true
is_absent (some n) = n == 0

abbrev sequence : Option ℕ → ℕ
sequence none = 0
sequence (some n) = n

-- `depth >= n` for the signed `depth = latest - tx`: a lagging replica may report `latest < tx`.
abbrev deep : ℕ → ℕ → ℕ → Bool
deep tx latest n = leb (tx + n) latest

-- `computeTargetState`.
unfoldable pub compute_target_state : Option ℕ → Option ℕ → Bool → Thresholds → State
compute_target_state tx latest is_suspicious t =
    if is_suspicious
    then failed
    else if is_absent tx || is_absent latest
    then detected
    else if deep (sequence tx) (sequence latest) t.finalization
    then finalized
    else if deep (sequence tx) (sequence latest) t.confirmation
    then confirmed
    else if deep (sequence tx) (sequence latest) 1
    then pending
    else detected

pub record Resolved : Type 0 where
  pub state : State
  pub changed : Bool

-- `resolveNextState`. The current state `none` is a missing or unknown one, which the code reads
-- as DETECTED. That the target is one of the five states is the type here, an exception there.
abbrev current_or_detected : Option State → State
current_or_detected none = detected
current_or_detected (some s) = s

resolve : State → State → Resolved
resolve current target =
    if is_terminal current
    then record { state = current; changed = false }
    else if leb (rank target) (rank current) && not (same target failed)
    then record { state = current; changed = false }
    else if not (any (same target) (transitions current))
    then record { state = current; changed = false }
    else record { state = target; changed = true }

unfoldable pub resolve_next_state : Option State → State → Resolved
unfolding resolve
resolve_next_state current target = resolve (current_or_detected current) target

-- `deriveLegacyConfirmationStatus`.
unfoldable pub derive_legacy_confirmation_status : State → LegacyStatus
derive_legacy_confirmation_status s =
    if same s failed
    then LegacyStatus.failed
    else if same s confirmed || same s finalized
    then LegacyStatus.confirmed
    else LegacyStatus.pending_confirmation

-- `isConfirmedOrAbove`. The rank of FAILED is 99, so it passes this test.
unfoldable pub is_confirmed_or_above : State → Bool
is_confirmed_or_above s = leb (rank confirmed) (rank s)

-- What one call of `determineConfirmationState` sees.
pub record Sighting : Type 0 where
  pub latest : Option ℕ
  pub is_suspicious : Bool

-- `determineConfirmationState`: the target of a sighting, resolved against the stored state.
unfoldable pub determine : Option ℕ → Thresholds → State → Sighting → State
unfolding compute_target_state resolve_next_state
determine tx t current seen =
    (resolve_next_state (some current)
      (compute_target_state tx seen.latest seen.is_suspicious t)).state

-- Calls in turn, each on the state that the one before has resolved.
unfoldable pub poll : Option ℕ → Thresholds → State → List Sighting → State
poll tx t current [] = current
poll tx t current (seen ∷ rest) = poll tx t (determine tx t current seen) rest
