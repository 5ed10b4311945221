-- ===== src/Payment/Tests.antt =====
-- Runs of the payment life cycle, and its theorems at concrete payments.
use stellar_edu_pay.Common.{true, false, ◌≡◌, refl, ◌≢◌, [], ◌∷◌, some, none}
use stellar_edu_pay.Payment.Status.{
  Status, derive_confirmation_status, is_transition_allowed, LegacyStatus,
}
use stellar_edu_pay.Payment.Status.Histories.{here, next, was_paid, paid_never_fails, History}
use stellar_edu_pay.Payment.Confirmation.{State, Thresholds, poll, determine}
use stellar_edu_pay.Payment.Confirmation.Polling.{
  clean, target, suspicious, after_suspicion, poll-eq-target,
}
use stellar_edu_pay.Payment.Model.{Stored, Change, save, save_new, Payment, known, rejected}
use stellar_edu_pay.Payment.Model.Derived.{IsConsistent, save_all, saved-IsConsistent}

abbrev refund_history : History false Status.success Status.refunded
unfolding is_transition_allowed
refund_history = next {s = Status.refund_pending} (next {s = Status.success} here refl) refl

paid_never_fails_example :
    (was_paid Status.refunded ≡ true)
    × (derive_confirmation_status Status.refunded ≢ LegacyStatus.failed)
unfolding is_transition_allowed
paid_never_fails_example = paid_never_fails refund_history

abbrev thresholds : Thresholds
thresholds = record { confirmation = 5; finalization = 12 }

-- A lagging replica between two fresh ones, then a depth of 13 ledgers.
poll_runs :
    poll (some 100) thresholds State.detected (clean (102 ∷ 99 ∷ 106 ∷ 101 ∷ [])) ≡ State.confirmed
unfolding poll determine
poll_runs = refl

poll-eq-target_example :
    let polled = poll (some 100) thresholds State.detected (clean (102 ∷ 113 ∷ 101 ∷ [])) in
    (polled ≡ target (some 100) thresholds 113)
    × (poll (some 100) thresholds polled (suspicious none ∷ [])
        ≡ after_suspicion (target (some 100) thresholds 113))
    × (determine
          (some 100)
          thresholds
          State.detected
          (record { latest = some 102; is_suspicious = false })
        ≡ target (some 100) thresholds 102)
poll-eq-target_example = poll-eq-target (some 100) thresholds (102 ∷ 113 ∷ 101 ∷ []) none [] 102

abbrev fresh : Payment
fresh = record {
  status = known Status.pending;
  confirmation_state = State.failed;
  confirmation_status = LegacyStatus.confirmed;
  rejected_at = none;
}

abbrev of_status : Stored → Change
of_status s = record { new_status = some s; new_state = none; new_confirmation = none }

abbrev nothing : Change
nothing = record { new_status = none; new_state = none; new_confirmation = none }

-- The status with a wrong state beside it.
abbrev both : Change
both = record {
  new_status = some (known Status.failed);
  new_state = some State.finalized;
  new_confirmation = none;
}

saved-IsConsistent_example :
    IsConsistent (save_all ((7, of_status rejected) ∷ (9, nothing) ∷ []) (save_new 5 fresh))
    × IsConsistent (save 11 both fresh)
saved-IsConsistent_example =
    saved-IsConsistent 5 fresh ((7, of_status rejected) ∷ (9, nothing) ∷ []) 11 both fresh
      ((refl, refl), ((refl, refl), _)) refl

-- A save that assigns a derived field alone is not corrected.
state_alone :
    (save 11
      (record { new_status = none; new_state = some State.finalized; new_confirmation = none })
      fresh).confirmation_state
    ≡ State.finalized
unfolding save
state_alone = refl
