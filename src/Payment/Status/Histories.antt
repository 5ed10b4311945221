-- ===== src/Payment/Status/Histories.antt =====
-- What the transition tables of backend/src/constants/paymentStatus.js allow over a whole history.
use stellar_edu_pay.Common.{Bool, true, ◌||◌, ◌≡◌, refl, ◌∙◌, arith, ◌≢◌}
use stellar_edu_pay.Payment.Status.{
  Status, success, disputed, refund_pending, refunded, invalid, same, is_transition_allowed,
  LegacyStatus, derive_confirmation_status,
}

-- A status reached from another by transitions, each of which one of the two tables allows.
pub data History (admin : Bool) (from : Status) : Status → Type 0 where
  here : History admin from from
  next :
      {s t : Status}
      → History admin from s
      → is_transition_allowed s t admin ≡ true
      → History admin from t

-- The statuses of a payment that has been confirmed once.
abbrev pub was_paid : Status → Bool
was_paid s = same s success || same s disputed || same s refund_pending || same s refunded

was_paid-step :
    (s t : Status) (admin : Bool)
    → was_paid s ≡ true
    → is_transition_allowed s t admin ≡ true
    → was_paid t ≡ true
unfolding is_transition_allowed
was_paid-step s t admin h a = ground arith

was_paid-History :
    {admin : Bool} {s t : Status} → was_paid s ≡ true → History admin s t → was_paid t ≡ true
was_paid-History h here = h
was_paid-History h (next {s} {t} r a) = was_paid-step s t _ (was_paid-History h r) a

was_paid-not_failed :
    (t : Status) → was_paid t ≡ true → derive_confirmation_status t ≢ LegacyStatus.failed
unfolding derive_confirmation_status
was_paid-not_failed t h e = ground arith

-- From SUCCESS every sequence of transitions, with the admin table too, stays among SUCCESS,
-- DISPUTED, REFUND_PENDING and REFUNDED, and the derived confirmation status is never `failed`.
pub paid_never_fails :
    {admin : Bool} {t : Status}
    → History admin success t
    → (was_paid t ≡ true) × (derive_confirmation_status t ≢ LegacyStatus.failed)
paid_never_fails {t} h =
    let p : was_paid t ≡ true = was_paid-History refl h in (p, was_paid-not_failed t p)

abbrev pub is_final : Status → Bool
is_final s = same s refunded || same s invalid

is_final-step :
    (s t : Status) (admin : Bool)
    → is_final s ≡ true
    → is_transition_allowed s t admin ≡ true
    → t ≡ s
unfolding is_transition_allowed
is_final-step s t admin h a = ground arith

-- REFUNDED and INVALID are final under both tables: a history that starts in one stays there.
final_stays : {admin : Bool} {s t : Status} → is_final s ≡ true → History admin s t → t ≡ s
final_stays h here = refl
final_stays {admin} {s} h (next {s = u} {t = t} r a) =
    let e : u ≡ s = final_stays h r in let f : t ≡ u = is_final-step u t admin (rw e h) a in f ∙ e
