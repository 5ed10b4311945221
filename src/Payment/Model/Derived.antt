-- ===== src/Payment/Model/Derived.antt =====
-- That the derived fields of backend/src/models/paymentModel.js cannot disagree, and where its
-- predicates differ from those of backend/src/constants/paymentStatus.js.
use stellar_edu_pay.Common.{
  ℕ, true, false, All, ap, refl, Bool-cases, inl, inr, sym, ◌∙◌, ◌≡◌, ◌≢◌, ◌↔◌, List, [], ◌∷◌, none,
  is_some, arith,
}
use mathlib.Core.Path.{subst}
use stellar_edu_pay.Payment.Status
use stellar_edu_pay.Payment.Status.{Status, LegacyStatus}
use stellar_edu_pay.Payment.Confirmation.{State, derive_legacy_confirmation_status}
use stellar_edu_pay.Payment.Model.{
  Stored, known, Payment, derive_confirmation_state, derive_confirmation_status, is_counted_as_paid,
  is_rejected, rejected, Change, assigned, same_stored, is_modified, sync_derived_lifecycle_fields,
  save, save_new,
}

-- What every saved document satisfies.
pub record IsConsistent (p : Payment) : Type 0 where
  pub state_derived : p.confirmation_state ≡ derive_confirmation_state p.status
  pub status_derived : p.confirmation_status ≡ derive_confirmation_status p.status
  pub views_agree : derive_legacy_confirmation_status p.confirmation_state ≡ p.confirmation_status
  pub rejection_stamped : is_rejected p.status ≡ true → is_some p.rejected_at ≡ true

same-eq : (a b : Status) → Status.same a b ≡ true → a ≡ b
same-eq a b h = ground arith

same_stored-eq : (a b : Stored) → same_stored a b ≡ true → a ≡ b
same_stored-eq (known a) (known b) h = ap known (same-eq a b h)
same_stored-eq rejected rejected h = refl
same_stored-eq (known a) rejected h = absurd (ground arith)
same_stored-eq rejected (known b) h = absurd (ground arith)

-- Saves in turn, each of what its caller has assigned.
abbrev pub save_all : List (ℕ × Change) → Payment → Payment
save_all [] p = p
save_all ((now, c) ∷ cs) p = save_all cs (save now c p)

-- Nothing is assigned to the two derived fields.
abbrev pub LeavesDerived : Change → Type 0
LeavesDerived c = (c.new_state ≡ none) × (c.new_confirmation ≡ none)

synced-IsConsistent :
    (now : ℕ) (p : Payment) → IsConsistent (sync_derived_lifecycle_fields now true p)
unfolding sync_derived_lifecycle_fields is_rejected derive_legacy_confirmation_status
synced-IsConsistent now p = ground arith

stamped-IsConsistent :
    (now : ℕ) (p : Payment)
    → IsConsistent p
    → IsConsistent (sync_derived_lifecycle_fields now false p)
unfolding sync_derived_lifecycle_fields is_rejected derive_legacy_confirmation_status
stamped-IsConsistent now p h = ground arith

modified-IsConsistent :
    (now : ℕ) (c : Change) (p : Payment) → is_modified c p ≡ true → IsConsistent (save now c p)
unfolding save
modified-IsConsistent now c p h = rw h (synced-IsConsistent now (assigned c p))

unmodified :
    (now : ℕ) (c : Change) (p : Payment)
    → is_modified c p ≡ false
    → save now c p ≡ sync_derived_lifecycle_fields now false (assigned c p)
unfolding save
unmodified now c p h = ap (λ b. sync_derived_lifecycle_fields now b (assigned c p)) h

assigned-same :
    (p : Payment) (s : Stored) (x : State) (y : LegacyStatus)
    → s ≡ p.status
    → x ≡ p.confirmation_state
    → y ≡ p.confirmation_status
    → record p { status = s; confirmation_state = x; confirmation_status = y } ≡ p
assigned-same p s x y e f g =
    ap (λ (z : Stored). record p { status = z; confirmation_state = x; confirmation_status = y }) e
    ∙ ap (λ (z : State). record p { confirmation_state = z; confirmation_status = y }) f
    ∙ ap (λ (z : LegacyStatus). record p { confirmation_status = z }) g

kept-IsConsistent :
    (c : Change) (p : Payment)
    → LeavesDerived c
    → is_modified c p ≡ false
    → IsConsistent p
    → IsConsistent (assigned c p)
kept-IsConsistent c p (a, b) m h =
    subst IsConsistent
      (sym (
        assigned-same p (assigned c p).status (assigned c p).confirmation_state
          (assigned c p).confirmation_status (same_stored-eq _ _ (ground (arith, m)))
          (ground (arith, a)) (ground (arith, b))))
      h

save-IsConsistent :
    (now : ℕ) (c : Change) (p : Payment)
    → LeavesDerived c
    → IsConsistent p
    → IsConsistent (save now c p)
save-IsConsistent now c p l h = elim (Bool-cases (is_modified c p)) [
  | inl changed ↦ modified-IsConsistent now c p changed
  | inr left ↦
      subst IsConsistent (sym (unmodified now c p left))
        (stamped-IsConsistent now (assigned c p) (kept-IsConsistent c p l left h))
]

save_all-IsConsistent :
    (cs : List (ℕ × Change)) (p : Payment)
    → All (λ x. LeavesDerived x.1) cs
    → IsConsistent p
    → IsConsistent (save_all cs p)
save_all-IsConsistent [] p l h = h
save_all-IsConsistent ((now, c) ∷ cs) p l h =
    save_all-IsConsistent cs (save now c p) l.1 (save-IsConsistent now c p l.0 h)

-- However a document was filled before its first save: after that save and any further ones that
-- assign nothing to the two legacy fields, these are those that `status` implies, the state
-- machine's own projection of the state is the stored confirmation status, and a rejected document
-- carries its time. A save that changes `status` makes this so for any document, whatever it had
-- and whatever else was assigned.
pub saved-IsConsistent :
    (now : ℕ) (p : Payment) (cs : List (ℕ × Change)) (later : ℕ) (c : Change) (d : Payment)
    → All (λ x. LeavesDerived x.1) cs
    → is_modified c d ≡ true
    → IsConsistent (save_all cs (save_new now p)) × IsConsistent (save later c d)
unfolding save_new
saved-IsConsistent now p cs later c d l m =
    (save_all-IsConsistent cs _ l (synced-IsConsistent now p), modified-IsConsistent later c d m)

-- The model's `isCountedAsPaid` and the one of the constants differ on REFUNDED and nowhere else,
-- and the two `deriveConfirmationStatus` differ on INVALID and nowhere else.
predicates_differ :
    (s : Status)
    → ((is_counted_as_paid (known s) ≡ Status.is_counted_as_paid s) ↔ (s ≢ Status.refunded))
      × ((derive_confirmation_status (known s) ≡ Status.derive_confirmation_status s)
          ↔ (s ≢ Status.invalid))
unfolding is_counted_as_paid derive_confirmation_status Status.is_counted_as_paid
    Status.derive_confirmation_status
predicates_differ s = ground arith
