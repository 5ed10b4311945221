-- ===== src/Balance/Totals.antt =====
-- The canonical total of a student's payments (backend/src/utils/studentBalanceUpdater.js).
use stellar_edu_pay.Common.{
  ℕ, ◌≡◌, refl, ap, ◌∙◌, true, false, List, [], ◌∷◌, ◌++◌, Option, if◌then◌else◌, filter, arith,
  Bool-cases, inl, inr,
}
use stellar_edu_pay.Common.Int.{ℤ, pos, ◌+ℤ◌, int_laws}
use stellar_edu_pay.Payment.Status.{Status, success, same}
use stellar_edu_pay.Balance.Decimals.{Decimals}
use stellar_edu_pay.Balance.Students.{
  PaymentDoc, canonical_paid_match, sum_amounts, or_zero, group_total, sum_canonical_payments,
}

module _ (D : Decimals) where
  -- What one payment adds to the total.
  abbrev pub counted : ℕ → ℕ → Option ℕ → PaymentDoc D.Number → ℤ
  counted school student category p =
      if canonical_paid_match school student category p
      then D.units (D.decimal128 p.amount)
      else pos 0

  abbrev pub counted_all : ℕ → ℕ → Option ℕ → List (PaymentDoc D.Number) → ℤ
  counted_all school student category [] = pos 0
  counted_all school student category (p ∷ ps) =
      counted school student category p +ℤ counted_all school student category ps

  units-sum_amounts :
      (school student : ℕ) (category : Option ℕ) (ps : List (PaymentDoc D.Number))
      → D.units (sum_amounts D (filter (canonical_paid_match school student category) ps))
        ≡ counted_all school student category ps
  unfolding sum_amounts
  units-sum_amounts school student category [] = D.units-zero
  units-sum_amounts school student category (p ∷ ps) =
      elim (Bool-cases (canonical_paid_match school student category p)) [
        | inl counts ↦ rw (counts, D.units-plus, units-sum_amounts school student category ps) refl
        | inr skipped ↦ rw (skipped, units-sum_amounts school student category ps) (grind int_laws)
      ]

  or_zero-group :
      (ps : List (PaymentDoc D.Number)) → or_zero D (group_total D ps) ≡ sum_amounts D ps
  unfolding sum_amounts
  or_zero-group [] = refl
  or_zero-group (p ∷ ps) = refl

  pub units-sum_canonical_payments :
      (school student : ℕ) (category : Option ℕ) (ps : List (PaymentDoc D.Number))
      → D.units (sum_canonical_payments D school student category ps)
        ≡ counted_all school student category ps
  unfolding sum_canonical_payments
  units-sum_canonical_payments school student category ps =
      ap D.units (or_zero-group (filter (canonical_paid_match school student category) ps))
      ∙ units-sum_amounts school student category ps

  counted_all-append :
      (school student : ℕ) (category : Option ℕ) (xs ys : List (PaymentDoc D.Number))
      → counted_all school student category (xs ++ ys)
        ≡ counted_all school student category xs +ℤ counted_all school student category ys
  counted_all-append school student category [] ys = grind int_laws
  counted_all-append school student category (x ∷ xs) ys =
      rw (counted_all-append school student category xs ys) (grind int_laws)

  -- When a payment that counts gets a status other than SUCCESS, such as FAILED, DISPUTED or
  -- REFUNDED, `sumCanonicalPayments` falls by exactly the amount of that payment, wherever it stands
  -- among the student's payments.
  pub reversal_exact :
      (school student : ℕ) (category : Option ℕ) (xs ys : List (PaymentDoc D.Number))
      → (p : PaymentDoc D.Number) (s : Status)
      → canonical_paid_match school student category p ≡ true
      → same s success ≡ false
      → D.units (sum_canonical_payments D school student category (xs ++ p ∷ ys))
        ≡ D.units
            (sum_canonical_payments D school student category (xs ++ record p { status = s } ∷ ys))
          +ℤ D.units (D.decimal128 p.amount)
  unfolding canonical_paid_match
  reversal_exact school student category xs ys p s h e =
      let q : PaymentDoc D.Number = record p { status = s } in
      let off : canonical_paid_match school student category q ≡ false = ground arith in
      units-sum_canonical_payments school student category (xs ++ p ∷ ys)
      ∙ counted_all-append school student category xs (p ∷ ys)
      ∙ rw
          (
            units-sum_canonical_payments school student category (xs ++ q ∷ ys),
            counted_all-append school student category xs (q ∷ ys),
            h,
            off,
          )
          (grind int_laws)
