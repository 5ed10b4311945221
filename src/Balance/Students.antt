-- ===== src/Balance/Students.antt =====
-- The stored balances of backend/src/utils/studentBalanceUpdater.js. The collections are a list of
-- payments, in any order, and functions from the keys of the other documents; the updater runs
-- within one transaction.
use stellar_edu_pay.Common.{
  ℕ, Bool, true, false, not, ◌&&◌, List, [], ◌∷◌, map, Option, none, some, leb, ◌==◌, if◌then◌else◌,
  filter,
}
use stellar_edu_pay.Payment.Status.{Status, success, same}
use stellar_edu_pay.Balance.Decimals.{Decimals}
use stellar_edu_pay.Balance.Classify.{Classification, classify_amounts}

-- The properties of a payment that the balance reads. `deleted` tells whether `deletedAt` is set.
pub record PaymentDoc (N : Type 0) : Type 0 where
  pub school_id : ℕ
  pub student_id : ℕ
  pub fee_category : Option ℕ
  pub deleted : Bool
  pub status : Status
  pub is_suspicious : Bool
  pub amount : N
  pub created_at : ℕ

-- An element of `student.fees`.
pub record FeeCategory (N : Type 0) : Type 0 where
  pub category : ℕ
  pub amount : N
  pub total_paid : N
  pub remaining_balance : N
  pub paid : Bool

-- `creditAdjustments` that are missing are 0, here and in `PeriodFee`.
pub record Student (N : Type 0) : Type 0 where
  pub fee_amount : N
  pub credit_adjustments : N
  pub total_paid : N
  pub remaining_balance : N
  pub fee_paid : Bool
  pub fees : List (FeeCategory N)

pub record Period : Type 0 where
  pub id : ℕ
  pub starts_at : ℕ

pub record PeriodFee (N : Type 0) : Type 0 where
  pub fee_amount : N
  pub carried_arrears : N
  pub credit_adjustments : N
  pub total_paid : N
  pub remaining_balance : N
  pub fee_paid : Bool

-- Students by school and student, the current period of a school, and fees by school, student and
-- period.
pub record World (N : Type 0) : Type 0 where
  pub payments : List (PaymentDoc N)
  pub students : ℕ → ℕ → Option (Student N)
  pub current_period : ℕ → Option Period
  pub period_fees : ℕ → ℕ → ℕ → Option (PeriodFee N)

-- The result of `computeStudentBalance`.
pub record StudentBalance (N : Type 0) : Type 0 where
  pub total_paid : N
  pub remaining_balance : N
  pub fee_paid : Bool

abbrev has_category : Option ℕ → Option ℕ → Bool
has_category none held = true
has_category (some c) none = false
has_category (some c) (some held) = c == held

-- `canonicalPaidMatch`: the filter, with `none` for an undefined category.
unfoldable pub canonical_paid_match : {N : Type 0} → ℕ → ℕ → Option ℕ → PaymentDoc N → Bool
canonical_paid_match school student category p =
    p.school_id == school
    && p.student_id == student
    && not p.deleted
    && same p.status success
    && not p.is_suspicious
    && has_category category p.fee_category

-- A document replaced under its two keys.
abbrev pub put : {V : Type 0} → ℕ → ℕ → V → (ℕ → ℕ → Option V) → ℕ → ℕ → Option V
put school student v held j k = if j == school && k == student then some v else held j k

module _ (D : Decimals) where
  -- `{ $sum: { $toDecimal: '$amount' } }`, read back by `decimalFromMongo`.
  unfoldable pub sum_amounts : List (PaymentDoc D.Number) → D.Decimal
  sum_amounts [] = D.zero
  sum_amounts (p ∷ ps) = D.plus (D.decimal128 p.amount) (sum_amounts ps)

  -- The groups of `{ $group: { _id: null, … } }`, and `agg.length ? … : toMoney(0)`.
  abbrev pub group_total : List (PaymentDoc D.Number) → Option D.Decimal
  group_total [] = none
  group_total (p ∷ ps) = some (sum_amounts (p ∷ ps))

  abbrev pub or_zero : Option D.Decimal → D.Decimal
  or_zero none = D.zero
  or_zero (some total) = total

  -- `sumCanonicalPayments`.
  unfoldable pub sum_canonical_payments : ℕ → ℕ → Option ℕ → List (PaymentDoc D.Number) → D.Decimal
  unfolding sum_amounts
  sum_canonical_payments school student category ps =
      or_zero (group_total (filter (canonical_paid_match school student category) ps))

  -- The classification that both functions below make of a student.
  abbrev pub classify_total : Student D.Number → D.Decimal → Classification D.Number
  classify_total s payment_total =
      classify_amounts D (D.plus payment_total (D.of_number s.credit_adjustments))
        (D.of_number s.fee_amount)

  unfoldable pub classify_student :
      ℕ → ℕ → Student D.Number → List (PaymentDoc D.Number) → Classification D.Number
  classify_student school student s ps =
      classify_total s (sum_canonical_payments school student none ps)

  abbrev pub balance_of : Classification D.Number → StudentBalance D.Number
  balance_of c = record {
    total_paid = c.cumulative_total;
    remaining_balance = c.remaining_balance;
    fee_paid = c.fee_paid;
  }

  -- `computeStudentBalance`, on what `Student.findOne` returns.
  abbrev pub balance_found :
      ℕ
      → ℕ
      → Option (Student D.Number)
      → List (PaymentDoc D.Number)
      → Option (StudentBalance D.Number)
  balance_found school student none ps = none
  balance_found school student (some s) ps =
      some (balance_of (classify_student school student s ps))

  unfoldable pub compute_student_balance : ℕ → ℕ → World D.Number → Option (StudentBalance D.Number)
  compute_student_balance school student w =
      balance_found school student (w.students school student) w.payments

  -- One turn of the loop over `feesUpdated`.
  unfoldable pub update_category :
      ℕ → ℕ → List (PaymentDoc D.Number) → FeeCategory D.Number → FeeCategory D.Number
  update_category school student ps f =
      let c =
        classify_amounts D (sum_canonical_payments school student (some f.category) ps)
          (D.of_number f.amount) in
      record f {
        total_paid = c.cumulative_total;
        remaining_balance = c.remaining_balance;
        paid = c.fee_paid;
      }

  -- The student with `updateData`; the option is `includeFeeCategoryBreakdown`.
  unfoldable pub with_balance :
      Bool → ℕ → ℕ → List (PaymentDoc D.Number) → Student D.Number → Student D.Number
  with_balance breakdown school student ps s =
      let c = classify_student school student s ps in
      record s {
        total_paid = c.cumulative_total;
        remaining_balance = c.remaining_balance;
        fee_paid = c.fee_paid;
        fees = if breakdown then map (update_category school student ps) s.fees else s.fees;
      }

  -- The total that `syncCurrentPeriodFee` sums: payments since the start of the period.
  abbrev period_match : ℕ → ℕ → ℕ → PaymentDoc D.Number → Bool
  period_match school student starts_at p =
      canonical_paid_match school student none p && leb starts_at p.created_at

  unfoldable pub period_total : ℕ → ℕ → ℕ → List (PaymentDoc D.Number) → D.Decimal
  unfolding sum_amounts canonical_paid_match
  period_total school student starts_at ps =
      or_zero (group_total (filter (period_match school student starts_at) ps))

  unfoldable pub with_period_balance :
      ℕ → ℕ → Period → List (PaymentDoc D.Number) → PeriodFee D.Number → PeriodFee D.Number
  with_period_balance school student period ps f =
      let c =
        classify_amounts D
          (D.plus (period_total school student period.starts_at ps)
            (D.of_number f.credit_adjustments))
          (D.of_number (D.add_numbers f.fee_amount f.carried_arrears)) in
      record f {
        total_paid = c.cumulative_total;
        remaining_balance = c.remaining_balance;
        fee_paid = c.fee_paid;
      }

  -- `StudentPeriodFee.updateOne` with the new balance, where the document exists.
  abbrev sync_fee : ℕ → ℕ → Option Period → World D.Number → ℕ → Option (PeriodFee D.Number)
  sync_fee school student none w id = w.period_fees school student id
  sync_fee school student (some period) w id = elim (w.period_fees school student id) [
    | none ↦ none
    | some f ↦
        some (if id == period.id then with_period_balance school student period w.payments f else f)
  ]

  -- `syncCurrentPeriodFee`.
  unfoldable pub sync_current_period_fee : ℕ → ℕ → World D.Number → World D.Number
  sync_current_period_fee school student w = record w {
    period_fees = λ j k id.
        if j == school && k == student
        then sync_fee school student (w.current_period school) w id
        else w.period_fees j k id;
  }

  -- `updateStudentBalance` with the document that it returns, on what `Student.findOne` returns.
  abbrev pub update_found :
      Bool
      → ℕ
      → ℕ
      → Option (Student D.Number)
      → World D.Number
      → Option (Student D.Number) × World D.Number
  update_found breakdown school student none w = (none, w)
  update_found breakdown school student (some s) w =
      let updated = with_balance breakdown school student w.payments s in
      (
        some updated,
        sync_current_period_fee school student
            (record w { students = put school student updated w.students }),
      )

  unfoldable pub update_student_balance :
      Bool → ℕ → ℕ → World D.Number → Option (Student D.Number) × World D.Number
  update_student_balance breakdown school student w =
      update_found breakdown school student (w.students school student) w
