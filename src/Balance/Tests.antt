-- ===== src/Balance/Tests.antt =====
-- Decimals in units of 10 ^ (-8), and the theorems on balances at concrete payments.
use Prim.Native.Nat.{Ordering}
use stellar_edu_pay.Common.{
  ℕ, ◌+◌, ◌*◌, ◌/◌, ◌≡◌, refl, true, false, List, [], ◌∷◌, none, some, if◌then◌else◌, arith, ◌==◌,
}
use stellar_edu_pay.Common.Int.{ℤ, pos, negsuc, pos_part, neg_part, sub_ℕ, neg, ◌+ℤ◌}
use stellar_edu_pay.Payment.Status.{Status, success, failed, refunded}
use stellar_edu_pay.Balance.Decimals.{Decimals, compare_ℤ}
use stellar_edu_pay.Balance.Classify.{
  Classification, decimal, object, absent, to_money, classify_amounts, classify_fee_payment,
}
use stellar_edu_pay.Balance.Exactness.{IsExact, classify_fee_payment-IsExact}
use stellar_edu_pay.Balance.Students.{
  PaymentDoc, FeeCategory, Student, PeriodFee, World, canonical_paid_match, sum_canonical_payments,
  with_balance, classify_student, update_category, compute_student_balance, update_student_balance,
}
use stellar_edu_pay.Balance.Totals.{reversal_exact}
use stellar_edu_pay.Balance.Updates.{update_agrees, stored_balance}

-- Half up, to a multiple of ten.
abbrev rounded : ℕ → ℕ
rounded n = (n + 5) / 10 * 10

abbrev round_ℤ : ℤ → ℤ
round_ℤ a = sub_ℕ (rounded (pos_part a)) (rounded (neg_part a))

round_ℤ-idem : (a : ℤ) → round_ℤ (round_ℤ a) ≡ round_ℤ a
round_ℤ-idem (pos n) = ground arith
round_ℤ-idem (negsuc n) = ground arith

round_ℤ_parts :
    (a : ℤ)
    → round_ℤ a ≡ a
    → (pos_part a ≡ rounded (pos_part a)) × (neg_part a ≡ rounded (neg_part a))
round_ℤ_parts a h = ground arith

round_ℤ-multiple :
    (a : ℤ)
    → (pos_part a ≡ rounded (pos_part a))
    → (neg_part a ≡ rounded (neg_part a))
    → round_ℤ a ≡ a
round_ℤ-multiple a h k = ground arith

round_ℤ-minus : (a b : ℤ) → round_ℤ a ≡ a → round_ℤ b ≡ b → round_ℤ (a +ℤ neg b) ≡ a +ℤ neg b
unfolding ◌+ℤ◌
round_ℤ-minus a b h k =
    let (p, q) = round_ℤ_parts a h in
    let (r, s) = round_ℤ_parts b k in round_ℤ-multiple (a +ℤ neg b) (ground arith) (ground arith)

abbrev exact_decimals : Decimals
exact_decimals = record {
  Decimal = ℤ;
  Number = ℤ;
  nought = pos 0;
  add_numbers = λ a b. a +ℤ b;
  zero = pos 0;
  of_number = λ n. n;
  of_text = λ t. none;
  decimal128 = λ n. n;
  plus = λ a b. a +ℤ b;
  minus = λ a b. a +ℤ neg b;
  cmp = compare_ℤ;
  max = λ a b. elim (compare_ℤ a b) [ Ordering.lt ↦ b | _ ↦ a ];
  to_places = round_ℤ;
  to_number = λ a. a;
  units = λ a. a;
  exact = λ a b e. e;
  units-zero = refl;
  units-plus = λ a b. refl;
  units-minus = λ a b. refl;
  cmp-units = λ a b. refl;
  max-cmp = λ a b. refl;
  to_places-zero = refl;
  to_places-idem = round_ℤ-idem;
  to_places-minus = round_ℤ-minus;
  to_number-zero = refl;
}

-- 50 XLM towards 100, the second instalment of 60 and a payment that failed.
abbrev paid_in : Status → ℤ → PaymentDoc ℤ
paid_in status amount = record {
  school_id = 1;
  student_id = 7;
  fee_category = some 2;
  deleted = false;
  status = status;
  is_suspicious = false;
  amount = amount;
  created_at = 100;
}

abbrev payments : List (PaymentDoc ℤ)
payments =
    paid_in success (pos 5_000_000_000)
    ∷ paid_in failed (pos 1_000_000_000)
    ∷ paid_in success (pos 6_000_000_000)
    ∷ []

abbrev tuition : FeeCategory ℤ
tuition = record {
  category = 2;
  amount = pos 10_000_000_000;
  total_paid = pos 0;
  remaining_balance = pos 10_000_000_000;
  paid = false;
}

abbrev enrolled : Student ℤ
enrolled = record {
  fee_amount = pos 10_000_000_000;
  credit_adjustments = pos 0;
  total_paid = pos 0;
  remaining_balance = pos 10_000_000_000;
  fee_paid = false;
  fees = tuition ∷ [];
}

abbrev owing : PeriodFee ℤ
owing = record {
  fee_amount = pos 10_000_000_000;
  carried_arrears = pos 2_000_000_000;
  credit_adjustments = pos 0;
  total_paid = pos 0;
  remaining_balance = pos 12_000_000_000;
  fee_paid = false;
}

abbrev world : World ℤ
world = record {
  payments = payments;
  students = λ school student. if school == 1 then some enrolled else none;
  current_period = λ school. some (record { id = 3; starts_at = 90 });
  period_fees = λ school student id. if id == 3 then some owing else none;
}

abbrev after_update : Student ℤ
after_update = record enrolled {
  total_paid = pos 11_000_000_000;
  remaining_balance = pos 0;
  fee_paid = true;
  fees =
      record tuition { total_paid = pos 11_000_000_000; remaining_balance = pos 0; paid = true }
      ∷ [];
}

update_test : (update_student_balance exact_decimals true 1 7 world).0 ≡ some after_update
unfolding update_student_balance with_balance classify_student update_category classify_amounts ◌+ℤ◌
    sum_canonical_payments canonical_paid_match
update_test = refl

classify_fee_payment-IsExact_example :
    (c : Classification ℤ) × (classify_fee_payment exact_decimals
        (decimal (pos 11_000_000_004))
        (decimal (pos 10_000_000_000))
      ≡ some c)
    × IsExact exact_decimals (pos 11_000_000_000) (pos 10_000_000_000) c
classify_fee_payment-IsExact_example =
    classify_fee_payment-IsExact exact_decimals (pos 11_000_000_004) (pos 10_000_000_000) refl

reversal_exact_example :
    sum_canonical_payments exact_decimals 1 7 none payments
    ≡ sum_canonical_payments exact_decimals 1 7 none (
        paid_in refunded (pos 5_000_000_000)
        ∷ paid_in failed (pos 1_000_000_000)
        ∷ paid_in success (pos 6_000_000_000)
        ∷ [])
      +ℤ pos 5_000_000_000
unfolding canonical_paid_match
reversal_exact_example =
    reversal_exact exact_decimals 1 7 none []
      (paid_in failed (pos 1_000_000_000) ∷ paid_in success (pos 6_000_000_000) ∷ [])
      (paid_in success (pos 5_000_000_000)) refunded refl refl

update_agrees_example :
    let after = (update_student_balance exact_decimals true 1 7 world).1 in
    (after.students 1 7 ≡ some after_update)
    × (compute_student_balance exact_decimals 1 7 after
        ≡ some (stored_balance exact_decimals after_update))
    × ((update_student_balance exact_decimals true 1 7 after).0 ≡ some after_update)
update_agrees_example = update_agrees exact_decimals true 1 7 world update_test

-- The poller's call with one object throws.
object_test : classify_fee_payment exact_decimals object absent ≡ none
unfolding classify_fee_payment to_money
object_test = refl
