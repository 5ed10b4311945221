-- ===== src/Balance/Classify.antt =====
-- The classification of a paid total against a fee (backend/src/utils/money.js).
use Prim.Native.Nat.{Ordering}
use stellar_edu_pay.Common.{Bool, true, false, not, Option, none, some, if◌then◌else◌}
use stellar_edu_pay.Text.{Text}
use stellar_edu_pay.Balance.Decimals.{Decimals}

pub data FeeStatus : Type 0 where
  partial overpaid valid underpaid : FeeStatus

-- The result of `classifyFeePayment`.
pub record Classification (N : Type 0) : Type 0 where
  pub status : FeeStatus
  pub fee_paid : Bool
  pub cumulative_total : N
  pub excess_amount : N
  pub remaining_balance : N

abbrev pub is_lt : Ordering → Bool
is_lt Ordering.lt = true
is_lt _ = false

abbrev pub is_gt : Ordering → Bool
is_gt Ordering.gt = true
is_gt _ = false

module _ (D : Decimals) where
  -- The argument of `toMoney`: absent stands for null, undefined and the empty text, and `object`
  -- for a value that is neither a Decimal nor a number nor a text.
  pub data Value : Type 0 where
    absent : Value
    decimal : D.Decimal → Value
    number : D.Number → Value
    text : Text → Value
    object : Value

  -- `toMoney`; the DecimalError is `none`.
  unfoldable pub to_money : Value → Option D.Decimal
  to_money absent = some D.zero
  to_money (decimal d) = some d
  to_money (number n) = some (D.of_number n)
  to_money (text t) = D.of_text t
  to_money object = none

  -- `toMoneyNumber` of a Decimal.
  abbrev pub to_money_number : D.Decimal → D.Number
  to_money_number d = D.to_number (D.to_places d)

  abbrev status_of : Ordering → FeeStatus
  status_of Ordering.lt = partial
  status_of Ordering.gt = overpaid
  status_of Ordering.eq = valid

  -- `classifyFeePayment`, with `cumulative` rounded and `fee` read.
  unfoldable pub classify_rounded : D.Decimal → D.Decimal → Classification D.Number
  classify_rounded cumulative fee =
      let c = D.cmp cumulative fee in
      record {
        status = status_of c;
        fee_paid = not (is_lt c);
        cumulative_total = D.to_number cumulative;
        excess_amount = if is_gt c then to_money_number (D.minus cumulative fee) else D.nought;
        remaining_balance = to_money_number (D.max D.zero (D.minus fee cumulative));
      }

  -- The same on two decimals.
  unfoldable pub classify_amounts : D.Decimal → D.Decimal → Classification D.Number
  unfolding classify_rounded
  classify_amounts total fee = classify_rounded (D.to_places total) fee

  abbrev classify_read : Option D.Decimal → Option D.Decimal → Option (Classification D.Number)
  classify_read (some total) (some fee) = some (classify_amounts total fee)
  classify_read _ _ = none

  -- `classifyFeePayment`; the DecimalError is `none`.
  unfoldable pub classify_fee_payment : Value → Value → Option (Classification D.Number)
  unfolding to_money classify_amounts
  classify_fee_payment total fee = classify_read (to_money total) (to_money fee)

  -- Whether the instalment counts as given, and then the comparison with it.
  abbrev pub instalment_short : D.Decimal → Option D.Decimal → Option Bool
  instalment_short total none = none
  instalment_short total (some expected) =
      some (is_lt (D.cmp (D.to_places total) (D.to_places expected)))

  abbrev pub below_instalment : D.Decimal → Value → Option Bool
  below_instalment total absent = some false
  below_instalment total (decimal d) = instalment_short total (to_money (decimal d))
  below_instalment total (number n) = instalment_short total (to_money (number n))
  below_instalment total (text t) = instalment_short total (to_money (text t))
  below_instalment total object = instalment_short total (to_money object)

  abbrev pub downgrade : Option Bool → Classification D.Number → Option (Classification D.Number)
  downgrade none c = none
  downgrade (some short) c = some (if short then record c { status = underpaid } else c)

  abbrev pub with_instalment :
      FeeStatus → D.Decimal → Value → Classification D.Number → Option (Classification D.Number)
  with_instalment partial total instalment c = downgrade (below_instalment total instalment) c
  with_instalment _ total instalment c = some c

  abbrev status_read :
      Option D.Decimal → Option D.Decimal → Value → Option (Classification D.Number)
  status_read (some total) (some fee) instalment =
      let c = classify_amounts total fee in with_instalment c.status total instalment c
  status_read _ _ _ = none

  -- `classifyFeePaymentStatus`, with its option `installmentAmount`.
  unfoldable pub classify_fee_payment_status :
      Value → Value → Value → Option (Classification D.Number)
  unfolding to_money classify_amounts
  classify_fee_payment_status total fee instalment =
      status_read (to_money total) (to_money fee) instalment
