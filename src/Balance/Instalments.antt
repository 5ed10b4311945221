-- ===== src/Balance/Instalments.antt =====
-- The status of a payment under a plan with instalments (backend/src/utils/money.js).
use Prim.Native.Nat.{Ordering}
use stellar_edu_pay.Common.{◌≡◌, refl, ap, ◌∙◌, Bool, true, false, some, arith, if◌then◌else◌}
use stellar_edu_pay.Common.Int.{ℤ, ltb_ℤ}
use stellar_edu_pay.Balance.Decimals.{Decimals}
use stellar_edu_pay.Balance.Classify.{
  FeeStatus, partial, overpaid, valid, underpaid, Classification, decimal, is_lt, is_gt, Value,
  to_money, classify_rounded, classify_amounts, absent, number, text, object, with_instalment,
  below_instalment, instalment_short, classify_fee_payment, classify_fee_payment_status,
}
use stellar_edu_pay.Balance.Orders.{Order, compared}

module _ (D : Decimals) where
  abbrev pub is_given : Value D → Bool
  is_given absent = false
  is_given _ = true

  -- The status of an amount that is paid, against a fee and an instalment.
  abbrev pub planned : ℤ → ℤ → ℤ → FeeStatus
  planned paid fee instalment =
      if ltb_ℤ paid fee
      then (if ltb_ℤ paid instalment then underpaid else partial)
      else (if ltb_ℤ fee paid then overpaid else valid)

  below-given :
      (total : D.Decimal) (v : Value D) {i : D.Decimal}
      → is_given v ≡ true
      → to_money D v ≡ some i
      → below_instalment D total v ≡ some (is_lt (D.cmp (D.to_places total) (D.to_places i)))
  below-given total absent g e = absurd (ground arith)
  below-given total (decimal d) g e = ap (instalment_short D total) e
  below-given total (number n) g e = ap (instalment_short D total) e
  below-given total (text t) g e = ap (instalment_short D total) e
  below-given total object g e = ap (instalment_short D total) e

  is_lt-Order : (a b : ℤ) (o : Ordering) → Order a b o → is_lt o ≡ ltb_ℤ a b
  is_lt-Order a b Ordering.lt h = ground arith
  is_lt-Order a b Ordering.eq h = ground arith
  is_lt-Order a b Ordering.gt h = ground arith

  with_plan :
      (total fee : D.Decimal) (v : Value D) (short : Bool)
      → (o : Ordering) → D.cmp (D.to_places total) fee ≡ o
      → Order (D.units (D.to_places total)) (D.units fee) o
      → below_instalment D total v ≡ some short
      → with_instalment D
          (classify_amounts D total fee).status
          total
          v
          (classify_amounts D total fee)
        ≡ some (record (classify_amounts D total fee) {
          status =
              if is_lt o
              then (if short then underpaid else partial)
              else (if is_gt o then overpaid else valid);
        })
  unfolding classify_amounts classify_rounded
  with_plan total fee v true Ordering.lt e h b = rw (e, b) refl
  with_plan total fee v false Ordering.lt e h b = rw (e, b) refl
  with_plan total fee v short Ordering.eq e h b = rw e refl
  with_plan total fee v short Ordering.gt e h b = rw e refl

  planned-cases :
      (paid fee i : ℤ) (o : Ordering) (short : Bool)
      → Order paid fee o
      → short ≡ ltb_ℤ paid i
      → (if is_lt o
          then (if short then underpaid else partial)
          else (if is_gt o then overpaid else valid))
        ≡ planned paid fee i
  planned-cases paid fee i Ordering.lt short h e =
      let l : ltb_ℤ paid fee ≡ true = ground arith in rw (l, e)
  planned-cases paid fee i Ordering.eq short h e =
      let l : ltb_ℤ paid fee ≡ false = ground arith in
      let r : ltb_ℤ fee paid ≡ false = ground arith in rw (l, r)
  planned-cases paid fee i Ordering.gt short h e =
      let l : ltb_ℤ paid fee ≡ false = ground arith in
      let r : ltb_ℤ fee paid ≡ true = ground arith in rw (l, r)

  -- With an instalment that reads as a number, `classifyFeePaymentStatus` gives the result of
  -- `classifyFeePayment` with the status that an exact comparison of the rounded total with the fee
  -- and with the rounded instalment calls for: underpaid below both, partial below the fee alone,
  -- and otherwise overpaid above the fee and valid at it, whatever the instalment is.
  classify_status_planned :
      (total fee : D.Decimal) (v : Value D) {i : D.Decimal}
      → is_given v ≡ true
      → to_money D v ≡ some i
      → (c : Classification D.Number) × (classify_fee_payment D (decimal total) (decimal fee)
          ≡ some c)
        × (classify_fee_payment_status D (decimal total) (decimal fee) v
            ≡ some (record c {
              status =
                  planned (D.units (D.to_places total)) (D.units fee) (D.units (D.to_places i));
            }))
  unfolding classify_fee_payment classify_fee_payment_status to_money
  classify_status_planned total fee v {i} g e =
      let paid : D.Decimal = D.to_places total in
      let o : Ordering = D.cmp paid fee in
      let short : Bool = is_lt (D.cmp paid (D.to_places i)) in
      let s : (if is_lt o
            then (if short then underpaid else partial)
            else (if is_gt o then overpaid else valid))
          ≡ planned (D.units paid) (D.units fee) (D.units (D.to_places i)) =
        planned-cases (D.units paid) (D.units fee) (D.units (D.to_places i)) o short
          (compared D paid fee)
          (is_lt-Order (D.units paid) (D.units (D.to_places i)) _
            (compared D paid (D.to_places i))) in
      (
        classify_amounts D total fee,
        refl,
        with_plan total fee v short o refl (compared D paid fee) (below-given total v g e)
            ∙ ap (λ (t : FeeStatus). some (record (classify_amounts D total fee) { status = t })) s,
      )
