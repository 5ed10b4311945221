-- ===== src/Balance/Exactness.antt =====
-- What the classification of backend/src/utils/money.js says of the amounts.
use Prim.Native.Nat.{Ordering}
use stellar_edu_pay.Common.{◌≡◌, refl, sym, ap, ◌∙◌, some, arith}
use stellar_edu_pay.Common.Int.{ℤ, pos, ◌+ℤ◌, ◌≤ℤ◌, leb_ℤ}
use stellar_edu_pay.Balance.Decimals.{Decimals, compare_ℤ}
use stellar_edu_pay.Balance.Classify.{
  FeeStatus, partial, overpaid, valid, underpaid, Classification, decimal, to_money,
  to_money_number, classify_rounded, classify_amounts, classify_fee_payment,
}
use stellar_edu_pay.Balance.Orders.{
  ◌<ℤ◌, Order, differ_pos, differ_neg, settle_below, settle_above, eq_le, eq_leb, compared,
}

module _ (D : Decimals) where
  -- What a status says of the remaining amount and of the excess.
  abbrev pub Means : FeeStatus → ℤ → ℤ → Type 0
  Means partial rest excess = (pos 0 <ℤ rest) × (excess ≡ pos 0)
  Means overpaid rest excess = (rest ≡ pos 0) × (pos 0 <ℤ excess)
  Means valid rest excess = (rest ≡ pos 0) × (excess ≡ pos 0)
  Means underpaid rest excess = ⊥

  abbrev pub IsExact : D.Decimal → D.Decimal → Classification D.Number → Type 0
  IsExact paid fee c =
      (rest : D.Decimal) × (excess : D.Decimal) × (c.cumulative_total ≡ D.to_number paid)
      × (c.remaining_balance ≡ D.to_number rest)
      × (c.excess_amount ≡ D.to_number excess)
      × (D.units paid +ℤ D.units rest ≡ D.units fee +ℤ D.units excess)
      × (c.fee_paid ≡ leb_ℤ (D.units fee) (D.units paid))
      × Means c.status (D.units rest) (D.units excess)

  max_zero-kept : (x : D.Decimal) → pos 0 <ℤ D.units x → D.max D.zero x ≡ x
  max_zero-kept x h =
      let e : compare_ℤ (pos 0) (D.units x) ≡ Ordering.lt = ground arith in
      rw (D.max-cmp D.zero x, D.cmp-units D.zero x, D.units-zero, e)

  max_zero-capped : (x : D.Decimal) → D.units x ≤ℤ pos 0 → D.max D.zero x ≡ D.zero
  max_zero-capped x h = rw (D.max-cmp D.zero x, D.cmp-units D.zero x, D.units-zero) (ground arith)

  -- The amounts that are left over, with their places.
  remaining-kept :
      (paid fee : D.Decimal)
      → D.units paid <ℤ D.units fee
      → D.to_places paid ≡ paid
      → D.to_places fee ≡ fee
      → to_money_number D (D.max D.zero (D.minus fee paid)) ≡ D.to_number (D.minus fee paid)
  remaining-kept paid fee h p f =
      ap (to_money_number D)
        (max_zero-kept (D.minus fee paid) (rw (D.units-minus fee paid) (differ_pos _ _ h)))
      ∙ ap D.to_number (D.to_places-minus fee paid f p)

  remaining-capped :
      (paid fee : D.Decimal)
      → D.units fee ≤ℤ D.units paid
      → to_money_number D (D.max D.zero (D.minus fee paid)) ≡ D.to_number D.zero
  remaining-capped paid fee h =
      ap (to_money_number D)
        (max_zero-capped (D.minus fee paid) (rw (D.units-minus fee paid) (differ_neg _ _ h)))
      ∙ ap D.to_number D.to_places-zero

  classify_by :
      (paid fee : D.Decimal)
      → (o : Ordering) → D.cmp paid fee ≡ o
      → Order (D.units paid) (D.units fee) o
      → D.to_places paid ≡ paid
      → D.to_places fee ≡ fee
      → IsExact paid fee (classify_rounded D paid fee)
  unfolding classify_rounded
  classify_by paid fee Ordering.lt e h p f = rw e (
    D.minus fee paid,
    D.zero,
    refl,
    remaining-kept paid fee h p f,
    sym D.to_number-zero,
    rw (D.units-minus fee paid, D.units-zero) (settle_below _ _),
    ground arith,
    (rw (D.units-minus fee paid) (differ_pos _ _ h), D.units-zero),
  )
  classify_by paid fee Ordering.eq e h p f = rw e (
    D.zero,
    D.zero,
    refl,
    remaining-capped paid fee (eq_le _ _ h),
    sym D.to_number-zero,
    ap (λ (t : ℤ). t +ℤ D.units D.zero) h,
    eq_leb _ _ h,
    (D.units-zero, D.units-zero),
  )
  classify_by paid fee Ordering.gt e h p f = rw e (
    D.zero,
    D.minus paid fee,
    refl,
    remaining-capped paid fee (omega (arith, h)),
    ap D.to_number (D.to_places-minus paid fee p f),
    rw (D.units-minus paid fee, D.units-zero) (settle_above _ _),
    ground arith,
    (D.units-zero, rw (D.units-minus paid fee) (differ_pos _ _ h)),
  )

  -- For a fee with at most seven decimal places, `classifyFeePayment` of a total and the fee returns
  -- a result. Its remaining balance and its excess are the numbers of two decimals, and the rounded
  -- total with the remaining balance is exactly the fee with the excess: a partial payment leaves a
  -- positive balance and no excess, an overpayment has a positive excess and leaves nothing, a valid
  -- one has neither. `feePaid` tells whether the fee is at most the rounded total.
  pub classify_fee_payment-IsExact :
      (total fee : D.Decimal)
      → D.to_places fee ≡ fee
      → (c : Classification D.Number) × (classify_fee_payment D (decimal total) (decimal fee)
          ≡ some c)
        × IsExact (D.to_places total) fee c
  unfolding classify_fee_payment classify_amounts to_money
  classify_fee_payment-IsExact total fee f =
      let paid : D.Decimal = D.to_places total in
      (
        classify_amounts D total fee,
        refl,
        classify_by paid fee (D.cmp paid fee) refl (compared D paid fee) (D.to_places-idem total) f,
      )
