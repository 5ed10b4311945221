-- ===== src/Balance/Orders.antt =====
-- Comparisons of the decimals of backend/src/utils/money.js, read on their values.
use Prim.Native.Nat.{Ordering, compare}
use stellar_edu_pay.Common.{ℕ, ◌+◌, ◌<◌, ◌≡◌, true, arith}
use stellar_edu_pay.Common.Int.{
  ℤ, pos, ◌+ℤ◌, ◌≤ℤ◌, neg, pos_part, neg_part, eq_of_parts, int_laws, leb_ℤ,
}
use stellar_edu_pay.Balance.Decimals.{Decimals}

infix 50 ◌<ℤ◌
abbrev pub ◌<ℤ◌ : ℤ → ℤ → Type 0
a <ℤ b = pos_part a + neg_part b < pos_part b + neg_part a

-- The three outcomes of a comparison, with what they say of the numbers.
abbrev pub Order : ℤ → ℤ → Ordering → Type 0
Order a b Ordering.lt = a <ℤ b
Order a b Ordering.eq = a ≡ b
Order a b Ordering.gt = b <ℤ a

abbrev NatOrder : ℕ → ℕ → Ordering → Type 0
NatOrder a b Ordering.lt = a < b
NatOrder a b Ordering.eq = a ≡ b
NatOrder a b Ordering.gt = b < a

compare-NatOrder : (a b : ℕ) → NatOrder a b (compare a b)
compare-NatOrder a b = ground arith

to_Order :
    (a b : ℤ) (c : Ordering)
    → NatOrder (pos_part a + neg_part b) (pos_part b + neg_part a) c
    → Order a b c
to_Order a b Ordering.lt h = h
to_Order a b Ordering.eq h = eq_of_parts a b h
to_Order a b Ordering.gt h = h

difference : (a b : ℤ) → a +ℤ neg b +ℤ b ≡ a
difference a b = grind int_laws

pub differ_pos : (a b : ℤ) → a <ℤ b → pos 0 <ℤ (b +ℤ neg a)
differ_pos a b h = grind int_laws

pub differ_neg : (a b : ℤ) → a ≤ℤ b → a +ℤ neg b ≤ℤ pos 0
differ_neg a b h = grind int_laws

pub eq_le : (a b : ℤ) → a ≡ b → b ≤ℤ a
eq_le a b h = ground arith

pub eq_leb : (a b : ℤ) → a ≡ b → true ≡ leb_ℤ b a
eq_leb a b h = ground arith

pub settle_below : (a b : ℤ) → a +ℤ (b +ℤ neg a) ≡ b +ℤ pos 0
settle_below a b = grind int_laws

pub settle_above : (a b : ℤ) → a +ℤ pos 0 ≡ b +ℤ (a +ℤ neg b)
settle_above a b = grind int_laws

module _ (D : Decimals) where
  pub compared : (a b : D.Decimal) → Order (D.units a) (D.units b) (D.cmp a b)
  compared a b = rw (D.cmp-units a b) (to_Order (D.units a) (D.units b) _ (compare-NatOrder _ _))
