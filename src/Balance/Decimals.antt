-- ===== src/Balance/Decimals.antt =====
-- decimal.js, and the Decimal128 sums of MongoDB, as backend/src/utils/money.js uses them: exact
-- decimal numbers, in their documented behaviour on amounts within the configured precision.
-- JavaScript numbers are finite here.
use Prim.Native.Nat.{Ordering, compare}
use stellar_edu_pay.Common.{◌+◌, ◌≡◌, Option}
use stellar_edu_pay.Common.Int.{ℤ, pos, pos_part, neg_part, ◌+ℤ◌, neg}
use stellar_edu_pay.Text.{Text}

abbrev pub compare_ℤ : ℤ → ℤ → Ordering
compare_ℤ a b = compare (pos_part a + neg_part b) (pos_part b + neg_part a)

pub record Decimals : Type 1 where
  pub Decimal : Type 0
  -- JavaScript numbers, with the literal 0 and their own rounding addition.
  pub Number : Type 0
  pub nought : Number
  pub add_numbers : Number → Number → Number
  -- `new Decimal(x)`, which throws on a text that is no number.
  pub zero : Decimal
  pub of_number : Number → Decimal
  pub of_text : Text → Option Decimal
  -- `{ $toDecimal: x }`, read back by `new Decimal(value.toString())`.
  pub decimal128 : Number → Decimal
  pub plus : Decimal → Decimal → Decimal
  pub minus : Decimal → Decimal → Decimal
  pub cmp : Decimal → Decimal → Ordering
  pub max : Decimal → Decimal → Decimal
  -- `x.toDecimalPlaces(7, ROUND_HALF_UP)`
  pub to_places : Decimal → Decimal
  pub to_number : Decimal → Number
  -- The value of a decimal, in units of a place that all the decimals in use have.
  pub units : Decimal → ℤ
  pub exact : (a b : Decimal) → units a ≡ units b → a ≡ b
  pub units-zero : units zero ≡ pos 0
  pub units-plus : (a b : Decimal) → units (plus a b) ≡ units a +ℤ units b
  pub units-minus : (a b : Decimal) → units (minus a b) ≡ units a +ℤ neg (units b)
  pub cmp-units : (a b : Decimal) → cmp a b ≡ compare_ℤ (units a) (units b)
  pub max-cmp : (a b : Decimal) → max a b ≡ elim (cmp a b) [ Ordering.lt ↦ b | _ ↦ a ]
  pub to_places-zero : to_places zero ≡ zero
  pub to_places-idem : (a : Decimal) → to_places (to_places a) ≡ to_places a
  pub to_places-minus :
      (a b : Decimal) → to_places a ≡ a → to_places b ≡ b → to_places (minus a b) ≡ minus a b
  pub to_number-zero : to_number zero ≡ nought
