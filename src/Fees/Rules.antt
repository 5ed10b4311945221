-- ===== src/Fees/Rules.antt =====
-- The rules of backend/src/models/feeAdjustmentRuleModel.js and when one applies
-- (backend/src/services/feeAdjustmentService.js). The arithmetic is that of JavaScript numbers, NaN
-- and the infinities included; the laws are those of IEEE 754 that the code relies on.
use stellar_edu_pay.Common.{
  ℕ, ◌≡◌, Bool, true, false, not, ◌&&◌, ◌||◌, List, [], ◌∷◌, Option, none, some, ltb, ◌==◌, any,
}

pub record Numbers : Type 1 where
  pub Number : Type 0
  pub nought : Number
  pub hundred : Number
  pub add : Number → Number → Number
  pub sub : Number → Number → Number
  pub neg : Number → Number
  pub mul : Number → Number → Number
  pub div : Number → Number → Number
  -- `<`, which is false on NaN.
  pub lt : Number → Number → Bool
  -- `Math.max`, `Math.abs` and `Math.round`
  pub max : Number → Number → Number
  pub abs : Number → Number
  pub round : Number → Number
  -- `parseFloat(x.toFixed(2))`
  pub fixed : Number → Number
  -- What `&&` takes for true: a number that is neither 0 nor NaN.
  pub is_truthy : Number → Bool
  pub max-lt : (x : Number) → lt (max nought x) nought ≡ false
  pub round-lt :
      (x : Number) → lt x nought ≡ false → lt (div (round (mul x hundred)) hundred) nought ≡ false

pub data RuleType : Type 0 where
  discount_percentage discount_fixed penalty_percentage penalty_fixed waiver : RuleType

-- `conflictResolutionPolicy`.
pub data Policy : Type 0 where
  stack first_only best_for_student : Policy

abbrev pub is_discount : RuleType → Bool
is_discount discount_percentage = true
is_discount discount_fixed = true
is_discount _ = false

abbrev pub is_waiver : RuleType → Bool
is_waiver waiver = true
is_waiver _ = false

-- `rule.conditions`; a class, a year and a date are numbers, and a condition that is missing is
-- `none`, or the empty list.
pub record Conditions (N : Type 0) : Type 0 where
  pub student_class : List ℕ
  pub academic_year : Option ℕ
  pub payment_before : Option ℕ
  pub payment_after : Option ℕ
  pub min_amount : Option N
  pub max_amount : Option N

-- A name is its place in the order of `localeCompare`; 0 is the empty name, or none.
pub record Rule (N : Type 0) : Type 0 where
  pub school_id : ℕ
  pub is_active : Bool
  pub name : ℕ
  pub type : RuleType
  pub value : N
  pub conditions : Conditions N
  pub priority : ℕ
  pub policy : Option Policy

-- `paymentContext`, with `student.class || student.className`. `payment_date` is `none` when it
-- reads as an invalid date, which is neither before nor after any other.
pub record Context (N : Type 0) : Type 0 where
  pub student_class : Option ℕ
  pub total_paid : Option N
  pub payment_date : Option ℕ
  pub base_amount : N
  pub academic_year : Option ℕ

abbrev includes : List ℕ → Option ℕ → Bool
includes cs none = false
includes cs (some c) = any (λ d. d == c) cs

-- Each of these tells whether a condition refuses the payment.
abbrev refused_class : List ℕ → Option ℕ → Bool
refused_class [] c = false
refused_class (d ∷ ds) c = not (includes (d ∷ ds) c)

abbrev refused_year : Option ℕ → Option ℕ → Bool
refused_year none year = false
refused_year (some y) none = true
refused_year (some y) (some year) = not (y == year)

abbrev later : Option ℕ → Option ℕ → Bool
later (some a) (some b) = ltb b a
later _ _ = false

module _ (F : Numbers) where
  abbrev below_minimum : Option F.Number → F.Number → Bool
  below_minimum none amount = false
  below_minimum (some m) amount = F.is_truthy m && F.lt amount m

  abbrev above_maximum : Option F.Number → F.Number → Bool
  above_maximum none amount = false
  above_maximum (some m) amount = F.is_truthy m && F.lt m amount

  -- `_ruleApplies`.
  unfoldable pub rule_applies : Context F.Number → Rule F.Number → Bool
  rule_applies ctx rule =
      let c = rule.conditions in
      not (
        refused_class c.student_class ctx.student_class
        || refused_year c.academic_year ctx.academic_year
        || later ctx.payment_date c.payment_before
        || later c.payment_after ctx.payment_date
        || below_minimum c.min_amount ctx.base_amount
        || above_maximum c.max_amount ctx.base_amount)
