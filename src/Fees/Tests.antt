-- ===== src/Fees/Tests.antt =====
-- Whole numbers as fees, and the theorems on adjusted fees at concrete rules.
use mathlib.Core.List.{Permᴰ}
use stellar_edu_pay.Common.{
  ℕ, ◌+◌, ◌*◌, ◌/◌, ◌≡◌, refl, true, false, List, [], ◌∷◌, Option, none, some, arith, is_some, All,
  if◌then◌else◌, ◌==◌,
}
use stellar_edu_pay.Common.Int.{ℤ, pos, negsuc, pos_part, neg_part, sub_ℕ, neg, ◌+ℤ◌, ltb_ℤ}
use stellar_edu_pay.Fees.Rules.{
  Numbers, RuleType, discount_percentage, discount_fixed, penalty_fixed, Policy, best_for_student,
  Conditions, Rule, Context, rule_applies,
}
use stellar_edu_pay.Fees.Loop.{
  apply_rules, adjustment_amount, fee_after, entry, apply_from, turn_of, matching, resolved,
}
use stellar_edu_pay.Fees.Bounds.{NotNegative, EntryNotNegative, apply_rules-NotNegative}
use stellar_edu_pay.Fees.Policies.{entries, fee_after_all, applied_by_policy}
use stellar_edu_pay.Fees.Sorting.{calculate_adjusted_fee, simulate_with_extra}
use stellar_edu_pay.Fees.Determinism.{fees_deterministic}

abbrev mul_ℤ : ℤ → ℤ → ℤ
mul_ℤ a b =
    sub_ℕ (pos_part a * pos_part b + neg_part a * neg_part b)
      (pos_part a * neg_part b + neg_part a * pos_part b)

abbrev div_ℤ : ℤ → ℤ → ℤ
div_ℤ a b = sub_ℕ (pos_part a / pos_part b) (neg_part a / pos_part b)

max-lt : (x : ℤ) → ltb_ℤ (if ltb_ℤ (pos 0) x then x else pos 0) (pos 0) ≡ false
max-lt x = ground arith

round-lt :
    (x : ℤ) → ltb_ℤ x (pos 0) ≡ false → ltb_ℤ (div_ℤ (mul_ℤ x (pos 100)) (pos 100)) (pos 0) ≡ false
round-lt (pos n) h = ground arith
round-lt (negsuc n) h = absurd (ground arith)

abbrev whole : Numbers
whole = record {
  Number = ℤ;
  nought = pos 0;
  hundred = pos 100;
  add = λ a b. a +ℤ b;
  sub = λ a b. a +ℤ neg b;
  neg = λ a. neg a;
  mul = mul_ℤ;
  div = div_ℤ;
  lt = ltb_ℤ;
  max = λ a b. if ltb_ℤ a b then b else a;
  abs = λ a. pos (pos_part a + neg_part a);
  round = λ a. a;
  fixed = λ a. a;
  is_truthy = λ a. if pos_part a + neg_part a == 0 then false else true;
  max-lt = max-lt;
  round-lt = round-lt;
}

abbrev always : Conditions ℤ
always = record {
  student_class = [];
  academic_year = none;
  payment_before = none;
  payment_after = none;
  min_amount = none;
  max_amount = none;
}

abbrev rule : ℕ → RuleType → ℕ → ℕ → Option Policy → Rule ℤ
rule name type value priority policy = record {
  school_id = 1;
  is_active = true;
  name = name;
  type = type;
  value = pos value;
  conditions = always;
  priority = priority;
  policy = policy;
}

abbrev payer : Context ℤ
payer = record {
  student_class = some 4;
  total_paid = some (pos 950);
  payment_date = some 100;
  base_amount = pos 1000;
  academic_year = none;
}

-- The policy of the first rule asks for the best discount.
abbrev small_discount : Rule ℤ
small_discount = rule 1 discount_fixed 10 1 (some best_for_student)

abbrev large_discount : Rule ℤ
large_discount = rule 2 discount_percentage 50 2 none

abbrev surcharge : Rule ℤ
surcharge = rule 3 penalty_fixed 30 3 none

abbrev rules : List (Rule ℤ)
rules = small_discount ∷ large_discount ∷ surcharge ∷ []

-- The small discount is kept, and the large one skipped.
best_test : (apply_rules whole (pos 1000) payer rules).final_fee ≡ pos 1020
unfolding apply_rules apply_from matching rule_applies turn_of entry fee_after ◌+ℤ◌
    adjustment_amount
best_test = refl

apply_rules-NotNegative_example :
    let r = apply_rules whole (pos 1000) payer rules in
    All (EntryNotNegative whole) r.adjustments_applied
    × NotNegative whole r.final_fee
    × NotNegative whole r.remaining_balance
    × (is_some r.overpayment ≡ ltb_ℤ r.final_fee (pos 950))
apply_rules-NotNegative_example = apply_rules-NotNegative whole (pos 1000) payer rules refl

applied_by_policy_example :
    let chosen = small_discount ∷ surcharge ∷ [] in
    ((apply_rules whole (pos 1000) payer rules).adjustments_applied
      ≡ entries whole (pos 1000) chosen)
    × ((apply_rules whole (pos 1000) payer rules).final_fee
        ≡ resolved whole (fee_after_all whole (pos 1000) chosen))
unfolding matching rule_applies
applied_by_policy_example = applied_by_policy whole (pos 1000) payer rules

abbrev by_key : ℕ → ℕ → Rule ℤ
by_key priority name =
    if name == 1 then small_discount else if name == 2 then large_discount else surcharge

fees_deterministic_example :
    let others = large_discount ∷ small_discount ∷ surcharge ∷ [] in
    (calculate_adjusted_fee whole (pos 1000) (some 1) payer rules
      ≡ calculate_adjusted_fee whole (pos 1000) (some 1) payer others)
    × (simulate_with_extra whole (pos 1000) (some 1) payer surcharge rules
        ≡ simulate_with_extra whole (pos 1000) (some 1) payer surcharge others)
fees_deterministic_example =
    fees_deterministic whole by_key (pos 1000) (some 1) payer surcharge (Permᴰ.swap refl refl)
      (refl, (refl, (refl, _)))
