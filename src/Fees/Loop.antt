-- ===== src/Fees/Loop.antt =====
-- `_applyRules` of backend/src/services/feeAdjustmentService.js.
use stellar_edu_pay.Common.{
  ℕ, ◌≡◌, Bool, true, false, ◌&&◌, List, [], ◌∷◌, ◌++◌, Option, none, some, any, if◌then◌else◌,
  filter, refl, ◌⊎◌, inl, inr,
}
use stellar_edu_pay.Fees.Rules.{
  Numbers, RuleType, discount_percentage, discount_fixed, penalty_percentage, penalty_fixed, waiver,
  Policy, stack, first_only, best_for_student, is_discount, is_waiver, Rule, Context, rule_applies,
}

-- An entry of `adjustmentsApplied`.
pub record Adjustment (N : Type 0) : Type 0 where
  pub rule_name : ℕ
  pub type : RuleType
  pub value : N
  pub amount_adjusted : N
  pub final_fee_after_this : N

-- The `overpayment` record, without the student's id.
pub record Overpayment (N : Type 0) : Type 0 where
  pub amount_paid : N
  pub new_fee : N
  pub credit_amount : N
  pub remaining_balance : N

pub record Adjusted (N : Type 0) : Type 0 where
  pub base_fee : N
  pub final_fee : N
  pub adjustments_applied : List (Adjustment N)
  pub remaining_balance : N
  pub overpayment : Option (Overpayment N)

-- What a turn of the loop does: `break`, `continue`, or its adjustment.
pub data Turn : Type 0 where
  leave skip adjust : Turn

abbrev pub some_applied : {A : Type 0} → List A → Bool
some_applied [] = false
some_applied (a ∷ rest) = true

-- `policy` after `if (!policy) policy = rule.conflictResolutionPolicy || 'stack'`.
abbrev pub settle_policy : Option Policy → Option Policy → Policy
settle_policy (some p) own = p
settle_policy none (some p) = p
settle_policy none none = stack

-- The tests at the head of the loop: whether anything was applied, whether a discount was, and
-- whether the rule is one.
unfoldable pub turn_of : Policy → Bool → Bool → Bool → Turn
turn_of stack applied discounted discount = adjust
turn_of first_only applied discounted discount = if applied then leave else adjust
turn_of best_for_student applied discounted discount =
    if discount && discounted then skip else adjust

by_turn :
    (t : Turn) (w : Bool)
    → (t ≡ leave) ⊎ ((t ≡ skip) ⊎ (((t ≡ adjust) × (w ≡ true)) ⊎ ((t ≡ adjust) × (w ≡ false))))
by_turn leave w = inl refl
by_turn skip w = inr (inl refl)
by_turn adjust true = inr (inr (inl (refl, refl)))
by_turn adjust false = inr (inr (inr (refl, refl)))

module _ (F : Numbers) where
  -- `adjustmentAmount`.
  unfoldable pub adjustment_amount : RuleType → F.Number → F.Number → F.Number
  adjustment_amount discount_percentage fee value = F.neg (F.div (F.mul fee value) F.hundred)
  adjustment_amount discount_fixed fee value = F.neg value
  adjustment_amount penalty_percentage fee value = F.div (F.mul fee value) F.hundred
  adjustment_amount penalty_fixed fee value = value
  adjustment_amount waiver fee value = F.neg fee

  -- The fee after one rule, and the entry for it.
  unfoldable pub fee_after : F.Number → Rule F.Number → F.Number
  fee_after fee rule = F.max F.nought (F.add fee (adjustment_amount rule.type fee rule.value))

  unfoldable pub entry : F.Number → Rule F.Number → Adjustment F.Number
  entry fee rule = record {
    rule_name = rule.name;
    type = rule.type;
    value = rule.value;
    amount_adjusted = F.abs (adjustment_amount rule.type fee rule.value);
    final_fee_after_this = fee_after fee rule;
  }

  abbrev pub discounted : List (Adjustment F.Number) → Bool
  discounted applied = any (λ a. is_discount a.type) applied

  -- The loop over the matching rules, with `policy`, `finalFee` and `adjustmentsApplied`.
  unfoldable pub apply_from :
      Option Policy
      → F.Number
      → List (Adjustment F.Number)
      → List (Rule F.Number)
      → F.Number × List (Adjustment F.Number)
  apply_from policy fee applied [] = (fee, applied)
  apply_from policy fee applied (rule ∷ rules) =
      let p = settle_policy policy rule.policy in
      elim (turn_of p (some_applied applied) (discounted applied) (is_discount rule.type)) [
        | leave ↦ (fee, applied)
        | skip ↦ apply_from (some p) fee applied rules
        | adjust ↦ elim (is_waiver rule.type) [
          | true ↦ (fee_after fee rule, applied ++ entry fee rule ∷ [])
          | false ↦ apply_from (some p) (fee_after fee rule) (applied ++ entry fee rule ∷ []) rules
        ]
      ]

  -- The four ways on which a turn goes.
  pub turn-cases :
      (policy : Option Policy) (applied : List (Adjustment F.Number)) (rule : Rule F.Number)
      → let t =
          turn_of
            (settle_policy policy rule.policy)
            (some_applied applied)
            (discounted applied)
            (is_discount rule.type) in
        (t ≡ leave)
        ⊎ ((t ≡ skip)
            ⊎ (((t ≡ adjust) × (is_waiver rule.type ≡ true))
                ⊎ ((t ≡ adjust) × (is_waiver rule.type ≡ false))))
  turn-cases policy applied rule = by_turn _ _

  -- `student?.totalPaid ?? 0`.
  abbrev pub amount_paid : Context F.Number → F.Number
  amount_paid ctx = elim ctx.total_paid [ none ↦ F.nought | some n ↦ n ]

  -- `Math.round(finalFee * 100) / 100`.
  abbrev pub resolved : F.Number → F.Number
  resolved fee = F.div (F.round (F.mul fee F.hundred)) F.hundred

  unfoldable pub overpayment_of : F.Number → F.Number → Option (Overpayment F.Number)
  overpayment_of paid fee =
      if F.lt fee paid
      then some (record {
        amount_paid = paid;
        new_fee = fee;
        credit_amount = F.fixed (F.sub paid fee);
        remaining_balance = F.nought;
      })
      else none

  unfoldable pub matching : Context F.Number → List (Rule F.Number) → List (Rule F.Number)
  matching ctx rules = filter (rule_applies F ctx) rules

  -- `_applyRules`.
  unfoldable pub apply_rules :
      F.Number → Context F.Number → List (Rule F.Number) → Adjusted F.Number
  apply_rules fee_amount ctx rules =
      let (fee, applied) = apply_from none fee_amount [] (matching ctx rules) in
      let final = resolved fee in
      record {
        base_fee = fee_amount;
        final_fee = final;
        adjustments_applied = applied;
        remaining_balance = F.max F.nought (F.sub final (amount_paid ctx));
        overpayment = overpayment_of (amount_paid ctx) final;
      }
