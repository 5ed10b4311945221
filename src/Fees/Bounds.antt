-- ===== src/Fees/Bounds.antt =====
-- Fees after adjustment are not negative (backend/src/services/feeAdjustmentService.js).
use stellar_edu_pay.Common.{
  ◌≡◌, refl, false, List, [], ◌∷◌, ◌++◌, Option, none, some, All, All-append, Bool-cases, inl, inr,
  is_some,
}
use stellar_edu_pay.Fees.Rules.{Numbers, Policy, Rule, Context}
use stellar_edu_pay.Fees.Loop.{
  Adjustment, settle_policy, fee_after, entry, turn-cases, apply_from, amount_paid, overpayment_of,
  matching, apply_rules,
}

module _ (F : Numbers) where
  abbrev pub NotNegative : F.Number → Type 0
  NotNegative x = F.lt x F.nought ≡ false

  abbrev pub EntryNotNegative : Adjustment F.Number → Type 0
  EntryNotNegative a = NotNegative a.final_fee_after_this

  apply_from-NotNegative :
      (policy : Option Policy) (fee : F.Number) (applied : List (Adjustment F.Number))
      → (rules : List (Rule F.Number)) → NotNegative fee
      → All EntryNotNegative applied
      → NotNegative (apply_from F policy fee applied rules).0
        × All EntryNotNegative (apply_from F policy fee applied rules).1
  unfolding apply_from fee_after entry
  apply_from-NotNegative policy fee applied [] h a = (h, a)
  apply_from-NotNegative policy fee applied (rule ∷ rules) h a =
      let p : Policy = settle_policy policy rule.policy in
      let grown : List (Adjustment F.Number) = applied ++ entry F fee rule ∷ [] in
      let after : NotNegative (fee_after F fee rule) = F.max-lt _ in
      let longer : All EntryNotNegative grown =
        All-append EntryNotNegative applied (entry F fee rule ∷ []) a (after, _) in
      elim (turn-cases F policy applied rule) [
        | inl e ↦ rw (apply_from, e) (h, a)
        | inr (inl e) ↦ rw (apply_from, e) (apply_from-NotNegative (some p) fee applied rules h a)
        | inr (inr (inl (e, w))) ↦ rw (apply_from, e, w) (after, longer)
        | inr (inr (inr (e, w))) ↦
            rw (apply_from, e, w)
              (apply_from-NotNegative (some p) (fee_after F fee rule) grown rules after longer)
      ]

  overpayment_exact : (paid fee : F.Number) → is_some (overpayment_of F paid fee) ≡ F.lt fee paid
  unfolding overpayment_of
  overpayment_exact paid fee = elim (Bool-cases (F.lt fee paid)) [
    | inl more ↦ rw more refl
    | inr less ↦ rw less refl
  ]

  -- From a base fee that is not below zero, no rules make `_applyRules` go below zero: neither the
  -- fee after any of the rules that it applies, nor the final fee, nor the remaining balance. An
  -- overpayment is reported exactly if the amount paid is above the final fee.
  pub apply_rules-NotNegative :
      (fee : F.Number) (ctx : Context F.Number) (rules : List (Rule F.Number))
      → NotNegative fee
      → let r = apply_rules F fee ctx rules in
        All EntryNotNegative r.adjustments_applied
        × NotNegative r.final_fee
        × NotNegative r.remaining_balance
        × (is_some r.overpayment ≡ F.lt r.final_fee (amount_paid F ctx))
  unfolding apply_rules
  apply_rules-NotNegative fee ctx rules h =
      let (final, entries) = apply_from-NotNegative none fee [] (matching F ctx rules) h _ in
      (entries, F.round-lt _ final, F.max-lt _, overpayment_exact _ _)
