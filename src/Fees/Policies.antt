-- ===== src/Fees/Policies.antt =====
-- Which rules `_applyRules` of backend/src/services/feeAdjustmentService.js applies.
use mathlib.Core.List.{append-nil, append_assoc}
use stellar_edu_pay.Common.{
  ◌≡◌, refl, sym, ap, ◌∙◌, true, false, not, ◌||◌, List, [], ◌∷◌, ◌++◌, foldl, filter, none, some,
  Bool-cases, inl, inr, ◌⊎◌, if◌then◌else◌, arith,
}
use stellar_edu_pay.Fees.Rules.{
  Numbers, RuleType, discount_percentage, discount_fixed, penalty_percentage, penalty_fixed, waiver,
  Policy, stack, first_only, best_for_student, is_discount, is_waiver, Rule, Context,
}
use stellar_edu_pay.Fees.Loop.{
  Adjustment, settle_policy, turn_of, fee_after, entry, discounted, apply_from, resolved, matching,
  apply_rules,
}

module _ {N : Type 0} where
  abbrev pub until_waiver : List (Rule N) → List (Rule N)
  until_waiver [] = []
  until_waiver (r ∷ rs) = if is_waiver r.type then r ∷ [] else r ∷ until_waiver rs

  abbrev pub without_discounts : List (Rule N) → List (Rule N)
  without_discounts rs = filter (λ r. not (is_discount r.type)) rs

  -- The rules less all discounts behind the first one.
  abbrev pub first_discount : List (Rule N) → List (Rule N)
  first_discount [] = []
  first_discount (r ∷ rs) =
      if is_discount r.type then r ∷ without_discounts rs else r ∷ first_discount rs

  abbrev pub selected_by : Policy → List (Rule N) → List (Rule N)
  selected_by stack rs = until_waiver rs
  selected_by first_only [] = []
  selected_by first_only (r ∷ rs) = r ∷ []
  selected_by best_for_student rs = until_waiver (first_discount rs)

  -- The policy is that of the first rule, and `stack` where it has none.
  abbrev pub selected : List (Rule N) → List (Rule N)
  selected [] = []
  selected (r ∷ rs) = selected_by (settle_policy none r.policy) (r ∷ rs)

kinds :
    (t : RuleType)
    → ((is_discount t ≡ true) × (is_waiver t ≡ false))
      ⊎ (((is_discount t ≡ false) × (is_waiver t ≡ true))
          ⊎ ((is_discount t ≡ false) × (is_waiver t ≡ false)))
kinds discount_percentage = inl (refl, refl)
kinds discount_fixed = inl (refl, refl)
kinds waiver = inr (inl (refl, refl))
kinds penalty_percentage = inr (inr (refl, refl))
kinds penalty_fixed = inr (inr (refl, refl))

module _ (F : Numbers) where
  abbrev pub fee_after_all : F.Number → List (Rule F.Number) → F.Number
  fee_after_all fee rs = foldl (fee_after F) fee rs

  abbrev pub entries : F.Number → List (Rule F.Number) → List (Adjustment F.Number)
  entries fee [] = []
  entries fee (r ∷ rs) = entry F fee r ∷ entries (fee_after F fee r) rs

  abbrev outcome :
      F.Number
      → List (Adjustment F.Number)
      → List (Rule F.Number)
      → F.Number × List (Adjustment F.Number)
  outcome fee applied rs = (fee_after_all fee rs, applied ++ entries fee rs)

  outcome-cons :
      (fee : F.Number) (applied : List (Adjustment F.Number)) (r : Rule F.Number)
      (rs : List (Rule F.Number))
      → outcome (fee_after F fee r) (applied ++ entry F fee r ∷ []) rs
        ≡ outcome fee applied (r ∷ rs)
  outcome-cons fee applied r rs =
      ap (λ (es : List (Adjustment F.Number)). (fee_after_all fee (r ∷ rs), es))
        (append_assoc applied (entry F fee r ∷ []) (entries (fee_after F fee r) rs))

  outcome-nil :
      (fee : F.Number) (applied : List (Adjustment F.Number))
      → (fee, applied) ≡ outcome fee applied []
  outcome-nil fee applied =
      ap (λ (es : List (Adjustment F.Number)). (fee, es)) (sym (append-nil applied))

  apply_from-stack :
      (fee : F.Number) (applied : List (Adjustment F.Number)) (rs : List (Rule F.Number))
      → apply_from F (some stack) fee applied rs ≡ outcome fee applied (until_waiver rs)
  unfolding apply_from turn_of
  apply_from-stack fee applied [] = outcome-nil fee applied
  apply_from-stack fee applied (r ∷ rs) = elim (Bool-cases (is_waiver r.type)) [
    | inl waives ↦ rw (apply_from, waives) refl
    | inr goes_on ↦
        rw (apply_from, goes_on)
          (apply_from-stack (fee_after F fee r) (applied ++ entry F fee r ∷ []) rs
            ∙ outcome-cons fee applied r (until_waiver rs))
  ]

  discounted-append :
      (applied : List (Adjustment F.Number)) (fee : F.Number) (r : Rule F.Number)
      → discounted F (applied ++ entry F fee r ∷ []) ≡ (discounted F applied || is_discount r.type)
  unfolding entry
  discounted-append [] fee r = grind arith
  discounted-append (a ∷ applied) fee r = grind (arith, discounted-append applied fee r)

  -- Behind a discount.
  apply_from-discounted :
      (fee : F.Number) (applied : List (Adjustment F.Number)) (rs : List (Rule F.Number))
      → discounted F applied ≡ true
      → apply_from F (some best_for_student) fee applied rs
        ≡ outcome fee applied (until_waiver (without_discounts rs))
  unfolding apply_from turn_of
  apply_from-discounted fee applied [] h = outcome-nil fee applied
  apply_from-discounted fee applied (r ∷ rs) h = elim (kinds r.type) [
    | inl (d, w) ↦ rw (apply_from, d, h) (apply_from-discounted fee applied rs h)
    | inr (inl (d, w)) ↦ rw (apply_from, d, w) refl
    | inr (inr (d, w)) ↦
        rw (apply_from, d, w)
          (apply_from-discounted (fee_after F fee r) (applied ++ entry F fee r ∷ []) rs
              (rw (discounted-append applied fee r, h) refl)
            ∙ outcome-cons fee applied r (until_waiver (without_discounts rs)))
  ]

  apply_from-best :
      (fee : F.Number) (applied : List (Adjustment F.Number)) (rs : List (Rule F.Number))
      → discounted F applied ≡ false
      → apply_from F (some best_for_student) fee applied rs
        ≡ outcome fee applied (until_waiver (first_discount rs))
  unfolding apply_from turn_of
  apply_from-best fee applied [] h = outcome-nil fee applied
  apply_from-best fee applied (r ∷ rs) h = elim (kinds r.type) [
    | inl (d, w) ↦
        rw (apply_from, d, h, w)
          (apply_from-discounted (fee_after F fee r) (applied ++ entry F fee r ∷ []) rs
              (rw (discounted-append applied fee r, h, d) refl)
            ∙ outcome-cons fee applied r (until_waiver (without_discounts rs)))
    | inr (inl (d, w)) ↦ rw (apply_from, d, w) refl
    | inr (inr (d, w)) ↦
        rw (apply_from, d, w)
          (apply_from-best (fee_after F fee r) (applied ++ entry F fee r ∷ []) rs
              (rw (discounted-append applied fee r, h, d) refl)
            ∙ outcome-cons fee applied r (until_waiver (first_discount rs)))
  ]

  apply_from-first :
      (fee : F.Number) (a : Adjustment F.Number) (rs : List (Rule F.Number))
      → apply_from F (some first_only) fee (a ∷ []) rs ≡ (fee, a ∷ [])
  unfolding apply_from turn_of
  apply_from-first fee a [] = refl
  apply_from-first fee a (r ∷ rs) = refl

  apply_from-settled :
      (p : Policy) (fee : F.Number) (rs : List (Rule F.Number))
      → apply_from F (some p) fee [] rs ≡ outcome fee [] (selected_by p rs)
  unfolding apply_from turn_of
  apply_from-settled stack fee rs = apply_from-stack fee [] rs
  apply_from-settled best_for_student fee rs = apply_from-best fee [] rs refl
  apply_from-settled first_only fee [] = refl
  apply_from-settled first_only fee (r ∷ rs) = elim (Bool-cases (is_waiver r.type)) [
    | inl waives ↦ rw (apply_from, waives) refl
    | inr goes_on ↦
        rw (apply_from, goes_on) (apply_from-first (fee_after F fee r) (entry F fee r) rs)
  ]

  apply_from-selected :
      (fee : F.Number) (rs : List (Rule F.Number))
      → apply_from F none fee [] rs ≡ outcome fee [] (selected rs)
  unfolding apply_from
  apply_from-selected fee [] = refl
  apply_from-selected fee (r ∷ rs) = apply_from-settled (settle_policy none r.policy) fee (r ∷ rs)

  -- `_applyRules` applies exactly the rules that the policy of the first matching rule selects, in
  -- their order, each to the fee that the rule before it leaves. `first_only` selects that first
  -- rule, `stack`, which is also the default, all matching rules up to the first waiver, and
  -- `best_for_student` the same without every discount that follows the first discount.
  pub applied_by_policy :
      (fee : F.Number) (ctx : Context F.Number) (rules : List (Rule F.Number))
      → let chosen = selected (matching F ctx rules) in
        ((apply_rules F fee ctx rules).adjustments_applied ≡ entries fee chosen)
        × ((apply_rules F fee ctx rules).final_fee ≡ resolved F (fee_after_all fee chosen))
  unfolding apply_rules
  applied_by_policy fee ctx rules =
      let e = apply_from-selected fee (matching F ctx rules) in
      (
        ap (λ (r : F.Number × List (Adjustment F.Number)). r.1) e,
        ap (λ (r : F.Number × List (Adjustment F.Number)). resolved F r.0) e,
      )
