-- ===== src/Fees/Sorting.antt =====
-- The order of the rules: `_fetchSortedRules` and the entry points of
-- backend/src/services/feeAdjustmentService.js that sort.
use stellar_edu_pay.Common.{
  ℕ, Bool, ◌&&◌, ◌||◌, List, [], ◌∷◌, ◌++◌, filter, Option, none, some, any, if◌then◌else◌, ltb,
  ◌==◌,
}
use stellar_edu_pay.Fees.Rules.{Numbers, Rule, Context}
use stellar_edu_pay.Fees.Loop.{Adjusted, apply_rules}

module _ {N : Type 0} where
  -- `(a.priority - b.priority) || a.name.localeCompare(b.name)` is below 0.
  abbrev pub precedes : Rule N → Rule N → Bool
  precedes a b = ltb a.priority b.priority || (a.priority == b.priority && ltb a.name b.name)

  -- `rules.sort`, which is stable.
  unfoldable pub insert_rule : Rule N → List (Rule N) → List (Rule N)
  insert_rule r [] = r ∷ []
  insert_rule r (s ∷ rs) = if precedes s r then s ∷ insert_rule r rs else r ∷ s ∷ rs

  unfoldable pub sort_rules : List (Rule N) → List (Rule N)
  sort_rules [] = []
  sort_rules (r ∷ rs) = insert_rule r (sort_rules rs)

  abbrev pub of_school : Option ℕ → Rule N → Bool
  of_school none r = r.is_active
  of_school (some school) r = r.is_active && r.school_id == school

  -- `_fetchSortedRules`, with the documents of the collection in any order.
  unfoldable pub fetch_sorted_rules : Option ℕ → List (Rule N) → List (Rule N)
  unfolding sort_rules
  fetch_sorted_rules school docs = sort_rules (filter (of_school school) docs)

-- The place of '_dry_run_preview_', the first that is used behind the empty or missing name.
abbrev preview_name : ℕ
preview_name = 1

module _ (F : Numbers) where
  -- `calculateAdjustedFee`.
  unfoldable pub calculate_adjusted_fee :
      F.Number → Option ℕ → Context F.Number → List (Rule F.Number) → Adjusted F.Number
  calculate_adjusted_fee fee school ctx docs =
      apply_rules F fee ctx (fetch_sorted_rules school docs)

  -- `simulateWithExtraWithRules` behind its sort, with `ruleApplied`.
  abbrev pub simulated :
      F.Number → Context F.Number → Rule F.Number → List (Rule F.Number) → Adjusted F.Number × Bool
  simulated fee ctx extra combined =
      let r = apply_rules F fee ctx combined in
      let shown : ℕ = if extra.name == 0 then preview_name else extra.name in
      (r, any (λ a. a.rule_name == shown) r.adjustments_applied)

  -- `simulateWithExtra`.
  unfoldable pub simulate_with_extra :
      F.Number
      → Option ℕ
      → Context F.Number
      → Rule F.Number
      → List (Rule F.Number)
      → Adjusted F.Number × Bool
  simulate_with_extra fee school ctx extra docs =
      simulated fee ctx extra (sort_rules (fetch_sorted_rules school docs ++ extra ∷ []))
