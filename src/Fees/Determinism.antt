-- ===== src/Fees/Determinism.antt =====
-- The fee does not depend on the order of the stored rules
-- (backend/src/services/feeAdjustmentService.js).
use mathlib.Core.List.{Permᴰ}
use mathlib.Core.List.Permᴰ
use mathlib.Core.Path.{subst}
use stellar_edu_pay.Common.{
  ℕ, ◌≡◌, refl, sym, ap, ◌∙◌, Bool, true, false, List, [], ◌∷◌, ◌++◌, filter, Option, Bool-cases,
  inl, inr, ◌⊎◌, arith, All,
}
use stellar_edu_pay.Fees.Rules.{Numbers, Rule, Context}
use stellar_edu_pay.Fees.Loop.{apply_rules}
use stellar_edu_pay.Fees.Sorting.{
  precedes, insert_rule, sort_rules, of_school, fetch_sorted_rules, calculate_adjusted_fee,
  simulated, simulate_with_extra,
}

module _ {N : Type 0} where
  -- No two rules share both their priority and their name.
  abbrev pub IsKeyed : (ℕ → ℕ → Rule N) → List (Rule N) → Type 0
  IsKeyed of_key rs = All (λ r. of_key r.priority r.name ≡ r) rs

  precedes_trans :
      (s a b : Rule N) → precedes s a ≡ true → precedes a b ≡ true → precedes s b ≡ true
  precedes_trans s a b h k = ground arith

  precedes_total :
      (a b : Rule N)
      → ((precedes a b ≡ true) × (precedes b a ≡ false))
        ⊎ (((precedes b a ≡ true) × (precedes a b ≡ false))
            ⊎ ((a.priority ≡ b.priority) × (a.name ≡ b.name)))
  precedes_total a b = ground arith

  past :
      (r s : Rule N) (rs : List (Rule N))
      → precedes s r ≡ true
      → insert_rule r (s ∷ rs) ≡ s ∷ insert_rule r rs
  unfolding insert_rule
  past r s rs h = rw h

  in_front :
      (r s : Rule N) (rs : List (Rule N))
      → precedes s r ≡ false
      → insert_rule r (s ∷ rs) ≡ r ∷ s ∷ rs
  unfolding insert_rule
  in_front r s rs h = rw h

  insert_rule-ordered :
      (a b : Rule N)
      → precedes a b ≡ true
      → precedes b a ≡ false
      → (rs : List (Rule N)) → insert_rule a (insert_rule b rs) ≡ insert_rule b (insert_rule a rs)
  unfolding insert_rule
  insert_rule-ordered a b h k [] = in_front a b [] k ∙ sym (past b a [] h)
  insert_rule-ordered a b h k (s ∷ rs) = elim (Bool-cases (precedes s a)) [
    | inl p ↦
        let q : precedes s b ≡ true = precedes_trans s a b p h in
        ap (insert_rule a) (past b s rs q)
        ∙ past a s (insert_rule b rs) p
        ∙ ap (λ (t : List (Rule N)). s ∷ t) (insert_rule-ordered a b h k rs)
        ∙ sym (ap (insert_rule b) (past a s rs p) ∙ past b s (insert_rule a rs) q)
    | inr p ↦ elim (Bool-cases (precedes s b)) [
      | inl q ↦
          ap (insert_rule a) (past b s rs q)
          ∙ in_front a s (insert_rule b rs) p
          ∙ sym (
              ap (insert_rule b) (in_front a s rs p)
              ∙ past b a (s ∷ rs) h
              ∙ ap (λ (t : List (Rule N)). a ∷ t) (past b s rs q))
      | inr q ↦
          ap (insert_rule a) (in_front b s rs q)
          ∙ in_front a b (s ∷ rs) k
          ∙ sym (
              ap (insert_rule b) (in_front a s rs p)
              ∙ past b a (s ∷ rs) h
              ∙ ap (λ (t : List (Rule N)). a ∷ t) (in_front b s rs q))
    ]
  ]

  insert_rule-swap :
      (of_key : ℕ → ℕ → Rule N) (a b : Rule N)
      → of_key a.priority a.name ≡ a
      → of_key b.priority b.name ≡ b
      → (rs : List (Rule N)) → insert_rule a (insert_rule b rs) ≡ insert_rule b (insert_rule a rs)
  insert_rule-swap of_key a b h k rs = elim (precedes_total a b) [
    | inl (p, q) ↦ insert_rule-ordered a b p q rs
    | inr (inl (p, q)) ↦ sym (insert_rule-ordered b a p q rs)
    | inr (inr (p, q)) ↦
        let e : a ≡ b =
          sym h ∙ ap (λ (n : ℕ). of_key n a.name) p ∙ ap (λ (n : ℕ). of_key b.priority n) q ∙ k in
        rw e refl
  ]

  IsKeyed-Permᴰ :
      (of_key : ℕ → ℕ → Rule N) {xs ys : List (Rule N)}
      → Permᴰ xs ys
      → IsKeyed of_key xs
      → IsKeyed of_key ys
  IsKeyed-Permᴰ of_key Permᴰ.nil h = h
  IsKeyed-Permᴰ of_key (Permᴰ.cons e p) h =
      (subst (λ (r : Rule N). of_key r.priority r.name ≡ r) e h.0, IsKeyed-Permᴰ of_key p h.1)
  IsKeyed-Permᴰ of_key (Permᴰ.swap e f) h = (
    subst (λ (r : Rule N). of_key r.priority r.name ≡ r) f h.1.0,
    (subst (λ (r : Rule N). of_key r.priority r.name ≡ r) e h.0, h.1.1),
  )
  IsKeyed-Permᴰ of_key (Permᴰ.trans p q) h = IsKeyed-Permᴰ of_key q (IsKeyed-Permᴰ of_key p h)

  sort_rules-Permᴰ :
      (of_key : ℕ → ℕ → Rule N) {xs ys : List (Rule N)}
      → Permᴰ xs ys
      → IsKeyed of_key xs
      → sort_rules xs ≡ sort_rules ys
  unfolding sort_rules
  sort_rules-Permᴰ of_key Permᴰ.nil h = refl
  sort_rules-Permᴰ of_key (Permᴰ.cons e p) h = rw (e, sort_rules-Permᴰ of_key p h.1) refl
  sort_rules-Permᴰ of_key (Permᴰ.swap {a} {b} {l = l} e f) h =
      insert_rule-swap of_key a b h.0 h.1.0 (sort_rules l) ∙ rw (e, f) refl
  sort_rules-Permᴰ of_key (Permᴰ.trans p q) h =
      sort_rules-Permᴰ of_key p h ∙ sort_rules-Permᴰ of_key q (IsKeyed-Permᴰ of_key p h)

  filter-Permᴰ :
      (f : Rule N → Bool) {xs ys : List (Rule N)} → Permᴰ xs ys → Permᴰ (filter f xs) (filter f ys)
  filter-Permᴰ f Permᴰ.nil = Permᴰ.nil
  filter-Permᴰ f (Permᴰ.cons {b = b} e p) = elim (Bool-cases (f b)) [
    | inl kept ↦ rw (e, kept) (Permᴰ.cons refl (filter-Permᴰ f p))
    | inr dropped ↦ rw (e, dropped) (filter-Permᴰ f p)
  ]
  filter-Permᴰ f (Permᴰ.swap {a' = a} {b' = b} d e) = elim (Bool-cases (f a)) [
    | inl ka ↦ elim (Bool-cases (f b)) [
      | inl kb ↦ rw (d, e, ka, kb) (Permᴰ.swap refl refl)
      | inr nb ↦ rw (d, e, ka, nb) (Permᴰ.refl _)
    ]
    | inr na ↦ elim (Bool-cases (f b)) [
      | inl kb ↦ rw (d, e, na, kb) (Permᴰ.refl _)
      | inr nb ↦ rw (d, e, na, nb) (Permᴰ.refl _)
    ]
  ]
  filter-Permᴰ f (Permᴰ.trans p q) = Permᴰ.trans (filter-Permᴰ f p) (filter-Permᴰ f q)

  IsKeyed-filter :
      (of_key : ℕ → ℕ → Rule N) (f : Rule N → Bool) (rs : List (Rule N))
      → IsKeyed of_key rs
      → IsKeyed of_key (filter f rs)
  IsKeyed-filter of_key f [] h = h
  IsKeyed-filter of_key f (r ∷ rs) h = elim (Bool-cases (f r)) [
    | inl kept ↦ rw kept (h.0, IsKeyed-filter of_key f rs h.1)
    | inr dropped ↦ rw dropped (IsKeyed-filter of_key f rs h.1)
  ]

  fetch-Permᴰ :
      (of_key : ℕ → ℕ → Rule N) (school : Option ℕ) {xs ys : List (Rule N)}
      → Permᴰ xs ys
      → IsKeyed of_key xs
      → fetch_sorted_rules school xs ≡ fetch_sorted_rules school ys
  unfolding fetch_sorted_rules
  fetch-Permᴰ of_key school {xs = xs} p h =
      sort_rules-Permᴰ of_key (filter-Permᴰ (of_school school) p)
        (IsKeyed-filter of_key (of_school school) xs h)

-- When no two rules share their priority and their name, `calculateAdjustedFee` and
-- `simulateWithExtra` give the same results in whatever order the database returns the rules.
pub fees_deterministic :
    (F : Numbers) (of_key : ℕ → ℕ → Rule F.Number)
    → (fee : F.Number) (school : Option ℕ) (ctx : Context F.Number) (extra : Rule F.Number)
    → {docs others : List (Rule F.Number)} → Permᴰ docs others
    → IsKeyed of_key docs
    → (calculate_adjusted_fee F fee school ctx docs
        ≡ calculate_adjusted_fee F fee school ctx others)
      × (simulate_with_extra F fee school ctx extra docs
          ≡ simulate_with_extra F fee school ctx extra others)
unfolding calculate_adjusted_fee simulate_with_extra
fees_deterministic F of_key fee school ctx extra p h =
    let e = fetch-Permᴰ of_key school p h in
    (
      ap (apply_rules F fee ctx) e,
      ap (λ (rs : List (Rule F.Number)). simulated F fee ctx extra (sort_rules (rs ++ extra ∷ [])))
          e,
    )
