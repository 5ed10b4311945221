-- ===== src/Money/Amount/Sums.antt =====
-- The exact totals of backend/src/utils/stellarAmount.js.
use mathlib.Core.List.{Perm, Permᴰ}
use mathlib.Core.Logic.{∥∥₁_elim}
use mathlib.Core.Path.{ap₂}
use stellar_edu_pay.Common.{◌≡◌, refl, ◌∙◌, sym, List, [], ◌∷◌, Option, none, some, arith, ◌↔◌}
use stellar_edu_pay.Common.Int.{ℤ, pos, ◌+ℤ◌, ◌≤ℤ◌, neg, int_laws}
use stellar_edu_pay.Money.Amount.{sum_from, sum_stroops, stroops_to_safe_number, max_safe_integer}

-- What an entry contributes: nothing where it is missing.
abbrev pub value : Option ℤ → ℤ
value none = pos 0
value (some v) = v

-- The mathematical sum.
abbrev pub total : List (Option ℤ) → ℤ
total [] = pos 0
total (v ∷ vs) = value v +ℤ total vs

sum_from-eq-total : (acc : ℤ) (vs : List (Option ℤ)) → sum_from acc vs ≡ acc +ℤ total vs
unfolding sum_from
sum_from-eq-total acc [] = omega int_laws
sum_from-eq-total acc (none ∷ vs) = sum_from-eq-total acc vs ∙ omega int_laws
sum_from-eq-total acc (some v ∷ vs) = sum_from-eq-total (acc +ℤ v) vs ∙ omega int_laws

ℤ_set : IsSet ℤ
ℤ_set = hlevel

total-permᴰ : {vs ws : List (Option ℤ)} → Permᴰ vs ws → total vs ≡ total ws
total-permᴰ Permᴰ.nil = refl
total-permᴰ (Permᴰ.cons {a} {b} e p) = ap₂ (λ x s. value x +ℤ s) e (total-permᴰ p)
total-permᴰ (Permᴰ.swap {a} {b} {l = l} e f) =
    ap₂ (λ x y. value x +ℤ (value y +ℤ total l)) e f ∙ omega int_laws
total-permᴰ (Permᴰ.trans p q) = total-permᴰ p ∙ total-permᴰ q

-- The loop of `sumStroops` gives the exact sum of the entries, in whatever order they come.
sum_stroops_exact :
    (vs ws : List (Option ℤ))
    → Perm vs ws
    → (sum_stroops vs ≡ total vs) × (sum_stroops ws ≡ total vs)
unfolding sum_stroops
sum_stroops_exact vs ws p =
    let exact : (us : List (Option ℤ)) → sum_from (pos 0) us ≡ total us =
      λ us. sum_from-eq-total (pos 0) us ∙ omega int_laws in
    (exact vs, exact ws ∙ sym (∥∥₁_elim p (ℤ_set _ _) total-permᴰ))

-- `stroopsToSafeNumber` returns its argument unchanged within ±(2^53 - 1), and throws outside.
stroops_to_safe_number_exact :
    (b c : ℤ)
    → (stroops_to_safe_number b ≡ some c)
      ↔ ((b ≡ c) × (neg (pos max_safe_integer) ≤ℤ b) × (b ≤ℤ pos max_safe_integer))
unfolding stroops_to_safe_number
stroops_to_safe_number_exact b c = ground arith
