-- ===== src/Text/Trim.antt =====
-- When trimming changes nothing.
use stellar_edu_pay.Common.{ℕ, true, false, ◌≡◌, refl, [], ◌∷◌, arith, All}
use stellar_edu_pay.Text.{Text, is_space, trim, trim_end, is_digit, all_digits}

trim_end-solid : (s : Text) → All (λ c. is_space c ≡ false) s → trim_end s ≡ s
unfolding trim_end
trim_end-solid [] h = refl
trim_end-solid (c ∷ []) h = ground arith
trim_end-solid (c ∷ d ∷ s) h = ground (arith, trim_end-solid (d ∷ s) h.1)

pub trim-solid : (s : Text) → All (λ c. is_space c ≡ false) s → trim s ≡ s
unfolding trim
trim-solid [] h = refl
trim-solid (c ∷ s) h = ground (arith, trim_end-solid (c ∷ s) h)

is_digit-solid : (c : ℕ) → is_digit c ≡ true → is_space c ≡ false
unfolding is_space
is_digit-solid c h = ground arith

pub all_digits-solid : (s : Text) → all_digits s ≡ true → All (λ c. is_space c ≡ false) s
unfolding all_digits
all_digits-solid [] h = tt
all_digits-solid (c ∷ s) h = ground (arith, is_digit-solid c, all_digits-solid s)
