-- ===== src/Money/Amount/RoundTrip.antt =====
-- Printing stroops and reading them back (backend/src/utils/stellarAmount.js).
use stellar_edu_pay.Common.{
  ℕ, suc, ◌+◌, ◌*◌, ◌/◌, ◌%◌, ◌-◌, ◌<◌, ◌≡◌, ◌∙◌, ap, true, ◌∷◌, ◌++◌, some, arith, length,
  replicate, length-append, length-replicate, take-append, drop-length,
}
use stellar_edu_pay.Common.Int.{ℤ, pos, negsuc, neg}
use stellar_edu_pay.Text.{Text, all_digits, pad_start, read, show}
use stellar_edu_pay.Text.Decimal.{
  read-show, all_digits-show, length-show, read_from-append, read_from-replicate, all_digits-append,
  all_digits-replicate,
}
use stellar_edu_pay.Money.Amount.Parsing.{to_stroops-unsigned, to_stroops-negative}
use stellar_edu_pay.Money.Amount.{
  compare_amounts, compare_stroops, compare_read, text, to_stroops, from_stroops, decimals,
  stroops_per_unit, magnitude,
}

-- The fraction of a printed amount: seven digits with the value that was printed.
module _ (n : ℕ) (h : n < stroops_per_unit) where
  frac : Text
  frac = pad_start decimals b'0' (show n)

  length-frac : length frac ≡ 7
  unfolding frac pad_start
  length-frac =
      length-append (replicate (7 - length (show n)) b'0') (show n)
      ∙ omega (arith, length-replicate {A = ℕ} (7 - length (show n)) b'0', length-show 6 n h)

  read-frac : read frac ≡ n
  unfolding frac pad_start read
  read-frac = rw (read_from-append, read_from-replicate) (unfold read in read-show n)

  all_digits-frac : all_digits frac ≡ true
  unfolding frac pad_start
  all_digits-frac = all_digits-append _ _ (all_digits-replicate _) (all_digits-show n)

magnitude-frac :
    (q r : ℕ) (h : r < stroops_per_unit) → magnitude (show q) (frac r h) ≡ q * stroops_per_unit + r
unfolding magnitude
magnitude-frac q r h =
    rw
      (
        take-append 7 (frac r h) (replicate 7 b'0') (length-frac r h),
        drop-length 7 (frac r h) (length-frac r h),
        read-frac r h,
        read-show q,
      )
      (omega arith)

-- The unsigned text of a number of stroops.
abbrev print : ℕ → Text
print n =
    show (n / stroops_per_unit) ++ b'.' ∷ pad_start decimals b'0' (show (n % stroops_per_unit))

from_stroops-pos : (n : ℕ) → from_stroops (pos n) ≡ print n
unfolding from_stroops
from_stroops-pos n = ap print (omega arith)

from_stroops-negsuc : (n : ℕ) → from_stroops (negsuc n) ≡ b'-' ∷ print (suc n)
unfolding from_stroops
from_stroops-negsuc n = ap (λ m. b'-' ∷ print m) (omega arith)

mod_lt : (n : ℕ) → n % stroops_per_unit < stroops_per_unit
mod_lt n = omega arith

print_digits :
    (n : ℕ) → 0 < length (show (n / stroops_per_unit) ++ frac (n % stroops_per_unit) (mod_lt n))
print_digits n = omega (
  arith,
  length-append (show (n / stroops_per_unit)) (frac (n % stroops_per_unit) (mod_lt n)),
  length-frac (n % stroops_per_unit) (mod_lt n),
)

magnitude-print :
    (n : ℕ) → magnitude (show (n / stroops_per_unit)) (frac (n % stroops_per_unit) (mod_lt n)) ≡ n
magnitude-print n =
    magnitude-frac (n / stroops_per_unit) (n % stroops_per_unit) (mod_lt n) ∙ omega arith

-- `toStroops(fromStroops(b)) === b` for every whole number of stroops, negative ones too.
pub to_stroops-from_stroops : (b : ℤ) → to_stroops (text (from_stroops b)) ≡ some b
unfolding frac
to_stroops-from_stroops (pos n) =
    ap (λ s. to_stroops (text s)) (from_stroops-pos n)
    ∙ to_stroops-unsigned _ _ (all_digits-show _) (all_digits-frac _ (mod_lt n)) (print_digits n)
    ∙ ap (λ m. some (pos m)) (magnitude-print n)
to_stroops-from_stroops (negsuc n) =
    ap (λ s. to_stroops (text s)) (from_stroops-negsuc n)
    ∙ to_stroops-negative _ _ (all_digits-show _) (all_digits-frac _ (mod_lt (suc n)))
        (print_digits (suc n))
    ∙ ap (λ m. some (neg (pos m))) (magnitude-print (suc n))
    ∙ ap some (ground arith)

-- Comparing two printed amounts compares the stroops that they stand for.
compare_amounts-from_stroops :
    (a b : ℤ)
    → compare_amounts (text (from_stroops a)) (text (from_stroops b)) ≡ some (compare_stroops a b)
unfolding compare_amounts
compare_amounts-from_stroops a b =
    ap (λ x. compare_read x (to_stroops (text (from_stroops b)))) (to_stroops-from_stroops a)
    ∙ ap (compare_read (some a)) (to_stroops-from_stroops b)
