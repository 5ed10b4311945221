-- ===== src/Money/Tests.antt =====
-- Runs of the amount routines, and their theorems at concrete amounts.
use stellar_edu_pay.Common.{◌≡◌, refl, ℕ, [], ◌∷◌, ◌++◌, some, none, Option, arith, List}
use stellar_edu_pay.Common.Int.{ℤ, pos, negsuc}
use stellar_edu_pay.Text.{
  Text, all_digits, is_space, read, read_from, show, trim, pad_start, split_once,
}
use stellar_edu_pay.Money.Amount.{text, to_stroops, from_stroops}
use stellar_edu_pay.Money.Amount.RoundTrip.{to_stroops-from_stroops}
use stellar_edu_pay.Money.Amount.Rounding.{IsNearest, to_stroops-IsNearest}

-- " 0.00000015 ", a half of a stroop above one.
to_stroops_runs :
    to_stroops (
      text (b' ' ∷ b'0' ∷ b'.' ∷ b'0' ∷ b'0' ∷ b'0' ∷ b'0' ∷ b'0' ∷ b'0' ∷ b'1' ∷ b'5' ∷ b' ' ∷ []))
    ≡ some (pos 2)
unfolding to_stroops trim is_space split_once all_digits read read_from
to_stroops_runs = refl

-- "-12.0000003"
from_stroops_runs :
    from_stroops (negsuc 120_000_002)
    ≡ b'-' ∷ b'1' ∷ b'2' ∷ b'.' ∷ b'0' ∷ b'0' ∷ b'0' ∷ b'0' ∷ b'0' ∷ b'0' ∷ b'3' ∷ []
unfolding from_stroops show pad_start
from_stroops_runs = refl

to_stroops-from_stroops_example :
    to_stroops (text (from_stroops (negsuc 120_000_002))) ≡ some (negsuc 120_000_002)
to_stroops-from_stroops_example = to_stroops-from_stroops (negsuc 120_000_002)

abbrev fraction : Text
fraction = b'2' ∷ b'5' ∷ []

to_stroops-IsNearest_example :
    (r : ℕ) × (to_stroops (text ((b'7' ∷ []) ++ b'.' ∷ fraction)) ≡ some (pos r))
    × IsNearest (read ((b'7' ∷ []) ++ fraction)) 100 r
unfolding all_digits
to_stroops-IsNearest_example = to_stroops-IsNearest (b'7' ∷ []) fraction refl refl (omega arith)

abbrev entries : List (Option ℤ)
entries = some (pos 5) ∷ none ∷ some (negsuc 1) ∷ []
