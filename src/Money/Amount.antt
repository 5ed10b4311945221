-- ===== src/Money/Amount.antt =====
-- backend/src/utils/stellarAmount.js: decimal amounts to and from whole stroops. A JavaScript
-- number enters as the text that its `toFixed(7)` prints; a thrown TypeError is `none`.
mod Parsing
pub mod RoundTrip
pub mod Rounding
pub mod Sums
use stellar_edu_pay.Common.{
  ℕ, ◌+◌, ◌*◌, ◌/◌, ◌%◌, ◌-◌, ◌≤◌, Bool, true, false, ◌&&◌, ◌||◌, not, List, [], ◌∷◌, ◌++◌, Option,
  none, some, ltb, leb, ◌==◌, if◌then◌else◌, length, take, drop, replicate,
}
use stellar_edu_pay.Common.Int.{ℤ, pos, negsuc, pos_part, neg_part, neg, ◌+ℤ◌, ltb_ℤ}
use stellar_edu_pay.Text.{Text, all_digits, trim, pad_start, split_once, read, show}

-- `DECIMALS` and `STROOPS_PER_UNIT`.
abbrev pub decimals : ℕ
decimals = 7

abbrev pub stroops_per_unit : ℕ
stroops_per_unit = 10_000_000

-- The argument of `toStroops`: a number is given by its `toFixed(DECIMALS)`.
pub data Input : Type 0 where
  missing : Input
  bigint : ℤ → Input
  number : Text → Input
  text : Text → Input

abbrev after_point : Option Text → Text
after_point none = []
after_point (some s) = s

-- `/^\d*(\.\d*)?$/.test(str)`, on the parts of `str` around its first point.
abbrev is_decimal : Text × Option Text → Bool
is_decimal (before, after) = all_digits before && all_digits (after_point after)

-- `str === '' || str === '.'`.
abbrev is_bare : Text × Option Text → Bool
is_bare ([], none) = true
is_bare ([], some []) = true
is_bare _ = false

-- `fracRaw.length > DECIMALS && Number(fracRaw[DECIMALS]) >= 5`, on what follows seven digits.
abbrev pub rounds_up : Text → Bool
rounds_up [] = false
rounds_up (c ∷ cs) = leb b'5' c

-- The stroops of an unsigned text that has passed the test: `BigInt(intPart || '0')` and
-- `BigInt(frac || '0')` read the empty text as 0, as `read` does.
pub magnitude : Text → Text → ℕ
magnitude int_part frac_raw =
    let frac = take decimals (frac_raw ++ replicate decimals b'0') in
    read int_part * stroops_per_unit
    + read frac
    + (if rounds_up (drop decimals frac_raw) then 1 else 0)

abbrev with_sign : Bool → ℕ → ℤ
with_sign negative n = if negative then neg (pos n) else pos n

unsigned_stroops : Bool → Text → Option ℤ
unfolding magnitude
unsigned_stroops negative str =
    let parts : Text × Option Text = split_once b'.' str in
    if not (is_decimal parts) || is_bare parts
    then none
    else some (with_sign negative (magnitude parts.0 (after_point parts.1)))

-- `str.startsWith('-')`, and the text without that sign.
signed_stroops : Text → Option ℤ
unfolding unsigned_stroops
signed_stroops [] = unsigned_stroops false []
signed_stroops (c ∷ cs) =
    if c == b'-' then unsigned_stroops true cs else unsigned_stroops false (c ∷ cs)

-- `toStroops`.
unfoldable pub to_stroops : Input → Option ℤ
unfolding signed_stroops
to_stroops missing = none
to_stroops (bigint b) = some b
to_stroops (number fixed) = signed_stroops fixed
to_stroops (text []) = none
to_stroops (text (c ∷ cs)) = signed_stroops (trim (c ∷ cs))

abbrev sign : ℤ → Text
sign (pos n) = []
sign (negsuc n) = b'-' ∷ []

abbrev abs : ℤ → ℕ
abs b = pos_part b + neg_part b

-- `fromStroops` of a whole number.
unfoldable pub from_stroops : ℤ → Text
from_stroops b =
    sign b
    ++ (show (abs b / stroops_per_unit)
        ++ b'.' ∷ pad_start decimals b'0' (show (abs b % stroops_per_unit)))

-- `Number.MAX_SAFE_INTEGER`.
abbrev pub max_safe_integer : ℕ
max_safe_integer = 9_007_199_254_740_991

-- `stroopsToSafeNumber`; the RangeError is `none`.
unfoldable pub stroops_to_safe_number : ℤ → Option ℤ
stroops_to_safe_number b =
    if ltb_ℤ (pos max_safe_integer) b || ltb_ℤ b (neg (pos max_safe_integer)) then none else some b

-- `sumStroops`, with `none` for `null`, `undefined` and the empty text.
unfoldable pub sum_from : ℤ → List (Option ℤ) → ℤ
sum_from total [] = total
sum_from total (none ∷ vs) = sum_from total vs
sum_from total (some v ∷ vs) = sum_from (total +ℤ v) vs

unfoldable pub sum_stroops : List (Option ℤ) → ℤ
unfolding sum_from
sum_stroops vs = sum_from (pos 0) vs

-- The three results of `compareAmounts`.
pub data Comparison : Type 0 where
  less equal greater : Comparison

abbrev pub compare_stroops : ℤ → ℤ → Comparison
compare_stroops a b = if ltb_ℤ a b then less else if ltb_ℤ b a then greater else equal

compare_read : Option ℤ → Option ℤ → Option Comparison
compare_read (some a) (some b) = some (compare_stroops a b)
compare_read _ _ = none

-- `compareAmounts`, which throws when one side does.
unfoldable pub compare_amounts : Input → Input → Option Comparison
unfolding compare_read
compare_amounts a b = compare_read (to_stroops a) (to_stroops b)
