-- ===== src/Limits/Data.antt =====
-- The documents of backend/src/services/paymentLimitsService.js, their validation, and the choice
-- among them. Every finite double is a whole multiple of 2^-1074, so a finite number is an
-- integer here; it is only compared. School ids and asset codes are numbers
-- that are only compared, and `toUpperCase` is a function on the codes.
use stellar_edu_pay.Common.{ℕ, Bool, not, [], ◌∷◌, Option, none, some, is_some, if◌then◌else◌}
use stellar_edu_pay.Common.Int.{ℤ, pos, ltb_ℤ, leb_ℤ}
use stellar_edu_pay.Common.Maps.{Map, lookup}

-- What stands where a number should: NaN, an infinity and every other type are `unusable`.
pub data Value : Type 0 where
  unusable : Value
  finite : ℤ → Value

-- A `{ min, max }` pair, or what is no object.
pub data Pair : Type 0 where
  malformed : Pair
  bounds : Value → Value → Pair

-- `doc.assets`: undefined, what is no plain object, or pairs by their code.
pub data Assets : Type 0 where
  absent not_object : Assets
  by_code : Map Pair → Assets

-- A limits document; `default` is `none` for undefined.
pub record Doc : Type 0 where
  pub default : Option Pair
  pub assets : Assets

-- The errors of a pair; a valid pair gives `none`.
pub data PairError : Type 0 where
  pair_not_object min_not_finite max_not_finite min_negative max_not_greater : PairError

abbrev check_bounds : ℤ → ℤ → Option PairError
check_bounds min max =
    if ltb_ℤ min (pos 0)
    then some min_negative
    else if leb_ℤ max min
    then some max_not_greater
    else none

-- `validateLimitPair(limits)`.
unfoldable pub validate_limit_pair : Pair → Option PairError
validate_limit_pair malformed = some pair_not_object
validate_limit_pair (bounds unusable max) = some min_not_finite
validate_limit_pair (bounds (finite min) unusable) = some max_not_finite
validate_limit_pair (bounds (finite min) (finite max)) = check_bounds min max

pub data DocError : Type 0 where
  doc_not_object assets_not_object nothing_given : DocError
  default_error : PairError → DocError
  asset_error : ℕ → PairError → DocError

abbrev pub or_next : Option DocError → Option DocError → Option DocError
or_next (some e) rest = some e
or_next none rest = rest

abbrev as_default : Option PairError → Option DocError
as_default none = none
as_default (some e) = some (default_error e)

abbrev as_asset : ℕ → Option PairError → Option DocError
as_asset code none = none
as_asset code (some e) = some (asset_error code e)

-- The loop over `Object.entries(doc.assets)`.
unfoldable pub validate_entries : Map Pair → Option DocError
validate_entries [] = none
validate_entries ((code, pair) ∷ rest) =
    or_next (as_asset code (validate_limit_pair pair)) (validate_entries rest)

unfoldable pub validate_default : Option Pair → Option DocError
validate_default none = none
validate_default (some pair) = as_default (validate_limit_pair pair)

unfoldable pub validate_assets : Option Pair → Assets → Option DocError
unfolding validate_entries
validate_assets none absent = some nothing_given
validate_assets (some pair) absent = none
validate_assets default not_object = some assets_not_object
validate_assets default (by_code entries) = validate_entries entries

-- `validateLimitsDocument(doc)`, `none` for what is no object.
unfoldable pub validate_limits_document : Option Doc → Option DocError
unfolding validate_default validate_assets
validate_limits_document none = some doc_not_object
validate_limits_document (some d) =
    or_next (validate_default d.default) (validate_assets d.default d.assets)

-- Where resolved limits come from.
pub data Source : Type 0 where
  env school_asset school_default system_asset system_default : Source

pub record Limits : Type 0 where
  pub min : ℤ
  pub max : ℤ
  pub source : Source

abbrev pub entry_of : ℕ → Assets → Option Pair
entry_of asset (by_code entries) = lookup asset entries
entry_of asset _ = none

abbrev pub is_valid : Pair → Bool
is_valid pair = not (is_some (validate_limit_pair pair))

-- The limits of a pair that stands and is valid.
abbrev pub take_valid : Source → Option Pair → Option Limits
take_valid source (some (bounds (finite min) (finite max))) =
    if is_valid (bounds (finite min) (finite max))
    then some (record { min = min; max = max; source = source })
    else none
take_valid source _ = none

abbrev pub or_else : Option Limits → Option Limits → Option Limits
or_else (some l) rest = some l
or_else none rest = rest

-- `_pick(doc, asset, source)`: the pair of the asset's code in upper case, then the default one, if
-- they are valid.
unfoldable pub pick : (ℕ → ℕ) → Source → Source → ℕ → Option Doc → Option Limits
pick to_upper_case by_asset by_default asset none = none
pick to_upper_case by_asset by_default asset (some d) =
    or_else (take_valid by_asset (entry_of (to_upper_case asset) d.assets))
      (take_valid by_default d.default)

pub data Verdict : Type 0 where
  valid invalid_amount amount_too_low amount_too_high : Verdict

-- `compareAgainstLimits(amount, limits)`.
unfoldable pub compare_against_limits : Value → Limits → Verdict
compare_against_limits unusable l = invalid_amount
compare_against_limits (finite amount) l =
    if leb_ℤ amount (pos 0)
    then invalid_amount
    else if ltb_ℤ amount l.min
    then amount_too_low
    else if ltb_ℤ l.max amount
    then amount_too_high
    else valid
