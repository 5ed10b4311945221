-- ===== src/Memo/Codec.antt =====
-- The encoder of frontend/src/utils/stellarMemo.js and the decoder of
-- backend/src/utils/stellarMemo.js. A text is its list of UTF-16 code units; a thrown error, and
-- null, are `none`.
use stellar_edu_pay.Common.{
  ℕ, ◌+◌, ◌-◌, ◌/◌, ◌%◌, ◌<◌, ◌≡◌, Bool, true, false, not, ◌&&◌, ◌||◌, List, [], ◌∷◌, ◌++◌, map,
  Option, none, some, ltb, leb, ◌==◌, if◌then◌else◌, length, take, drop, replicate, All,
}
use stellar_edu_pay.Text.{Text, all_digits, trim, pad_start, read, show}
use stellar_edu_pay.Memo.Hex.{is_hex, is_hex_any, read_hex, hex_digit, show_hex}
use stellar_edu_pay.Memo.Base64.{to_base64, from_base64, unpadded, is_base64}

abbrev pub upper_unit : ℕ → ℕ
upper_unit c = if leb b'a' c && leb c b'z' then c - 32 else c

-- `toUpperCase`, which follows the tables of Unicode and is known here on ASCII.
pub record Casing : Type 0 where
  pub upper : Text → Text
  pub upper-ascii : (s : Text) → All (λ c. c < 128) s → upper s ≡ map upper_unit s

pub data MemoType : Type 0 where
  memo_text memo_id memo_hash : MemoType

unfoldable pub same_text : Text → Text → Bool
same_text [] [] = true
same_text (c ∷ cs) (d ∷ ds) = c == d && same_text cs ds
same_text _ _ = false

unfoldable pub starts_with : Text → Text → Bool
starts_with [] s = true
starts_with (p ∷ ps) [] = false
starts_with (p ∷ ps) (c ∷ cs) = p == c && starts_with ps cs

abbrev memo_prefix : Text
memo_prefix = b'M' ∷ b'E' ∷ b'M' ∷ b'O' ∷ b'_' ∷ []

-- `SUPPORTED_MEMO_TYPES.includes(full)`
abbrev supported : Text → Option MemoType
supported full =
    if same_text full (memo_prefix ++ b'T' ∷ b'E' ∷ b'X' ∷ b'T' ∷ [])
    then some memo_text
    else if same_text full (memo_prefix ++ b'I' ∷ b'D' ∷ [])
    then some memo_id
    else if same_text full (memo_prefix ++ b'H' ∷ b'A' ∷ b'S' ∷ b'H' ∷ [])
    then some memo_hash
    else none

abbrev full_type : Text → Text
full_type u = if starts_with memo_prefix u then u else memo_prefix ++ u

-- `/^[0-9A-F]{8}$/.test(s)`
abbrev pub all_hex : Text → Bool
all_hex [] = true
all_hex (c ∷ cs) = is_hex c && all_hex cs

abbrev pub is_canonical : Text → Bool
is_canonical s = length s == 8 && all_hex s

-- The bytes of a text of pairs of digits.
unfoldable pub hex_pairs : Text → List ℕ
hex_pairs [] = []
hex_pairs (c ∷ []) = []
hex_pairs (c ∷ d ∷ rest) = read_hex (c ∷ d ∷ []) ∷ hex_pairs rest

-- `bytes.toString('hex').toUpperCase()`
unfoldable pub show_bytes : List ℕ → Text
show_bytes [] = []
show_bytes (b ∷ bs) = hex_digit (b / 16) ∷ hex_digit (b % 16) ∷ show_bytes bs

-- The length in UTF-8, given whether a high surrogate stands in front; alone it becomes U+FFFD.
abbrev is_high : ℕ → Bool
is_high c = leb 0xd800 c && leb c 0xdbff

abbrev is_low : ℕ → Bool
is_low c = leb 0xdc00 c && leb c 0xdfff

abbrev unit_length : Bool → ℕ → ℕ
unit_length paired c =
    if paired && is_low c then 1 else if ltb c 0x80 then 1 else if ltb c 0x800 then 2 else 3

unfoldable pub utf8_length_from : Bool → Text → ℕ
utf8_length_from paired [] = 0
utf8_length_from paired (c ∷ cs) = unit_length paired c + utf8_length_from (is_high c) cs

-- `new TextEncoder().encode(memo).length`
unfoldable pub utf8_length : Text → ℕ
unfolding utf8_length_from
utf8_length s = utf8_length_from false s

abbrev pub padding : List ℕ
padding = replicate 28 0

-- Whether there are 32 bytes, and the first 28 are zero.
abbrev all_zero : List ℕ → Bool
all_zero [] = true
all_zero (b ∷ bs) = b == 0 && all_zero bs

abbrev pub nonempty : Text → Option Text
nonempty [] = none
nonempty (c ∷ cs) = some (c ∷ cs)

abbrev all_hex_any : Text → Bool
all_hex_any [] = true
all_hex_any (c ∷ cs) = is_hex_any c && all_hex_any cs

-- `decodeHashBytes` of the backend.
unfoldable pub decode_hash_bytes : Text → Option (List ℕ)
decode_hash_bytes value =
    if length value == 64 && all_hex_any value
    then some (hex_pairs value)
    else if not (is_base64 value)
    then none
    else if same_text (unpadded (to_base64 (from_base64 value))) (unpadded value)
    then some (from_base64 value)
    else none

abbrev pub memo_of_bytes : List ℕ → Option Text
memo_of_bytes bytes =
    if not (length bytes == 32) || not (all_zero (take 28 bytes))
    then none
    else if is_canonical (show_bytes (drop 28 bytes))
    then some (show_bytes (drop 28 bytes))
    else none

abbrev pub memo_of_hash : Option (List ℕ) → Option Text
memo_of_hash none = none
memo_of_hash (some bytes) = memo_of_bytes bytes

-- Of digits; a number outside the 32 bits is refused, as is one that is not a safe integer.
abbrev pub memo_of_id : Text → Option Text
memo_of_id [] = none
memo_of_id (c ∷ cs) =
    if not (all_digits (c ∷ cs))
    then none
    else if ltb 0xffffffff (read (c ∷ cs))
    then none
    else some (pad_start 8 b'0' (show_hex (read (c ∷ cs))))

unfoldable pub decode_as : MemoType → Text → Option Text
decode_as memo_text value = nonempty (trim value)
decode_as memo_id value = memo_of_id (trim value)
decode_as memo_hash value = memo_of_hash (decode_hash_bytes (trim value))

abbrev decode_typed : Option MemoType → Text → Option Text
decode_typed none value = none
decode_typed (some type) value = decode_as type value

module _ (U : Casing) where
  -- `normalizeMemoType` of the backend, and that of the frontend, where no type is MEMO_TEXT and an
  -- unknown one is an error.
  unfoldable pub normalize_memo_type : Text → Option MemoType
  normalize_memo_type [] = none
  normalize_memo_type (c ∷ cs) = supported (full_type (U.upper (c ∷ cs)))

  unfoldable pub normalize_for_encoding : Text → Option MemoType
  normalize_for_encoding [] = some memo_text
  normalize_for_encoding (c ∷ cs) = supported (full_type (U.upper (c ∷ cs)))

  -- `isEncodableMemo`, and `isCanonicalMemo` of the backend.
  unfoldable pub is_encodable_memo : Text → Bool
  is_encodable_memo memo = is_canonical (U.upper (trim memo))

  abbrev pub encode_value : MemoType → Text → Option Text
  encode_value memo_text value = none
  encode_value memo_id value = some (show (read_hex value))
  encode_value memo_hash value = some (to_base64 (padding ++ hex_pairs value))

  unfoldable pub encode_as : MemoType → Text → Option Text
  encode_as memo_text memo = if ltb 28 (utf8_length memo) then none else some memo
  encode_as type memo =
      if not (is_encodable_memo (U.upper (trim memo)))
      then none
      else encode_value type (U.upper (trim memo))

  -- `encodeMemo`.
  abbrev encode_typed : Option MemoType → Text → Option Text
  encode_typed none memo = none
  encode_typed (some type) memo = encode_as type memo

  unfoldable pub encode_memo : Text → Text → Option Text
  encode_memo memo type = encode_typed (normalize_for_encoding type) memo

  -- `decodeMemoToCanonical`.
  unfoldable pub decode_memo_to_canonical : Text → Text → Option Text
  decode_memo_to_canonical [] type = none
  decode_memo_to_canonical (c ∷ cs) type = decode_typed (normalize_memo_type type) (c ∷ cs)
