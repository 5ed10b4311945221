-- ===== src/Memo/Base64.antt =====
-- Base64 as `btoa`, `Buffer.from(s, 'base64')` and `toString('base64')` handle it, for
-- frontend/src/utils/stellarMemo.js and backend/src/utils/stellarMemo.js.
use stellar_edu_pay.Common.{
  ℕ, ◌+◌, ◌-◌, ◌*◌, ◌/◌, ◌%◌, Bool, true, false, ◌&&◌, ◌||◌, List, [], ◌∷◌, ltb, leb, ◌==◌,
  if◌then◌else◌,
}
use stellar_edu_pay.Text.{Text, is_digit}

-- `[A-Za-z0-9+/]`
abbrev pub is_sextet : ℕ → Bool
is_sextet c =
    (leb b'A' c && leb c b'Z') || (leb b'a' c && leb c b'z') || is_digit c || c == b'+' || c == b'/'

abbrev pub sextet : ℕ → ℕ
sextet v =
    if ltb v 26
    then b'A' + v
    else if ltb v 52
    then b'a' + (v - 26)
    else if ltb v 62
    then b'0' + (v - 52)
    else if v == 62
    then b'+'
    else b'/'

abbrev pub value : ℕ → ℕ
value c =
    if c == b'+'
    then 62
    else if c == b'/'
    then 63
    else if leb c b'9'
    then c - b'0' + 52
    else if leb c b'Z'
    then c - b'A'
    else c - b'a' + 26

-- The text of a list of bytes, padded with `=`.
unfoldable pub to_base64 : List ℕ → Text
to_base64 [] = []
to_base64 (a ∷ []) = sextet (a / 4) ∷ sextet (a % 4 * 16) ∷ b'=' ∷ b'=' ∷ []
to_base64 (a ∷ b ∷ []) =
    sextet (a / 4) ∷ sextet (a % 4 * 16 + b / 16) ∷ sextet (b % 16 * 4) ∷ b'=' ∷ []
to_base64 (a ∷ b ∷ c ∷ rest) =
    sextet (a / 4)
    ∷ sextet (a % 4 * 16 + b / 16)
    ∷ sextet (b % 16 * 4 + c / 64)
    ∷ sextet (c % 64)
    ∷ to_base64 rest

-- The text in front of its `=`s: `value.replace(/=+$/, '')`, of a text that has them at its end only.
unfoldable pub unpadded : Text → Text
unpadded [] = []
unpadded (c ∷ cs) = if c == b'=' then [] else c ∷ unpadded cs

-- The bytes of a text of sextets, a last one that is alone being dropped.
unfoldable pub from_sextets : Text → List ℕ
from_sextets [] = []
from_sextets (p ∷ []) = []
from_sextets (p ∷ q ∷ []) = (value p * 4 + value q / 16) ∷ []
from_sextets (p ∷ q ∷ r ∷ []) =
    (value p * 4 + value q / 16) ∷ (value q % 16 * 16 + value r / 4) ∷ []
from_sextets (p ∷ q ∷ r ∷ s ∷ rest) =
    (value p * 4 + value q / 16)
    ∷ (value q % 16 * 16 + value r / 4)
    ∷ (value r % 4 * 64 + value s)
    ∷ from_sextets rest

-- `Buffer.from(value, 'base64')`, of a text that `is_base64` admits.
abbrev pub from_base64 : Text → List ℕ
from_base64 s = from_sextets (unpadded s)

-- What follows the sextets: `={0,2}$`.
abbrev pub is_padding : Text → Bool
is_padding [] = true
is_padding (c ∷ []) = c == b'='
is_padding (c ∷ d ∷ []) = c == b'=' && d == b'='
is_padding _ = false

unfoldable pub sextets_then_padding : Text → Bool
sextets_then_padding [] = true
sextets_then_padding (c ∷ cs) =
    let rest = sextets_then_padding cs in if is_sextet c then rest else is_padding (c ∷ cs)

-- `/^[A-Za-z0-9+/]+={0,2}$/.test(value)`
unfoldable pub is_base64 : Text → Bool
is_base64 [] = false
is_base64 (c ∷ cs) = is_sextet c && sextets_then_padding cs
