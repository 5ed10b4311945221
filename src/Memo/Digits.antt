-- ===== src/Memo/Digits.antt =====
-- The hexadecimal digits of a memo (frontend/src/utils/stellarMemo.js).
use stellar_edu_pay.Common.{
  ℕ, zero, suc, ◌+◌, ◌*◌, ◌/◌, ◌%◌, ◌<◌, ◌≡◌, refl, ap, ◌∙◌, true, false, [], ◌∷◌, map, length, All,
  arith,
}
use stellar_edu_pay.Text.{Text, is_space}
use stellar_edu_pay.Memo.Hex.{is_hex, read_hex_from, hex_value, hex_digit-hex_value, hex_value-lt}
use stellar_edu_pay.Memo.Bytes.{IsByte}
use stellar_edu_pay.Memo.Codec.{upper_unit, all_hex, hex_pairs, show_bytes}

pub all_hex-All : (s : Text) → all_hex s ≡ true → All (λ c. is_hex c ≡ true) s
all_hex-All [] h = _
all_hex-All (c ∷ cs) h = (ground arith, all_hex-All cs (ground arith))

pub all_hex-ascii : (s : Text) → all_hex s ≡ true → All (λ c. c < 128) s
all_hex-ascii [] h = _
all_hex-ascii (c ∷ cs) h = (ground arith, all_hex-ascii cs (ground arith))

hex_unit_solid : (c : ℕ) → is_hex c ≡ true → is_space c ≡ false
unfolding is_space
hex_unit_solid c h = ground arith

pub all_hex-solid : (s : Text) → all_hex s ≡ true → All (λ c. is_space c ≡ false) s
all_hex-solid [] h = _
all_hex-solid (c ∷ cs) h = (hex_unit_solid c (ground arith), all_hex-solid cs (ground arith))

upper_unit-hex : (c : ℕ) → is_hex c ≡ true → upper_unit c ≡ c
upper_unit-hex c h = ground arith

pub map-upper_unit : (s : Text) → all_hex s ≡ true → map upper_unit s ≡ s
map-upper_unit [] h = refl
map-upper_unit (c ∷ cs) h =
    let k : is_hex c ≡ true = ground arith in
    ap (λ (d : ℕ). d ∷ map upper_unit cs) (upper_unit-hex c k)
    ∙ ap (λ (t : Text). c ∷ t) (map-upper_unit cs (ground arith))

-- The bytes of an even number of digits.
byte_digits :
    (a b : ℕ)
    → a < 16
    → b < 16
    → (((0 * 16 + a) * 16 + b) / 16 ≡ a) × (((0 * 16 + a) * 16 + b) % 16 ≡ b)
byte_digits a b h k = (omega (arith, h, k), omega (arith, h, k))

pub hex_pairs-length : (k : ℕ) (s : Text) → length s ≡ k + k → length (hex_pairs s) ≡ k
unfolding hex_pairs
hex_pairs-length zero [] h = refl
hex_pairs-length (suc k) [] h = absurd (omega (arith, h))
hex_pairs-length k (c ∷ []) h = absurd (omega (arith, h))
hex_pairs-length zero (c ∷ d ∷ s) h = absurd (omega (arith, h))
hex_pairs-length (suc k) (c ∷ d ∷ s) h = ap suc (hex_pairs-length k s (omega (arith, h)))

pub hex_pairs-IsByte : (s : Text) → all_hex s ≡ true → All IsByte (hex_pairs s)
unfolding hex_pairs read_hex_from
hex_pairs-IsByte [] h = _
hex_pairs-IsByte (c ∷ []) h = _
hex_pairs-IsByte (c ∷ d ∷ s) h =
    let hs = all_hex-All (c ∷ d ∷ s) h in
    let a : hex_value c < 16 = hex_value-lt c hs.0 in
    let b : hex_value d < 16 = hex_value-lt d hs.1.0 in
    (omega (arith, a, b), hex_pairs-IsByte s (ground arith))

pub show_bytes-hex_pairs :
    (k : ℕ) (s : Text) → length s ≡ k + k → all_hex s ≡ true → show_bytes (hex_pairs s) ≡ s
unfolding hex_pairs show_bytes read_hex_from
show_bytes-hex_pairs zero [] l h = refl
show_bytes-hex_pairs (suc k) [] l h = absurd (omega (arith, l))
show_bytes-hex_pairs k (c ∷ []) l h = absurd (omega (arith, l))
show_bytes-hex_pairs zero (c ∷ d ∷ s) l h = absurd (omega (arith, l))
show_bytes-hex_pairs (suc k) (c ∷ d ∷ s) l h =
    let hs = all_hex-All (c ∷ d ∷ s) h in
    let (front, back) =
      byte_digits (hex_value c) (hex_value d) (hex_value-lt c hs.0) (hex_value-lt d hs.1.0) in
    rw (front, back, hex_digit-hex_value c hs.0, hex_digit-hex_value d hs.1.0)
      (ap (λ (t : Text). c ∷ d ∷ t) (show_bytes-hex_pairs k s (omega (arith, l)) (ground arith)))
