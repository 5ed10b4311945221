-- ===== src/Memo/Hex.antt =====
-- Hexadecimal text, as `toString(16)`, `parseInt(s, 16)` and `padStart` handle it, for
-- frontend/src/utils/stellarMemo.js and backend/src/utils/stellarMemo.js.
use mathlib.Core.List.{append_assoc, append-nil}
use stellar_edu_pay.Common.{
  ℕ, zero, suc, ◌+◌, ◌-◌, ◌*◌, ◌/◌, ◌%◌, ◌^◌, ◌<◌, ◌≤◌, ◌≡◌, refl, sym, ap, ◌∙◌, Bool, true, ◌&&◌,
  ◌||◌, [], ◌∷◌, ◌++◌, ltb, leb, if◌then◌else◌, Bool-cases, inl, inr, arith, length, replicate, All,
  length-append,
}
use native.Mathlib.Nat.{pow-suc}
use stellar_edu_pay.Text.{Text, is_digit, pad_start}

-- `[0-9A-F]`
abbrev pub is_hex : ℕ → Bool
is_hex c = is_digit c || (leb b'A' c && leb c b'F')

-- `[0-9a-fA-F]`
abbrev pub is_hex_any : ℕ → Bool
is_hex_any c = is_hex c || (leb b'a' c && leb c b'f')

-- The value of a digit, of either case.
abbrev pub hex_value : ℕ → ℕ
hex_value c = if leb c b'9' then c - b'0' else if leb c b'F' then c - b'A' + 10 else c - b'a' + 10

-- A digit in upper case.
abbrev pub hex_digit : ℕ → ℕ
hex_digit d = if ltb d 10 then b'0' + d else b'A' + (d - 10)

-- `parseInt(s, 16)` of a text of digits, from an accumulator.
unfoldable pub read_hex_from : ℕ → Text → ℕ
read_hex_from acc [] = acc
read_hex_from acc (c ∷ cs) = read_hex_from (acc * 16 + hex_value c) cs

abbrev pub read_hex : Text → ℕ
read_hex s = read_hex_from 0 s

-- `n.toString(16).toUpperCase()`; a number has at most as many digits as its value plus one.
unfoldable pub show_hex_fuel : ℕ → ℕ → Text
show_hex_fuel zero n = []
show_hex_fuel (suc f) n =
    let front = show_hex_fuel f (n / 16) in
    if ltb n 16 then hex_digit n ∷ [] else front ++ hex_digit (n % 16) ∷ []

unfoldable pub show_hex : ℕ → Text
unfolding show_hex_fuel
show_hex n = show_hex_fuel (suc n) n

-- The last k digits of a number.
abbrev pub last_digits : ℕ → ℕ → Text
last_digits zero n = []
last_digits (suc k) n = last_digits k (n / 16) ++ hex_digit (n % 16) ∷ []

pub hex_digit-hex_value : (c : ℕ) → is_hex c ≡ true → hex_digit (hex_value c) ≡ c
hex_digit-hex_value c h = ground arith

pub hex_value-lt : (c : ℕ) → is_hex c ≡ true → hex_value c < 16
hex_value-lt c h = ground arith

front_digits : (acc v : ℕ) → v < 16 → (acc * 16 + v) / 16 ≡ acc
front_digits acc v h = omega (arith, h)

last_digit : (acc v : ℕ) → v < 16 → (acc * 16 + v) % 16 ≡ v
last_digit acc v h = omega (arith, h)

pub last_digits-read :
    (k l acc : ℕ) (s : Text)
    → length s + k ≡ l
    → All (λ c. is_hex c ≡ true) s
    → last_digits l (read_hex_from acc s) ≡ last_digits k acc ++ s
unfolding read_hex_from
last_digits-read k l acc [] e h =
    let f : l ≡ k = omega (arith, e) in
    ap (λ (m : ℕ). last_digits m acc) f ∙ sym (append-nil (last_digits k acc))
last_digits-read k l acc (c ∷ s) e h =
    let v : hex_value c < 16 = hex_value-lt c h.0 in
    let d : last_digits (suc k) (acc * 16 + hex_value c) ≡ last_digits k acc ++ c ∷ [] =
      rw
        (
          front_digits acc (hex_value c) v,
          last_digit acc (hex_value c) v,
          hex_digit-hex_value c h.0,
        )
        refl in
    last_digits-read (suc k) l (acc * 16 + hex_value c) s (omega (arith, e)) h.1
    ∙ ap (λ (t : Text). t ++ s) d
    ∙ append_assoc (last_digits k acc) (c ∷ []) s

replicate-snoc : (k a : ℕ) → replicate k a ++ a ∷ [] ≡ a ∷ replicate k a
replicate-snoc zero a = refl
replicate-snoc (suc k) a = ap (λ (t : Text). a ∷ t) (replicate-snoc k a)

last_digits-zero : (k : ℕ) → last_digits k 0 ≡ replicate k b'0'
last_digits-zero zero = refl
last_digits-zero (suc k) =
    ap (λ (t : Text). t ++ b'0' ∷ []) (last_digits-zero k) ∙ replicate-snoc k b'0'

pad_start-snoc :
    (k : ℕ) (s : Text) (c : ℕ) → pad_start (suc k) b'0' (s ++ c ∷ []) ≡ pad_start k b'0' s ++ c ∷ []
unfolding pad_start
pad_start-snoc k s c =
    let e : suc k - length (s ++ c ∷ []) ≡ k - length s = omega (arith, length-append s (c ∷ [])) in
    rw e (sym (append_assoc (replicate (k - length s) b'0') s (c ∷ [])))

pad-show_hex_fuel :
    (f k n : ℕ)
    → n < f
    → n < 16 ^ suc k
    → pad_start (suc k) b'0' (show_hex_fuel f n) ≡ last_digits (suc k) n
unfolding show_hex_fuel pad_start
pad-show_hex_fuel zero k n g h = absurd (omega arith)
pad-show_hex_fuel (suc f) k n g h = elim (Bool-cases (ltb n 16)) [
  | inl small ↦
      let q : n / 16 ≡ 0 = ground arith in
      let r : n % 16 ≡ n = ground arith in
      let w : suc k - 1 ≡ k = omega arith in
      rw (small, q, r, w) (ap (λ (t : Text). t ++ hex_digit n ∷ []) (sym (last_digits-zero k)))
  | inr large ↦ rw large (pad_front f k n (ground arith) g h (pad-show_hex_fuel f))
]
  where
    pad_front :
        (f k n : ℕ)
        → 16 ≤ n
        → n < suc f
        → n < 16 ^ suc k
        → ((j m : ℕ)
            → m < f
            → m < 16 ^ suc j
            → pad_start (suc j) b'0' (show_hex_fuel f m) ≡ last_digits (suc j) m)
        → pad_start (suc k) b'0' (show_hex_fuel f (n / 16) ++ hex_digit (n % 16) ∷ [])
          ≡ last_digits (suc k) n
    pad_front f zero n b g h ih = absurd (omega arith)
    pad_front f (suc j) n b g h ih =
        pad_start-snoc (suc j) (show_hex_fuel f (n / 16)) (hex_digit (n % 16))
        ∙ ap (λ (t : Text). t ++ hex_digit (n % 16) ∷ [])
            (ih j (n / 16) (omega (arith, g, b)) (omega (arith, h, pow-suc 16 (suc j))))

-- A number of at most k + 1 hexadecimal digits, padded to that many.
pub pad-show_hex :
    (k n : ℕ) → n < 16 ^ suc k → pad_start (suc k) b'0' (show_hex n) ≡ last_digits (suc k) n
unfolding show_hex
pad-show_hex k n h = pad-show_hex_fuel (suc n) k n (omega arith) h
