-- ===== src/Money/Amount/Rounding.antt =====
-- How backend/src/utils/stellarAmount.js rounds an amount with any number of decimals.
use mathlib.Core.List.{append_assoc}
use native.Mathlib.Nat.{pow-suc}
use stellar_edu_pay.Common.{
  ℕ, zero, suc, ◌+◌, ◌*◌, ◌-◌, ◌^◌, ◌≤◌, ◌<◌, ◌≡◌, refl, ◌∙◌, ap, true, [], ◌∷◌, ◌++◌, some, arith,
  length, take, replicate, if◌then◌else◌, ◌⊎◌, inl, inr, leb, length-append, Bool-cases,
  take-append, drop-append, drop-short, cut_at,
}
use stellar_edu_pay.Common.Int.{pos}
use stellar_edu_pay.Text.{Text, all_digits, read, read_from}
use stellar_edu_pay.Text.Decimal.{read_from-append, read_from-scale, read_from-lt, mul_mono}
use stellar_edu_pay.Money.Amount.Parsing.{to_stroops-unsigned}
use stellar_edu_pay.Money.Amount.{text, to_stroops, magnitude, stroops_per_unit, rounds_up}

pow_add : (a b : ℕ) → 10 ^ (a + b) ≡ 10 ^ a * 10 ^ b
pow_add a zero = omega (arith, exponent (a + 0) a (omega arith))
  where
    exponent : (x y : ℕ) → x ≡ y → 10 ^ x ≡ 10 ^ y
    exponent x y = ap (λ (t : ℕ). 10 ^ t)
pow_add a (suc b) =
    ap (λ (t : ℕ). 10 ^ t) (omega arith)
    ∙ pow-suc 10 (a + b)
    ∙ omega (arith, pow_add a b, ap (λ (t : ℕ). 10 ^ a * t) (pow-suc 10 b))

-- Padding with zeros multiplies by a power of ten.
read_from-zeros : (acc k n : ℕ) → k ≤ n → read_from acc (take k (replicate n b'0')) ≡ acc * 10 ^ k
unfolding read_from
read_from-zeros acc zero n h = omega arith
read_from-zeros acc (suc k) zero h = absurd (omega arith)
read_from-zeros acc (suc k) (suc n) h =
    read_from-zeros (acc * 10 + 0) k n (omega arith)
    ∙ omega (arith, ap (λ (t : ℕ). acc * t) (pow-suc 10 k))

read_from-padded :
    (acc k n : ℕ) (f : Text)
    → length f ≤ k
    → k ≤ n
    → read_from acc (take k (f ++ replicate n b'0')) ≡ read_from acc f * 10 ^ (k - length f)
unfolding read_from
read_from-padded acc k n [] h g = read_from-zeros acc k n g ∙ ap (λ t. acc * 10 ^ t) (omega arith)
read_from-padded acc zero n (c ∷ f) h g = absurd (omega arith)
read_from-padded acc (suc k) n (c ∷ f) h g =
    read_from-padded (acc * 10 + (c - b'0')) k n f (omega arith) (omega arith)
    ∙ ap (λ t. read_from (acc * 10 + (c - b'0')) f * 10 ^ t) (omega arith)

-- The rounded magnitude `r` of `v / p` units: `r` is the whole number next to `v * 10^7 / p`, and
-- the upper one where two are equally near.
abbrev pub IsNearest : ℕ → ℕ → ℕ → Type 0
IsNearest v p r =
    (2 * (r * p) ≤ 2 * (v * stroops_per_unit) + p) × (2 * (v * stroops_per_unit) < 2 * (r * p) + p)

IsNearest-short :
    (i f e p : ℕ)
    → 0 < p
    → stroops_per_unit ≡ e * p
    → IsNearest (i * p + f) p (i * stroops_per_unit + f * e + 0)
IsNearest-short i f e p h q =
    let t : (i * p + f) * (e * p) ≡ (i * (e * p) + f * e + 0) * p = omega arith in
    let u : (i * p + f) * stroops_per_unit ≡ (i * stroops_per_unit + f * e + 0) * p = rw q t in
    (omega (arith, u), omega (arith, u))

-- `w` is the number that the digits from the eighth on make, `q` the power of ten of the rest.
IsNearest-long :
    (n w q c : ℕ)
    → 0 < q
    → w < 10 * q
    → ((c ≡ 1) × (10 * q ≤ 2 * w)) ⊎ ((c ≡ 0) × (2 * w < 10 * q))
    → IsNearest (n * (10 * q) + w) (stroops_per_unit * (10 * q)) (n + c)
IsNearest-long n w q c h b (inl (one, up)) =
    let r : (n + c) * (stroops_per_unit * (10 * q))
        ≡ stroops_per_unit * 10 * (n * q) + stroops_per_unit * 10 * q =
      rw one (omega arith) in
    (omega (arith, r), omega (arith, r))
IsNearest-long n w q c h b (inr (none_up, down)) =
    let r : (n + c) * (stroops_per_unit * (10 * q)) ≡ stroops_per_unit * 10 * (n * q) =
      rw none_up (omega arith) in
    (omega (arith, r), omega (arith, r))

-- The digits from the eighth on, split into the one that decides and the rest.
carry : Text → ℕ
carry s = if rounds_up s then 1 else 0

read_from-cons : (c : ℕ) (s : Text) → read_from 0 (c ∷ s) ≡ read_from (0 * 10 + (c - b'0')) s
unfolding read_from
read_from-cons c s = refl

digits-tail : (c : ℕ) (s : Text) → all_digits (c ∷ s) ≡ true → all_digits s ≡ true
unfolding all_digits
digits-tail c s h = ground arith

digits-drop : (xs ys : Text) → all_digits (xs ++ ys) ≡ true → all_digits ys ≡ true
unfolding all_digits
digits-drop [] ys h = h
digits-drop (x ∷ xs) ys h = ground (arith, digits-drop xs ys)

digit-bound : (c : ℕ) (s : Text) → all_digits (c ∷ s) ≡ true → 0 * 10 + (c - b'0') ≤ 9
unfolding all_digits
digit-bound c s h = ground arith

pow_pos : (n : ℕ) → 0 < 10 ^ n
pow_pos zero = omega arith
pow_pos (suc n) = omega (arith, pow-suc 10 n, pow_pos n)

tail_decides :
    (c : ℕ) (s : Text)
    → all_digits (c ∷ s) ≡ true
    → let w = read_from 0 (c ∷ s) in
      let q = 10 ^ length s in
      (w < 10 * q)
      × ((carry (c ∷ s) ≡ 1) × (10 * q ≤ 2 * w) ⊎ (carry (c ∷ s) ≡ 0) × (2 * w < 10 * q))
unfolding carry
tail_decides c s h =
    let q : ℕ = 10 ^ length s in
    let d : ℕ = 0 * 10 + (c - b'0') in
    let w : read_from 0 (c ∷ s) ≡ d * q + read_from 0 s =
      read_from-cons c s ∙ read_from-scale d s in
    let r : read_from 0 s < q = read_from-lt s (digits-tail c s h) in
    let nine : d * q ≤ 9 * q = mul_mono d 9 q (digit-bound c s h) in
    elim (Bool-cases (leb b'5' c)) [
      | inl up ↦
          let five : 5 * q ≤ d * q = mul_mono 5 d q (ground arith) in
          (omega arith, inl (rw up, omega arith))
      | inr down ↦
          let four : d * q ≤ 4 * q = mul_mono d 4 q (ground arith) in
          (omega arith, inr (rw down, omega arith))
    ]

power-short : (n : ℕ) → n ≤ 7 → stroops_per_unit ≡ 10 ^ (7 - n) * 10 ^ n
power-short n h =
    let e : 7 ≡ 7 - n + n = omega arith in ap (λ (t : ℕ). 10 ^ t) e ∙ pow_add (7 - n) n

module _ (i : Text) where
  value-parts : (f : Text) → read (i ++ f) ≡ read i * 10 ^ length f + read f
  unfolding read
  value-parts f = read_from-append 0 i f ∙ read_from-scale (read_from 0 i) f

  magnitude-short :
      (f : Text)
      → length f ≤ 7
      → magnitude i f ≡ read i * stroops_per_unit + read f * 10 ^ (7 - length f) + 0
  unfolding magnitude read
  magnitude-short f h = rw (read_from-padded 0 7 7 f h (omega arith), drop-short 7 f h)

  IsNearest-magnitude_short :
      (f : Text) → length f ≤ 7 → IsNearest (read (i ++ f)) (10 ^ length f) (magnitude i f)
  IsNearest-magnitude_short f h =
      rw (value-parts f, magnitude-short f h)
        (IsNearest-short (read i) (read f) (10 ^ (7 - length f)) (10 ^ length f)
          (pow_pos (length f)) (power-short (length f) h))

  module _ (p : Text) (c : ℕ) (s : Text) (l : length p ≡ 7) where
    magnitude-long : magnitude i (p ++ c ∷ s) ≡ read i * stroops_per_unit + read p + carry (c ∷ s)
    unfolding magnitude carry
    magnitude-long =
        rw (
          append_assoc p (c ∷ s) (replicate 7 b'0'),
          take-append 7 p _ l,
          drop-append 7 p (c ∷ s) l,
        )

    value-long :
        read (i ++ (p ++ c ∷ s))
        ≡ (read i * stroops_per_unit + read p) * (10 * 10 ^ length s) + read_from 0 (c ∷ s)
    unfolding read
    value-long =
        read_from-append 0 i (p ++ c ∷ s)
        ∙ read_from-append (read_from 0 i) p (c ∷ s)
        ∙ read_from-scale (read_from (read_from 0 i) p) (c ∷ s)
        ∙ rw (read_from-scale (read_from 0 i) p, l, pow-suc 10 (length s)) (omega arith)

    power-long : 10 ^ length (p ++ c ∷ s) ≡ stroops_per_unit * (10 * 10 ^ length s)
    power-long =
        ap (λ (t : ℕ). 10 ^ t) (length-append p (c ∷ s) ∙ omega arith)
        ∙ pow_add 8 (length s)
        ∙ omega arith

    IsNearest-magnitude_long :
        all_digits (c ∷ s) ≡ true
        → IsNearest (read (i ++ (p ++ c ∷ s))) (10 ^ length (p ++ c ∷ s)) (magnitude i (p ++ c ∷ s))
    IsNearest-magnitude_long h =
        let (bound, decides) = tail_decides c s h in
        rw (value-long, power-long, magnitude-long)
          (IsNearest-long (read i * stroops_per_unit + read p) (read_from 0 (c ∷ s)) (10 ^ length s)
            (carry (c ∷ s)) (pow_pos (length s)) bound decides)

-- The text of an unsigned decimal with a point and any number of digits on either side of it is
-- read as the nearest whole number of stroops, a half being rounded up.
pub to_stroops-IsNearest :
    (i f : Text)
    → all_digits i ≡ true
    → all_digits f ≡ true
    → 0 < length (i ++ f)
    → (r : ℕ) × (to_stroops (text (i ++ b'.' ∷ f)) ≡ some (pos r))
      × IsNearest (read (i ++ f)) (10 ^ length f) r
to_stroops-IsNearest i f hi hf l = (
  magnitude i f,
  to_stroops-unsigned i f hi hf l,
  elim (cut_at 7 f) [
    | inl short ↦ IsNearest-magnitude_short i f short
    | inr (p, c, s, e, seven) ↦
        rw e (IsNearest-magnitude_long i p c s seven (digits-drop p (c ∷ s) (rw e at hf)))
  ],
)
