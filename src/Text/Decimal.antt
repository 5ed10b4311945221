-- ===== src/Text/Decimal.antt =====
-- Printing a number in decimal and reading it back.
use stellar_edu_pay.Common.{
  ap, ℕ, zero, suc, ◌+◌, ◌-◌, ◌*◌, ◌/◌, ◌%◌, ◌^◌, ◌≤◌, ◌<◌, ◌≡◌, refl, ◌∙◌, inl, inr, true, [], ◌∷◌,
  ◌++◌, ltb, Bool-cases, arith, length, replicate, length-append,
}
use native.Mathlib.Nat.{pow-suc}
use stellar_edu_pay.Text.{Text, all_digits, read_from, read, show_fuel, show}

pub read_from-append :
    (acc : ℕ) (xs ys : Text) → read_from acc (xs ++ ys) ≡ read_from (read_from acc xs) ys
unfolding read_from
read_from-append acc [] ys = refl
read_from-append acc (x ∷ xs) ys = read_from-append (acc * 10 + (x - b'0')) xs ys

pub all_digits-append :
    (xs ys : Text) → all_digits xs ≡ true → all_digits ys ≡ true → all_digits (xs ++ ys) ≡ true
unfolding all_digits
all_digits-append [] ys h k = k
all_digits-append (x ∷ xs) ys h k = ground (arith, all_digits-append xs ys)

read-show_fuel : (f n : ℕ) → n < f → read_from 0 (show_fuel f n) ≡ n
unfolding show_fuel
read-show_fuel zero n h = elim h [ ]
read-show_fuel (suc f) n h = elim (Bool-cases (ltb n 10)) [
  | inl small ↦ rw small (unfold read_from in ground arith)
  | inr large ↦
      rw (large, read_from-append, read-show_fuel f (n / 10) (ground arith))
        (unfold read_from in omega arith)
]

pub read-show : (n : ℕ) → read (show n) ≡ n
unfolding read show
read-show n = read-show_fuel (suc n) n (omega arith)

all_digits-show_fuel : (f n : ℕ) → all_digits (show_fuel f n) ≡ true
unfolding show_fuel
all_digits-show_fuel zero n = unfold all_digits in refl
all_digits-show_fuel (suc f) n = elim (Bool-cases (ltb n 10)) [
  | inl small ↦ rw small (unfold all_digits in ground arith)
  | inr large ↦
      rw large (
        all_digits-append _ _ (all_digits-show_fuel f (n / 10)) (unfold all_digits in ground arith))
]

pub all_digits-show : (n : ℕ) → all_digits (show n) ≡ true
unfolding show
all_digits-show n = all_digits-show_fuel (suc n) n

div_lt : (k n : ℕ) → n < 10 ^ suc (suc k) → n / 10 < 10 ^ suc k
div_lt k n h = omega (arith, pow-suc 10 (suc k))

-- A number below 10 ^ (k + 1) has at most k + 1 digits, and at least one.
length-show_fuel : (f k n : ℕ) → n < 10 ^ suc k → length (show_fuel f n) ≤ suc k
unfolding show_fuel
length-show_fuel zero k n h = omega arith
length-show_fuel (suc f) zero n h = ground arith
length-show_fuel (suc f) (suc k) n h = elim (Bool-cases (ltb n 10)) [
  | inl small ↦ rw small (omega arith)
  | inr large ↦ rw large (
      omega (
        arith,
        length-append (show_fuel f (n / 10)) ((b'0' + n % 10) ∷ []),
        length-show_fuel f k (n / 10) (div_lt k n h),
      ))
]

pub length-show : (k n : ℕ) → n < 10 ^ suc k → length (show n) ≤ suc k
unfolding show
length-show k n h = length-show_fuel (suc n) k n h

pub read_from-replicate : (n : ℕ) → read_from 0 (replicate n b'0') ≡ 0
unfolding read_from
read_from-replicate zero = refl
read_from-replicate (suc n) = read_from-replicate n

pub all_digits-replicate : (n : ℕ) → all_digits (replicate n b'0') ≡ true
unfolding all_digits
all_digits-replicate zero = refl
all_digits-replicate (suc n) = all_digits-replicate n

shift : (acc d l : ℕ) → (acc * 10 + d) * l ≡ acc * (l * 10) + d * l
shift acc d l = omega arith

-- The value of a text behind an accumulator, and the bound that its length gives.
pub read_from-scale : (acc : ℕ) (s : Text) → read_from acc s ≡ acc * 10 ^ length s + read_from 0 s
unfolding read_from
read_from-scale acc [] = omega arith
read_from-scale acc (c ∷ s) =
    read_from-scale (acc * 10 + (c - b'0')) s
    ∙ omega (
      arith,
      read_from-scale (0 * 10 + (c - b'0')) s,
      shift acc (c - b'0') (10 ^ length s),
      ap (λ (t : ℕ). acc * t) (pow-suc 10 (length s)),
      shift 0 (c - b'0') (10 ^ length s),
    )

pub mul_mono : (a b c : ℕ) → a ≤ b → a * c ≤ b * c
mul_mono a b c h = grind arith

pub read_from-lt : (s : Text) → all_digits s ≡ true → read_from 0 s < 10 ^ length s
unfolding read_from all_digits
read_from-lt [] h = omega arith
read_from-lt (c ∷ s) h =
    let b : 0 * 10 + (c - b'0') ≤ 9 = ground arith in
    let t : read_from 0 s < 10 ^ length s = ground (arith, read_from-lt s) in
    let m : (0 * 10 + (c - b'0')) * 10 ^ length s ≤ 9 * 10 ^ length s = mul_mono _ 9 _ b in
    omega (arith, read_from-scale (0 * 10 + (c - b'0')) s, pow-suc 10 (length s))
