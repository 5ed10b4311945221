-- ===== src/Memo/Wire.antt =====
-- The texts of a memo as MEMO_ID and as MEMO_HASH, decoded (backend/src/utils/stellarMemo.js).
use stellar_edu_pay.Common.{
  ℕ, zero, suc, ◌+◌, ◌*◌, ◌/◌, ◌%◌, ◌^◌, ◌<◌, ◌≤◌, ◌≡◌, refl, sym, ap, ◌∙◌, true, false, List, [],
  ◌∷◌, ◌++◌, some, ltb, ◌==◌, length, replicate, All, arith, Bool-cases, inl, inr, All-append,
}
use mathlib.Core.Path.{subst}
use native.Mathlib.Nat.{pow-suc}
use stellar_edu_pay.Text.{Text, pad_start, all_digits, read, show, show_fuel}
use stellar_edu_pay.Text.Trim.{trim-solid, all_digits-solid}
use stellar_edu_pay.Text.Decimal.{read-show, all_digits-show, mul_mono}
use stellar_edu_pay.Memo.Hex.{
  is_hex, read_hex, read_hex_from, hex_value, show_hex, last_digits-read, pad-show_hex,
  hex_value-lt,
}
use stellar_edu_pay.Memo.Base64.{to_base64, unpadded}
use stellar_edu_pay.Memo.Bytes.{
  IsByte, from_base64-to_base64, is_base64-to_base64, to_base64-tail, base64-solid,
}
use stellar_edu_pay.Memo.Codec.{
  memo_id, memo_hash, same_text, all_hex, is_canonical, hex_pairs, show_bytes, padding,
  decode_hash_bytes, memo_of_bytes, memo_of_id, decode_as,
}
use stellar_edu_pay.Memo.Digits.{
  all_hex-All, hex_pairs-length, hex_pairs-IsByte, show_bytes-hex_pairs,
}

-- A canonical memo, taken apart.
pub canonical_parts : (v : Text) → is_canonical v ≡ true → (length v ≡ 8) × (all_hex v ≡ true)
canonical_parts v h = ground arith

times_16 : (a p : ℕ) → a * 16 * p ≡ a * (p * 16)
times_16 a p = omega arith

read_hex_from-lt :
    (acc : ℕ) (s : Text)
    → All (λ c. is_hex c ≡ true) s
    → read_hex_from acc s < (acc + 1) * 16 ^ length s
unfolding read_hex_from
read_hex_from-lt acc [] h = omega arith
read_hex_from-lt acc (c ∷ s) h =
    let v : hex_value c < 16 = hex_value-lt c h.0 in
    let ih : read_hex_from (acc * 16 + hex_value c) s
        < (acc * 16 + hex_value c + 1) * 16 ^ length s =
      read_hex_from-lt (acc * 16 + hex_value c) s h.1 in
    let m : (acc * 16 + hex_value c + 1) * 16 ^ length s ≤ (acc + 1) * 16 * 16 ^ length s =
      mul_mono _ _ (16 ^ length s) (omega (arith, v)) in
    let p : (acc + 1) * 16 * 16 ^ length s ≡ (acc + 1) * 16 ^ suc (length s) =
      times_16 (acc + 1) (16 ^ length s)
      ∙ ap (λ (t : ℕ). (acc + 1) * t) (sym (pow-suc 16 (length s))) in
    omega (arith, ih, m, p)

read_hex-lt : (v : Text) → is_canonical v ≡ true → read_hex v < 16 ^ 8
read_hex-lt v h =
    let (l, x) = canonical_parts v h in
    subst (λ (n : ℕ). read_hex v < 16 ^ n) l (omega (arith, read_hex_from-lt 0 v (all_hex-All v x)))

snoc-cons : (xs : Text) (x : ℕ) → (c : ℕ) × (cs : Text) × (xs ++ x ∷ [] ≡ c ∷ cs)
snoc-cons [] x = (x, [], refl)
snoc-cons (y ∷ ys) x = (y, ys ++ x ∷ [], refl)

show-cons : (n : ℕ) → (c : ℕ) × (cs : Text) × (show n ≡ c ∷ cs)
unfolding show show_fuel
show-cons n = elim (Bool-cases (ltb n 10)) [
  | inl small ↦ rw small (b'0' + n, [], refl)
  | inr large ↦ rw large (snoc-cons (show_fuel n (n / 10)) (b'0' + n % 10))
]

pub decode_id : (v : Text) → is_canonical v ≡ true → decode_as memo_id (show (read_hex v)) ≡ some v
unfolding decode_as
decode_id v h =
    let n : ℕ = read_hex v in
    let (l, x) = canonical_parts v h in
    let (c, cs, e) = show-cons n in
    let fits : ltb 0xffffffff n ≡ false = ground (arith, read_hex-lt v h) in
    let digits : pad_start 8 b'0' (show_hex n) ≡ v =
      pad-show_hex 7 n (read_hex-lt v h)
      ∙ last_digits-read 0 8 0 v (omega (arith, l)) (all_hex-All v x) in
    rw (trim-solid (show n) (all_digits-solid (show n) (all_digits-show n)))
      (found n c cs e fits digits)
  where
    found :
        (n c : ℕ) (cs : Text)
        → show n ≡ c ∷ cs
        → ltb 0xffffffff n ≡ false
        → pad_start 8 b'0' (show_hex n) ≡ v
        → memo_of_id (show n) ≡ some v
    found n c cs e fits digits =
        let d : all_digits (c ∷ cs) ≡ true =
          subst (λ (t : Text). all_digits t ≡ true) e (all_digits-show n) in
        let r : read (c ∷ cs) ≡ n = ap read (sym e) ∙ read-show n in
        rw (e, d, r, fits) (ap some digits)

-- The bytes of the hash.
hash_text-length :
    (bs : List ℕ) → length bs ≡ 4 → (length (to_base64 (padding ++ bs)) == 64) ≡ false
unfolding to_base64
hash_text-length (a ∷ b ∷ c ∷ d ∷ []) h = refl
hash_text-length [] h = absurd (omega (arith, h))
hash_text-length (a ∷ []) h = absurd (omega (arith, h))
hash_text-length (a ∷ b ∷ []) h = absurd (omega (arith, h))
hash_text-length (a ∷ b ∷ c ∷ []) h = absurd (omega (arith, h))
hash_text-length (a ∷ b ∷ c ∷ d ∷ e ∷ rest) h = absurd (omega (arith, h))

same_text_refl : (s : Text) → same_text s s ≡ true
unfolding same_text
same_text_refl [] = refl
same_text_refl (c ∷ cs) = ground (arith, same_text_refl cs)

decode_hash_bytes-text :
    (bs : List ℕ)
    → length bs ≡ 4
    → All IsByte (padding ++ bs)
    → decode_hash_bytes (to_base64 (padding ++ bs)) ≡ some (padding ++ bs)
unfolding decode_hash_bytes
decode_hash_bytes-text bs l h =
    let bytes : List ℕ = padding ++ bs in
    rw
      (
        hash_text-length bs l,
        is_base64-to_base64 0 (replicate 27 0 ++ bs) h,
        from_base64-to_base64 bytes h,
        same_text_refl (unpadded (to_base64 bytes)),
      )
      refl

memo_of_bytes-padded :
    (v : Text)
    → is_canonical v ≡ true
    → (bs : List ℕ) → length bs ≡ 4
    → show_bytes bs ≡ v
    → memo_of_bytes (padding ++ bs) ≡ some v
memo_of_bytes-padded v h bs l e = rw (l, e, h) refl

zeros-IsByte : (n : ℕ) → All IsByte (replicate n 0)
zeros-IsByte zero = _
zeros-IsByte (suc n) = (omega arith, zeros-IsByte n)

padded : (bs : List ℕ) → All IsByte bs → All IsByte (padding ++ bs)
padded bs h = All-append IsByte padding bs (zeros-IsByte 28) h

pub decode_hash :
    (v : Text)
    → is_canonical v ≡ true
    → decode_as memo_hash (to_base64 (padding ++ hex_pairs v)) ≡ some v
unfolding decode_as
decode_hash v h =
    let (l, x) = canonical_parts v h in
    let bs : List ℕ = hex_pairs v in
    let four : length bs ≡ 4 = hex_pairs-length 4 v l in
    let bytes : All IsByte (padding ++ bs) = padded bs (hex_pairs-IsByte v x) in
    rw
      (
        trim-solid (to_base64 (padding ++ bs))
            (base64-solid _ (to_base64-tail (padding ++ bs) bytes)),
        decode_hash_bytes-text bs four bytes,
      )
      (memo_of_bytes-padded v h bs four (show_bytes-hex_pairs 4 v l x))
