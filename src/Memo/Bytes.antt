-- ===== src/Memo/Bytes.antt =====
-- Bytes that are read back from Base64 text.
use stellar_edu_pay.Common.{
  ℕ, ◌+◌, ◌*◌, ◌/◌, ◌%◌, ◌<◌, ◌≡◌, refl, ap, ◌∙◌, true, false, List, [], ◌∷◌, ◌==◌, Bool-cases, inl,
  inr, arith, All,
}
use stellar_edu_pay.Text.{Text, is_space}
use stellar_edu_pay.Memo.Base64.{
  is_sextet, sextet, value, to_base64, unpadded, from_sextets, from_base64, is_padding,
  sextets_then_padding, is_base64,
}

-- A sextet is no `=`, and is read back.
pub sextet-IsSextet : (v : ℕ) → v < 64 → is_sextet (sextet v) ≡ true
sextet-IsSextet v h = ground arith

pub value-sextet : (v : ℕ) → v < 64 → value (sextet v) ≡ v
value-sextet v h = ground arith

sextet_unequal : (v : ℕ) → v < 64 → (sextet v == b'=') ≡ false
sextet_unequal v h = ground arith

abbrev pub IsByte : ℕ → Type 0
IsByte b = b < 256

unpadded-sextet : (v : ℕ) (cs : Text) → v < 64 → unpadded (sextet v ∷ cs) ≡ sextet v ∷ unpadded cs
unfolding unpadded
unpadded-sextet v cs h = rw (sextet_unequal v h) refl

-- The sextets of three bytes, and what is read from them.
first_byte : (a t : ℕ) → a < 256 → t < 16 → a / 4 * 4 + (a % 4 * 16 + t) / 16 ≡ a
first_byte a t h k = omega (arith, h, k)

second_byte :
    (a b t : ℕ) → b < 256 → t < 4 → (a % 4 * 16 + b / 16) % 16 * 16 + (b % 16 * 4 + t) / 4 ≡ b
second_byte a b t h k = omega (arith, h, k)

third_byte : (b c : ℕ) → c < 256 → (b % 16 * 4 + c / 64) % 4 * 64 + c % 64 ≡ c
third_byte b c h = omega (arith, h)

-- A whole group, and the two that padding follows.
group_of_four :
    (p q r s : ℕ) (cs : Text)
    → p < 64
    → q < 64
    → r < 64
    → s < 64
    → from_base64 (sextet p ∷ sextet q ∷ sextet r ∷ sextet s ∷ cs)
      ≡ (p * 4 + q / 16) ∷ (q % 16 * 16 + r / 4) ∷ (r % 4 * 64 + s) ∷ from_base64 cs
group_of_four p q r s cs hp hq hr hs =
    rw
      (
        unpadded-sextet p _ hp,
        unpadded-sextet q _ hq,
        unpadded-sextet r _ hr,
        unpadded-sextet s cs hs,
      )
      (unfold from_sextets in
        rw (value-sextet p hp, value-sextet q hq, value-sextet r hr, value-sextet s hs) refl)

group_of_three :
    (p q r : ℕ)
    → p < 64
    → q < 64
    → r < 64
    → from_base64 (sextet p ∷ sextet q ∷ sextet r ∷ b'=' ∷ [])
      ≡ (p * 4 + q / 16) ∷ (q % 16 * 16 + r / 4) ∷ []
group_of_three p q r hp hq hr =
    rw (unpadded-sextet p _ hp, unpadded-sextet q _ hq, unpadded-sextet r _ hr)
      (unfold unpadded from_sextets in
        rw (value-sextet p hp, value-sextet q hq, value-sextet r hr) refl)

group_of_two :
    (p q : ℕ)
    → p < 64
    → q < 64
    → from_base64 (sextet p ∷ sextet q ∷ b'=' ∷ b'=' ∷ []) ≡ (p * 4 + q / 16) ∷ []
group_of_two p q hp hq =
    rw (unpadded-sextet p _ hp, unpadded-sextet q _ hq)
      (unfold unpadded from_sextets in rw (value-sextet p hp, value-sextet q hq) refl)

pair_up : {a b : ℕ} {xs ys : List ℕ} → a ≡ b → xs ≡ ys → a ∷ xs ≡ b ∷ ys
pair_up {a = a} {ys = ys} e f = ap (λ (t : List ℕ). a ∷ t) f ∙ ap (λ (n : ℕ). n ∷ ys) e

-- Bytes are read back from their text.
pub from_base64-to_base64 : (bs : List ℕ) → All IsByte bs → from_base64 (to_base64 bs) ≡ bs
unfolding to_base64
from_base64-to_base64 [] h = unfold unpadded from_sextets in refl
from_base64-to_base64 (a ∷ []) (h, _) =
    group_of_two (a / 4) (a % 4 * 16) (omega (arith, h)) (omega arith)
    ∙ pair_up (omega (arith, h)) refl
from_base64-to_base64 (a ∷ b ∷ []) (h, (k, _)) =
    group_of_three (a / 4) (a % 4 * 16 + b / 16) (b % 16 * 4) (omega (arith, h)) (omega (arith, k))
      (omega arith)
    ∙ pair_up (first_byte a (b / 16) h (omega (arith, k))) (pair_up (omega (arith, k)) refl)
from_base64-to_base64 (a ∷ b ∷ c ∷ rest) (h, (k, (l, hs))) =
    group_of_four (a / 4) (a % 4 * 16 + b / 16) (b % 16 * 4 + c / 64) (c % 64) (to_base64 rest)
      (omega (arith, h)) (omega (arith, k)) (omega (arith, l)) (omega arith)
    ∙ pair_up (first_byte a (b / 16) h (omega (arith, k))) (
        pair_up (second_byte a b (c / 64) k (omega (arith, l)))
          (pair_up (third_byte b c l) (from_base64-to_base64 rest hs)))

-- The text of bytes passes the test of the decoder.
sextets_then-sextet :
    (v : ℕ) (cs : Text)
    → v < 64
    → sextets_then_padding cs ≡ true
    → sextets_then_padding (sextet v ∷ cs) ≡ true
unfolding sextets_then_padding
sextets_then-sextet v cs h k = rw (sextet-IsSextet v h) k

one_pad : sextets_then_padding (b'=' ∷ []) ≡ true
unfolding sextets_then_padding
one_pad = refl

two_pads : sextets_then_padding (b'=' ∷ b'=' ∷ []) ≡ true
unfolding sextets_then_padding
two_pads = refl

pub to_base64-tail : (bs : List ℕ) → All IsByte bs → sextets_then_padding (to_base64 bs) ≡ true
unfolding to_base64
to_base64-tail [] h = unfold sextets_then_padding in refl
to_base64-tail (a ∷ []) (h, _) =
    sextets_then-sextet (a / 4) _ (omega (arith, h))
      (sextets_then-sextet (a % 4 * 16) _ (omega arith) two_pads)
to_base64-tail (a ∷ b ∷ []) (h, (k, _)) = sextets_then-sextet (a / 4) _ (omega (arith, h)) (
    sextets_then-sextet (a % 4 * 16 + b / 16) _ (omega (arith, k))
      (sextets_then-sextet (b % 16 * 4) _ (omega arith) one_pad))
to_base64-tail (a ∷ b ∷ c ∷ rest) (h, (k, (l, hs))) =
    sextets_then-sextet (a / 4) _ (omega (arith, h)) (
      sextets_then-sextet (a % 4 * 16 + b / 16) _ (omega (arith, k)) (
        sextets_then-sextet (b % 16 * 4 + c / 64) _ (omega (arith, l))
          (sextets_then-sextet (c % 64) _ (omega arith) (to_base64-tail rest hs))))

is_base64-sextet :
    (v : ℕ) (cs : Text)
    → v < 64
    → sextets_then_padding (sextet v ∷ cs) ≡ true
    → is_base64 (sextet v ∷ cs) ≡ true
unfolding is_base64 sextets_then_padding
is_base64-sextet v cs h k =
    let e : is_sextet (sextet v) ≡ true = sextet-IsSextet v h in rw e (rw e at k)

pub is_base64-to_base64 :
    (b : ℕ) (bs : List ℕ) → All IsByte (b ∷ bs) → is_base64 (to_base64 (b ∷ bs)) ≡ true
unfolding to_base64
is_base64-to_base64 a [] h =
    is_base64-sextet (a / 4) _ (omega (arith, h.0)) (to_base64-tail (a ∷ []) h)
is_base64-to_base64 a (b ∷ []) h =
    is_base64-sextet (a / 4) _ (omega (arith, h.0)) (to_base64-tail (a ∷ b ∷ []) h)
is_base64-to_base64 a (b ∷ c ∷ rest) h =
    is_base64-sextet (a / 4) _ (omega (arith, h.0)) (to_base64-tail (a ∷ b ∷ c ∷ rest) h)

solid : (c : ℕ) → is_sextet c ≡ true → is_space c ≡ false
unfolding is_space
solid c h = ground arith

padding_solid : (s : Text) → is_padding s ≡ true → All (λ c. is_space c ≡ false) s
unfolding is_space
padding_solid [] h = _
padding_solid (c ∷ []) h = (ground arith, _)
padding_solid (c ∷ d ∷ []) h = (ground arith, (ground arith, _))
padding_solid (c ∷ d ∷ e ∷ s) h = absurd (ground arith)

pub base64-solid : (s : Text) → sextets_then_padding s ≡ true → All (λ c. is_space c ≡ false) s
unfolding sextets_then_padding
base64-solid [] h = _
base64-solid (c ∷ cs) h = elim (Bool-cases (is_sextet c)) [
  | inl e ↦ (solid c e, base64-solid cs (rw e at h))
  | inr e ↦ padding_solid (c ∷ cs) (rw e at h)
]
