-- ===== src/Money/Amount/Parsing.antt =====
-- What is read from a decimal text (backend/src/utils/stellarAmount.js).
use stellar_edu_pay.Common.{
  ℕ, ◌<◌, ◌≡◌, refl, ◌∙◌, Bool, true, false, [], ◌∷◌, ◌++◌, some, arith, length, All, All-append,
}
use stellar_edu_pay.Common.Int.{pos, neg}
use stellar_edu_pay.Text.{Text, all_digits, is_space, split_once}
use stellar_edu_pay.Text.Trim.{trim-solid, all_digits-solid}
use stellar_edu_pay.Money.Amount.{
  text, to_stroops, magnitude, unsigned_stroops, signed_stroops, is_bare, with_sign,
}

split_once-digits :
    (ds fs : Text) → all_digits ds ≡ true → split_once b'.' (ds ++ b'.' ∷ fs) ≡ (ds, some fs)
unfolding split_once all_digits
split_once-digits [] fs h = refl
split_once-digits (d ∷ ds) fs h = ground (arith, split_once-digits ds fs)

not_bare : (a b : Text) → 0 < length (a ++ b) → is_bare (a, some b) ≡ false
not_bare [] [] h = absurd (omega arith)
not_bare [] (c ∷ b) h = refl
not_bare (d ∷ a) b h = refl

unsigned_stroops-parts :
    (negative : Bool) (s f : Text)
    → all_digits s ≡ true
    → all_digits f ≡ true
    → 0 < length (s ++ f)
    → unsigned_stroops negative (s ++ b'.' ∷ f) ≡ some (with_sign negative (magnitude s f))
unfolding unsigned_stroops
unsigned_stroops-parts negative s f h k l = rw (split_once-digits s f h, h, k, not_bare s f l)

-- A digit or a point in front is no sign.
unsigned_front :
    (s f : Text)
    → all_digits s ≡ true
    → signed_stroops (s ++ b'.' ∷ f) ≡ unsigned_stroops false (s ++ b'.' ∷ f)
unfolding signed_stroops all_digits
unsigned_front [] f h = refl
unsigned_front (c ∷ cs) f h = ground arith

behind_sign : (s : Text) → signed_stroops (b'-' ∷ s) ≡ unsigned_stroops true s
unfolding signed_stroops
behind_sign s = refl

to_stroops-solid :
    (c : ℕ) (cs : Text)
    → All (λ d. is_space d ≡ false) (c ∷ cs)
    → to_stroops (text (c ∷ cs)) ≡ signed_stroops (c ∷ cs)
unfolding to_stroops
to_stroops-solid c cs h = rw (trim-solid (c ∷ cs) h)

solid_print :
    (s f : Text)
    → all_digits s ≡ true
    → all_digits f ≡ true
    → All (λ d. is_space d ≡ false) (s ++ b'.' ∷ f)
solid_print s f h k =
    All-append (λ d. is_space d ≡ false) s (b'.' ∷ f) (all_digits-solid s h)
      (unfold is_space in refl, all_digits-solid f k)

-- What is read from the text of a decimal with a point, without a sign and with one.
pub to_stroops-unsigned :
    (s f : Text)
    → all_digits s ≡ true
    → all_digits f ≡ true
    → 0 < length (s ++ f)
    → to_stroops (text (s ++ b'.' ∷ f)) ≡ some (pos (magnitude s f))
to_stroops-unsigned [] f h k l =
    to_stroops-solid b'.' f (solid_print [] f h k)
    ∙ unsigned_front [] f h
    ∙ unsigned_stroops-parts false [] f h k l
to_stroops-unsigned (c ∷ s) f h k l =
    to_stroops-solid c (s ++ b'.' ∷ f) (solid_print (c ∷ s) f h k)
    ∙ unsigned_front (c ∷ s) f h
    ∙ unsigned_stroops-parts false (c ∷ s) f h k l

pub to_stroops-negative :
    (s f : Text)
    → all_digits s ≡ true
    → all_digits f ≡ true
    → 0 < length (s ++ f)
    → to_stroops (text (b'-' ∷ s ++ b'.' ∷ f)) ≡ some (neg (pos (magnitude s f)))
to_stroops-negative s f h k l =
    to_stroops-solid b'-' (s ++ b'.' ∷ f) (unfold is_space in refl, solid_print s f h k)
    ∙ behind_sign (s ++ b'.' ∷ f)
    ∙ unsigned_stroops-parts true s f h k l
