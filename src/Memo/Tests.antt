-- ===== src/Memo/Tests.antt =====
-- ASCII upper case, and the theorem on memos at one memo.
use stellar_edu_pay.Common.{◌≡◌, refl, [], ◌∷◌, map, some}
use stellar_edu_pay.Text.{Text, trim, trim_start, trim_end, is_space, show}
use stellar_edu_pay.Memo.Hex.{read_hex_from}
use stellar_edu_pay.Memo.Codec.{
  upper_unit, Casing, memo_hash, same_text, starts_with, normalize_memo_type,
  normalize_for_encoding, is_encodable_memo, encode_as, encode_memo,
}
use stellar_edu_pay.Memo.RoundTrip.{Travels, decode-encode}

abbrev ascii : Casing
ascii = record { upper = map upper_unit; upper-ascii = λ s h. refl }

-- " a3f91b2c", and the types "hash" and "id".
abbrev memo : Text
memo = b' ' ∷ b'a' ∷ b'3' ∷ b'f' ∷ b'9' ∷ b'1' ∷ b'b' ∷ b'2' ∷ b'c' ∷ []

abbrev hash_type : Text
hash_type = b'h' ∷ b'a' ∷ b's' ∷ b'h' ∷ []

abbrev id_type : Text
id_type = b'i' ∷ b'd' ∷ []

encode_id_test : encode_memo ascii memo id_type ≡ some (show 2751011628)
unfolding encode_memo normalize_for_encoding same_text starts_with encode_as is_encodable_memo trim
    is_space read_hex_from
encode_id_test = refl

decode-encode_example : Travels ascii memo_hash memo hash_type
unfolding normalize_memo_type same_text starts_with is_encodable_memo trim trim_start trim_end
    is_space
decode-encode_example = decode-encode ascii memo hash_type memo_hash refl refl
