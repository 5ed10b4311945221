-- ===== src/Memo/RoundTrip.antt =====
-- A memo that was encoded by frontend/src/utils/stellarMemo.js is decoded by
-- backend/src/utils/stellarMemo.js.
use stellar_edu_pay.Common.{◌≤◌, ◌≡◌, refl, ◌∙◌, true, false, [], ◌∷◌, ◌++◌, none, some, ltb, arith}
use stellar_edu_pay.Text.{Text, trim, show}
use stellar_edu_pay.Text.Trim.{trim-solid}
use stellar_edu_pay.Memo.Hex.{read_hex}
use stellar_edu_pay.Memo.Base64.{to_base64, is_base64}
use stellar_edu_pay.Memo.Codec.{
  Casing, MemoType, memo_text, memo_id, memo_hash, is_canonical, hex_pairs, utf8_length, padding,
  nonempty, decode_hash_bytes, decode_as, normalize_memo_type, normalize_for_encoding,
  is_encodable_memo, encode_value, encode_as, encode_memo, decode_memo_to_canonical,
}
use stellar_edu_pay.Memo.Digits.{all_hex-ascii, all_hex-solid, map-upper_unit}
use stellar_edu_pay.Memo.Wire.{canonical_parts, decode_id, decode_hash}

-- What the encoder puts on the wire, and what the decoder makes of it.
module _ (U : Casing) where
  abbrev pub Travels : MemoType → Text → Text → Type 0
  Travels memo_text memo type =
      utf8_length memo ≤ 28
      → (encode_memo U memo type ≡ some memo)
        × (decode_memo_to_canonical U memo type ≡ nonempty (trim memo))
  Travels _ memo type =
      (wire : Text) × (encode_memo U memo type ≡ some wire)
      × (decode_memo_to_canonical U wire type ≡ some (U.upper (trim memo)))

  upper-canonical : (v : Text) → is_canonical v ≡ true → is_encodable_memo U v ≡ true
  unfolding is_encodable_memo
  upper-canonical v h =
      let (l, x) = canonical_parts v h in
      rw (trim-solid v (all_hex-solid v x), U.upper-ascii v (all_hex-ascii v x), map-upper_unit v x)
        h

  encode_as-numeric :
      (memo : Text)
      → is_encodable_memo U memo ≡ true
      → (encode_as U memo_id memo ≡ encode_value U memo_id (U.upper (trim memo)))
        × (encode_as U memo_hash memo ≡ encode_value U memo_hash (U.upper (trim memo)))
  unfolding encode_as
  encode_as-numeric memo h =
      let e : is_encodable_memo U (U.upper (trim memo)) ≡ true =
        upper-canonical (U.upper (trim memo)) (unfold is_encodable_memo in h) in
      (rw e refl, rw e refl)

  encode_text : (memo : Text) → utf8_length memo ≤ 28 → encode_as U memo_text memo ≡ some memo
  unfolding encode_as
  encode_text memo h = let e : ltb 28 (utf8_length memo) ≡ false = ground arith in rw e refl

  decode_as-nothing : (ty : MemoType) → none ≡ decode_as ty []
  unfolding decode_as decode_hash_bytes trim is_base64
  decode_as-nothing memo_text = refl
  decode_as-nothing memo_id = refl
  decode_as-nothing memo_hash = refl

  decode-typed :
      (wire type : Text) (ty : MemoType)
      → normalize_memo_type U type ≡ some ty
      → decode_memo_to_canonical U wire type ≡ decode_as ty wire
  unfolding decode_memo_to_canonical
  decode-typed [] type ty e = decode_as-nothing ty
  decode-typed (c ∷ cs) type ty e = rw e refl

  encode-typed :
      (memo type : Text) (ty : MemoType)
      → normalize_memo_type U type ≡ some ty
      → encode_memo U memo type ≡ encode_as U ty memo
  unfolding encode_memo normalize_for_encoding normalize_memo_type
  encode-typed memo [] ty e = absurd (ground arith)
  encode-typed memo (c ∷ cs) ty e = rw e refl

  -- For a memo that is canonical once it is trimmed and in upper case, and a type that the decoder
  -- knows: as MEMO_ID and as MEMO_HASH the encoder produces a text from which the decoder gives the
  -- canonical memo; as MEMO_TEXT, within 28 bytes, it sends the memo itself, and the decoder gives
  -- it trimmed, or nothing where nothing is left.
  pub decode-encode :
      (memo type : Text) (ty : MemoType)
      → normalize_memo_type U type ≡ some ty
      → is_encodable_memo U memo ≡ true
      → Travels ty memo type
  decode-encode memo type memo_text e h = λ short. (
    encode-typed memo type memo_text e ∙ encode_text memo short,
    decode-typed memo type memo_text e ∙ (unfold decode_as in refl),
  )
  decode-encode memo type memo_id e h =
      let v : Text = U.upper (trim memo) in
      let c : is_canonical v ≡ true = unfold is_encodable_memo in h in
      (
        show (read_hex v),
        encode-typed memo type memo_id e ∙ (encode_as-numeric memo h).0,
        decode-typed (show (read_hex v)) type memo_id e ∙ decode_id v c,
      )
  decode-encode memo type memo_hash e h =
      let v : Text = U.upper (trim memo) in
      let c : is_canonical v ≡ true = unfold is_encodable_memo in h in
      let wire : Text = to_base64 (padding ++ hex_pairs v) in
      (
        wire,
        encode-typed memo type memo_hash e ∙ (encode_as-numeric memo h).1,
        decode-typed wire type memo_hash e ∙ decode_hash v c,
      )
