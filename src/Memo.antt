-- ===== src/Memo.antt =====
-- Payment memos: the encoder of frontend/src/utils/stellarMemo.js and the decoder of
-- backend/src/utils/stellarMemo.js.
pub mod Hex
pub mod Base64
mod Bytes
pub mod Codec
mod Digits
mod Wire
pub mod RoundTrip
mod Tests
