-- ===== src/Format/Wal/RoundTrip.antt =====
-- The header and the frame header of a log through their bytes.
use rustqlite.Base.{ℕ, ◌^◌, ◌≤◌, ◌<◌, ◌≡◌, ◌∙◌, sym, List, length, drop, arith, true, leb}
use rustqlite.Base.Bytes.{be_u32-be_bytes, drop-add}
use rustqlite.Error.{ok}
use rustqlite.Format.Wal.{
  WalHeader, decode_header, encode_header, WalFrameHeader, decode_frame, encode_frame,
}

pub record IsWalHeader (h : WalHeader) : Type 0 where
  pub magic : h.magic < 2 ^ 32
  pub version : h.format_version < 2 ^ 32
  pub page : h.page_size < 2 ^ 32
  pub seq : h.checkpoint_seq < 2 ^ 32
  pub first_salt : h.salt1 < 2 ^ 32
  pub second_salt : h.salt2 < 2 ^ 32
  pub first_sum : h.checksum1 < 2 ^ 32
  pub second_sum : h.checksum2 < 2 ^ 32

pub record IsFrameHeader (h : WalFrameHeader) : Type 0 where
  pub page : h.page_number < 2 ^ 32
  pub commit : h.commit_size < 2 ^ 32
  pub first_salt : h.salt1 < 2 ^ 32
  pub second_salt : h.salt2 < 2 ^ 32
  pub first_sum : h.checksum1 < 2 ^ 32
  pub second_sum : h.checksum2 < 2 ^ 32

-- What stands behind six writes of four bytes, and behind eight.
drop_24 : (out : List ℕ) → drop 4 (drop 4 (drop 4 (drop 4 (drop 4 (drop 4 out))))) ≡ drop 24 out
drop_24 out =
    let path =
      drop-add 4 20 out
      ∙ drop-add 4 16 (drop 4 out)
      ∙ drop-add 4 12 (drop 4 (drop 4 out))
      ∙ drop-add 4 8 (drop 4 (drop 4 (drop 4 out)))
      ∙ drop-add 4 4 (drop 4 (drop 4 (drop 4 (drop 4 out)))) in
    sym path

drop_32 :
    (out : List ℕ)
    → drop 4 (drop 4 (drop 4 (drop 4 (drop 4 (drop 4 (drop 4 (drop 4 out))))))) ≡ drop 32 out
drop_32 out = drop_24 (drop 4 (drop 4 out)) ∙ sym (drop-add 4 28 out ∙ drop-add 4 24 (drop 4 out))

-- Every header of a log whose fields are `u32`s is read back from the bytes that `encode` writes
-- into a buffer of at least 32, and the bytes behind the first 32 stay as they were.
pub decode_header-encode_header :
    (h : WalHeader) (out : List ℕ)
    → IsWalHeader h
    → 32 ≤ length out
    → (decode_header (encode_header h out) ≡ ok h) × (drop 32 (encode_header h out) ≡ drop 32 out)
unfolding decode_header encode_header
decode_header-encode_header h out v fits =
    let long : leb 32 (length (encode_header h out)) ≡ true = ground arith in
    let path : decode_header (encode_header h out) ≡ ok h = rw long (λ i. ok (record {
      magic = be_u32-be_bytes h.magic v.magic i;
      format_version = be_u32-be_bytes h.format_version v.version i;
      page_size = be_u32-be_bytes h.page_size v.page i;
      checkpoint_seq = be_u32-be_bytes h.checkpoint_seq v.seq i;
      salt1 = be_u32-be_bytes h.salt1 v.first_salt i;
      salt2 = be_u32-be_bytes h.salt2 v.second_salt i;
      checksum1 = be_u32-be_bytes h.checksum1 v.first_sum i;
      checksum2 = be_u32-be_bytes h.checksum2 v.second_sum i;
    })) in
    (path, drop_32 out)

-- The same of a frame header and the first 24 bytes.
pub decode_frame-encode_frame :
    (h : WalFrameHeader) (out : List ℕ)
    → IsFrameHeader h
    → 24 ≤ length out
    → (decode_frame (encode_frame h out) ≡ ok h) × (drop 24 (encode_frame h out) ≡ drop 24 out)
unfolding decode_frame encode_frame
decode_frame-encode_frame h out v fits =
    let long : leb 24 (length (encode_frame h out)) ≡ true = ground arith in
    let path : decode_frame (encode_frame h out) ≡ ok h = rw long (λ i. ok (record {
      page_number = be_u32-be_bytes h.page_number v.page i;
      commit_size = be_u32-be_bytes h.commit_size v.commit i;
      salt1 = be_u32-be_bytes h.salt1 v.first_salt i;
      salt2 = be_u32-be_bytes h.salt2 v.second_salt i;
      checksum1 = be_u32-be_bytes h.checksum1 v.first_sum i;
      checksum2 = be_u32-be_bytes h.checksum2 v.second_sum i;
    })) in
    (path, drop_24 out)
