-- ===== src/Format/WalIndex/RoundTrip.antt =====
-- The header of the wal-index through its bytes.
use rustqlite.Base.{ℕ, ◌^◌, ◌≤◌, ◌<◌, ◌≡◌, List, length, arith, Bool, true, false, leb}
use rustqlite.Error.{ok}
use rustqlite.Format.WalIndex.{
  WalIndexHdr, WalCkptInfo, decode_info, encode_info, decode_hdr, encode_hdr, ne_bytes, of_ne,
}

pub record IsIndexHdr (h : WalIndexHdr) : Type 0 where
  pub version : h.i_version < 2 ^ 32
  pub padding : h.unused < 2 ^ 32
  pub change : h.i_change < 2 ^ 32
  pub page : h.sz_page < 2 ^ 16
  pub frames : h.mx_frame < 2 ^ 32
  pub pages : h.n_page < 2 ^ 32
  pub frame_0 : h.frame_cksum_0 < 2 ^ 32
  pub frame_1 : h.frame_cksum_1 < 2 ^ 32
  pub first_salt : h.salt_0 < 2 ^ 32
  pub second_salt : h.salt_1 < 2 ^ 32
  pub sum_0 : h.cksum_0 < 2 ^ 32
  pub sum_1 : h.cksum_1 < 2 ^ 32

word : (host : Bool) (v : ℕ) → v < 2 ^ 32 → of_ne host (ne_bytes host 4 v) ≡ v
word true v h = omega arith
word false v h = omega arith

half : (host : Bool) (v : ℕ) → v < 2 ^ 16 → of_ne host (ne_bytes host 2 v) ≡ v
half true v h = omega arith
half false v h = omega arith

-- On a host of either byte order, every header whose fields have their widths is read back from the
-- bytes that `encode` writes into a buffer of at least 48.
pub decode_hdr-encode_hdr :
    (host : Bool) (h : WalIndexHdr) (out : List ℕ)
    → IsIndexHdr h
    → 48 ≤ length out
    → decode_hdr host (encode_hdr host h out) ≡ ok h
unfolding decode_hdr encode_hdr
decode_hdr-encode_hdr true h out v fits =
    let long : leb 48 (length (encode_hdr true h out)) ≡ true = ground arith in
    rw long (λ i. ok (record {
      i_version = word true h.i_version v.version i;
      unused = word true h.unused v.padding i;
      i_change = word true h.i_change v.change i;
      is_init = h.is_init;
      big_end_cksum = h.big_end_cksum;
      sz_page = half true h.sz_page v.page i;
      mx_frame = word true h.mx_frame v.frames i;
      n_page = word true h.n_page v.pages i;
      frame_cksum_0 = word true h.frame_cksum_0 v.frame_0 i;
      frame_cksum_1 = word true h.frame_cksum_1 v.frame_1 i;
      salt_0 = word true h.salt_0 v.first_salt i;
      salt_1 = word true h.salt_1 v.second_salt i;
      cksum_0 = word true h.cksum_0 v.sum_0 i;
      cksum_1 = word true h.cksum_1 v.sum_1 i;
    }))
decode_hdr-encode_hdr false h out v fits =
    let long : leb 48 (length (encode_hdr false h out)) ≡ true = ground arith in
    rw long (λ i. ok (record {
      i_version = word false h.i_version v.version i;
      unused = word false h.unused v.padding i;
      i_change = word false h.i_change v.change i;
      is_init = h.is_init;
      big_end_cksum = h.big_end_cksum;
      sz_page = half false h.sz_page v.page i;
      mx_frame = word false h.mx_frame v.frames i;
      n_page = word false h.n_page v.pages i;
      frame_cksum_0 = word false h.frame_cksum_0 v.frame_0 i;
      frame_cksum_1 = word false h.frame_cksum_1 v.frame_1 i;
      salt_0 = word false h.salt_0 v.first_salt i;
      salt_1 = word false h.salt_1 v.second_salt i;
      cksum_0 = word false h.cksum_0 v.sum_0 i;
      cksum_1 = word false h.cksum_1 v.sum_1 i;
    }))

pub record IsCkptInfo (h : WalCkptInfo) : Type 0 where
  pub n_backfill : h.n_backfill < 2 ^ 32
  pub read_mark_0 : h.read_mark_0 < 2 ^ 32
  pub read_mark_1 : h.read_mark_1 < 2 ^ 32
  pub read_mark_2 : h.read_mark_2 < 2 ^ 32
  pub read_mark_3 : h.read_mark_3 < 2 ^ 32
  pub read_mark_4 : h.read_mark_4 < 2 ^ 32
  pub n_backfill_attempted : h.n_backfill_attempted < 2 ^ 32
  pub not_used_0 : h.not_used_0 < 2 ^ 32

-- On a host of either byte order, every checkpoint record whose marks and counts have 32 bits is read
-- back from the bytes that `encode` writes into a buffer of at least 40.
decode_info-encode_info :
    (host : Bool) (h : WalCkptInfo) (out : List ℕ)
    → IsCkptInfo h
    → 40 ≤ length out
    → decode_info host (encode_info host h out) ≡ ok h
unfolding decode_info encode_info
decode_info-encode_info true h out v fits =
    let long : leb 40 (length (encode_info true h out)) ≡ true = ground arith in
    rw long (λ i. ok (record {
      n_backfill = word true h.n_backfill v.n_backfill i;
      read_mark_0 = word true h.read_mark_0 v.read_mark_0 i;
      read_mark_1 = word true h.read_mark_1 v.read_mark_1 i;
      read_mark_2 = word true h.read_mark_2 v.read_mark_2 i;
      read_mark_3 = word true h.read_mark_3 v.read_mark_3 i;
      read_mark_4 = word true h.read_mark_4 v.read_mark_4 i;
      lock_0 = h.lock_0;
      lock_1 = h.lock_1;
      lock_2 = h.lock_2;
      lock_3 = h.lock_3;
      lock_4 = h.lock_4;
      lock_5 = h.lock_5;
      lock_6 = h.lock_6;
      lock_7 = h.lock_7;
      n_backfill_attempted = word true h.n_backfill_attempted v.n_backfill_attempted i;
      not_used_0 = word true h.not_used_0 v.not_used_0 i;
    }))
decode_info-encode_info false h out v fits =
    let long : leb 40 (length (encode_info false h out)) ≡ true = ground arith in
    rw long (λ i. ok (record {
      n_backfill = word false h.n_backfill v.n_backfill i;
      read_mark_0 = word false h.read_mark_0 v.read_mark_0 i;
      read_mark_1 = word false h.read_mark_1 v.read_mark_1 i;
      read_mark_2 = word false h.read_mark_2 v.read_mark_2 i;
      read_mark_3 = word false h.read_mark_3 v.read_mark_3 i;
      read_mark_4 = word false h.read_mark_4 v.read_mark_4 i;
      lock_0 = h.lock_0;
      lock_1 = h.lock_1;
      lock_2 = h.lock_2;
      lock_3 = h.lock_3;
      lock_4 = h.lock_4;
      lock_5 = h.lock_5;
      lock_6 = h.lock_6;
      lock_7 = h.lock_7;
      n_backfill_attempted = word false h.n_backfill_attempted v.n_backfill_attempted i;
      not_used_0 = word false h.not_used_0 v.not_used_0 i;
    }))
