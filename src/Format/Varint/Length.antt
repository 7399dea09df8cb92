-- ===== src/Format/Varint/Length.antt =====
-- The length of a varint grows with the number.
use rustqlite.Base.{ℕ, zero, suc, ◌^◌, ◌≤◌, ◌<◌, arith, ltb, ltb→lt, Bool-cases, inl, inr}
use rustqlite.Format.Varint.{varint_len}
use rustqlite.Format.Varint.RoundTrip.{
  tmp_fits, length-tmp, varint_len_short, varint_len_long, varint_len_bounds,
}

short_mono : (k a : ℕ) → a < 2 ^ 56 → 1 ≤ k → a < 128 ^ k → varint_len a ≤ k
short_mono zero a h p q = absurd (omega arith)
short_mono (suc k) a h p q = omega (arith, varint_len_short a h, length-tmp 9 k a q)

-- A smaller number takes no more bytes.
pub varint_len_mono : (a b : ℕ) → a ≤ b → b < 2 ^ 64 → varint_len a ≤ varint_len b
varint_len_mono a b h hb = elim (Bool-cases (ltb b (2 ^ 56))) [
  | inl short ↦
      let lt = ltb→lt b (2 ^ 56) short in
      let len = varint_len_short b lt in
      let fits : b < 128 ^ varint_len b = rw len (tmp_fits 9 b (omega arith)) in
      short_mono (varint_len b) a (omega arith) (varint_len_bounds b hb).0 (omega arith)
  | inr long ↦ omega (arith, varint_len_long b hb (ground arith), varint_len_bounds a (omega arith))
]
