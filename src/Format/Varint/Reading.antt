-- ===== src/Format/Varint/Reading.antt =====
-- `read_varint` on any input.
use rustqlite.Base.{
  ℕ, zero, suc, ◌+◌, ◌*◌, ◌^◌, ◌≤◌, ◌<◌, ◌≡◌, List, [], ◌∷◌, ◌++◌, length, some, arith, bit_and,
  bit_or, ◌%◌,
}
use rustqlite.Format.Varint.{read_loop, read_varint}

abbrev shifted : ℕ → ℕ → ℕ
shifted r b = bit_or (r * 2 ^ 7 % 2 ^ 64) (bit_and b 0x7f)

read_loop_takes :
    (m i r v n : ℕ) (buf : List ℕ)
    → read_loop m i r buf ≡ some (v, n)
    → i + m ≡ 8
    → (i < n) × (n ≤ 9) × (n ≤ i + length buf)
unfolding read_loop
read_loop_takes m i r v n [] e h = ground arith
read_loop_takes zero i r v n (b ∷ buf) e h = ground arith
read_loop_takes (suc m) i r v n (b ∷ buf) e h =
    ground (arith, read_loop_takes m (i + 1) (shifted r b) v n buf)

-- On any input, a number that is read takes one to nine bytes, all of them of the input.
pub read_varint_takes :
    (buf : List ℕ) (v n : ℕ) → read_varint buf ≡ some (v, n) → (1 ≤ n) × (n ≤ 9) × (n ≤ length buf)
unfolding read_varint
read_varint_takes buf v n e = omega (arith, read_loop_takes 8 0 0 v n buf e)

-- More input behind a number does not change what is read.
read_loop-append :
    (m i r : ℕ) (buf more : List ℕ) (p : ℕ × ℕ)
    → read_loop m i r buf ≡ some p
    → read_loop m i r (buf ++ more) ≡ some p
unfolding read_loop
read_loop-append m i r [] more p e = ground arith
read_loop-append zero i r (b ∷ buf) more p e = e
read_loop-append (suc m) i r (b ∷ buf) more p e =
    ground (arith, read_loop-append m (i + 1) (shifted r b) buf more p)

pub read_varint-append :
    (buf more : List ℕ) (p : ℕ × ℕ) → read_varint buf ≡ some p → read_varint (buf ++ more) ≡ some p
unfolding read_varint
read_varint-append buf more p e = read_loop-append 8 0 0 buf more p e
