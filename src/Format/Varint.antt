-- ===== src/Format/Varint.antt =====
-- crates/rustsqlite-core/src/format/varint.rs: integers of 64 bits in 1 to 9 bytes.
-- A buffer is a list of numbers below 256, and a `u64` is a number below 2 ^ 64.
pub mod Groups
pub mod RoundTrip
pub mod Length
pub mod Reading
use rustqlite.Base.{ℕ, zero, suc, ◌+◌, ◌*◌, ◌/◌, ◌%◌, ◌^◌, bit_and, bit_or, ◌==◌, not}
use rustqlite.Base.{List, [], ◌∷◌, ◌++◌, Option, none, some, length, if◌then◌else◌}
use rustqlite.Base.Int.{ℤ}
use rustqlite.Base.Words.{as_i64}
use mathlib.Core.Option

-- The rounds `i..8` of the loop, `rounds` of them left, on what stands behind `buf[i]`; then the
-- ninth byte.
pub read_loop : ℕ → ℕ → ℕ → List ℕ → Option (ℕ × ℕ)
read_loop rounds i result [] = none
read_loop zero i result (byte ∷ rest) = some (bit_or (result * 2 ^ 8 % 2 ^ 64) byte, 9)
read_loop (suc rounds) i result (byte ∷ rest) =
    let result' = bit_or (result * 2 ^ 7 % 2 ^ 64) (bit_and byte 0x7f) in
    let more = read_loop rounds (i + 1) result' rest in
    if bit_and byte 0x80 == 0 then some (result', i + 1) else more

unfoldable pub read_varint : List ℕ → Option (ℕ × ℕ)
unfolding read_loop
read_varint buf = read_loop 8 0 0 buf

unfoldable pub read_varint_i64 : List ℕ → Option (ℤ × ℕ)
unfolding read_varint
read_varint_i64 buf = Option.map (λ r. (as_i64 r.0, r.1)) (read_varint buf)

-- `while v != 0 { len += 1; v >>= 7; }`. A `u64` is 0 after ten shifts.
pub len_loop : ℕ → ℕ → ℕ → ℕ
len_loop zero v len = len
len_loop (suc fuel) v len =
    let rest = len_loop fuel (v / 2 ^ 7) (len + 1) in if v == 0 then len else rest

unfoldable pub varint_len : ℕ → ℕ
unfolding len_loop
varint_len value =
    if not (bit_and value 0xff00_0000_0000_0000 == 0) then 9 else len_loop 10 (value / 2 ^ 7) 1

-- The byte of a group with the continuation bit: `(v as u8 & 0x7f) | 0x80`.
pub group : ℕ → ℕ
group v = bit_or (bit_and (v % 2 ^ 8) 0x7f) 0x80

-- The slots of the nine-byte form from the last but one to the first, in front of those filled.
pub fill_slots : ℕ → ℕ → List ℕ → List ℕ
fill_slots zero v bytes = bytes
fill_slots (suc slots) v bytes = fill_slots slots (v / 2 ^ 7) (group v ∷ bytes)

-- `tmp[..n]` after the loop of the short form. `tmp` has nine slots.
pub tmp_loop : ℕ → ℕ → List ℕ
tmp_loop zero v = []
tmp_loop (suc slots) v =
    let rest = tmp_loop slots (v / 2 ^ 7) in group v ∷ (if v / 2 ^ 7 == 0 then [] else rest)

-- `tmp[0] &= 0x7f`.
pub clear_first : List ℕ → List ℕ
clear_first [] = []
clear_first (b ∷ bs) = bit_and b 0x7f ∷ bs

-- `for i in (0..n).rev() { out.push(tmp[i]); }`, as the bytes pushed.
pub reversed_onto : List ℕ → List ℕ → List ℕ
reversed_onto [] pushed = pushed
reversed_onto (b ∷ bs) pushed = reversed_onto bs (b ∷ pushed)

-- The extended `out`, and the number of bytes written.
unfoldable pub write_varint : ℕ → List ℕ → List ℕ × ℕ
unfolding group fill_slots tmp_loop clear_first reversed_onto
write_varint value out =
    if not (bit_and value 0xff00_0000_0000_0000 == 0)
    then (out ++ fill_slots 8 (value / 2 ^ 8) ((bit_and value 0xff % 2 ^ 8) ∷ []), 9)
    else (let tmp = tmp_loop 9 value in (out ++ reversed_onto (clear_first tmp) [], length tmp))
