-- ===== src/Base/Bits.antt =====
-- Bit operations of machine words as arithmetic: masks, and joining a shifted word with low bits.
use Prim.Native.Nat.{
  ℕ, zero, suc, ◌+◌, ◌-◌, ◌*◌, ◌/◌, ◌%◌, ◌^◌, ◌≤◌, ◌<◌, min, max, bit_and, bit_or,
}
use Prim.Native.Nat.{digits, bit_and-bitwise, bit_or-bitwise}
use mathlib.Core.Path.{◌≡◌, refl, ap, ap₂, ◌∙◌}
use mathlib.Core.Bool.{Bool, true, ◌&&◌}
use native.Mathlib.Omega.{arith}
use rustqlite.Base.Tests.{◌==◌, ==_iff}

-- Whether a test holds of every number below a bound: tables of bytes are checked by running it.
holds_below : (ℕ → Bool) → ℕ → Bool
holds_below test zero = true
holds_below test (suc k) = holds_below test k && test k

table_entry : (test : ℕ → Bool) (k i : ℕ) → i < k → holds_below test k ≡ true → test i ≡ true
unfolding holds_below
table_entry test zero i below all = absurd (omega arith)
table_entry test (suc k) i below all = ground (arith, table_entry test k i)

low7_table : holds_below (λ x. bit_and x 0x7f == x % 128) 256 ≡ true
unfolding holds_below
low7_table = refl

top_table : holds_below (λ x. bit_and x 0x80 == x / 128 * 128) 256 ≡ true
unfolding holds_below
top_table = refl

set_top_table : holds_below (λ x. bit_or x 0x80 == x + 128) 128 ≡ true
unfolding holds_below
set_top_table = refl

clear_top_table : holds_below (λ x. bit_and (x + 128) 0x7f == x) 128 ≡ true
unfolding holds_below
clear_top_table = refl

pub low7 : (x : ℕ) → x < 256 → bit_and x 0x7f ≡ x % 128
low7 x h = (==_iff _ _).0 (table_entry _ 256 x h low7_table)

pub top_bit : (x : ℕ) → x < 256 → bit_and x 0x80 ≡ x / 128 * 128
top_bit x h = (==_iff _ _).0 (table_entry _ 256 x h top_table)

pub set_top : (x : ℕ) → x < 128 → bit_or x 0x80 ≡ x + 128
set_top x h = (==_iff _ _).0 (table_entry _ 128 x h set_top_table)

-- The recursion on binary digits that the native operations stand for, with `op` on the digits and
-- `last` where the first number has none left: more fuel than needed changes nothing.
module _ (last : ℕ → ℕ) (op : ℕ → ℕ → ℕ) where
  spare_fuel : (f g x y : ℕ) → x ≤ g → x ≤ f → digits last op f x y ≡ digits last op g x y
  spare_fuel (suc f) (suc g) (suc x) y hg hf =
      omega (arith, spare_fuel f g (suc x / 2) (y / 2) (omega arith) (omega arith))
  spare_fuel (suc f) (suc g) zero y hg hf = refl
  spare_fuel (suc f) zero zero y hg hf = refl
  spare_fuel zero (suc g) zero y hg hf = refl
  spare_fuel zero zero zero y hg hf = refl
  spare_fuel (suc f) zero (suc x) y hg hf = absurd (omega arith)
  spare_fuel zero g (suc x) y hg hf = absurd (omega arith)

zero-bit_and : (y : ℕ) → bit_and 0 y ≡ 0
zero-bit_and = bit_and-bitwise 0

zero-bit_or : (y : ℕ) → bit_or 0 y ≡ y
zero-bit_or = bit_or-bitwise 0

-- The lowest digit of a conjunction and of a disjunction, and the rest.
pub bit_and_step : (x y : ℕ) → bit_and x y ≡ bit_and (x / 2) (y / 2) * 2 + min (x % 2) (y % 2)
bit_and_step (suc x) y =
    let half : ℕ = suc x / 2 in
    omega (
      arith,
      spare_fuel (λ t. 0) min x half half (y / 2) (omega arith) (omega arith),
      bit_and-bitwise half (y / 2),
      bit_and-bitwise (suc x) y,
    )
bit_and_step zero y = omega (arith, zero-bit_and (y / 2), zero-bit_and y)

pub bit_or_step : (x y : ℕ) → bit_or x y ≡ bit_or (x / 2) (y / 2) * 2 + max (x % 2) (y % 2)
bit_or_step (suc x) y =
    let half : ℕ = suc x / 2 in
    omega (
      arith,
      spare_fuel (λ t. t) max x half half (y / 2) (omega arith) (omega arith),
      bit_or-bitwise half (y / 2),
      bit_or-bitwise (suc x) y,
    )
bit_or_step zero y = omega (arith, zero-bit_or (y / 2), zero-bit_or y)

or_nothing : (k x : ℕ) → x ≤ k → bit_or x 0 ≡ x
or_nothing zero (suc x) below = absurd (omega arith)
or_nothing (suc k) (suc x) below =
    omega (arith, or_nothing k (suc x / 2) (omega arith), bit_or_step (suc x) 0)
or_nothing k zero below = zero-bit_or 0

bit_or-zero : (x : ℕ) → bit_or x 0 ≡ x
bit_or-zero x = or_nothing x x (omega arith)

-- A word shifted left by `k` and a number of at most `k` bits do not overlap: `|` is `+`.
pub bit_or_join : (k x b : ℕ) → b < 2 ^ k → bit_or (x * 2 ^ k) b ≡ x * 2 ^ k + b
bit_or_join zero x b h = let e : b ≡ 0 = omega arith in rw e (bit_or-zero (x * 1) ∙ (omega arith))
bit_or_join (suc k) x b h =
    let p : ℕ = 2 ^ k in
    let double : 2 ^ suc k ≡ p * 2 = omega arith in
    let low : b / 2 < 2 ^ k = omega arith in
    let half : x * 2 ^ suc k / 2 ≡ x * 2 ^ k = omega (arith, ap (λ (t : ℕ). x * t) double) in
    omega (
      arith,
      bit_or_step (x * 2 ^ suc k) b,
      ap (λ (t : ℕ). bit_or t (b / 2)) half,
      ap (λ (t : ℕ). x * t) double,
      bit_or_join k x (b / 2) low,
    )

-- A mask of high bits sees only the part of the word above its lowest bit.
bit_and_high : (k q r m : ℕ) → r < 2 ^ k → bit_and (q * 2 ^ k + r) (m * 2 ^ k) ≡ bit_and q m * 2 ^ k
bit_and_high zero q r m h =
    let e : q * 1 + r ≡ q = omega arith in
    let f : m * 1 ≡ m = omega arith in rw (e, f) (omega arith)
bit_and_high (suc k) q r m h =
    let p : ℕ = 2 ^ k in
    let double : 2 ^ suc k ≡ p * 2 = omega arith in
    let qd = ap (λ (t : ℕ). q * t) double in
    let md = ap (λ (t : ℕ). m * t) double in
    let rest : (q * 2 ^ suc k + r) / 2 ≡ q * 2 ^ k + r / 2 = omega (arith, qd) in
    let mask : m * 2 ^ suc k / 2 ≡ m * 2 ^ k = omega (arith, md) in
    omega (
      arith,
      md,
      bit_and_step (q * 2 ^ suc k + r) (m * 2 ^ suc k),
      ap₂ bit_and rest mask,
      bit_and_high k q (r / 2) m (omega arith),
      ap (λ (t : ℕ). bit_and q m * t) double,
    )

byte_table : holds_below (λ x. bit_and x 0xff == x) 256 ≡ true
unfolding holds_below
byte_table = refl

pub bit_and-byte : (x : ℕ) → x < 256 → bit_and x 0xff ≡ x
bit_and-byte x h = (==_iff _ _).0 (table_entry _ 256 x h byte_table)

-- The eight high bits of a `u64`.
pub high_byte : (v : ℕ) → v < 2 ^ 64 → bit_and v 0xff00_0000_0000_0000 ≡ v / 2 ^ 56 * 2 ^ 56
high_byte v h =
    let split : v / 2 ^ 56 * 2 ^ 56 + v % 2 ^ 56 ≡ v = omega arith in
    omega (
      arith,
      ap (λ (t : ℕ). bit_and t 0xff00_0000_0000_0000) split,
      bit_and_high 56 (v / 2 ^ 56) (v % 2 ^ 56) 0xff (omega arith),
      bit_and-byte (v / 2 ^ 56) (omega arith),
    )

and_nothing : (k x : ℕ) → x ≤ k → bit_and x 0 ≡ 0
and_nothing zero (suc x) below = absurd (omega arith)
and_nothing (suc k) (suc x) below =
    omega (arith, and_nothing k (suc x / 2) (omega arith), bit_and_step (suc x) 0)
and_nothing k zero below = zero-bit_and 0

pub bit_and-zero : (x : ℕ) → bit_and x 0 ≡ 0
bit_and-zero x = and_nothing x x (omega arith)

-- The mask of `k` ones keeps the `k` low bits.
pub bit_and_ones : (k q r : ℕ) → r < 2 ^ k → bit_and (q * 2 ^ k + r) (2 ^ k - 1) ≡ r
bit_and_ones zero q r h = omega (arith, bit_and-zero (q * 1 + r))
bit_and_ones (suc k) q r h =
    let p : ℕ = 2 ^ k in
    let double : 2 ^ suc k ≡ p * 2 = omega arith in
    let qd = ap (λ (t : ℕ). q * t) double in
    let pos : 0 < 2 ^ k = omega arith in
    let half : (2 ^ suc k - 1) / 2 ≡ 2 ^ k - 1 = omega arith in
    let rest : (q * 2 ^ suc k + r) / 2 ≡ q * 2 ^ k + r / 2 = omega (arith, qd) in
    omega (
      arith,
      qd,
      bit_and_step (q * 2 ^ suc k + r) (2 ^ suc k - 1),
      ap₂ bit_and rest half,
      bit_and_ones k q (r / 2) (omega arith),
    )

pub bit_and-low_byte : (v : ℕ) → bit_and v 0xff ≡ v % 256
bit_and-low_byte v =
    let split : v / 256 * 2 ^ 8 + v % 256 ≡ v = omega arith in
    omega (
      arith,
      ap (λ (t : ℕ). bit_and t 0xff) split,
      bit_and_ones 8 (v / 256) (v % 256) (omega arith),
    )
