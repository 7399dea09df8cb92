-- ===== src/Vdbe/Compare.antt =====
-- crates/rustsqlite-core/src/vdbe/compare.rs: the order of values. What is done with an `f64` is the
-- standard library's, and a parameter.
use rustqlite.Base.{
  ℕ, ◌≡◌, refl, ap, sym, ◌∙◌, Bool, true, false, Option, none, some, if◌then◌else◌, arith,
}
use rustqlite.Base.Int.{ℤ, pos, negsuc, compare_ℤ}
use rustqlite.Types.Value.{Value, null, int, real, text, blob}
use rustqlite.Types.Collation.{
  Collation, Ordering, less, equal, greater, reverse, cmp, compare, compare_orders, cmp-reverse,
}
use Prim.Native.Nat.{Ordering as NatOrdering}

abbrev pub reversed : Option Ordering → Option Ordering
reversed none = none
reversed (some o) = some (reverse o)

-- `is_nan`, `partial_cmp`, and the casts `as i64` and `as f64`, on the bits of an `f64`. Comparing
-- the other way round gives the reverse.
pub record Floats : Type 0 where
  pub is_nan : ℕ → Bool
  pub partial_cmp : ℕ → ℕ → Option Ordering
  pub to_i64 : ℕ → ℤ
  pub of_i64 : ℤ → ℕ
  pub cmp_reverse : (x y : ℕ) → partial_cmp y x ≡ reversed (partial_cmp x y)

abbrev pub unwrap_or_equal : Option Ordering → Ordering
unwrap_or_equal none = equal
unwrap_or_equal (some o) = o

-- `r < x` and `r >= x`.
abbrev pub is_less : Option Ordering → Bool
is_less (some less) = true
is_less _ = false

abbrev pub is_at_least : Option Ordering → Bool
is_at_least (some greater) = true
is_at_least (some equal) = true
is_at_least _ = false

-- The bits of -2 ^ 63 and 2 ^ 63.
abbrev pub min_bits : ℕ
min_bits = 0xc3e0_0000_0000_0000

abbrev pub max_bits : ℕ
max_bits = 0x43e0_0000_0000_0000

abbrev pub ordering_of : NatOrdering → Ordering
ordering_of NatOrdering.lt = less
ordering_of NatOrdering.eq = equal
ordering_of NatOrdering.gt = greater

-- `x.cmp(y)` on `i64`.
unfoldable pub cmp_i64 : ℤ → ℤ → Ordering
cmp_i64 x y = ordering_of (compare_ℤ x y)

module _ (f : Floats) where
  unfoldable pub int_float_compare : ℤ → ℕ → Ordering
  int_float_compare i r =
      if f.is_nan r
      then greater
      else if is_less (f.partial_cmp r min_bits)
      then greater
      else if is_at_least (f.partial_cmp r max_bits)
      then less
      else elim (cmp_i64 i (f.to_i64 r)) [
        | equal ↦ unwrap_or_equal (f.partial_cmp (f.of_i64 i) r)
        | less ↦ less
        | greater ↦ greater
      ]

  unfoldable pub mem_compare : Value → Value → Collation → Ordering
  mem_compare null null coll = equal
  mem_compare null b coll = less
  mem_compare a null coll = greater
  mem_compare (int x) (int y) coll = cmp_i64 x y
  mem_compare (real x) (real y) coll = unwrap_or_equal (f.partial_cmp x y)
  mem_compare (int x) (real y) coll = int_float_compare x y
  mem_compare (real x) (int y) coll = reverse (int_float_compare y x)
  mem_compare (int x) b coll = less
  mem_compare (real x) b coll = less
  mem_compare a (int y) coll = greater
  mem_compare a (real y) coll = greater
  mem_compare (text x) (text y) coll = compare coll x y
  mem_compare (text x) (blob y) coll = less
  mem_compare (blob x) (text y) coll = greater
  mem_compare (blob x) (blob y) coll = cmp x y

pub reverse_twice : (o : Ordering) → reverse (reverse o) ≡ o
unfolding reverse
reverse_twice less = refl
reverse_twice equal = refl
reverse_twice greater = refl

cmp_i64-reverse : (x y : ℤ) → cmp_i64 y x ≡ reverse (cmp_i64 x y)
unfolding cmp_i64 reverse compare_ℤ
cmp_i64-reverse (pos a) (pos b) = ground arith
cmp_i64-reverse (pos a) (negsuc b) = refl
cmp_i64-reverse (negsuc a) (pos b) = refl
cmp_i64-reverse (negsuc a) (negsuc b) = ground arith

unwrap-reversed : (o : Option Ordering) → unwrap_or_equal (reversed o) ≡ reverse (unwrap_or_equal o)
unfolding reverse
unwrap-reversed none = refl
unwrap-reversed (some o) = refl

-- Comparing two values the other way round gives the reverse.
pub mem_compare-reverse :
    (f : Floats) (a b : Value) (coll : Collation)
    → mem_compare f b a coll ≡ reverse (mem_compare f a b coll)
unfolding mem_compare reverse
mem_compare-reverse f null null coll = refl
mem_compare-reverse f null (int y) coll = refl
mem_compare-reverse f null (real y) coll = refl
mem_compare-reverse f null (text y) coll = refl
mem_compare-reverse f null (blob y) coll = refl
mem_compare-reverse f (int x) null coll = refl
mem_compare-reverse f (int x) (int y) coll = cmp_i64-reverse x y
mem_compare-reverse f (int x) (real y) coll = refl
mem_compare-reverse f (int x) (text y) coll = refl
mem_compare-reverse f (int x) (blob y) coll = refl
mem_compare-reverse f (real x) null coll = refl
mem_compare-reverse f (real x) (int y) coll = sym (reverse_twice (int_float_compare f y x))
mem_compare-reverse f (real x) (real y) coll =
    ap unwrap_or_equal (f.cmp_reverse x y) ∙ unwrap-reversed (f.partial_cmp x y)
mem_compare-reverse f (real x) (text y) coll = refl
mem_compare-reverse f (real x) (blob y) coll = refl
mem_compare-reverse f (text x) null coll = refl
mem_compare-reverse f (text x) (int y) coll = refl
mem_compare-reverse f (text x) (real y) coll = refl
mem_compare-reverse f (text x) (text y) coll = (compare_orders coll x y y).0
mem_compare-reverse f (text x) (blob y) coll = refl
mem_compare-reverse f (blob x) null coll = refl
mem_compare-reverse f (blob x) (int y) coll = refl
mem_compare-reverse f (blob x) (real y) coll = refl
mem_compare-reverse f (blob x) (text y) coll = refl
mem_compare-reverse f (blob x) (blob y) coll = cmp-reverse x y
