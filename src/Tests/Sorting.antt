-- ===== src/Tests/Sorting.antt =====
-- The order of values and of records.
use rustqlite.Base.{ℕ, ◌≡◌, ◌↔◌, refl, List, [], ◌∷◌, true, false, Option, some, arith}
use rustqlite.Base.Int.{pos, compare_ℤ}
use rustqlite.Base.Words.{as_u64}
use rustqlite.Types.Value.{int, text}
use rustqlite.Types.Collation.{Ordering, less, equal, reverse, binary}
use Prim.Native.Nat.{compare}
use rustqlite.Vdbe.Compare.{
  Floats, reversed, ordering_of, mem_compare, mem_compare-reverse, cmp_i64,
}
use rustqlite.Vdbe.Sorter.{KeyField, compare_keys, compare_from}
use rustqlite.Vdbe.Sorter.Keys.{AreTied, Precedes, compare_keys_lem}

-- Numbers that are ordered as their bits: non-negative floats are.
abbrev bits_order : ℕ → ℕ → Option Ordering
bits_order x y = some (ordering_of (compare x y))

bits_reverse : (x y : ℕ) → bits_order y x ≡ reversed (bits_order x y)
unfolding reverse
bits_reverse x y = ground arith

abbrev bits : Floats
bits = record {
  is_nan = λ x. false;
  partial_cmp = bits_order;
  to_i64 = pos;
  of_i64 = as_u64;
  cmp_reverse = bits_reverse;
}

mem_compare-reverse_example :
    mem_compare bits (text (b'a' ∷ [])) (int (pos 3)) binary
    ≡ reverse (mem_compare bits (int (pos 3)) (text (b'a' ∷ [])) binary)
mem_compare-reverse_example = mem_compare-reverse bits (int (pos 3)) (text (b'a' ∷ [])) binary

-- A descending key puts 5 before 3.
abbrev falling : List KeyField
falling = record { desc = true; collation = binary } ∷ []

five_first : compare_keys bits (int (pos 5) ∷ []) (int (pos 3) ∷ []) falling ≡ less
unfolding compare_keys compare_from mem_compare reverse cmp_i64 compare_ℤ
five_first = refl

compare_keys_lem_example :
    ((compare_keys bits (int (pos 5) ∷ []) (int (pos 3) ∷ []) falling ≡ less)
      ↔ Precedes bits (int (pos 5) ∷ []) (int (pos 3) ∷ []) 0 falling)
    × ((compare_keys bits (int (pos 5) ∷ []) (int (pos 3) ∷ []) falling ≡ equal)
        ↔ AreTied bits (int (pos 5) ∷ []) (int (pos 3) ∷ []) 0 falling)
compare_keys_lem_example = compare_keys_lem bits (int (pos 5) ∷ []) (int (pos 3) ∷ []) falling
