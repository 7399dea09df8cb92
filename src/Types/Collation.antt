-- ===== src/Types/Collation.antt =====
-- crates/rustsqlite-core/src/types/collation.rs: the built-in collating sequences, on UTF-8 bytes.
pub mod Classes
use rustqlite.Base.{
  ℕ, ◌+◌, ◌-◌, ◌≡◌, ◌⊎◌, refl, List, [], ◌∷◌, map, Option, none, some, ltb, leb, ◌==◌, ◌&&◌,
  if◌then◌else◌, arith, inl,
}
use rustqlite.Base.Bytes.{bytes_eq}

-- `std::cmp::Ordering`.
pub data Ordering : Type 0 where
  less equal greater : Ordering

pub data Collation : Type 0 where
  binary no_case r_trim : Collation

unfoldable pub to_ascii_uppercase : List ℕ → List ℕ
to_ascii_uppercase s = map (λ b. if leb b'a' b && leb b b'z' then b - 32 else b) s

abbrev pub binary_name : List ℕ
binary_name = b'B' ∷ b'I' ∷ b'N' ∷ b'A' ∷ b'R' ∷ b'Y' ∷ []

abbrev pub no_case_name : List ℕ
no_case_name = b'N' ∷ b'O' ∷ b'C' ∷ b'A' ∷ b'S' ∷ b'E' ∷ []

abbrev pub r_trim_name : List ℕ
r_trim_name = b'R' ∷ b'T' ∷ b'R' ∷ b'I' ∷ b'M' ∷ []

unfoldable pub from_name : List ℕ → Option Collation
from_name name =
    let upper = to_ascii_uppercase name in
    if bytes_eq upper binary_name
    then some binary
    else if bytes_eq upper no_case_name
    then some no_case
    else if bytes_eq upper r_trim_name
    then some r_trim
    else none

unfoldable pub ascii_lower : ℕ → ℕ
ascii_lower b = if leb b'A' b && leb b b'Z' then b + 32 else b

-- The bytes without the spaces at their end.
unfoldable pub rtrim_spaces : List ℕ → List ℕ
rtrim_spaces [] = []
rtrim_spaces (b ∷ bs) = elim (rtrim_spaces bs) [
  | [] ↦ if b == b' ' then [] else b ∷ []
  | c ∷ cs ↦ b ∷ c ∷ cs
]

-- The lexicographic order of bytes.
unfoldable pub cmp : List ℕ → List ℕ → Ordering
cmp [] [] = equal
cmp [] (y ∷ ys) = less
cmp (x ∷ xs) [] = greater
cmp (x ∷ xs) (y ∷ ys) =
    let rest = cmp xs ys in if ltb x y then less else if ltb y x then greater else rest

unfoldable pub compare : Collation → List ℕ → List ℕ → Ordering
compare binary a b = cmp a b
compare no_case a b = cmp (map ascii_lower a) (map ascii_lower b)
compare r_trim a b = cmp (rtrim_spaces a) (rtrim_spaces b)

unfoldable pub reverse : Ordering → Ordering
reverse less = greater
reverse equal = equal
reverse greater = less

pub cmp-reverse : (xs ys : List ℕ) → cmp ys xs ≡ reverse (cmp xs ys)
unfolding cmp reverse
cmp-reverse [] [] = refl
cmp-reverse [] (y ∷ ys) = refl
cmp-reverse (x ∷ xs) [] = refl
cmp-reverse (x ∷ xs) (y ∷ ys) = ground (arith, cmp-reverse xs ys)

-- At most: less or equal.
abbrev pub AtMost : Ordering → Type 0
AtMost o = (o ≡ less) ⊎ (o ≡ equal)

cmp_trans : (xs ys zs : List ℕ) → AtMost (cmp xs ys) → AtMost (cmp ys zs) → AtMost (cmp xs zs)
unfolding cmp
cmp_trans [] [] zs h k = k
cmp_trans [] (y ∷ ys) [] h k = ground arith
cmp_trans [] (y ∷ ys) (z ∷ zs) h k = inl refl
cmp_trans (x ∷ xs) [] zs h k = ground arith
cmp_trans (x ∷ xs) (y ∷ ys) [] h k = ground arith
cmp_trans (x ∷ xs) (y ∷ ys) (z ∷ zs) h k = ground (arith, cmp_trans xs ys zs)

-- Under every collation, comparing in the other order gives the reverse, and "at most" is
-- transitive: texts are totally ordered, with ties.
pub compare_orders :
    (c : Collation) (x y z : List ℕ)
    → (compare c y x ≡ reverse (compare c x y))
      × (AtMost (compare c x y) → AtMost (compare c y z) → AtMost (compare c x z))
unfolding compare
compare_orders binary x y z = (cmp-reverse _ _, cmp_trans _ _ _)
compare_orders no_case x y z = (
  cmp-reverse (map ascii_lower x) (map ascii_lower y),
  cmp_trans (map ascii_lower x) (map ascii_lower y) (map ascii_lower z),
)
compare_orders r_trim x y z = (
  cmp-reverse (rtrim_spaces x) (rtrim_spaces y),
  cmp_trans (rtrim_spaces x) (rtrim_spaces y) (rtrim_spaces z),
)
