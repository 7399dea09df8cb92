-- ===== src/Types/Affinity/Rank.antt =====
-- The order in which the rules of column affinity apply.
use rustqlite.Base.{
  ℕ, List, [], ◌∷◌, ◌++◌, Bool, true, false, ◌&&◌, ◌≡◌, ◌≤◌, some, ap, refl, leb, ◌-◌,
  if◌then◌else◌, arith,
}
use rustqlite.Types.Collation.{to_ascii_uppercase}
use rustqlite.Types.Affinity.{
  Affinity, integer, text, blob, real, numeric, starts_with, contains, affinity_of_upper,
  affinity_of, int_word, char_word, clob_word, text_word, blob_word, real_word, floa_word,
  doub_word,
}

-- The number of the rule that gives the affinity, less one.
unfoldable pub rank : Affinity → ℕ
rank integer = 0
rank text = 1
rank blob = 2
rank real = 3
rank numeric = 4

upper_append :
    (xs ys : List ℕ)
    → to_ascii_uppercase (xs ++ ys) ≡ to_ascii_uppercase xs ++ to_ascii_uppercase ys
unfolding to_ascii_uppercase
upper_append [] ys = refl
upper_append (x ∷ xs) ys =
    ap (λ zs. (if leb b'a' x && leb x b'z' then x - 32 else x) ∷ zs) (upper_append xs ys)

starts_with_append :
    (word s ys : List ℕ) → starts_with word s ≡ true → starts_with word (s ++ ys) ≡ true
starts_with_append [] s ys h = refl
starts_with_append (p ∷ ps) [] ys h = ground (arith, h)
starts_with_append (p ∷ ps) (c ∷ s) ys h = ground (arith, h, starts_with_append ps s ys)

contains_append : (word s ys : List ℕ) → contains word s ≡ true → contains word (s ++ ys) ≡ true
contains_append [] [] [] h = refl
contains_append [] [] (y ∷ ys) h = refl
contains_append (p ∷ ps) [] ys h = ground (arith, h)
contains_append word (c ∷ s) ys h =
    ground (arith, h, starts_with_append word (c ∷ s) ys, contains_append word s ys)

contains_behind : (word xs s : List ℕ) → contains word s ≡ true → contains word (xs ++ s) ≡ true
contains_behind word [] s h = h
contains_behind word (x ∷ xs) s h = ground (arith, contains_behind word xs s h)

contains_within :
    (word xs s ys : List ℕ) → contains word s ≡ true → contains word (xs ++ (s ++ ys)) ≡ true
contains_within word xs s ys h = contains_behind word xs (s ++ ys) (contains_append word s ys h)

rank_upper :
    (xs s ys : List ℕ) → rank (affinity_of_upper (xs ++ (s ++ ys))) ≤ rank (affinity_of_upper s)
unfolding affinity_of_upper rank
rank_upper xs s ys = ground (
  arith,
  contains_within int_word xs s ys,
  contains_within char_word xs s ys,
  contains_within clob_word xs s ys,
  contains_within text_word xs s ys,
  contains_within blob_word xs s ys,
  contains_within real_word xs s ys,
  contains_within floa_word xs s ys,
  contains_within doub_word xs s ys,
)

-- Text put before and behind a declared type that is not blank never moves it to a later rule: the
-- rules come in the order integer, text, blob, real, numeric.
pub rank-affinity_of :
    (is_blank : List ℕ → Bool) (xs s ys : List ℕ)
    → is_blank s ≡ false
    → is_blank (xs ++ (s ++ ys)) ≡ false
    → rank (affinity_of is_blank (some (xs ++ (s ++ ys)))) ≤ rank (affinity_of is_blank (some s))
unfolding affinity_of
rank-affinity_of is_blank xs s ys h hs =
    rw (h, hs, upper_append xs (s ++ ys), upper_append s ys)
      (rank_upper (to_ascii_uppercase xs) (to_ascii_uppercase s) (to_ascii_uppercase ys))
