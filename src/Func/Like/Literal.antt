-- ===== src/Func/Like/Literal.antt =====
-- Patterns without wildcards.
use rustqlite.Base.{
  ℕ, zero, suc, ◌<◌, ◌≡◌, ◌≢◌, refl, List, [], ◌∷◌, length, Bool, true, false, ◌==◌, ◌&&◌, ◌∙◌, ◌+◌,
  ltb, map, if◌then◌else◌, arith, Bool-cases, inl, inr,
}
use rustqlite.Base.Bytes.{All}
use rustqlite.Func.Like.{
  CompareInfo, read, same, to_lower, is_ascii, compare_loop, is_match, pattern_compare, like_info,
  glob_info,
}

-- A character that means itself.
abbrev pub IsPlain : CompareInfo → ℕ → ℕ → Type 0
IsPlain info other c = (c ≢ 0) × (c ≢ info.match_all) × (c ≢ info.match_one) × (c ≢ other)

-- Characters that the matcher takes for the same, one after the other.
unfoldable text_eq : CompareInfo → List ℕ → List ℕ → Bool
text_eq info [] [] = true
text_eq info (c ∷ p) (d ∷ s) = if same info c d then text_eq info p s else false
text_eq info [] (d ∷ s) = false
text_eq info (c ∷ p) [] = false

differs : (a b : ℕ) → a ≢ b → (a == b) ≡ false
differs a b h = ground arith

-- The end of the string is no character.
same_end : (info : CompareInfo) (c : ℕ) → c ≢ 0 → same info c 0 ≡ false
unfolding same to_lower is_ascii
same_end info c h = ground arith

compare_plain :
    (fuel : ℕ) (info : CompareInfo) (other : ℕ) (p s : List ℕ)
    → length p < fuel
    → All (IsPlain info other) p
    → is_match (compare_loop fuel info other p s) ≡ text_eq info p s
unfolding compare_loop is_match read text_eq
compare_plain zero info other p s h a = absurd (omega arith)
compare_plain (suc fuel) info other [] [] h a = refl
compare_plain (suc fuel) info other [] (d ∷ s) h a =
    rw (differs (suc (length s)) 0 (omega arith)) refl
compare_plain (suc fuel) info other (c ∷ p) [] h a =
    rw
      (
        differs c 0 a.0.0,
        differs c info.match_all a.0.1,
        differs c other a.0.3,
        differs c info.match_one a.0.2,
        same_end info c a.0.0,
      )
      refl
compare_plain (suc fuel) info other (c ∷ p) (d ∷ s) h a = elim (Bool-cases (same info c d)) [
  | inl e ↦
      rw
        (
          differs c 0 a.0.0,
          differs c info.match_all a.0.1,
          differs c other a.0.3,
          differs c info.match_one a.0.2,
          e,
        )
        (compare_plain fuel info other p s (omega arith) a.1)
  | inr e ↦
      rw
        (
          differs c 0 a.0.0,
          differs c info.match_all a.0.1,
          differs c other a.0.3,
          differs c info.match_one a.0.2,
          e,
        )
        refl
]

-- Equality of texts, independent of the matcher.
unfoldable pub equal_texts : List ℕ → List ℕ → Bool
equal_texts [] [] = true
equal_texts (c ∷ p) (d ∷ s) = c == d && equal_texts p s
equal_texts _ _ = false

-- The small letter of a letter of ASCII, and every other character itself.
unfoldable pub small : ℕ → ℕ
small c = if ltb 64 c && ltb c 91 then c + 32 else c

same-glob : (c d : ℕ) → same glob_info c d ≡ (c == d)
unfolding same to_lower is_ascii
same-glob c d = ground arith

same-like : (c d : ℕ) → same like_info c d ≡ (small c == small d)
unfolding same to_lower is_ascii small
same-like c d = ground arith

text_eq-glob : (p s : List ℕ) → text_eq glob_info p s ≡ equal_texts p s
unfolding text_eq equal_texts
text_eq-glob [] [] = refl
text_eq-glob [] (d ∷ s) = refl
text_eq-glob (c ∷ p) [] = refl
text_eq-glob (c ∷ p) (d ∷ s) = ground (arith, same-glob c d, text_eq-glob p s)

text_eq-like : (p s : List ℕ) → text_eq like_info p s ≡ equal_texts (map small p) (map small s)
unfolding text_eq equal_texts
text_eq-like [] [] = refl
text_eq-like [] (d ∷ s) = refl
text_eq-like (c ∷ p) [] = refl
text_eq-like (c ∷ p) (d ∷ s) = ground (arith, same-like c d, text_eq-like p s)

pattern_compare-text_eq :
    (p s : List ℕ) (info : CompareInfo) (other : ℕ)
    → All (IsPlain info other) p
    → pattern_compare p s info other ≡ text_eq info p s
unfolding pattern_compare
pattern_compare-text_eq p s info other a =
    compare_plain (suc (length p)) info other p s (omega arith) a

-- A pattern of characters that are plain for LIKE and for GLOB matches, under GLOB, exactly the text
-- that it is, and under LIKE exactly the texts that are the same once the capital letters of ASCII,
-- and no others, are made small in both.
pub pattern_compare_plain :
    (p s : List ℕ) (escape : ℕ)
    → All (IsPlain like_info escape) p
    → All (IsPlain glob_info b'[') p
    → (pattern_compare p s glob_info b'[' ≡ equal_texts p s)
      × (pattern_compare p s like_info escape ≡ equal_texts (map small p) (map small s))
pattern_compare_plain p s escape like glob = (
  pattern_compare-text_eq p s glob_info b'[' glob ∙ text_eq-glob p s,
  pattern_compare-text_eq p s like_info escape like ∙ text_eq-like p s,
)
