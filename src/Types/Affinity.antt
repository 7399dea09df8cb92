-- ===== src/Types/Affinity.antt =====
-- crates/rustsqlite-core/src/types/affinity.rs: the affinity of a column from its declared type, a
-- text as the list of its UTF-8 bytes.
pub mod Rank
use rustqlite.Base.{
  ℕ, List, [], ◌∷◌, Bool, true, false, ◌&&◌, ◌||◌, ◌==◌, Option, none, some, if◌then◌else◌,
}
use rustqlite.Types.Collation.{to_ascii_uppercase}

pub data Affinity : Type 0 where
  integer text blob real numeric : Affinity

abbrev pub starts_with : List ℕ → List ℕ → Bool
starts_with [] s = true
starts_with (p ∷ ps) [] = false
starts_with (p ∷ ps) (c ∷ s) = p == c && starts_with ps s

-- `s.contains(word)`, on bytes: in UTF-8 a word of ASCII is found at the same places.
abbrev pub contains : List ℕ → List ℕ → Bool
contains word [] = starts_with word []
contains word (c ∷ s) = starts_with word (c ∷ s) || contains word s

abbrev pub int_word : List ℕ
int_word = b'I' ∷ b'N' ∷ b'T' ∷ []

abbrev pub char_word : List ℕ
char_word = b'C' ∷ b'H' ∷ b'A' ∷ b'R' ∷ []

abbrev pub clob_word : List ℕ
clob_word = b'C' ∷ b'L' ∷ b'O' ∷ b'B' ∷ []

abbrev pub text_word : List ℕ
text_word = b'T' ∷ b'E' ∷ b'X' ∷ b'T' ∷ []

abbrev pub blob_word : List ℕ
blob_word = b'B' ∷ b'L' ∷ b'O' ∷ b'B' ∷ []

abbrev pub real_word : List ℕ
real_word = b'R' ∷ b'E' ∷ b'A' ∷ b'L' ∷ []

abbrev pub floa_word : List ℕ
floa_word = b'F' ∷ b'L' ∷ b'O' ∷ b'A' ∷ []

abbrev pub doub_word : List ℕ
doub_word = b'D' ∷ b'O' ∷ b'U' ∷ b'B' ∷ []

unfoldable pub affinity_of_upper : List ℕ → Affinity
affinity_of_upper t =
    if contains int_word t
    then integer
    else if contains char_word t || contains clob_word t || contains text_word t
    then text
    else if contains blob_word t
    then blob
    else if contains real_word t || contains floa_word t || contains doub_word t
    then real
    else numeric

-- `is_blank s` is `s.trim().is_empty()`, which goes by Unicode's white space.
unfoldable pub affinity_of : (List ℕ → Bool) → Option (List ℕ) → Affinity
unfolding affinity_of_upper
affinity_of is_blank none = blob
affinity_of is_blank (some decl) =
    if is_blank decl then blob else affinity_of_upper (to_ascii_uppercase decl)
