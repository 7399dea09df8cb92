-- ===== src/Tests/Ascii.antt =====
-- A Unicode of ASCII only: a byte from 128 on is replaced by `?`.
use rustqlite.Base.{ℕ, Bool, true, List, [], ◌∷◌, ◌&&◌, ◌≡◌, refl, ltb, if◌then◌else◌, arith}
use rustqlite.Types.Value.{Unicode}

unfoldable pub is_ascii : List ℕ → Bool
is_ascii [] = true
is_ascii (b ∷ bs) = ltb b 128 && is_ascii bs

unfoldable pub replace : List ℕ → List ℕ
replace [] = []
replace (b ∷ bs) = (if ltb b 128 then b else b'?') ∷ replace bs

pub replace_valid : (s : List ℕ) → is_ascii s ≡ true → replace s ≡ s
unfolding is_ascii replace
replace_valid [] h = refl
replace_valid (b ∷ bs) h = ground (arith, replace_valid bs)

unfoldable pub ascii : Unicode
unfolding is_ascii replace
ascii = record {
  is_utf8 = is_ascii;
  from_utf8_lossy = replace;
  from_utf16_lossy = replace;
  from_utf8_valid = replace_valid;
}
