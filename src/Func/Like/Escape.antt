-- ===== src/Func/Like/Escape.antt =====
-- An escape behind `%`.
use rustqlite.Base.{ℕ, ◌≡◌, ◌≢◌, refl, ap, List, [], ◌∷◌, true, false, ◌==◌, arith}
use rustqlite.Func.Like.{
  like_info, Outcome, matched, read, scan, after_all, skip_wildcards, compare_loop, is_match,
  pattern_compare,
}

abbrev percent : List ℕ
percent = b'%' ∷ []

percent_matches : (e : ℕ) (s : List ℕ) → compare_loop 3 like_info e percent s ≡ matched
unfolding compare_loop read skip_wildcards after_all
percent_matches e s = refl

scan_matches :
    (attempt : List ℕ → Outcome) (s : List ℕ)
    → ((t : List ℕ) → attempt t ≡ matched)
    → scan attempt s ≡ matched
unfolding scan
scan_matches attempt [] h = rw (h [], scan) refl
scan_matches attempt (c ∷ s) h = rw (h (c ∷ s), scan) refl

==_refl : (a : ℕ) → (a == a) ≡ true
==_refl a = ground arith

differs : (a b : ℕ) → a ≢ b → (a == b) ≡ false
differs a b h = ground arith

-- `LIKE '%e%' ESCAPE 'e'` holds of every string, for every escape character other than NUL and the
-- two wildcards: the escaped `%` is read again as a wildcard.
pub escaped_after_all :
    (e : ℕ) (s : List ℕ)
    → e ≢ 0
    → e ≢ b'%'
    → e ≢ b'_'
    → pattern_compare (b'%' ∷ e ∷ b'%' ∷ []) s like_info e ≡ true
unfolding pattern_compare is_match compare_loop read skip_wildcards after_all
escaped_after_all e s nz na nu =
    rw (differs e b'_' nu, differs e b'%' na, after_all, differs e 0 nz, ==_refl e, read)
      (ap is_match (scan_matches (compare_loop 3 like_info e percent) s (percent_matches e)))
