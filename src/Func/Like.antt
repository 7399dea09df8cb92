-- ===== src/Func/Like.antt =====
-- crates/rustsqlite-core/src/func/like.rs: LIKE and GLOB on lists of characters. An index into a
-- string is the rest of the string from it on; a character that is not NUL and was just read is
-- read again by putting it in front (`pi -= 1`).
pub mod Literal
pub mod Escape
use rustqlite.Base.{
  ℕ, zero, suc, ◌+◌, List, [], ◌∷◌, length, Bool, true, false, not, ◌&&◌, ◌||◌, Option, none, some,
  ltb, leb, ◌==◌, if◌then◌else◌,
}

pub record CompareInfo : Type 0 where
  pub match_all : ℕ
  pub match_one : ℕ
  pub no_case : Bool
  pub match_set : Bool

abbrev pub like_info : CompareInfo
like_info = record { match_all = b'%'; match_one = b'_'; no_case = true; match_set = false }

abbrev pub glob_info : CompareInfo
glob_info = record { match_all = b'*'; match_one = b'?'; no_case = false; match_set = true }

pub data Outcome : Type 0 where
  matched no_match no_wildcard_match : Outcome

-- The character and the rest; 0 at the end.
unfoldable pub read : List ℕ → ℕ × List ℕ
read [] = (0, [])
read (c ∷ rest) = (c, rest)

unfoldable pub to_lower : ℕ → ℕ
to_lower c = if leb b'A' c && leb c b'Z' then c + 32 else c

unfoldable pub is_ascii : ℕ → Bool
is_ascii c = ltb c 0x80

-- `c == cc`, or equal up to ASCII case where the operator asks for it.
unfoldable pub same : CompareInfo → ℕ → ℕ → Bool
same info c cc =
    c == cc || (info.no_case && (to_lower c == to_lower cc && (is_ascii c && is_ascii cc)))

-- The loop over the members of a set `[...]`: the last character read, whether one was the
-- character `c`, and the rest of the pattern.
unfoldable pub set_loop : ℕ → ℕ → Bool → ℕ → List ℕ → ℕ × Bool × List ℕ
set_loop c prior seen c2 [] =
    if c2 == 0 || c2 == b']' then (c2, seen, []) else (0, seen || c == c2, [])
set_loop c prior seen c2 (n ∷ []) =
    let member = set_loop c c2 (seen || c == c2) n [] in
    if c2 == 0 || c2 == b']'
    then (c2, seen, n ∷ [])
    else if c2 == b'-' && (not (n == b']') && (not (n == 0) && not (prior == 0)))
    then (0, seen || (leb prior c && leb c n), [])
    else member
set_loop c prior seen c2 (n ∷ m ∷ rest) =
    let member = set_loop c c2 (seen || c == c2) n (m ∷ rest) in
    let range = set_loop c 0 (seen || (leb prior c && leb c n)) m rest in
    if c2 == 0 || c2 == b']'
    then (c2, seen, n ∷ m ∷ rest)
    else if c2 == b'-' && (not (n == b']') && (not (n == 0) && not (prior == 0)))
    then range
    else member

-- A leading `]`, or `]` behind `^`, is a member.
unfoldable pub set_members : ℕ → ℕ → List ℕ → ℕ × Bool × List ℕ
set_members c c2 pattern =
    if c2 == b']'
    then (let next = read pattern in set_loop c 0 (c == b']') next.0 next.1)
    else set_loop c 0 false c2 pattern

-- Whether the set matched, with what is left of the pattern.
unfoldable pub set_result : Bool → ℕ × Bool × List ℕ → Option (List ℕ)
set_result invert r =
    if r.0 == 0
    then none
    else if invert
    then (if r.1 then none else some r.2)
    else if r.1
    then some r.2
    else none

-- `none` is `SetResult::NoMatch`; a match comes with the rests of the pattern and of the string.
unfoldable pub match_set : List ℕ → List ℕ → Option (List ℕ × List ℕ)
match_set pattern string =
    let s = read string in
    let first = read pattern in
    let second = read first.1 in
    let r =
      if first.0 == b'^'
      then set_result true (set_members s.0 second.0 second.1)
      else set_result false (set_members s.0 first.0 first.1) in
    if s.0 == 0 then none else elim r [ none ↦ none | some rest ↦ some (rest, s.1) ]

-- The wildcards behind a `match_all`; `none` where the string ends. Else the first other character,
-- and the rests.
unfoldable pub skip_wildcards : CompareInfo → List ℕ → List ℕ → Option (ℕ × List ℕ × List ℕ)
skip_wildcards info [] string = some (0, [], string)
skip_wildcards info (c ∷ pattern) string =
    let s = read string in
    let all = skip_wildcards info pattern string in
    let one = skip_wildcards info pattern s.1 in
    if c == info.match_one && not (info.match_one == 0)
    then (if s.0 == 0 then none else one)
    else if c == info.match_all
    then all
    else some (c, pattern, string)

-- The loop that tries the rest of the pattern at each position of the string.
unfoldable pub scan : (List ℕ → Outcome) → List ℕ → Outcome
scan attempt [] = elim (attempt []) [
  | matched ↦ matched
  | no_match ↦ no_wildcard_match
  | no_wildcard_match ↦ no_wildcard_match
]
scan attempt (c ∷ string) =
    let later = scan attempt string in
    elim (attempt (c ∷ string)) [
      | matched ↦ matched
      | no_match ↦ if c == 0 then no_wildcard_match else later
      | no_wildcard_match ↦ no_wildcard_match
    ]

-- Behind a `match_all` and the wildcards after it. LIKE drops an escape; the character behind it is
-- the first of what the recursive call reads.
unfoldable pub after_all :
    CompareInfo → ℕ → (List ℕ → List ℕ → Outcome) → Option (ℕ × List ℕ × List ℕ) → Outcome
after_all info other attempt none = no_wildcard_match
after_all info other attempt (some (c, pattern, string)) =
    let escaped = read pattern in
    if c == 0
    then matched
    else if c == other && not info.match_set
    then (if escaped.0 == 0
        then no_wildcard_match
        else scan (attempt (escaped.0 ∷ escaped.1)) string)
    else scan (attempt (c ∷ pattern)) string

-- `compare`. Every round takes a character of the pattern.
unfoldable pub compare_loop : ℕ → CompareInfo → ℕ → List ℕ → List ℕ → Outcome
compare_loop zero info other pattern string = no_match
compare_loop (suc fuel) info other pattern string =
    let again = compare_loop fuel info other in
    let p = read pattern in
    let s = read string in
    let literal = read p.1 in
    if p.0 == 0
    then (if length string == 0 then matched else no_match)
    else if p.0 == info.match_all
    then after_all info other again (skip_wildcards info p.1 string)
    else if p.0 == other && not info.match_set
    then (if literal.0 == 0
        then no_match
        else if same info literal.0 s.0
        then again literal.1 s.1
        else no_match)
    else if p.0 == other
    then elim (match_set p.1 string) [ none ↦ no_match | some rest ↦ again rest.0 rest.1 ]
    else if same info p.0 s.0 || (p.0 == info.match_one && not (s.0 == 0))
    then again p.1 s.1
    else no_match

unfoldable pub is_match : Outcome → Bool
is_match matched = true
is_match _ = false

unfoldable pub pattern_compare : List ℕ → List ℕ → CompareInfo → ℕ → Bool
pattern_compare pattern string info match_other =
    is_match (compare_loop (suc (length pattern)) info match_other pattern string)
