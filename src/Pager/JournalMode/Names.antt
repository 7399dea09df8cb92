-- ===== src/Pager/JournalMode/Names.antt =====
-- The abbreviations that name a journal mode.
use rustqlite.Base.{
  ℕ, zero, suc, List, [], ◌∷◌, ◌++◌, map, length, take, get_or, true, false, ◌==◌, ◌≡◌, ◌≤◌, ◌∙◌,
  some, ap, sym, refl, length-map, length-append, arith,
}
use rustqlite.Base.Bytes.{bytes_eq, bytes_eq_refl, take-length_append}
use rustqlite.Types.Collation.{ascii_lower}
use rustqlite.Pager.JournalMode.{
  JournalMode, delete, persist, off, truncate, memory, wal_mode, query, name, eq_ignore_ascii_case,
  is_named, first_named, from_name,
}

pub map-take : (f : ℕ → ℕ) (n : ℕ) (xs : List ℕ) → map f (take n xs) ≡ take n (map f xs)
map-take f zero xs = refl
map-take f (suc n) [] = refl
map-take f (suc n) (x ∷ xs) = ap (λ ys. f x ∷ ys) (map-take f n xs)

pub name_lower : (m : JournalMode) → map ascii_lower (name m) ≡ name m
unfolding ascii_lower name
name_lower delete = refl
name_lower persist = refl
name_lower off = refl
name_lower truncate = refl
name_lower memory = refl
name_lower wal_mode = refl
name_lower query = refl

lower_part :
    (m : JournalMode) (s rest : List ℕ)
    → map ascii_lower s ++ rest ≡ name m
    → map ascii_lower (take (length s) (name m)) ≡ map ascii_lower s
lower_part m s rest h =
    map-take ascii_lower (length s) (name m)
    ∙ ap (take (length s)) (name_lower m ∙ sym h)
    ∙ ap (λ n. take n (map ascii_lower s ++ rest)) (sym (length-map s ascii_lower))
    ∙ take-length_append (map ascii_lower s) rest

abbreviated :
    (m : JournalMode) (c : ℕ) (s rest : List ℕ)
    → map ascii_lower (c ∷ s) ++ rest ≡ name m
    → is_named (c ∷ s) m ≡ true
unfolding is_named eq_ignore_ascii_case
abbreviated m c s rest h =
    let fits : suc (length s) ≤ length (name m) = omega (
      arith,
      ap length h,
      length-append (map ascii_lower (c ∷ s)) rest,
      length-map s ascii_lower,
    ) in
    let same : eq_ignore_ascii_case (take (suc (length s)) (name m)) (c ∷ s) ≡ true =
      ap (λ t. bytes_eq t (map ascii_lower (c ∷ s))) (lower_part m (c ∷ s) rest h)
      ∙ bytes_eq_refl (map ascii_lower (c ∷ s)) in
    ground (arith, fits, same)

-- A text whose first letter is not that of the mode does not name it.
other :
    (m : JournalMode) (c d : ℕ) (s ds : List ℕ)
    → name m ≡ d ∷ ds
    → (ascii_lower c ≡ ascii_lower d → ⊥)
    → is_named (c ∷ s) m ≡ false
unfolding is_named eq_ignore_ascii_case
other m c d s ds h ne = rw h (ground (arith, ne))

abbrev initial : JournalMode → ℕ
initial m = get_or (name m) 0 0

first_letter :
    (m m' : JournalMode) (c : ℕ) (s rest : List ℕ)
    → map ascii_lower (c ∷ s) ++ rest ≡ name m
    → (initial m == initial m') ≡ false
    → ¬ (ascii_lower c ≡ initial m')
first_letter m m' c s rest h ne e =
    let begins : ascii_lower c ≡ initial m = ap (λ t. get_or t 0 0) h in
    ground (arith, ne, begins, e)

-- An abbreviation of one mode does not name another whose first letter is a different one.
unlike :
    (m m' : JournalMode) (c : ℕ) (s rest : List ℕ)
    → map ascii_lower (c ∷ s) ++ rest ≡ name m
    → (initial m == initial m') ≡ false
    → is_named (c ∷ s) m' ≡ false
unfolding name ascii_lower
unlike m delete c s rest h ne = other delete c _ s _ refl (first_letter m delete c s rest h ne)
unlike m persist c s rest h ne = other persist c _ s _ refl (first_letter m persist c s rest h ne)
unlike m off c s rest h ne = other off c _ s _ refl (first_letter m off c s rest h ne)
unlike m truncate c s rest h ne =
    other truncate c _ s _ refl (first_letter m truncate c s rest h ne)
unlike m memory c s rest h ne = other memory c _ s _ refl (first_letter m memory c s rest h ne)
unlike m wal_mode c s rest h ne =
    other wal_mode c _ s _ refl (first_letter m wal_mode c s rest h ne)
unlike m query c s rest h ne = other query c _ s _ refl (first_letter m query c s rest h ne)

-- Whatever begins the name of a mode other than `query`, in letters of either case and with one
-- letter at least, is read as that mode.
pub from_name-abbreviation :
    (m : JournalMode) (c : ℕ) (s rest : List ℕ)
    → ¬ (m ≡ query)
    → map ascii_lower (c ∷ s) ++ rest ≡ name m
    → from_name (c ∷ s) ≡ some m
unfolding from_name first_named name
from_name-abbreviation delete c s rest set h = rw (abbreviated delete c s rest h) refl
from_name-abbreviation persist c s rest set h =
    rw (unlike persist delete c s rest h refl, abbreviated persist c s rest h) refl
from_name-abbreviation off c s rest set h =
    rw
      (
        unlike off delete c s rest h refl,
        unlike off persist c s rest h refl,
        abbreviated off c s rest h,
      )
      refl
from_name-abbreviation truncate c s rest set h =
    rw
      (
        unlike truncate delete c s rest h refl,
        unlike truncate persist c s rest h refl,
        unlike truncate off c s rest h refl,
        abbreviated truncate c s rest h,
      )
      refl
from_name-abbreviation memory c s rest set h =
    rw
      (
        unlike memory delete c s rest h refl,
        unlike memory persist c s rest h refl,
        unlike memory off c s rest h refl,
        unlike memory truncate c s rest h refl,
        abbreviated memory c s rest h,
      )
      refl
from_name-abbreviation wal_mode c s rest set h =
    rw
      (
        unlike wal_mode delete c s rest h refl,
        unlike wal_mode persist c s rest h refl,
        unlike wal_mode off c s rest h refl,
        unlike wal_mode truncate c s rest h refl,
        unlike wal_mode memory c s rest h refl,
        abbreviated wal_mode c s rest h,
      )
      refl
from_name-abbreviation query c s rest set h = absurd (set refl)
