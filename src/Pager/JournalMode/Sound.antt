-- ===== src/Pager/JournalMode/Sound.antt =====
-- What `from_name` reads as a journal mode is an abbreviation of its name.
use rustqlite.Base.{
  ℕ, List, [], ◌∷◌, ◌++◌, map, length, take, drop, true, ◌≡◌, ◌≤◌, ◌∙◌, ◌↔◌, Bool-cases, inl, inr,
  some, ap, sym, refl, length-map, take-append-drop, arith,
}
use rustqlite.Base.Bytes.{bytes_eq, All}
use rustqlite.Vfs.MemFile.Bytes.{append_nil}
use rustqlite.Types.Collation.{ascii_lower}
use rustqlite.Pager.JournalMode.{
  JournalMode, delete, persist, off, truncate, memory, wal_mode, query, name, eq_ignore_ascii_case,
  is_named, first_named, modes, from_name,
}
use rustqlite.Pager.JournalMode.Names.{map-take, name_lower, from_name-abbreviation}

-- `s` has a letter, and is the beginning of the name of `m` in letters of either case.
pub record Abbreviates (s : List ℕ) (m : JournalMode) : Type 0 where
  pub settable : ¬ (m ≡ query)
  pub some_letter : 1 ≤ length s
  pub rest : List ℕ
  pub whole : map ascii_lower s ++ rest ≡ name m

bytes_eq_sound : (xs ys : List ℕ) → bytes_eq xs ys ≡ true → xs ≡ ys
bytes_eq_sound [] [] h = refl
bytes_eq_sound [] (y ∷ ys) h = ground (arith, h)
bytes_eq_sound (x ∷ xs) [] h = ground (arith, h)
bytes_eq_sound (x ∷ xs) (y ∷ ys) h =
    let heads : x ≡ y = ground (arith, h) in
    let tails : bytes_eq xs ys ≡ true = ground (arith, h) in
    λ i. heads i ∷ bytes_eq_sound xs ys tails i

name_some_letter : (m : JournalMode) → 1 ≤ length (name m)
unfolding name
name_some_letter delete = omega arith
name_some_letter persist = omega arith
name_some_letter off = omega arith
name_some_letter truncate = omega arith
name_some_letter memory = omega arith
name_some_letter wal_mode = omega arith
name_some_letter query = omega arith

full :
    (s : List ℕ) (m : JournalMode)
    → ¬ (m ≡ query)
    → map ascii_lower s ≡ map ascii_lower (name m)
    → Abbreviates s m
full s m set e =
    let same = e ∙ name_lower m in
    record {
      settable = set;
      some_letter = omega (arith, ap length same, length-map s ascii_lower, name_some_letter m);
      rest = [];
      whole = append_nil (map ascii_lower s) ∙ same;
    }

beginning :
    (s : List ℕ) (m : JournalMode)
    → ¬ (m ≡ query)
    → 1 ≤ length s
    → map ascii_lower (take (length s) (name m)) ≡ map ascii_lower s
    → Abbreviates s m
beginning s m set letter e = record {
  settable = set;
  some_letter = letter;
  rest = drop (length s) (name m);
  whole =
      ap (λ t. t ++ drop (length s) (name m))
        (sym e ∙ map-take ascii_lower (length s) (name m) ∙ ap (take (length s)) (name_lower m))
      ∙ take-append-drop (length s) (name m);
}

is_named_sound :
    (s : List ℕ) (m : JournalMode) → ¬ (m ≡ query) → is_named s m ≡ true → Abbreviates s m
unfolding is_named eq_ignore_ascii_case
is_named_sound s m set h =
    elim (Bool-cases (bytes_eq (map ascii_lower s) (map ascii_lower (name m)))) [
      | inl e ↦ full s m set (bytes_eq_sound _ _ e)
      | inr e ↦ beginning s m set (ground (arith, h, e)) (
          bytes_eq_sound (map ascii_lower (take (length s) (name m))) (map ascii_lower s)
            (ground (arith, h, e)))
    ]

some_injective : (a b : JournalMode) → some a ≡ some b → a ≡ b
some_injective a b h = cc

first_named_sound :
    (ms : List JournalMode) (s : List ℕ) (m : JournalMode)
    → All (λ m'. ¬ (m' ≡ query)) ms
    → first_named ms s ≡ some m
    → Abbreviates s m
unfolding first_named
first_named_sound [] s m all h = absurd cc
first_named_sound (m' ∷ ms) s m all h = elim (Bool-cases (is_named s m')) [
  | inl e ↦
      let this : m' ≡ m = some_injective m' m (rw e at h) in
      rw this at (is_named_sound s m' all.0 e)
  | inr e ↦ first_named_sound ms s m all.1 (rw e at h)
]

named : (s : List ℕ) (m : JournalMode) → Abbreviates s m → from_name s ≡ some m
named [] m a = absurd (omega (arith, a.some_letter))
named (c ∷ s) m a = from_name-abbreviation m c s a.rest a.settable a.whole

modes_settable : All (λ m. ¬ (m ≡ query)) modes
modes_settable = (
  λ e. absurd cc,
  (λ e. absurd cc, (λ e. absurd cc, (λ e. absurd cc, (λ e. absurd cc, (λ e. absurd cc, tt))))),
)

-- `from_name` reads a text as a mode exactly if the mode is not `query` and the text begins its name,
-- in letters of either case and with one letter at least.
pub from_name_lem : (s : List ℕ) (m : JournalMode) → (from_name s ≡ some m) ↔ Abbreviates s m
unfolding from_name
from_name_lem s m = (first_named_sound modes s m modes_settable, named s m)
