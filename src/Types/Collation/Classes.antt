-- ===== src/Types/Collation/Classes.antt =====
-- Which texts a collation takes for equal.
use rustqlite.Base.{
  ℕ, zero, suc, ◌+◌, ◌≤◌, ◌≡◌, ◌⊎◌, ◌↔◌, ◌∙◌, inl, inr, refl, ap, sym, List, [], ◌∷◌, ◌++◌, map,
  replicate, ◌==◌, if◌then◌else◌, arith, Bool-cases,
}
use rustqlite.Types.Collation.{
  Collation, binary, no_case, r_trim, equal, ascii_lower, rtrim_spaces, cmp, compare,
}

abbrev pub IsCapital : ℕ → Type 0
IsCapital a = (65 ≤ a) × (a ≤ 90)

-- The same byte, or the capital and the small form of one letter of ASCII.
abbrev pub IsSameLetter : ℕ → ℕ → Type 0
IsSameLetter a b = (a ≡ b) ⊎ (IsCapital a × (b ≡ a + 32)) ⊎ (IsCapital b × (a ≡ b + 32))

abbrev pub AreSameLetters : List ℕ → List ℕ → Type 0
AreSameLetters [] [] = Unit
AreSameLetters (a ∷ x) (b ∷ y) = IsSameLetter a b × AreSameLetters x y
AreSameLetters _ _ = ⊥

-- One text, with a number of spaces behind it.
pub record AreTrimmed (x y : List ℕ) : Type 0 where
  pub body : List ℕ
  pub first : ℕ
  pub second : ℕ
  pub is_first : x ≡ body ++ replicate first b' '
  pub is_second : y ≡ body ++ replicate second b' '

abbrev pub AreEqual : Collation → List ℕ → List ℕ → Type 0
AreEqual binary x y = x ≡ y
AreEqual no_case x y = AreSameLetters x y
AreEqual r_trim x y = AreTrimmed x y

cmp_refl : (x : List ℕ) → cmp x x ≡ equal
unfolding cmp
cmp_refl [] = refl
cmp_refl (a ∷ x) = ground (arith, cmp_refl x)

cmp-equal : (x y : List ℕ) → cmp x y ≡ equal → x ≡ y
unfolding cmp
cmp-equal [] [] h = refl
cmp-equal [] (b ∷ y) h = ground (arith, h)
cmp-equal (a ∷ x) [] h = ground (arith, h)
cmp-equal (a ∷ x) (b ∷ y) h =
    let heads : a ≡ b = ground (arith, h) in
    let tails : cmp x y ≡ equal = ground (arith, h) in λ i. heads i ∷ cmp-equal x y tails i

same_letter : (a b : ℕ) → ascii_lower a ≡ ascii_lower b → IsSameLetter a b
unfolding ascii_lower
same_letter a b h = ground (arith, h)

lower_same : (a b : ℕ) → IsSameLetter a b → ascii_lower a ≡ ascii_lower b
unfolding ascii_lower
lower_same a b h = ground (arith, h)

letters : (x y : List ℕ) → map ascii_lower x ≡ map ascii_lower y → AreSameLetters x y
letters [] [] h = tt
letters [] (b ∷ y) h = absurd (ground (arith, h))
letters (a ∷ x) [] h = absurd (ground (arith, h))
letters (a ∷ x) (b ∷ y) h = (same_letter a b (ground (arith, h)), letters x y (ground (arith, h)))

lower_letters : (x y : List ℕ) → AreSameLetters x y → map ascii_lower x ≡ map ascii_lower y
lower_letters [] [] h = refl
lower_letters [] (b ∷ y) h = absurd h
lower_letters (a ∷ x) [] h = absurd h
lower_letters (a ∷ x) (b ∷ y) h = λ i. lower_same a b h.0 i ∷ lower_letters x y h.1 i

-- What `rtrim_spaces` cuts off is spaces.
record IsCut (x : List ℕ) : Type 0 where
  spaces : ℕ
  whole : x ≡ rtrim_spaces x ++ replicate spaces b' '

-- One byte more: `rtrim_spaces` of the rest is `t`.
abbrev trimmed : ℕ → List ℕ → List ℕ
trimmed a t = elim t [ [] ↦ if a == b' ' then [] else a ∷ [] | c ∷ cs ↦ a ∷ c ∷ cs ]

cut_head :
    (a : ℕ) (x t : List ℕ) (n : ℕ)
    → x ≡ t ++ replicate n b' '
    → (m : ℕ) × (a ∷ x ≡ trimmed a t ++ replicate m b' ')
cut_head a x [] n h = elim (Bool-cases (a == b' ')) [
  | inl space ↦ let e : a ≡ b' ' = ground (arith, space) in (suc n, rw space (λ i. e i ∷ h i))
  | inr letter ↦ (n, rw letter (ap (λ r. a ∷ r) h))
]
cut_head a x (c ∷ cs) n h = (n, ap (λ r. a ∷ r) h)

cut : (x : List ℕ) → IsCut x
unfolding rtrim_spaces
cut [] = record { spaces = 0; whole = refl }
cut (a ∷ x) =
    let c = cut x in
    let d = cut_head a x (rtrim_spaces x) c.spaces c.whole in record { spaces = d.0; whole = d.1 }

rtrim-replicate : (n : ℕ) → rtrim_spaces (replicate n b' ') ≡ []
unfolding rtrim_spaces
rtrim-replicate zero = refl
rtrim-replicate (suc n) = rw (rtrim-replicate n) refl

rtrim-append : (z : List ℕ) (n : ℕ) → rtrim_spaces (z ++ replicate n b' ') ≡ rtrim_spaces z
unfolding rtrim_spaces
rtrim-append [] n = rtrim-replicate n
rtrim-append (a ∷ z) n = rw (rtrim-append z n) refl

trimmed_texts : (x y : List ℕ) → rtrim_spaces x ≡ rtrim_spaces y → AreTrimmed x y
trimmed_texts x y h =
    let c = cut x in
    let d = cut y in
    record {
      body = rtrim_spaces y;
      first = c.spaces;
      second = d.spaces;
      is_first = c.whole ∙ ap (λ t. t ++ replicate c.spaces b' ') h;
      is_second = d.whole;
    }

rtrim-AreTrimmed : (x y : List ℕ) → AreTrimmed x y → rtrim_spaces x ≡ rtrim_spaces y
rtrim-AreTrimmed x y t =
    ap rtrim_spaces t.is_first
    ∙ rtrim-append t.body t.first
    ∙ sym (ap rtrim_spaces t.is_second ∙ rtrim-append t.body t.second)

compare-AreEqual : (c : Collation) (x y : List ℕ) → compare c x y ≡ equal → AreEqual c x y
unfolding compare
compare-AreEqual binary x y h = cmp-equal x y h
compare-AreEqual no_case x y h = letters x y (cmp-equal (map ascii_lower x) (map ascii_lower y) h)
compare-AreEqual r_trim x y h = trimmed_texts x y (cmp-equal (rtrim_spaces x) (rtrim_spaces y) h)

AreEqual-compare : (c : Collation) (x y : List ℕ) → AreEqual c x y → compare c x y ≡ equal
unfolding compare
AreEqual-compare binary x y h = ap (λ t. cmp x t) (sym h) ∙ cmp_refl x
AreEqual-compare no_case x y h =
    ap (cmp (map ascii_lower x)) (sym (lower_letters x y h)) ∙ cmp_refl (map ascii_lower x)
AreEqual-compare r_trim x y h =
    ap (cmp (rtrim_spaces x)) (sym (rtrim-AreTrimmed x y h)) ∙ cmp_refl (rtrim_spaces x)

-- BINARY takes exactly the same bytes for equal, NOCASE exactly the texts that differ in the case of
-- letters of ASCII only, and RTRIM exactly those that differ in the number of spaces at their ends.
pub compare_lem : (c : Collation) (x y : List ℕ) → (compare c x y ≡ equal) ↔ AreEqual c x y
compare_lem c x y = (compare-AreEqual c x y, AreEqual-compare c x y)
