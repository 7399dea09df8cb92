-- ===== src/Vfs/MemFile/Bytes.antt =====
-- The bytes of a sequence by position, 0 behind its end.
use rustqlite.Base.{
  ℕ, zero, suc, ◌+◌, ◌-◌, ◌≤◌, ◌<◌, ◌≡◌, refl, ap, sym, ◌∙◌, List, [], ◌∷◌, ◌++◌, length, take,
  drop, replicate, arith,
}

abbrev pub byte_at : List ℕ → ℕ → ℕ
byte_at [] i = 0
byte_at (b ∷ bs) zero = b
byte_at (b ∷ bs) (suc i) = byte_at bs i

pub byte_at-append_left :
    (xs ys : List ℕ) (i : ℕ) → i < length xs → byte_at (xs ++ ys) i ≡ byte_at xs i
byte_at-append_left [] ys i h = absurd (omega arith)
byte_at-append_left (x ∷ xs) ys zero h = refl
byte_at-append_left (x ∷ xs) ys (suc i) h = byte_at-append_left xs ys i (omega arith)

pub byte_at-append_right :
    (xs ys : List ℕ) (i : ℕ) → byte_at (xs ++ ys) (length xs + i) ≡ byte_at ys i
byte_at-append_right [] ys i = let e : 0 + i ≡ i = omega arith in rw e
byte_at-append_right (x ∷ xs) ys i =
    let e : suc (length xs) + i ≡ suc (length xs + i) = omega arith in
    rw e (byte_at-append_right xs ys i)

pub byte_at-drop : (n : ℕ) (xs : List ℕ) (i : ℕ) → byte_at (drop n xs) i ≡ byte_at xs (n + i)
byte_at-drop zero xs i = let e : 0 + i ≡ i = omega arith in rw e
byte_at-drop (suc n) [] i = refl
byte_at-drop (suc n) (x ∷ xs) i =
    let e : suc n + i ≡ suc (n + i) = omega arith in rw e (byte_at-drop n xs i)

pub byte_at-take : (n : ℕ) (xs : List ℕ) (i : ℕ) → i < n → byte_at (take n xs) i ≡ byte_at xs i
byte_at-take zero xs i h = absurd (omega arith)
byte_at-take (suc n) [] i h = refl
byte_at-take (suc n) (x ∷ xs) zero h = refl
byte_at-take (suc n) (x ∷ xs) (suc i) h = byte_at-take n xs i (omega arith)

pub byte_at-replicate : (n i : ℕ) → byte_at (replicate n 0) i ≡ 0
byte_at-replicate zero i = refl
byte_at-replicate (suc n) zero = refl
byte_at-replicate (suc n) (suc i) = byte_at-replicate n i

pub byte_at_behind : (xs : List ℕ) (i : ℕ) → length xs ≤ i → byte_at xs i ≡ 0
byte_at_behind [] i h = refl
byte_at_behind (x ∷ xs) zero h = absurd (omega arith)
byte_at_behind (x ∷ xs) (suc i) h = byte_at_behind xs i (omega arith)

pub byte_at_split :
    (xs ys : List ℕ) (i : ℕ) → length xs ≤ i → byte_at (xs ++ ys) i ≡ byte_at ys (i - length xs)
byte_at_split xs ys i h =
    let e : length xs + (i - length xs) ≡ i = omega arith in
    ap (λ k. byte_at (xs ++ ys) k) (sym e) ∙ byte_at-append_right xs ys (i - length xs)

pub drop_all {ℓ} : {A : Type ℓ} (n : ℕ) (xs : List A) → length xs ≤ n → drop n xs ≡ []
drop_all zero [] h = refl
drop_all zero (x ∷ xs) h = absurd (omega arith)
drop_all (suc n) [] h = refl
drop_all (suc n) (x ∷ xs) h = drop_all n xs (omega arith)

pub append_nil {ℓ} : {A : Type ℓ} (xs : List A) → xs ++ [] ≡ xs
append_nil [] = refl
append_nil (x ∷ xs) = ap (λ t. x ∷ t) (append_nil xs)
