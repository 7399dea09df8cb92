-- ===== src/Vfs/Lock/Count.antt =====
-- How many of the handles on a path are at a lock level.
use rustqlite.Base.{
  ℕ, zero, suc, ◌+◌, ◌≤◌, ◌≡◌, ◌≢◌, refl, ap, List, [], ◌∷◌, length, set, get_elem?, replicate,
  some, ◌==◌, if◌then◌else◌, arith,
}
use rustqlite.Vfs.Lock.{LockLevel, unlocked, as_u8}

-- How many of the handles are at a level.
abbrev pub one : LockLevel → LockLevel → ℕ
one x l = if as_u8 x == as_u8 l then 1 else 0

unfoldable pub count : LockLevel → List LockLevel → ℕ
count l [] = 0
count l (x ∷ xs) = one x l + count l xs

pub count-set :
    (l x y : LockLevel) (xs : List LockLevel) (i : ℕ)
    → get_elem? xs i ≡ some x
    → count l (set xs i y) + one x l ≡ count l xs + one y l
unfolding count
count-set l x y [] i h = ground arith
count-set l x y (z ∷ xs) zero h = ground arith
count-set l x y (z ∷ xs) (suc i) h = omega (arith, count-set l x y xs i h)

one_bound : (x l : LockLevel) → one x l ≤ 1
one_bound x l = ground arith

pub count_bound : (l : LockLevel) (xs : List LockLevel) → count l xs ≤ length xs
unfolding count
count_bound l [] = omega arith
count_bound l (x ∷ xs) = omega (arith, count_bound l xs, one_bound x l)

one-unlocked : (l : LockLevel) → 1 ≤ as_u8 l → one unlocked l ≡ 0
unfolding as_u8
one-unlocked l h = ground arith

pub count-unlocked : (l : LockLevel) (n : ℕ) → 1 ≤ as_u8 l → count l (replicate n unlocked) ≡ 0
unfolding count
count-unlocked l zero h = refl
count-unlocked l (suc n) h = omega (arith, count-unlocked l n h, one-unlocked l h)

pub count-one :
    (l x : LockLevel) (xs : List LockLevel) (i : ℕ) → get_elem? xs i ≡ some x → one x l ≤ count l xs
unfolding count
count-one l x [] i h = ground arith
count-one l x (z ∷ xs) zero h = ground arith
count-one l x (z ∷ xs) (suc i) h = omega (arith, count-one l x xs i h)

pub count_two :
    (l x y : LockLevel) (xs : List LockLevel) (i j : ℕ)
    → i ≢ j
    → get_elem? xs i ≡ some x
    → get_elem? xs j ≡ some y
    → one x l + one y l ≤ count l xs
unfolding count
count_two l x y [] i j n h k = ground arith
count_two l x y (z ∷ xs) zero zero n h k = absurd (n refl)
count_two l x y (z ∷ xs) zero (suc j) n h k = ground (arith, count-one l y xs j k)
count_two l x y (z ∷ xs) (suc i) zero n h k = ground (arith, count-one l x xs i h)
count_two l x y (z ∷ xs) (suc i) (suc j) n h k =
    omega (arith, count_two l x y xs i j (λ e. n (ap suc e)) h k)
