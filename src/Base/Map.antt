-- ===== src/Base/Map.antt =====
-- Maps keyed by numbers, as lists of entries: `HashMap` and, of keys alone, `HashSet`. A map made
-- by these operations has one entry for a key.
use Prim.Native.Nat.{ℕ}
use mathlib.Core.Path.{◌≡◌, refl}
use mathlib.Core.Logic.{inl, inr}
use mathlib.Core.Bool.{Bool, false, ◌||◌}
use mathlib.Core.List.{List, [], ◌∷◌}
use mathlib.Core.Option.{Option, none, some}
use native.Mathlib.Omega.{arith}
use rustqlite.Base.Bytes.{All}
use rustqlite.Base.Tests.{◌==◌, leb, if◌then◌else◌, Bool-cases}

abbrev pub Map {ℓ} : Type ℓ → Type ℓ
Map V = List (ℕ × V)

-- `contains` on a set of numbers.
abbrev pub contains : ℕ → List ℕ → Bool
contains k [] = false
contains k (x ∷ xs) = k == x || contains k xs

module _ {ℓ} {V : Type ℓ} where
  -- `get`, `insert`, and `retain` of the keys up to a bound.
  abbrev pub lookup : ℕ → Map V → Option V
  lookup k [] = none
  lookup k ((x, v) ∷ m) = let rest = lookup k m in if k == x then some v else rest

  abbrev pub insert : ℕ → V → Map V → Map V
  insert k v [] = (k, v) ∷ []
  insert k v ((x, w) ∷ m) = let rest = insert k v m in if k == x then (k, v) ∷ m else (x, w) ∷ rest

  abbrev pub retain_upto : ℕ → Map V → Map V
  retain_upto n [] = []
  retain_upto n ((x, v) ∷ m) = let rest = retain_upto n m in if leb x n then (x, v) ∷ rest else rest

  -- Inserting the entries of a list in order.
  abbrev pub insert_all : Map V → Map V → Map V
  insert_all [] m = m
  insert_all ((k, v) ∷ new) m = insert_all new (insert k v m)

  pub lookup-insert :
      (k : ℕ) (v : V) (m : Map V) (j : ℕ)
      → lookup j (insert k v m) ≡ (if j == k then some v else lookup j m)
  lookup-insert k v [] j = refl
  lookup-insert k v ((x, w) ∷ m) j = ground (arith, lookup-insert k v m j)

  pub lookup-retain_upto :
      (n : ℕ) (m : Map V) (j : ℕ)
      → lookup j (retain_upto n m) ≡ (if leb j n then lookup j m else none)
  lookup-retain_upto n [] j = elim (Bool-cases (leb j n)) [ inl e ↦ rw e refl | inr e ↦ rw e refl ]
  lookup-retain_upto n ((x, v) ∷ m) j = ground (arith, lookup-retain_upto n m j)

  -- What holds of every entry.
  pub All-insert {κ} :
      (P : ℕ × V → Type κ) (k : ℕ) (v : V) (m : Map V) → P (k, v) → All P m → All P (insert k v m)
  All-insert P k v [] h all = (h, tt)
  All-insert P k v ((x, w) ∷ m) h all = elim (Bool-cases (k == x)) [
    | inl same ↦ rw same (h, all.1)
    | inr other ↦ rw other (all.0, All-insert P k v m h all.1)
  ]

  pub All-lookup {κ} :
      (P : ℕ × V → Type κ) (k : ℕ) (v : V) (m : Map V) → lookup k m ≡ some v → All P m → P (k, v)
  All-lookup P k v [] found all = absurd (ground (arith, found))
  All-lookup P k v ((x, w) ∷ m) found all = elim (Bool-cases (k == x)) [
    | inl same ↦
        let e : k ≡ x = ground (arith, same) in
        let f : v ≡ w = ground (arith, found, same) in rw (e, f) (all.0)
    | inr other ↦ All-lookup P k v m (ground (arith, found, other)) all.1
  ]
