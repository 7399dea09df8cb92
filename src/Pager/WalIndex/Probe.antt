-- ===== src/Pager/WalIndex/Probe.antt =====
-- The hash table of a block: a new entry is put behind the entries that its chain has.
use rustqlite.Base.{
  ℕ, zero, suc, ◌+◌, ◌-◌, ◌*◌, ◌/◌, ◌%◌, ◌^◌, ◌<◌, ◌≡◌, ◌≢◌, refl, sym, ap, ◌∙◌, List, [], ◌∷◌,
  length, get_or, set, replicate, ◌==◌, if◌then◌else◌, arith, bit_and, Bool-cases, inl, inr, false,
}
use rustqlite.Base.Bits.{bit_and_ones}
use rustqlite.Pager.WalIndex.{next_slot, probe}

abbrev pub nslot : ℕ
nslot = 8192

pub next_slot_lem : (i : ℕ) → next_slot i ≡ (i + 1) % nslot
unfolding next_slot
next_slot_lem i =
    let split : (i + 1) / nslot * 2 ^ 13 + (i + 1) % nslot ≡ i + 1 = omega arith in
    omega (
      arith,
      ap (λ (t : ℕ). bit_and t 8191) split,
      bit_and_ones 13 ((i + 1) / nslot) ((i + 1) % nslot) (omega arith),
    )

-- The chain from a slot has an entry before its first empty slot.
pub data Reaches (table : List ℕ) (v : ℕ) : ℕ → Type 0 where
  here : {i : ℕ} → get_or table i 0 ≡ v → Reaches table v i
  there : {i : ℕ} → get_or table i 0 ≢ 0 → Reaches table v (next_slot i) → Reaches table v i

-- The empty slots of a table.
unfoldable pub empties : List ℕ → ℕ
empties [] = 0
empties (x ∷ xs) = (if x == 0 then 1 else 0) + empties xs

pub empties-replicate : (n : ℕ) → empties (replicate n 0) ≡ n
unfolding empties
empties-replicate zero = refl
empties-replicate (suc n) = omega (arith, empties-replicate n)

pub empties-set :
    (xs : List ℕ) (q v : ℕ)
    → q < length xs
    → get_or xs q 0 ≡ 0
    → v ≢ 0
    → empties (set xs q v) + 1 ≡ empties xs
unfolding empties
empties-set [] q v h e n = absurd (omega arith)
empties-set (x ∷ xs) zero v h e n = ground (arith, e)
empties-set (x ∷ xs) (suc q) v h e n = omega (arith, empties-set xs q v (omega arith) e n)

empty_slot : (xs : List ℕ) → 0 < empties xs → (q : ℕ) × (q < length xs) × (get_or xs q 0 ≡ 0)
unfolding empties
empty_slot [] h = absurd (omega arith)
empty_slot (x ∷ xs) h = elim (Bool-cases (x == 0)) [
  | inl e ↦ (0, omega arith, ground (arith, e))
  | inr e ↦ let r = empty_slot xs (ground (arith, e)) in (suc r.0, omega (arith, r.1), r.2)
]

-- A table that is not full has an empty slot within one round from every slot.
pub empty_ahead :
    (table : List ℕ) (i : ℕ)
    → length table ≡ nslot
    → 0 < empties table
    → i < nslot
    → (d : ℕ) × (d < nslot) × (get_or table ((i + d) % nslot) 0 ≡ 0)
empty_ahead table i len some_empty lt =
    let r = empty_slot table some_empty in
    let e : (i + (r.0 + nslot - i) % nslot) % nslot ≡ r.0 = omega (arith, r.1) in
    ((r.0 + nslot - i) % nslot, omega arith, rw e (r.2))

get_or-set_self : (xs : List ℕ) (i v : ℕ) → i < length xs → get_or (set xs i v) i 0 ≡ v
get_or-set_self [] i v h = absurd (omega arith)
get_or-set_self (x ∷ xs) zero v h = refl
get_or-set_self (x ∷ xs) (suc i) v h = get_or-set_self xs i v (omega arith)

pub get_or-set_ne : (xs : List ℕ) (i j v : ℕ) → i ≢ j → get_or (set xs i v) j 0 ≡ get_or xs j 0
get_or-set_ne [] i j v h = refl
get_or-set_ne (x ∷ xs) zero zero v h = absurd (h refl)
get_or-set_ne (x ∷ xs) zero (suc j) v h = refl
get_or-set_ne (x ∷ xs) (suc i) zero v h = refl
get_or-set_ne (x ∷ xs) (suc i) (suc j) v h = get_or-set_ne xs i j v (λ e. h (ap suc e))

pub get_or-set :
    (xs : List ℕ) (i v j : ℕ)
    → i < length xs
    → get_or (set xs i v) j 0 ≡ (if i == j then v else get_or xs j 0)
get_or-set xs i v j h = elim (Bool-cases (i == j)) [
  | inl e ↦ let same : j ≡ i = ground (arith, e) in rw (e, same) (get_or-set_self xs i v h)
  | inr e ↦ rw e (get_or-set_ne xs i j v (ground (arith, e)))
]

-- Filling an empty slot keeps what is reached.
pub Reaches-set :
    {table : List ℕ} {w i : ℕ} (q v : ℕ)
    → q < length table
    → get_or table q 0 ≡ 0
    → v ≢ 0
    → w ≢ 0
    → Reaches table w i
    → Reaches (set table q v) w i
Reaches-set {table} {w} {i} q v lt e nv nw (here found) =
    here (ground (arith, get_or-set table q v i, found, e))
Reaches-set {table} {w} {i} q v lt e nv nw (there full r) =
    there (ground (arith, get_or-set table q v i, e)) (Reaches-set q v lt e nv nw r)

-- The loop fills one empty slot, and the new entry is reached from where it started.
pub probe_lem :
    (rounds : ℕ) (table : List ℕ) (i v d : ℕ)
    → length table ≡ nslot
    → i < nslot
    → d < rounds
    → get_or table ((i + d) % nslot) 0 ≡ 0
    → (q : ℕ) × (q < nslot)
      × (get_or table q 0 ≡ 0)
      × (probe rounds table i v ≡ set table q v)
      × Reaches (set table q v) v i
unfolding probe
probe_lem zero table i v d len lt less e = absurd (omega arith)
probe_lem (suc rounds) table i v d len lt less e = elim (Bool-cases (get_or table i 0 == 0)) [
  | inl free ↦
      let z : get_or table i 0 ≡ 0 = ground (arith, free) in
      (i, lt, z, rw free refl, here (get_or-set_self table i v (omega arith)))
  | inr full ↦
      probe_on rounds table i v d len lt less e (ground (arith, full)) full
        (λ d' l. probe_lem rounds table (next_slot i) v d' len (omega (arith, next_slot_lem i)) l)
]
  where
    probe_on :
        (rounds : ℕ) (table : List ℕ) (i v d : ℕ)
        → length table ≡ nslot
        → i < nslot
        → d < suc rounds
        → get_or table ((i + d) % nslot) 0 ≡ 0
        → get_or table i 0 ≢ 0
        → (get_or table i 0 == 0) ≡ false
        → ((d' : ℕ)
            → d' < rounds
            → get_or table ((next_slot i + d') % nslot) 0 ≡ 0
            → (q : ℕ) × (q < nslot)
              × (get_or table q 0 ≡ 0)
              × (probe rounds table (next_slot i) v ≡ set table q v)
              × Reaches (set table q v) v (next_slot i))
        → (q : ℕ) × (q < nslot)
          × (get_or table q 0 ≡ 0)
          × (probe (suc rounds) table i v ≡ set table q v)
          × Reaches (set table q v) v i
    probe_on rounds table i v zero len lt less e n full rec =
        let z : (i + 0) % nslot ≡ i = omega arith in
        absurd (n (sym (ap (λ k. get_or table k 0) z) ∙ e))
    probe_on rounds table i v (suc d) len lt less e n full rec =
        let z : (next_slot i + d) % nslot ≡ (i + suc d) % nslot = omega (arith, next_slot_lem i) in
        let r = rec d (omega arith) (rw z e) in
        (r.0, r.1, r.2, rw full (r.3), there (ground (arith, get_or-set table r.0 v i, r.2)) r.4)
