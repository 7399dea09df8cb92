-- ===== src/Vdbe/Sorter/Keys.antt =====
-- The order in which `ORDER BY` puts two records.
use rustqlite.Base.{
  ℕ, suc, ◌+◌, ◌≡◌, ◌↔◌, ◌∙◌, inl, inr, refl, ap, get_or, List, [], ◌∷◌, ◌++◌, length, Bool, true,
  false, if◌then◌else◌, arith, Bool-cases,
}
use rustqlite.Types.Value.{Value, null}
use rustqlite.Types.Collation.{Ordering, less, equal, greater, reverse}
use rustqlite.Vdbe.Compare.{Floats, mem_compare}
use rustqlite.Vdbe.Sorter.{KeyField, is_equal, compare_from, compare_keys}

module _ (f : Floats) (a b : List Value) where
  -- The values at position `i` under the collation of a key.
  abbrev pub at : ℕ → KeyField → Ordering
  at i key = mem_compare f (get_or a i null) (get_or b i null) key.collation

  -- The values are equal at every key, the first of which is for position `i`.
  abbrev pub AreTied : ℕ → List KeyField → Type 0
  AreTied i [] = Unit
  AreTied i (key ∷ keys) = (at i key ≡ equal) × AreTied (suc i) keys

  -- The first key at which the values differ puts `a` before `b`: by the smaller value when the key
  -- ascends, and by the greater one when it descends.
  pub record Precedes (i : ℕ) (keys : List KeyField) : Type 0 where
    pub before : List KeyField
    pub key : KeyField
    pub after : List KeyField
    pub split : keys ≡ before ++ key ∷ after
    pub tied : AreTied i before
    pub decides : at (i + length before) key ≡ (if key.desc then greater else less)

  ties : (o : Ordering) → is_equal o ≡ true → o ≡ equal
  ties less h = ground (arith, h)
  ties equal h = refl
  ties greater h = ground (arith, h)

  decided :
      (o : Ordering) (desc : Bool)
      → (if desc then reverse o else o) ≡ less
      → o ≡ (if desc then greater else less)
  unfolding reverse
  decided o false h = h
  decided less true h = ground (arith, h)
  decided equal true h = ground (arith, h)
  decided greater true h = refl

  deciding :
      (o : Ordering) (desc : Bool)
      → o ≡ (if desc then greater else less)
      → (is_equal o ≡ false) × ((if desc then reverse o else o) ≡ less)
  unfolding reverse
  deciding o false h = (ap is_equal h, h)
  deciding o true h = (ap is_equal h, ap reverse h)

  compare_from-less :
      (i : ℕ) (keys : List KeyField) → compare_from f a b i keys ≡ less → Precedes i keys
  unfolding compare_from
  compare_from-less i [] h = absurd (ground (arith, h))
  compare_from-less i (key ∷ keys) h = elim (Bool-cases (is_equal (at i key))) [
    | inl tie ↦
        let rest = compare_from-less (suc i) keys (rw tie at h) in
        record {
          before = key ∷ rest.before;
          key = rest.key;
          after = rest.after;
          split = ap (λ t. key ∷ t) rest.split;
          tied = (ties (at i key) tie, rest.tied);
          decides = ap (λ n. at n rest.key) (omega arith) ∙ rest.decides;
        }
    | inr differ ↦ record {
      before = [];
      key = key;
      after = keys;
      split = refl;
      tied = tt;
      decides = ap (λ n. at n key) (omega arith) ∙ decided (at i key) key.desc (rw differ at h);
    }
  ]

  less_split :
      (i : ℕ) (before : List KeyField) (key : KeyField) (after : List KeyField)
      → AreTied i before
      → at (i + length before) key ≡ (if key.desc then greater else less)
      → compare_from f a b i (before ++ key ∷ after) ≡ less
  unfolding compare_from
  less_split i [] key after tied h =
      let d = deciding (at i key) key.desc (ap (λ n. at n key) (omega arith) ∙ h) in rw d.0 d.1
  less_split i (k ∷ before) key after tied h =
      rw tied.0 (less_split (suc i) before key after tied.1 (ap (λ n. at n key) (omega arith) ∙ h))

  Precedes-compare_from :
      (i : ℕ) (keys : List KeyField) → Precedes i keys → compare_from f a b i keys ≡ less
  Precedes-compare_from i keys p =
      ap (compare_from f a b i) p.split ∙ less_split i p.before p.key p.after p.tied p.decides

  not_equal :
      (o : Ordering) (desc : Bool)
      → is_equal o ≡ false
      → (if desc then reverse o else o) ≡ equal
      → o ≡ equal
  unfolding reverse
  not_equal o false n h = h
  not_equal less true n h = ground (arith, h)
  not_equal equal true n h = refl
  not_equal greater true n h = ground (arith, h)

  compare_from-equal :
      (i : ℕ) (keys : List KeyField) → compare_from f a b i keys ≡ equal → AreTied i keys
  unfolding compare_from
  compare_from-equal i [] h = tt
  compare_from-equal i (key ∷ keys) h = elim (Bool-cases (is_equal (at i key))) [
    | inl tie ↦ (ties (at i key) tie, compare_from-equal (suc i) keys (rw tie at h))
    | inr differ ↦
        let e = not_equal (at i key) key.desc differ (rw differ at h) in
        absurd (ground (arith, ap is_equal e, differ))
  ]

  AreTied-compare_from :
      (i : ℕ) (keys : List KeyField) → AreTied i keys → compare_from f a b i keys ≡ equal
  unfolding compare_from
  AreTied-compare_from i [] tied = refl
  AreTied-compare_from i (key ∷ keys) tied = rw tied.0 (AreTied-compare_from (suc i) keys tied.1)

-- A record comes before another exactly if the first key at which their values differ puts it there,
-- by the smaller value when the key ascends and by the greater one when it descends, under the
-- collation of the key; and the two compare equal exactly if their values do at every key.
pub compare_keys_lem :
    (f : Floats) (a b : List Value) (keys : List KeyField)
    → ((compare_keys f a b keys ≡ less) ↔ Precedes f a b 0 keys)
      × ((compare_keys f a b keys ≡ equal) ↔ AreTied f a b 0 keys)
unfolding compare_keys
compare_keys_lem f a b keys = (
  (compare_from-less f a b 0 keys, Precedes-compare_from f a b 0 keys),
  (compare_from-equal f a b 0 keys, AreTied-compare_from f a b 0 keys),
)
