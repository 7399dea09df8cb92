-- ===== src/Pager/WalIndex/Latest.antt =====
-- The specification of the wal-index: the last place of a page in the list of the pages of all frames.
use rustqlite.Base.{
  ℕ, zero, suc, ◌-◌, ◌≤◌, ◌<◌, ◌≡◌, ◌≢◌, refl, List, [], ◌∷◌, length, get_or, ◌==◌, if◌then◌else◌,
  arith, inl, inr, ◌⊎◌, ◌++◌, Bool-cases, true,
}

-- Counted from 1, and 0 if the page is in no frame.
unfoldable pub latest : ℕ → List ℕ → ℕ
latest pgno [] = 0
latest pgno (p ∷ pgnos) =
    let later = latest pgno pgnos in if later == 0 then (if p == pgno then 1 else 0) else suc later

-- The page of the frame behind the first `i`.
abbrev pub page_of : List ℕ → ℕ → ℕ
page_of pgnos i = get_or pgnos i 0

-- A frame of the page, or 0, and no later frame is one.
pub record IsLatest (pgno : ℕ) (pgnos : List ℕ) (r : ℕ) : Type 0 where
  pub none_later : (i : ℕ) → r ≤ i → i < length pgnos → page_of pgnos i ≢ pgno
  pub hit : (r ≡ 0) ⊎ ((1 ≤ r) × (r ≤ length pgnos) × (page_of pgnos (r - 1) ≡ pgno))

later-eq :
    (pgno p : ℕ) (pgnos : List ℕ)
    → latest pgno pgnos ≢ 0
    → latest pgno (p ∷ pgnos) ≡ suc (latest pgno pgnos)
unfolding latest
later-eq pgno p pgnos h = ground arith

pub latest-le : (pgno : ℕ) (pgnos : List ℕ) → latest pgno pgnos ≤ length pgnos
unfolding latest
latest-le pgno [] = omega arith
latest-le pgno (p ∷ pgnos) = ground (arith, latest-le pgno pgnos)

latest_page :
    (pgno : ℕ) (pgnos : List ℕ)
    → latest pgno pgnos ≢ 0
    → page_of pgnos (latest pgno pgnos - 1) ≡ pgno
unfolding latest
latest_page pgno [] h = absurd (h refl)
latest_page pgno (p ∷ pgnos) h = elim (Bool-cases (latest pgno pgnos == 0)) [
  | inl last ↦
      let same : (p == pgno) ≡ true = ground (arith, last, h) in
      rw (last, same) (ground (arith, same))
  | inr more ↦
      let down : suc (latest pgno pgnos) - 1 ≡ suc (latest pgno pgnos - 1) = ground (arith, more) in
      rw (more, down) (latest_page pgno pgnos (ground (arith, more)))
]

latest_last :
    (pgno : ℕ) (pgnos : List ℕ) (i : ℕ)
    → latest pgno pgnos ≤ i
    → i < length pgnos
    → page_of pgnos i ≢ pgno
unfolding latest
latest_last pgno [] i h l = absurd (omega arith)
latest_last pgno (p ∷ pgnos) zero h l = ground (arith)
latest_last pgno (p ∷ pgnos) (suc i) h l = ground (arith, latest_last pgno pgnos i)

-- There is only one.
pub IsLatest-unique :
    (pgno : ℕ) (pgnos : List ℕ) (r : ℕ) → IsLatest pgno pgnos r → r ≡ latest pgno pgnos
IsLatest-unique pgno pgnos r h = ground (
  arith,
  h.hit,
  h.none_later (latest pgno pgnos - 1),
  latest-le pgno pgnos,
  latest_page pgno pgnos,
  latest_last pgno pgnos (r - 1),
)

pub page_of-append_old :
    (pgnos : List ℕ) (p i : ℕ) → i < length pgnos → page_of (pgnos ++ p ∷ []) i ≡ page_of pgnos i
page_of-append_old [] p i h = absurd (omega arith)
page_of-append_old (x ∷ xs) p zero h = refl
page_of-append_old (x ∷ xs) p (suc i) h = page_of-append_old xs p i (omega arith)

pub page_of-append_new : (pgnos : List ℕ) (p : ℕ) → page_of (pgnos ++ p ∷ []) (length pgnos) ≡ p
page_of-append_new [] p = refl
page_of-append_new (x ∷ xs) p = page_of-append_new xs p
