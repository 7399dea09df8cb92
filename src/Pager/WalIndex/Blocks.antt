-- ===== src/Pager/WalIndex/Blocks.antt =====
-- The wal-index as a whole: it is an exact index of the pages of the frames that were appended.
use rustqlite.Base.{
  ℕ, zero, suc, ◌+◌, ◌-◌, ◌*◌, ◌≤◌, ◌<◌, ◌≡◌, ◌≢◌, refl, sym, ap, ◌∙◌, min, List, [], ◌∷◌, ◌++◌,
  length, get_elem?, set, some, ◌==◌, arith, Bool-cases, inl, inr, ◌⊎◌, length-append, length-set,
  append_assoc,
}
use rustqlite.Vfs.MemFile.Bytes.{append_nil}
use rustqlite.Pager.WalIndex.{
  IndexBlock, append, append_frame, append_frames, append_at, add_blocks, following_block,
  new_block, wal_frame_page,
}
use rustqlite.Pager.WalIndex.Chain.{Holds, new_block-Holds, append-Holds}
use rustqlite.Pager.WalIndex.Latest.{page_of, page_of-append_old, page_of-append_new}

abbrev pub zero_of : ℕ → ℕ
zero_of zero = 0
zero_of (suc k) = 4062 + k * 4096

abbrev pub cap_of : ℕ → ℕ
cap_of zero = 4062
cap_of (suc k) = 4096

pub zero_of-suc : (k : ℕ) → zero_of (suc k) ≡ zero_of k + cap_of k
zero_of-suc zero = refl
zero_of-suc (suc k) = omega arith

pub cap-le : (k : ℕ) → cap_of k ≤ 4096
cap-le zero = omega arith
cap-le (suc k) = omega arith

-- How many of `n` frames a block has.
abbrev pub filled : ℕ → ℕ → ℕ
filled n k = min (cap_of k) (n - zero_of k)

abbrev pub needed : ℕ → ℕ
needed zero = 0
needed (suc n) = wal_frame_page (suc n) + 1

abbrev pub segment : List ℕ → ℕ → ℕ → ℕ
segment pgnos k i = page_of pgnos (zero_of k + i)

-- Block `k` of an index of the pages of all frames.
pub record IsBlock (pgnos : List ℕ) (k : ℕ) (b : IndexBlock) : Type 0 where
  pub starts : b.i_zero ≡ zero_of k
  pub holds : Holds (cap_of k) (filled (length pgnos) k) (segment pgnos k) b

pub record IsIndex (pgnos : List ℕ) (blocks : List IndexBlock) : Type 0 where
  pub enough : length blocks ≡ needed (length pgnos)
  pub each : (k : ℕ) (b : IndexBlock) → get_elem? blocks k ≡ some b → IsBlock pgnos k b

Holds-other :
    (cap m n : ℕ) (f g : ℕ → ℕ) (b : IndexBlock)
    → m ≡ n
    → ((i : ℕ) → i < m → f i ≡ g i)
    → Holds cap m f b
    → Holds cap n g b
Holds-other cap m n f g b e same h = record {
  mapped = h.mapped;
  slots = h.slots;
  kept = λ i l. h.kept i (omega arith) ∙ same i (omega arith);
  sound = λ s. omega (arith, h.sound s);
  free = omega (arith, h.free);
  reached = λ i l. rw (← same i (omega arith)) (h.reached i (omega arith));
}

-- A block that the new frame does not go into.
IsBlock-other :
    (pgnos : List ℕ) (p k : ℕ) (b : IndexBlock)
    → wal_frame_page (length pgnos + 1) ≢ k
    → IsBlock pgnos k b
    → IsBlock (pgnos ++ p ∷ []) k b
unfolding wal_frame_page
IsBlock-other pgnos p zero b ne h = record {
  starts = h.starts;
  holds =
      Holds-other _ _ _ _ _ b (omega (arith, length-append pgnos (p ∷ [])))
        (λ i l. sym (page_of-append_old pgnos p (zero_of 0 + i) (omega arith))) h.holds;
}
IsBlock-other pgnos p (suc k) b ne h = record {
  starts = h.starts;
  holds =
      Holds-other _ _ _ _ _ b (omega (arith, length-append pgnos (p ∷ [])))
        (λ i l. sym (page_of-append_old pgnos p (zero_of (suc k) + i) (omega arith))) h.holds;
}

frame_place : (n k : ℕ) → wal_frame_page (n + 1) ≡ k → (zero_of k ≤ n) × (n < zero_of k + cap_of k)
unfolding wal_frame_page
frame_place n zero e = omega arith
frame_place n (suc k) e = omega arith

pub needed_suc : (n : ℕ) → needed (n + 1) ≡ wal_frame_page (n + 1) + 1
needed_suc n = let e : n + 1 ≡ suc n = omega arith in rw e refl

needed_bounds :
    (n : ℕ)
    → (needed n ≡ wal_frame_page (n + 1) + 1)
      ⊎ ((needed n ≡ wal_frame_page (n + 1)) × (n ≤ zero_of (wal_frame_page (n + 1))))
unfolding wal_frame_page
needed_bounds zero = inr (omega arith)
needed_bounds (suc n) = split (wal_frame_page (suc n + 1)) refl
  where
    split :
        (k : ℕ)
        → wal_frame_page (suc n + 1) ≡ k
        → (needed (suc n) ≡ wal_frame_page (suc n + 1) + 1)
          ⊎ ((needed (suc n) ≡ wal_frame_page (suc n + 1))
              × (suc n ≤ zero_of (wal_frame_page (suc n + 1))))
    split zero e = inl (omega arith)
    split (suc k) e = elim (Bool-cases (wal_frame_page (suc n) == suc k)) [
      | inl full ↦ inl (ground (arith, full))
      | inr more ↦
          let ne : wal_frame_page (suc n) ≢ suc k = ground (arith, more) in
          inr (omega arith, rw e (omega arith))
    ]

module _ {ℓ} {A : Type ℓ} where
  pub get_elem?-some : (xs : List A) (i : ℕ) → i < length xs → (x : A) × (get_elem? xs i ≡ some x)
  get_elem?-some [] i h = absurd (omega arith)
  get_elem?-some (x ∷ xs) zero h = (x, refl)
  get_elem?-some (x ∷ xs) (suc i) h = get_elem?-some xs i (omega arith)

  each_snoc {κ} :
      (P : ℕ → A → Type κ) (xs : List A) (y : A)
      → ((k : ℕ) (x : A) → get_elem? xs k ≡ some x → P k x)
      → P (length xs) y
      → (k : ℕ) (x : A) → get_elem? (xs ++ y ∷ []) k ≡ some x
      → P k x
  each_snoc P [] y h new zero x e = let same : y ≡ x = ground (arith, e) in rw (← same) new
  each_snoc P [] y h new (suc k) x e = absurd (ground (arith, e))
  each_snoc P (z ∷ xs) y h new zero x e = h 0 x e
  each_snoc P (z ∷ xs) y h new (suc k) x e =
      each_snoc (λ i. P (suc i)) xs y (λ i w f. h (suc i) w f) new k x e

  each_set {κ} :
      (P : ℕ → A → Type κ) (xs : List A) (i : ℕ) (y : A)
      → ((k : ℕ) (x : A) → k ≢ i → get_elem? xs k ≡ some x → P k x)
      → P i y
      → (k : ℕ) (x : A) → get_elem? (set xs i y) k ≡ some x
      → P k x
  each_set P [] i y h new k x e = absurd (ground (arith, e))
  each_set P (z ∷ xs) zero y h new zero x e =
      let same : y ≡ x = ground (arith, e) in rw (← same) new
  each_set P (z ∷ xs) zero y h new (suc k) x e = h (suc k) x (omega arith) e
  each_set P (z ∷ xs) (suc i) y h new zero x e = h 0 x (omega arith) e
  each_set P (z ∷ xs) (suc i) y h new (suc k) x e =
      each_set (λ j. P (suc j)) xs i y (λ j w ne f. h (suc j) w (λ g. ne (ground (arith, g))) f) new
        k x e

following_last :
    (blocks : List IndexBlock) (k : ℕ) (b : IndexBlock)
    → length blocks ≡ suc k
    → get_elem? blocks k ≡ some b
    → following_block blocks ≡ new_block (b.i_zero + length b.page_mapping) 4096
unfolding following_block
following_last [] k b len e = absurd (ground (arith, e))
following_last (c ∷ []) zero b len e = let same : c ≡ b = ground (arith, e) in rw same refl
following_last (c ∷ []) (suc k) b len e = absurd (omega arith)
following_last (c ∷ d ∷ blocks) zero b len e = absurd (omega arith)
following_last (c ∷ d ∷ blocks) (suc k) b len e = following_last (d ∷ blocks) k b (omega arith) e

-- The block that is put behind `k` whole blocks.
following_lem :
    (pgnos : List ℕ) (k : ℕ) (blocks : List IndexBlock)
    → length blocks ≡ k
    → ((j : ℕ) (b : IndexBlock) → get_elem? blocks j ≡ some b → IsBlock pgnos j b)
    → following_block blocks ≡ new_block (zero_of k) (cap_of k)
following_lem pgnos zero [] len each = unfold following_block in refl
following_lem pgnos zero (b ∷ blocks) len each = absurd (omega arith)
following_lem pgnos (suc k) blocks len each =
    let last = get_elem?-some blocks k (omega arith) in
    let block = each k last.0 last.1 in
    following_last blocks k last.0 len last.1
    ∙ ap (λ t. new_block t 4096) (omega (arith, block.starts, block.holds.mapped, zero_of-suc k))

-- The blocks once there is one for the next frame.
record IsReady (pgnos : List ℕ) (k : ℕ) (blocks : List IndexBlock) : Type 0 where
  pub enough : length blocks ≡ k + 1
  pub each : (j : ℕ) (b : IndexBlock) → get_elem? blocks j ≡ some b → IsBlock pgnos j b

add_blocks-IsReady :
    (pgnos : List ℕ) (blocks : List IndexBlock) (k : ℕ)
    → k ≡ wal_frame_page (length pgnos + 1)
    → IsIndex pgnos blocks
    → IsReady pgnos k (add_blocks (k + 1 - length blocks) blocks)
add_blocks-IsReady pgnos blocks k e h = elim (needed_bounds (length pgnos)) [
  | inl there ↦
      let no_more : k + 1 - length blocks ≡ 0 = omega (arith, there, h.enough) in
      rw no_more
        (unfold add_blocks in record { enough = omega (arith, there, h.enough); each = h.each })
  | inr (absent, first) ↦
      let one_more : k + 1 - length blocks ≡ 1 = omega (arith, absent, h.enough) in
      let len : length blocks ≡ k = omega (arith, absent, h.enough) in
      let before : length pgnos ≤ zero_of k = rw e first in
      let none_yet : filled (length pgnos) k ≡ 0 = omega (arith, before) in
      rw one_more (
        unfold add_blocks in
        record {
          enough = omega (arith, length-append blocks (following_block blocks ∷ []));
          each = each_snoc (IsBlock pgnos) blocks (following_block blocks) h.each (
              rw (len, following_lem pgnos k blocks len h.each)
                (record {
                  starts = unfold new_block in refl;
                  holds = rw none_yet (new_block-Holds (zero_of k) (cap_of k) (segment pgnos k));
                }));
        })
]

-- The block of the next frame has room for it.
append-IsBlock :
    (pgnos : List ℕ) (p k : ℕ) (b : IndexBlock)
    → k ≡ wal_frame_page (length pgnos + 1)
    → IsBlock pgnos k b
    → IsBlock (pgnos ++ p ∷ []) k (append (length pgnos + 1) p b)
append-IsBlock pgnos p k b e h =
    let place = frame_place (length pgnos) k (sym e) in
    let count : filled (length pgnos) k ≡ length pgnos - zero_of k = omega (arith, place) in
    let more : filled (length pgnos) k + 1 ≡ filled (length (pgnos ++ p ∷ [])) k =
      omega (arith, place, length-append pgnos (p ∷ [])) in
    let at : zero_of k + filled (length pgnos) k ≡ length pgnos = omega (arith, place) in
    record {
      starts = unfold append in h.starts;
      holds = rw (← more) (
          append-Holds (cap_of k) (filled (length pgnos) k) (segment (pgnos ++ p ∷ []) k) b
            (length pgnos + 1) p
            (Holds-other _ _ _ _ _ b refl
              (λ i l. sym (page_of-append_old pgnos p (zero_of k + i) (omega (arith, place))))
              h.holds)
            (omega (arith, place)) (omega (arith, cap-le k)) (omega (arith, place, h.starts))
            (rw at (page_of-append_new pgnos p)));
    }

pub append_frame-IsIndex :
    (pgnos : List ℕ) (p : ℕ) (blocks : List IndexBlock)
    → IsIndex pgnos blocks
    → IsIndex (pgnos ++ p ∷ []) (append_frame (length pgnos + 1) p blocks)
unfolding append_frame append_at
append_frame-IsIndex pgnos p blocks h =
    let k = wal_frame_page (length pgnos + 1) in
    let ready = add_blocks-IsReady pgnos blocks k refl h in
    let target =
      get_elem?-some (add_blocks (k + 1 - length blocks) blocks) k (omega (arith, ready.enough)) in
    let grown : length (pgnos ++ p ∷ []) ≡ length pgnos + 1 =
      omega (arith, length-append pgnos (p ∷ [])) in
    rw target.1 (record {
      enough =
          length-set (add_blocks (k + 1 - length blocks) blocks) k _
          ∙ ready.enough
          ∙ sym (needed_suc (length pgnos))
          ∙ ap needed (sym grown);
      each =
          each_set (IsBlock (pgnos ++ p ∷ [])) (add_blocks (k + 1 - length blocks) blocks) k _
            (λ j b ne e. IsBlock-other pgnos p j b (λ f. ne (sym f)) (ready.each j b e))
            (append-IsBlock pgnos p k target.0 refl (ready.each k target.0 target.1));
    })

pub empty-IsIndex : IsIndex [] []
empty-IsIndex = record { enough = refl; each = λ k b e. absurd (ground (arith, e)) }

pub append_frames-IsIndex :
    (pgnos new : List ℕ) (blocks : List IndexBlock)
    → IsIndex pgnos blocks
    → IsIndex (pgnos ++ new) (append_frames (length pgnos) new blocks)
unfolding append_frames
append_frames-IsIndex pgnos [] blocks h = rw append_nil h
append_frames-IsIndex pgnos (p ∷ new) blocks h =
    let grown : length (pgnos ++ p ∷ []) ≡ length pgnos + 1 =
      omega (arith, length-append pgnos (p ∷ [])) in
    let more =
      append_frames-IsIndex (pgnos ++ p ∷ []) new _ (append_frame-IsIndex pgnos p blocks h) in
    rw grown at (rw (append_assoc pgnos (p ∷ []) new) at more)
