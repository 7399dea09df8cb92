-- ===== src/Pager/WalIndex/Finding.antt =====
-- The search through the blocks, last one first, against the linear search through all frames.
use rustqlite.Base.{
  ℕ, zero, suc, ◌+◌, ◌-◌, ◌≤◌, ◌<◌, ◌≡◌, ◌≢◌, refl, ap, ◌∙◌, List, [], ◌∷◌, length, ltb, true,
  false, some, ◌==◌, arith, Bool-cases, inl, inr,
}
use rustqlite.Format.WalIndex.{wal_hash_key}
use rustqlite.Pager.WalIndex.{
  IndexBlock, append_frames, wal_frame_page, search_block, search_blocks, settle, find_frame,
}
use rustqlite.Pager.WalIndex.Probe.{nslot, Reaches, empty_ahead}
use rustqlite.Pager.WalIndex.Chain.{Matches, FoundBy, chain_lem, wal_hash_key-lt}
use rustqlite.Pager.WalIndex.Latest.{latest, page_of, IsLatest, IsLatest-unique}
use rustqlite.Pager.WalIndex.Blocks.{
  IsBlock, IsIndex, zero_of, cap_of, zero_of-suc, cap-le, filled, segment, get_elem?-some,
  append_frames-IsIndex, empty-IsIndex,
}

module _ (pgnos : List ℕ) (pgno : ℕ) where
  abbrev n : ℕ
  n = length pgnos

  -- No frame behind the first `from` has the page.
  abbrev NoneFrom : ℕ → Type 0
  NoneFrom from = (i : ℕ) → from ≤ i → i < n → page_of pgnos i ≢ pgno

  abbrev FoundIn : ℕ → IndexBlock → ℕ → Type 0
  FoundIn k b r = FoundBy n pgno (filled n k) (segment pgnos k) b (wal_hash_key pgno) 0 r

  -- A frame of the block that has the page is at most the one that the walk found.
  found_bounds :
      (k : ℕ) (b : IndexBlock) (r : ℕ)
      → IsBlock pgnos k b
      → ((w : ℕ)
          → Reaches b.hash_table w (wal_hash_key pgno)
          → Matches n pgno (filled n k) (segment pgnos k) b.i_zero w
          → b.i_zero + w ≤ r)
      → (i : ℕ) → zero_of k ≤ i
      → i < zero_of k + cap_of k
      → i < n
      → page_of pgnos i ≡ pgno
      → i + 1 ≤ r
  found_bounds k b r h all i lo hi within e =
      let j = i - zero_of k in
      let back : zero_of k + j ≡ i = omega arith in
      let is_it : segment pgnos k j ≡ pgno = ap (page_of pgnos) back ∙ e in
      let back' : zero_of k + (j + 1 - 1) ≡ i = omega arith in
      let chained = rw is_it at (h.holds.reached j (omega arith)) in
      let bound = all (j + 1) chained (record {
        positive = omega arith;
        stored = omega arith;
        visible = omega (arith, h.starts);
        same = ap (page_of pgnos) back' ∙ e;
      }) in
      omega (arith, bound, h.starts)

  -- All frames of the page are in the block or before.
  none_behind :
      (k : ℕ) (b : IndexBlock) (r : ℕ)
      → IsBlock pgnos k b
      → FoundIn k b r
      → NoneFrom (zero_of k + cap_of k)
      → (i : ℕ) → r ≤ i
      → zero_of k ≤ i
      → i < n
      → page_of pgnos i ≢ pgno
  none_behind k b r h found behind i le lo within e =
      elim (Bool-cases (ltb i (zero_of k + cap_of k))) [
        | inl inside ↦
            let bound = found_bounds k b r h found.1 i lo (ground (arith, inside)) within e in
            omega (arith, bound)
        | inr outside ↦ behind i (ground (arith, outside)) within e
      ]

  settle_lem :
      (k : ℕ) (b : IndexBlock) (r before : ℕ)
      → IsBlock pgnos k b
      → FoundIn k b r
      → NoneFrom (zero_of k + cap_of k)
      → (NoneFrom (zero_of k) → IsLatest pgno pgnos before)
      → IsLatest pgno pgnos (settle (some r) before)
  unfolding settle
  settle_lem k b r before h found behind rec = elim found.2 [
    | inl no_match ↦
        let z : (r == 0) ≡ true = ground (arith, no_match) in
        rw z (
          rec
            (λ i lo within. none_behind k b r h found behind i (omega (arith, no_match)) lo within))
    | inr (w, e, m) ↦
        let nz : (r == 0) ≡ false = ground (arith, e, m.positive) in
        let at : r - 1 ≡ zero_of k + (w - 1) = omega (arith, e, m.positive, h.starts) in
        rw nz (record {
          none_later = λ i le within.
              none_behind k b r h found behind i le (omega (arith, e, h.starts, le)) within;
          hit = inr (
            omega (arith, e, m.positive),
            omega (arith, e, m.visible),
            ap (page_of pgnos) at ∙ m.same,
          );
        })
  ]

  search_blocks_lem :
      (blocks : List IndexBlock) (k : ℕ)
      → IsIndex pgnos blocks
      → k ≤ length blocks
      → NoneFrom (zero_of k)
      → IsLatest pgno pgnos (search_blocks k n pgno blocks)
  unfolding search_blocks search_block
  search_blocks_lem blocks zero h le behind = record {
    none_later = λ i lo within. behind i (omega arith) within;
    hit = inl refl;
  }
  search_blocks_lem blocks (suc k) h le behind =
      let there = get_elem?-some blocks k (omega arith) in
      let block = h.each k there.0 there.1 in
      let key = wal_hash_key pgno in
      let ahead =
        empty_ahead there.0.hash_table key block.holds.slots
          (omega (arith, block.holds.free, cap-le k)) (wal_hash_key-lt pgno) in
      let walk =
        chain_lem n pgno (cap_of k) (filled n k) (segment pgnos k) there.0 block.holds (cap-le k)
          (omega arith) nslot key 0 ahead.0 (wal_hash_key-lt pgno) (omega (arith, ahead.1))
          ahead.2 in
      rw (there.1, walk.1)
        (settle_lem k there.0 walk.0 _ block walk.2
          (λ i lo within. behind i (omega (arith, zero_of-suc k)) within)
          (search_blocks_lem blocks k h (omega arith)))

all_blocks : (m : ℕ) → suc m ≤ zero_of (suc (wal_frame_page (suc m)))
unfolding wal_frame_page
all_blocks m = omega arith

find_frame-IsLatest :
    (pgnos : List ℕ) (pgno : ℕ) (blocks : List IndexBlock)
    → IsIndex pgnos blocks
    → IsLatest pgno pgnos (find_frame (length pgnos) pgno blocks)
unfolding find_frame
find_frame-IsLatest [] pgno blocks h = record {
  none_later = λ i lo within. absurd (omega arith);
  hit = inl refl;
}
find_frame-IsLatest (p ∷ pgnos) pgno blocks h =
    let n = length (p ∷ pgnos) in
    let some_frames : (n == 0) ≡ false = ground arith in
    let next : wal_frame_page n + 1 ≡ suc (wal_frame_page n) = omega arith in
    rw (some_frames, next)
      (search_blocks_lem (p ∷ pgnos) pgno blocks (suc (wal_frame_page n)) h
        (omega (arith, h.enough))
        (λ i lo within. absurd (omega (arith, all_blocks (length pgnos)))))

-- Looking a page up in an index of the pages of all frames gives the last frame that holds it, as
-- the linear search through the frames does, or 0 if none does.
pub find_frame-latest :
    (pgnos : List ℕ) (pgno : ℕ) (blocks : List IndexBlock)
    → IsIndex pgnos blocks
    → find_frame (length pgnos) pgno blocks ≡ latest pgno pgnos
find_frame-latest pgnos pgno blocks h =
    IsLatest-unique pgno pgnos _ (find_frame-IsLatest pgnos pgno blocks h)

-- In the index that is built by appending the pages of any frames in order, find_frame returns the
-- last frame of a page, as the linear search through the frames does, or 0 if there is none.
pub find_frame-append_frames :
    (pgnos : List ℕ) (pgno : ℕ)
    → find_frame (length pgnos) pgno (append_frames 0 pgnos []) ≡ latest pgno pgnos
find_frame-append_frames pgnos pgno =
    find_frame-latest pgnos pgno _ (append_frames-IsIndex [] pgnos [] empty-IsIndex)
