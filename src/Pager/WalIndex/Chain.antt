-- ===== src/Pager/WalIndex/Chain.antt =====
-- One block: what an insertion keeps of it, and what the walk along a chain finds.
use rustqlite.Base.{
  ℕ, zero, suc, ◌+◌, ◌-◌, ◌*◌, ◌%◌, ◌^◌, ◌≤◌, ◌<◌, ◌≡◌, ◌≢◌, refl, sym, ap, ◌∙◌, length, get_or,
  ◌==◌, if◌then◌else◌, arith, bit_and, Bool-cases, inl, inr, ◌⊎◌, false, length-set,
  length-replicate, some, replicate,
}
use rustqlite.Base.Bits.{bit_and_ones}
use rustqlite.Format.WalIndex.{wal_hash_key}
use rustqlite.Pager.WalIndex.{IndexBlock, next_slot, append, chain, improves, new_block}
use rustqlite.Pager.WalIndex.Probe.{
  nslot, next_slot_lem, Reaches, here, there, empties, empties-replicate, empties-set, empty_ahead,
  get_or-set, Reaches-set, probe_lem,
}

-- A block of the given capacity that holds the pages `page 0` up to `page (count - 1)` in order.
pub record Holds (cap count : ℕ) (page : ℕ → ℕ) (b : IndexBlock) : Type 0 where
  pub mapped : length b.page_mapping ≡ cap
  pub slots : length b.hash_table ≡ nslot
  pub kept : (i : ℕ) → i < count → get_or b.page_mapping i 0 ≡ page i
  pub sound : (s : ℕ) → get_or b.hash_table s 0 ≤ count
  pub free : nslot ≤ empties b.hash_table + count
  pub reached : (i : ℕ) → i < count → Reaches b.hash_table (i + 1) (wal_hash_key (page i))

pub wal_hash_key-lt : (page : ℕ) → wal_hash_key page < nslot
unfolding wal_hash_key
wal_hash_key-lt page = omega arith

abbrev zero_entry : ℕ
zero_entry = 0

get_or-replicate : (n i : ℕ) → get_or (replicate n zero_entry) i 0 ≡ zero_entry
get_or-replicate zero i = refl
get_or-replicate (suc n) zero = refl
get_or-replicate (suc n) (suc i) = get_or-replicate n i

pub new_block-Holds : (base cap : ℕ) (page : ℕ → ℕ) → Holds cap 0 page (new_block base cap)
unfolding new_block
new_block-Holds base cap page = record {
  mapped = length-replicate cap zero_entry;
  slots = length-replicate nslot zero_entry;
  kept = λ i h. absurd (omega arith);
  sound = λ s. omega (arith, get_or-replicate nslot s);
  free = omega (arith, empties-replicate nslot);
  reached = λ i h. absurd (omega arith);
}

-- The next page is appended in the next place.
pub append-Holds :
    (cap count : ℕ) (page : ℕ → ℕ) (b : IndexBlock) (i_frame pgno : ℕ)
    → Holds cap count page b
    → count < cap
    → cap < nslot
    → i_frame ≡ b.i_zero + count + 1
    → page count ≡ pgno
    → Holds cap (count + 1) page (append i_frame pgno b)
unfolding append
append-Holds cap count page b i_frame pgno h room small at last =
    let idx : i_frame - b.i_zero - 1 ≡ count = omega arith in
    let key = wal_hash_key pgno in
    let ahead =
      empty_ahead b.hash_table key h.slots (omega (arith, h.free)) (wal_hash_key-lt pgno) in
    let put =
      probe_lem nslot b.hash_table key (count + 1) ahead.0 h.slots (wal_hash_key-lt pgno) ahead.1
        ahead.2 in
    let fits : put.0 < length b.hash_table = omega (arith, put.1, h.slots) in
    let nz : count + 1 ≢ 0 = omega arith in
    rw (idx, put.3)
      (record {
        mapped = length-set b.page_mapping count pgno ∙ h.mapped;
        slots = length-set b.hash_table put.0 (count + 1) ∙ h.slots;
        kept = λ i l. ground (
          arith,
          get_or-set b.page_mapping count pgno i,
          h.mapped,
          h.kept i,
          last,
          λ (e : i ≡ count). ap page e,
        );
        sound = λ s. ground (arith, get_or-set b.hash_table put.0 (count + 1) s fits, h.sound s);
        free = omega (arith, h.free, empties-set b.hash_table put.0 (count + 1) fits put.2 nz);
        reached = λ i l. elim (Bool-cases (i == count)) [
          | inl e ↦ let same : i ≡ count = ground (arith, e) in rw (same, last) put.4
          | inr e ↦
              Reaches-set put.0 (count + 1) fits put.2 nz (omega arith)
                (h.reached i (ground (arith, e, l)))
        ];
      })

-- An entry of the block that is a frame of the page, up to `mx_frame`.
pub record Matches (mx_frame pgno : ℕ) (count : ℕ) (page : ℕ → ℕ) (i_zero w : ℕ) : Type 0 where
  pub positive : 1 ≤ w
  pub stored : w ≤ count
  pub visible : i_zero + w ≤ mx_frame
  pub same : page (w - 1) ≡ pgno

-- From slot `s`, with `i_read` the best so far, the walk finds `r`: at least every entry that it
-- passes, and one of them or `i_read`.
abbrev pub FoundBy : ℕ → ℕ → ℕ → (ℕ → ℕ) → IndexBlock → ℕ → ℕ → ℕ → Type 0
FoundBy mx_frame pgno count page b s i_read r =
    (i_read ≤ r)
    × ((w : ℕ)
        → Reaches b.hash_table w s
        → Matches mx_frame pgno count page b.i_zero w
        → b.i_zero + w ≤ r)
    × ((r ≡ i_read) ⊎ ((w : ℕ) × (r ≡ b.i_zero + w) × Matches mx_frame pgno count page b.i_zero w))

module _ (mx_frame pgno cap count : ℕ) (page : ℕ → ℕ) (b : IndexBlock) (h : Holds cap count page b)
    (small : cap ≤ 4096) (room : count ≤ cap) where
  low_entry : (w : ℕ) → w < 4096 → bit_and w (4096 - 1) ≡ w
  low_entry w l =
      let z : 0 * 2 ^ 12 + w ≡ w = omega arith in
      ap (λ (t : ℕ). bit_and t 4095) (sym z) ∙ bit_and_ones 12 0 w (omega arith)

  mapped_page :
      (w : ℕ)
      → 1 ≤ w
      → w ≤ count
      → get_or b.page_mapping (bit_and (w - 1) (4096 - 1)) 0 ≡ page (w - 1)
  mapped_page w one l = rw (low_entry (w - 1) (omega arith)) (h.kept (w - 1) (omega arith))

  abbrev Found : ℕ → ℕ → ℕ → Type 0
  Found = FoundBy mx_frame pgno count page b

  better : ℕ → ℕ → ℕ
  better s i_read =
      let entry = get_or b.hash_table s 0 in
      if improves mx_frame pgno b entry i_read then b.i_zero + entry else i_read

  -- What a full slot does to the best frame so far.
  better_lem :
      (s i_read : ℕ)
      → get_or b.hash_table s 0 ≢ 0
      → (i_read ≤ better s i_read)
        × (Matches mx_frame pgno count page b.i_zero (get_or b.hash_table s 0)
            → b.i_zero + get_or b.hash_table s 0 ≤ better s i_read)
        × ((better s i_read ≡ i_read)
            ⊎ ((w : ℕ) × (better s i_read ≡ b.i_zero + w)
                × Matches mx_frame pgno count page b.i_zero w))
  unfolding better improves
  better_lem s i_read full =
      let entry = get_or b.hash_table s 0 in
      let e = mapped_page entry (omega arith) (h.sound s) in
      elim (Bool-cases (improves mx_frame pgno b entry i_read)) [
        | inl yes_it ↦ rw yes_it (
          ground (arith, yes_it),
          λ m. omega arith,
          inr (
            entry,
            refl,
            record {
              positive = omega arith;
              stored = h.sound s;
              visible = ground (arith, yes_it);
              same = ground (arith, yes_it, e);
            },
          ),
        )
        | inr no_it ↦
            rw no_it (omega arith, λ m. ground (arith, no_it, e, m.same, m.visible), inl refl)
      ]

  nothing_reached : (s w : ℕ) → get_or b.hash_table s 0 ≡ 0 → 1 ≤ w → ¬ Reaches b.hash_table w s
  nothing_reached s w z one (here e) = absurd (omega arith)
  nothing_reached s w z one (there full r) = full z

  walk_stops :
      (n s i_read : ℕ)
      → get_or b.hash_table s 0 ≡ 0
      → (r : ℕ) × (chain n mx_frame pgno b s i_read ≡ some r) × Found s i_read r
  unfolding chain
  walk_stops zero s i_read z = (
    i_read,
    rw z refl,
    (omega arith, λ w r m. absurd (nothing_reached s w z m.positive r), inl refl),
  )
  walk_stops (suc n) s i_read z = (
    i_read,
    rw z refl,
    (omega arith, λ w r m. absurd (nothing_reached s w z m.positive r), inl refl),
  )

  passed :
      (s best r : ℕ)
      → (Matches mx_frame pgno count page b.i_zero (get_or b.hash_table s 0)
          → b.i_zero + get_or b.hash_table s 0 ≤ best)
      → best ≤ r
      → ((w : ℕ)
          → Reaches b.hash_table w (next_slot s)
          → Matches mx_frame pgno count page b.i_zero w
          → b.i_zero + w ≤ r)
      → (w : ℕ) → Reaches b.hash_table w s
      → Matches mx_frame pgno count page b.i_zero w
      → b.i_zero + w ≤ r
  passed s best r first le later w (here e) m =
      let m' : Matches mx_frame pgno count page b.i_zero (get_or b.hash_table s 0) = rw e m in
      omega (arith, first m', e)
  passed s best r first le later w (there full reach) m = later w reach m

  abbrev From : ℕ → ℕ → Type 0
  From i_read r =
      (r ≡ i_read) ⊎ ((w : ℕ) × (r ≡ b.i_zero + w) × Matches mx_frame pgno count page b.i_zero w)

  last_of :
      (s i_read r : ℕ) → From (better s i_read) r → From i_read (better s i_read) → From i_read r
  last_of s i_read r (inl e) (inl f) = inl (e ∙ f)
  last_of s i_read r (inl e) (inr (w, f, m)) = inr (w, e ∙ f, m)
  last_of s i_read r (inr found) before = inr found

  walk_on :
      (n s i_read : ℕ)
      → get_or b.hash_table s 0 ≢ 0
      → ((r : ℕ) × (chain n mx_frame pgno b (next_slot s) (better s i_read) ≡ some r)
          × Found (next_slot s) (better s i_read) r)
      → (r : ℕ) × (chain (suc n) mx_frame pgno b s i_read ≡ some r) × Found s i_read r
  unfolding chain better
  walk_on n s i_read full (r, e, found) =
      let go : (get_or b.hash_table s 0 == 0) ≡ false = ground (arith, full) in
      let step = better_lem s i_read full in
      (
        r,
        rw go e,
        (
          omega (arith, step.0, found.0),
          passed s (better s i_read) r step.1 found.0 found.1,
          last_of s i_read r found.2 step.2,
        ),
      )

  -- The walk ends at the empty slot ahead, with the last frame of the page that it passed.
  pub chain_lem :
      (n s i_read d : ℕ)
      → s < nslot
      → d ≤ n
      → get_or b.hash_table ((s + d) % nslot) 0 ≡ 0
      → (r : ℕ) × (chain n mx_frame pgno b s i_read ≡ some r) × Found s i_read r
  chain_lem n s i_read zero lt le e =
      let z : (s + 0) % nslot ≡ s = omega arith in
      walk_stops n s i_read (sym (ap (λ k. get_or b.hash_table k 0) z) ∙ e)
  chain_lem zero s i_read (suc d) lt le e = absurd (omega arith)
  chain_lem (suc n) s i_read (suc d) lt le e =
      let z : (next_slot s + d) % nslot ≡ (s + suc d) % nslot = omega (arith, next_slot_lem s) in
      elim (Bool-cases (get_or b.hash_table s 0 == 0)) [
        | inl stop ↦ walk_stops (suc n) s i_read (ground (arith, stop))
        | inr go ↦ walk_on n s i_read (ground (arith, go)) (
            chain_lem n (next_slot s) (better s i_read) d (omega (arith, next_slot_lem s))
              (omega arith) (ap (λ k. get_or b.hash_table k 0) z ∙ e))
      ]
