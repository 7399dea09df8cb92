-- ===== src/Pager/WalIndex.antt =====
-- crates/rustsqlite-core/src/pager/wal.rs: the blocks of the wal-index in memory, each a list of page
-- numbers with a hash table on it. A frame has a number of at least 1, and `u32` does not overflow.
pub mod Probe
pub mod Chain
pub mod Latest
pub mod Blocks
pub mod Finding
use rustqlite.Base.{
  ℕ, zero, suc, ◌+◌, ◌-◌, ◌/◌, List, [], ◌∷◌, ◌++◌, length, get_or, get_elem?, set, replicate, Bool,
  ◌&&◌, Option, none, some, bit_and, ltb, leb, ◌==◌, if◌then◌else◌,
}
use rustqlite.Format.WalIndex.{hashtable_nslot, wal_hash_key}

abbrev pub hashtable_npage : ℕ
hashtable_npage = 4096

abbrev pub hashtable_npage_one : ℕ
hashtable_npage_one = 4062

pub record IndexBlock : Type 0 where
  pub i_zero : ℕ
  pub page_mapping : List ℕ
  pub hash_table : List ℕ

unfoldable pub new_block : ℕ → ℕ → IndexBlock
new_block base capacity = record {
  i_zero = base;
  page_mapping = replicate capacity 0;
  hash_table = replicate hashtable_nslot 0;
}

-- The slot behind a slot, round the table.
unfoldable pub next_slot : ℕ → ℕ
next_slot i = bit_and (i + 1) (hashtable_nslot - 1)

-- The rounds of the loop of `append` from slot `i`; a full table is left as it is.
unfoldable pub probe : ℕ → List ℕ → ℕ → ℕ → List ℕ
probe zero table i v = table
probe (suc rounds) table i v =
    let rest = probe rounds table (next_slot i) v in
    if get_or table i 0 == 0 then set table i v else rest

unfoldable pub append : ℕ → ℕ → IndexBlock → IndexBlock
append i_frame pgno b =
    let idx = i_frame - b.i_zero - 1 in
    record b {
      page_mapping = set b.page_mapping idx pgno;
      hash_table = probe hashtable_nslot b.hash_table (wal_hash_key pgno) (idx + 1);
    }

-- The block of a frame.
unfoldable pub wal_frame_page : ℕ → ℕ
wal_frame_page i_frame = (i_frame + hashtable_npage - hashtable_npage_one - 1) / hashtable_npage

-- What the last block, if there is one, makes of the next.
unfoldable pub following_block : List IndexBlock → IndexBlock
following_block [] = new_block 0 hashtable_npage_one
following_block (b ∷ []) = new_block (b.i_zero + length b.page_mapping) hashtable_npage
following_block (b ∷ blocks) = following_block blocks

-- The rounds of `while self.blocks.len() <= block_idx`: as many as blocks are missing.
unfoldable pub add_blocks : ℕ → List IndexBlock → List IndexBlock
add_blocks zero blocks = blocks
add_blocks (suc missing) blocks = add_blocks missing (blocks ++ following_block blocks ∷ [])

-- `self.blocks[i]` is there after the loop.
unfoldable pub append_at : ℕ → ℕ → ℕ → List IndexBlock → Option IndexBlock → List IndexBlock
append_at block_idx i_frame pgno blocks (some b) = set blocks block_idx (append i_frame pgno b)
append_at block_idx i_frame pgno blocks none = blocks

unfoldable pub append_frame : ℕ → ℕ → List IndexBlock → List IndexBlock
append_frame i_frame pgno blocks =
    let block_idx = wal_frame_page i_frame in
    let blocks' = add_blocks (block_idx + 1 - length blocks) blocks in
    append_at block_idx i_frame pgno blocks' (get_elem? blocks' block_idx)

-- The frames behind `i_frame`, in order, as `recover` and `write_frames` append them.
unfoldable pub append_frames : ℕ → List ℕ → List IndexBlock → List IndexBlock
append_frames i_frame [] blocks = blocks
append_frames i_frame (pgno ∷ pgnos) blocks =
    append_frames (i_frame + 1) pgnos (append_frame (i_frame + 1) pgno blocks)

-- Whether the frame in a slot is a later one of the page, among the frames up to `mx_frame`.
unfoldable pub improves : ℕ → ℕ → IndexBlock → ℕ → ℕ → Bool
improves mx_frame pgno b h i_read =
    leb (b.i_zero + h) mx_frame
    && get_or b.page_mapping (bit_and (h - 1) (hashtable_npage - 1)) 0 == pgno
    && ltb i_read (b.i_zero + h)

-- The inner loop from slot `i_key`, with `n_collide` collisions left; `none` is the return of 0 after
-- too many.
unfoldable pub chain : ℕ → ℕ → ℕ → IndexBlock → ℕ → ℕ → Option ℕ
chain zero mx_frame pgno b i_key i_read =
    if get_or b.hash_table i_key 0 == 0 then some i_read else none
chain (suc n_collide) mx_frame pgno b i_key i_read =
    let h = get_or b.hash_table i_key 0 in
    let i_read' = if improves mx_frame pgno b h i_read then b.i_zero + h else i_read in
    let rest = chain n_collide mx_frame pgno b (next_slot i_key) i_read' in
    if h == 0 then some i_read else rest

-- The outcome of a block: the walk ends, or goes on with the blocks before.
unfoldable pub settle : Option ℕ → ℕ → ℕ
settle none before = 0
settle (some i_read) before = if i_read == 0 then before else i_read

-- The outer loop over the first `count` blocks, the last one first.
unfoldable pub search_block : ℕ → ℕ → Option IndexBlock → ℕ → ℕ
search_block mx_frame pgno none before = before
search_block mx_frame pgno (some b) before =
    settle (chain hashtable_nslot mx_frame pgno b (wal_hash_key pgno) 0) before

unfoldable pub search_blocks : ℕ → ℕ → ℕ → List IndexBlock → ℕ
search_blocks zero mx_frame pgno blocks = 0
search_blocks (suc block_idx) mx_frame pgno blocks =
    search_block mx_frame pgno (get_elem? blocks block_idx)
      (search_blocks block_idx mx_frame pgno blocks)

unfoldable pub find_frame : ℕ → ℕ → List IndexBlock → ℕ
find_frame mx_frame pgno blocks =
    if mx_frame == 0 then 0 else search_blocks (wal_frame_page mx_frame + 1) mx_frame pgno blocks
