-- ===== src/Btree/Overflow/Chain.antt =====
-- Following the chain of overflow pages that `spill` wrote.
use rustqlite.Base.{
  ℕ, zero, suc, ◌+◌, ◌-◌, ◌≤◌, ◌<◌, ◌^◌, ◌≡◌, ◌≢◌, refl, ap, sym, ◌∙◌, min, List, ◌++◌, length,
  take, drop, replicate, Option, some, ltb, leb, ◌==◌, arith, Bool-cases, inl, inr, true, false,
  length-append, length-take, length-drop, take-append-drop, length-replicate, append_assoc,
  take_all,
}
use rustqlite.Base.Bytes.{be_bytes, be_u32, slice, be_u32-be_bytes, take-length_append}
use rustqlite.Error.{ok}
use rustqlite.Btree.PageStore.{PageStore, IsStore}
use rustqlite.Btree.Overflow.{overflow_buf, chained, spill, collect}

-- The number of the next page and the chunk are read back from an overflow page.
buf_next :
    (page_size next : ℕ) (chunk : List ℕ)
    → next < 2 ^ 32
    → be_u32 (slice 0 4 (overflow_buf page_size next chunk)) ≡ next
unfolding overflow_buf
buf_next page_size next chunk h = be_u32-be_bytes next h

buf_chunk :
    (page_size next : ℕ) (chunk : List ℕ)
    → slice 4 (4 + length chunk) (overflow_buf page_size next chunk) ≡ chunk
unfolding overflow_buf
buf_chunk page_size next chunk =
    let e : 4 + length chunk - 4 ≡ length chunk = omega arith in rw e (take-length_append chunk _)

abbrev zero_byte : ℕ
zero_byte = 0

length-buf :
    (page_size next : ℕ) (chunk : List ℕ)
    → 4 + length chunk ≤ page_size
    → length (overflow_buf page_size next chunk) ≡ page_size
unfolding overflow_buf
length-buf page_size next chunk h = omega (
  arith,
  length-replicate page_size zero_byte,
  length-append (be_bytes 4 next) (drop 4 (replicate page_size zero_byte)),
  length-drop 4 (replicate page_size zero_byte),
  length-append chunk
      (drop (4 + length chunk) (be_bytes 4 next ++ drop 4 (replicate page_size zero_byte))),
  length-drop (4 + length chunk) (be_bytes 4 next ++ drop 4 (replicate page_size zero_byte)),
)

module _ {P : Type 0} (s : PageStore P) (page_size : ℕ) (laws : IsStore s page_size)
    (usable : ℕ) where
  -- A page that was taken before, other than the current one, reads as before.
  spill_frame :
      (fuel : ℕ) (p : P) (curr m : ℕ) (tail : List ℕ)
      → 4 < usable
      → laws.Room p (length tail)
      → ¬ laws.IsFree p m
      → m ≢ 0
      → curr ≢ m
      → s.get_page (spill s page_size usable fuel p curr tail) m ≡ s.get_page p m
  unfolding spill
  spill_frame zero p curr m tail u room f z n = refl
  spill_frame (suc fuel) p curr m tail u room f z n =
      elim (Bool-cases (min (length tail) (usable - 4) == length tail)) [
        | inl last ↦ rw last (laws.get_other p curr m _ n)
        | inr more ↦
            let n' = min (length tail) (usable - 4) in
            let k = length tail - 1 in
            let rest = drop n' tail in
            let left : length rest ≡ length tail - n' = length-drop n' tail in
            let short : n' < length tail = ground arith in
            let some_room = laws.room_less p (suc k) (length tail) room (omega arith) in
            let room' = laws.room_write _ k curr _ (laws.room_allocate p k some_room) in
            rw more (
              spill_frame fuel _ (s.allocate_page p).0 m rest u
                (laws.room_less _ (length rest) k room' (omega arith))
                (λ x. f (laws.allocate_keeps p m (laws.write_keeps _ curr m _ x))) z
                (λ e. f (rw (← e) (laws.was_free p k some_room)))
              ∙ laws.get_other _ curr m _ n
              ∙ laws.get_allocated p m f z)
      ]

  chained-some : (n : ℕ) → n ≢ 0 → chained (some n) ≡ some n
  unfolding chained
  chained-some n h = ground arith

  pub collect_done :
      (g : ℕ) (p : P) (total : ℕ) (payload : List ℕ) (next : Option ℕ)
      → total ≤ length payload
      → collect s page_size usable g p total payload next ≡ ok payload
  unfolding collect
  collect_done zero p total payload next h = refl
  collect_done (suc g) p total payload next h =
      let no : ltb (length payload) total ≡ false = ground arith in rw no refl

  -- One round of the loop on a page that holds a chunk of the expected length.
  collect_round :
      (g : ℕ) (p : P) (total : ℕ) (acc : List ℕ) (curr next : ℕ) (chunk : List ℕ)
      → s.get_page p curr ≡ ok (overflow_buf page_size next chunk)
      → curr ≢ 0
      → next < 2 ^ 32
      → length acc < total
      → min (total - length acc) (usable - 4) ≡ length chunk
      → 4 + length chunk ≤ page_size
      → collect s page_size usable (suc g) p total acc (some curr)
        ≡ collect s page_size usable g p total (acc ++ chunk) (some next)
  unfolding collect
  collect_round g p total acc curr next chunk got nz small lt want fits =
      let more : ltb (length acc) total ≡ true = ground arith in
      let long : leb (4 + length chunk) (length (overflow_buf page_size next chunk)) ≡ true =
        ground (arith, length-buf page_size next chunk) in
      rw
        (
          more,
          chained-some curr nz,
          got,
          want,
          long,
          buf_chunk page_size next chunk,
          buf_next page_size next chunk small,
        )
        refl

  -- Following the chain from its first page gives the tail that was spilled.
  pub collect-spill :
      (fuel g : ℕ) (p : P) (curr : ℕ) (acc tail : List ℕ)
      → laws.Room p (length tail)
      → ¬ laws.IsFree p curr
      → curr ≢ 0
      → 4 < usable
      → usable ≤ page_size
      → 1 ≤ length tail
      → length tail ≤ fuel
      → length tail ≤ g
      → collect s page_size usable g
          (spill s page_size usable fuel p curr tail)
          (length acc + length tail)
          acc
          (some curr)
        ≡ ok (acc ++ tail)
  unfolding spill
  collect-spill zero g p curr acc tail room f nz u b h hf hg = absurd (omega arith)
  collect-spill (suc fuel) zero p curr acc tail room f nz u b h hf hg = absurd (omega arith)
  collect-spill (suc fuel) (suc g) p curr acc tail room f nz u b h hf hg =
      elim (Bool-cases (min (length tail) (usable - 4) == length tail)) [
        | inl last ↦
            let all : min (length tail) (usable - 4) ≡ length tail = ground arith in
            rw (last, all, take_all (length tail) tail (omega arith))
              (collect_round g _ _ acc curr 0 tail
                  (laws.get_written p curr (length tail) _ room f nz
                    (length-buf page_size 0 tail (omega arith)))
                  nz (omega arith) (omega arith) (omega arith) (omega arith)
                ∙ collect_done g _ _ (acc ++ tail) (some 0) (omega (arith, length-append acc tail)))
        | inr more ↦
            let n = min (length tail) (usable - 4) in
            let full : n ≡ usable - 4 = ground arith in
            let short : n < length tail = ground arith in
            let next = (s.allocate_page p).0 in
            let chunk = take n tail in
            let rest = drop n tail in
            let p1 = (s.allocate_page p).1 in
            let p2 = s.write_page p1 curr (overflow_buf page_size next chunk) in
            let buf = overflow_buf page_size next chunk in
            let k = length tail - 1 in
            let left : length rest ≡ length tail - n = length-drop n tail in
            let some_room = laws.room_less p (suc k) (length tail) room (omega arith) in
            let room_left =
              laws.room_less p2 (length rest) k
                (laws.room_write p1 k curr buf (laws.room_allocate p k some_room)) (omega arith) in
            let taken : ¬ laws.IsFree p2 curr =
              λ x. f (laws.allocate_keeps p curr (laws.write_keeps p1 curr curr buf x)) in
            let other : next ≢ curr = λ e. f (rw (← e) (laws.was_free p k some_room)) in
            let whole : (acc ++ chunk) ++ rest ≡ acc ++ tail =
              append_assoc acc chunk rest ∙ ap (λ t. acc ++ t) (take-append-drop n tail) in
            let len : length chunk ≡ n = omega (arith, length-take n tail) in
            let left : length rest ≡ length tail - n = length-drop n tail in
            let total : length (acc ++ chunk) + length rest ≡ length acc + length tail =
              omega (arith, length-append acc chunk) in
            let got : s.get_page (spill s page_size usable fuel p2 next rest) curr ≡ ok buf =
              spill_frame fuel p2 next curr rest u room_left taken nz other
              ∙ laws.get_written p1 curr k buf (laws.room_allocate p k some_room)
                  (λ x. f (laws.allocate_keeps p curr x)) nz
                  (length-buf page_size next chunk (omega arith)) in
            rw more (
              collect_round g _ _ acc curr next chunk got nz (laws.small p k some_room)
                (omega arith) (omega arith) (omega arith)
              ∙ ap
                  (λ k.
                    collect s page_size usable g (spill s page_size usable fuel p2 next rest) k
                      (acc ++ chunk) (some next))
                  (sym total)
              ∙ collect-spill fuel g p2 next (acc ++ chunk) rest room_left
                  (λ x. laws.taken p k some_room (laws.write_keeps p1 curr next buf x))
                  (laws.number p k some_room) u b (omega arith) (omega arith) (omega arith)
              ∙ ap ok whole)
      ]
