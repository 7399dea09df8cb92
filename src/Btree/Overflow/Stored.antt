-- ===== src/Btree/Overflow/Stored.antt =====
-- A payload in a cell: its local bytes, and the chain behind them.
use rustqlite.Base.{
  ℕ, suc, ◌+◌, ◌-◌, ◌≤◌, ◌<◌, ◌^◌, ◌≡◌, refl, ap, sym, ◌∙◌, List, ◌++◌, length, take, drop, Bool,
  Option, some, none, leb, arith, true, false, length-append, length-take, length-drop,
  take-append-drop, append_assoc, take_all,
}
use rustqlite.Base.Bytes.{be_bytes, be_u32-be_bytes, take-length_append, drop-length_append}
use rustqlite.Error.{ok}
use rustqlite.Btree.PageStore.{PageStore, IsStore}
use rustqlite.Btree.Cell.{cell_slice, local_part, local_payload_len, min_local}
use rustqlite.Btree.Overflow.{append_payload, assemble, spill, collect}
use rustqlite.Btree.Overflow.Chain.{collect-spill, collect_done}

-- A slice in the middle of a page.
pub cell_slice_lem :
    (xs ys zs : List ℕ) → cell_slice (xs ++ (ys ++ zs)) (length xs) (length ys) ≡ ok ys
unfolding cell_slice
cell_slice_lem xs ys zs =
    let within : leb (length xs + length ys) (length (xs ++ (ys ++ zs))) ≡ true =
      ground (arith, length-append xs (ys ++ zs), length-append ys zs) in
    rw (within, drop-length_append xs (ys ++ zs), take-length_append ys zs) refl

-- What the split of a payload has to satisfy.
abbrev pub Splits : ℕ → ℕ × Bool → Type 0
Splits len (n, false) = n ≡ len
Splits len (n, true) = n < len

-- A payload within the threshold is local, and of a longer one at least one byte spills.
pub local_payload_len-Splits :
    (len usable max_local : ℕ)
    → min_local usable ≤ max_local
    → Splits len (local_payload_len len usable max_local)
unfolding local_payload_len
local_payload_len-Splits len usable max_local h = ground arith

-- Local bytes with a page number behind them.
chained_part :
    (pre ys post : List ℕ) (next : ℕ)
    → next < 2 ^ 32
    → local_part (pre ++ ((ys ++ be_bytes 4 next) ++ post)) (length pre) (length ys, true)
      ≡ ok (ys, some next)
unfolding local_part
chained_part pre ys post next h =
    let page : pre ++ (ys ++ (be_bytes 4 next ++ post)) ≡ (pre ++ ys) ++ (be_bytes 4 next ++ post) =
      sym (append_assoc pre ys (be_bytes 4 next ++ post)) in
    let pointer : cell_slice (pre ++ (ys ++ (be_bytes 4 next ++ post))) (length pre + length ys) 4
        ≡ ok (be_bytes 4 next) =
      rw (page, ← length-append pre ys) (cell_slice_lem (pre ++ ys) (be_bytes 4 next) post) in
    rw
      (
        append_assoc ys (be_bytes 4 next) post,
        cell_slice_lem pre ys (be_bytes 4 next ++ post),
        pointer,
      )
      (ap (λ v. ok (ys, some v)) (be_u32-be_bytes next h))

chained_part_at :
    (pre ys post : List ℕ) (next n : ℕ)
    → next < 2 ^ 32
    → length ys ≡ n
    → local_part (pre ++ ((ys ++ be_bytes 4 next) ++ post)) (length pre) (n, true)
      ≡ ok (ys, some next)
chained_part_at pre ys post next n h e = rw (← e) (chained_part pre ys post next h)

module _ {P : Type 0} (s : PageStore P) (page_size : ℕ) (laws : IsStore s page_size)
    (usable : ℕ) where
  -- The part of a cell behind its numbers, and how it reads.
  pub record Stored (p : P) (payload : List ℕ) (split : ℕ × Bool) : Type 0 where
    pub body : List ℕ
    pub store : P
    pub local : List ℕ
    pub overflow : Option ℕ
    pub builds :
        (cell : List ℕ)
        → append_payload s page_size usable p cell payload split ≡ (cell ++ body, store)
    pub parses :
        (pre post : List ℕ)
        → local_part (pre ++ (body ++ post)) (length pre) split ≡ ok (local, overflow)
    pub assembles : assemble s page_size usable store (length payload) local overflow ≡ ok payload

  assemble_lem :
      (q : P) (payload local : List ℕ) (overflow : Option ℕ)
      → collect s page_size usable (length payload) q (length payload) local overflow ≡ ok payload
      → assemble s page_size usable q (length payload) local overflow ≡ ok payload
  unfolding assemble
  assemble_lem q payload local overflow e =
      let whole : leb (length payload) (length payload) ≡ true = ground arith in
      rw (e, whole) (ap ok (take_all (length payload) payload (omega arith)))

  pub stored :
      (p : P) (payload : List ℕ) (split : ℕ × Bool)
      → 4 < usable
      → usable ≤ page_size
      → laws.Room p (suc (length payload))
      → Splits (length payload) split
      → Stored p payload split
  unfolding append_payload local_part assemble
  stored p payload (n, false) u b room h = record {
    body = payload;
    store = p;
    local = payload;
    overflow = none;
    builds = λ cell. rw (take_all n payload (omega arith)) refl;
    parses = λ pre post. rw (h, cell_slice_lem pre payload post) refl;
    assembles =
        assemble_lem p payload payload none
          (collect_done s page_size laws usable _ p _ payload none (omega arith));
  }
  stored p payload (n, true) u b room h =
      let a = s.allocate_page p in
      let local = take n payload in
      let tail = drop n payload in
      let left' : length tail ≡ length payload - n = length-drop n payload in
      let room_left =
        laws.room_less _ (length tail) (length payload) (laws.room_allocate p (length payload) room)
          (omega arith) in
      let len : length local ≡ n = omega (arith, length-take n payload) in
      let left : length tail ≡ length payload - n = length-drop n payload in
      let total : length local + length tail ≡ length payload = omega arith in
      record {
        body = local ++ be_bytes 4 a.0;
        store = spill s page_size usable (length tail) a.1 a.0 tail;
        local = local;
        overflow = some a.0;
        builds = λ cell.
            ap (λ t. (t, spill s page_size usable (length tail) a.1 a.0 tail))
              (append_assoc cell local (be_bytes 4 a.0));
        parses = λ pre post.
            chained_part_at pre local post a.0 n (laws.small p (length payload) room) len;
        assembles = assemble_lem _ payload local (some a.0) (
            ap
              (λ k.
                collect s page_size usable (length payload)
                  (spill s page_size usable (length tail) a.1 a.0 tail) k local (some a.0))
              (sym total)
            ∙ collect-spill s page_size laws usable (length tail) (length payload) a.1 a.0 local
                tail room_left (laws.taken p (length payload) room)
                (laws.number p (length payload) room) u b (omega arith) (omega arith) (omega arith)
            ∙ ap ok (take-append-drop n payload));
      }
