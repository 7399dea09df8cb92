-- ===== src/Btree/PageStore.antt =====
-- What the b-tree code asks of the pager (crates/rustsqlite-core/src/pager/mod.rs).
use rustqlite.Base.{ℕ, suc, ◌≤◌, ◌<◌, ◌^◌, ◌≡◌, ◌≢◌, List, length}
use rustqlite.Error.{Result, ok}

-- `allocate_page`, `write_page` and `get_page` on a store of pages.
pub record PageStore (P : Type 0) : Type 0 where
  pub allocate_page : P → ℕ × P
  pub write_page : P → ℕ → List ℕ → P
  pub get_page : P → ℕ → Result (List ℕ)

-- A page that is allocated while there is room was free and is not free any more; a taken page
-- reads as it was last written, with a whole page, and writing or allocating another one does not change it.
pub record IsStore {P : Type 0} (s : PageStore P) (page_size : ℕ) : Type 1 where
  pub IsFree : P → ℕ → Type 0
  -- The store is in order, and at least so many pages can still be allocated.
  pub Room : P → ℕ → Type 0
  pub room_less : (p : P) (m n : ℕ) → Room p n → m ≤ n → Room p m
  pub room_allocate : (p : P) (n : ℕ) → Room p (suc n) → Room (s.allocate_page p).1 n
  pub room_write : (p : P) (n m : ℕ) (b : List ℕ) → Room p n → Room (s.write_page p m b) n
  pub number : (p : P) (n : ℕ) → Room p (suc n) → (s.allocate_page p).0 ≢ 0
  pub small : (p : P) (n : ℕ) → Room p (suc n) → (s.allocate_page p).0 < 2 ^ 32
  pub was_free : (p : P) (n : ℕ) → Room p (suc n) → IsFree p (s.allocate_page p).0
  pub taken :
      (p : P) (n : ℕ) → Room p (suc n) → ¬ IsFree (s.allocate_page p).1 (s.allocate_page p).0
  pub allocate_keeps : (p : P) (n : ℕ) → IsFree (s.allocate_page p).1 n → IsFree p n
  pub write_keeps : (p : P) (n m : ℕ) (b : List ℕ) → IsFree (s.write_page p n b) m → IsFree p m
  pub get_written :
      (p : P) (n k : ℕ) (b : List ℕ)
      → Room p k
      → ¬ IsFree p n
      → n ≢ 0
      → length b ≡ page_size
      → s.get_page (s.write_page p n b) n ≡ ok b
  pub get_other :
      (p : P) (n m : ℕ) (b : List ℕ) → n ≢ m → s.get_page (s.write_page p n b) m ≡ s.get_page p m
  pub get_allocated :
      (p : P) (m : ℕ) → ¬ IsFree p m → m ≢ 0 → s.get_page (s.allocate_page p).1 m ≡ s.get_page p m
