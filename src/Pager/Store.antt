-- ===== src/Pager/Store.antt =====
-- The pager is a store of pages for the b-tree code, while pages are allocated behind the last one.
pub mod Cells
use rustqlite.Base.{
  ℕ, zero, suc, ◌+◌, ◌-◌, ◌*◌, ◌^◌, ◌≤◌, ◌<◌, ◌≡◌, ◌≢◌, inl, inr, refl, ap, sym, ◌∙◌, List, length,
  replicate, Bool, true, false, not, ◌||◌, Option, none, some, ltb, ◌==◌, if◌then◌else◌, arith,
  Bool-cases,
}
use rustqlite.Base.Map.{lookup, insert, lookup-insert}
use rustqlite.Error.{Result, ok}
use rustqlite.Btree.PageStore.{PageStore, IsStore}
use rustqlite.Pager.State.{PagerState, Pager, overlay, or_else, with_state}
use rustqlite.Pager.Pages.{fetch_page, cached_or, get_page, write_page}
use rustqlite.Pager.Freelist.{set_dirty, extend, zero_page}
use rustqlite.Pager.Freelist.Extend.{
  is_skipped, vacuums, grown, extend_takes, extend_skips, extend_ends,
}
use rustqlite.Pager.Transaction.{read_of}

abbrev pub pager_store : PageStore Pager
pager_store = record {
  allocate_page = extend 3;
  write_page = λ p n b. (write_page n b p).0;
  get_page = λ p n. (get_page n p).1;
}

-- A page behind the last one is free; there is room while three pages for every one that is asked
-- for have numbers.
abbrev HasRoom : ℕ → Pager → ℕ → Type 0
HasRoom page_size p n =
    (p.page_size ≡ page_size) × (480 ≤ p.usable_size) × (p.state.page_count + 3 * n < 2 ^ 32)

abbrev Bounded : ℕ → Pager → Pager → Type 0
Bounded fuel p q =
    (q.page_size ≡ p.page_size)
    × (q.usable_size ≡ p.usable_size)
    × (p.state.page_count ≤ q.state.page_count)
    × (q.state.page_count ≤ p.state.page_count + fuel)

extend-Bounded : (fuel : ℕ) (p : Pager) → Bounded fuel p (extend fuel p).1
unfolding extend
extend-Bounded zero p = (refl, refl, omega arith, omega arith)
extend-Bounded (suc fuel) p =
    let h = extend-Bounded fuel (grown p) in
    elim (Bool-cases (is_skipped p.usable_size (vacuums p) (p.state.page_count + 1))) [
      | inl skipped ↦ rw (extend_skips fuel p skipped) (h.0, h.1, omega arith, omega arith)
      | inr free ↦ rw (extend_takes fuel p free) (refl, refl, omega arith, omega arith)
    ]

-- A page that a change of another leaves alone.
overlay-set_dirty :
    (p : Pager) (n m : ℕ) (b : List ℕ)
    → n ≢ m
    → overlay (set_dirty n b p).state m ≡ overlay p.state m
unfolding overlay
overlay-set_dirty p n m b d =
    let other : (m == n) ≡ false = ground (arith, d) in
    ap (λ o. or_else o (lookup m p.state.cache)) (lookup-insert n b p.state.dirty m ∙ rw other refl)

-- What is read does not depend on what is cached.
cached_or_same :
    (o : Option (List ℕ)) (m : ℕ) (f : PagerState → PagerState) (p : Pager)
    → (cached_or o m (with_state f p)).1 ≡ (cached_or o m p).1
unfolding fetch_page
cached_or_same (some page) m f p = refl
cached_or_same none m f p =
    elim (Bool-cases (ltb (read_of p.disk.database p.page_size m).0 p.page_size)) [
      | inl short ↦ rw short refl
      | inr whole ↦ rw whole refl
    ]

get_page-set_dirty :
    (p : Pager) (n m : ℕ) (b : List ℕ) → n ≢ m → (get_page m (set_dirty n b p)).1 ≡ (get_page m p).1
unfolding get_page
get_page-set_dirty p n m b d = elim (Bool-cases (m == 0 || ltb p.state.page_count m)) [
  | inl out ↦ rw out refl
  | inr within ↦
      rw (within, overlay-set_dirty p n m b d)
        (cached_or_same (overlay p.state m) m (λ st. record st { dirty = insert n b st.dirty }) p)
]

get_page-counted :
    (p : Pager) (m : ℕ)
    → ¬ (p.state.page_count < m)
    → m ≢ 0
    → (get_page m (with_state (λ st. record st { page_count = p.state.page_count + 1 }) p)).1
      ≡ (get_page m p).1
unfolding get_page overlay
get_page-counted p m taken nz =
    let before : (m == 0 || ltb p.state.page_count m) ≡ false = ground (arith, taken, nz) in
    let after : (m == 0 || ltb (p.state.page_count + 1) m) ≡ false = ground (arith, taken, nz) in
    rw (before, after)
      (cached_or_same (overlay p.state m) m
        (λ st. record st { page_count = p.state.page_count + 1 }) p)

get_page-grown :
    (p : Pager) (m : ℕ)
    → ¬ (p.state.page_count < m)
    → m ≢ 0
    → (get_page m (grown p)).1 ≡ (get_page m p).1
get_page-grown p m taken nz =
    get_page-set_dirty (with_state (λ st. record st { page_count = p.state.page_count + 1 }) p)
      (p.state.page_count + 1) m (replicate p.page_size 0) (λ e. taken (omega (arith, e)))
    ∙ get_page-counted p m taken nz

extend_zero : (p : Pager) (m : ℕ) → (get_page m (extend 0 p).1).1 ≡ (get_page m p).1
unfolding extend
extend_zero p m = refl

get_page-extend :
    (fuel : ℕ) (p : Pager) (m : ℕ)
    → ¬ (p.state.page_count < m)
    → m ≢ 0
    → (get_page m (extend fuel p).1).1 ≡ (get_page m p).1
get_page-extend zero p m taken nz = extend_zero p m
get_page-extend (suc fuel) p m taken nz =
    elim (Bool-cases (is_skipped p.usable_size (vacuums p) (p.state.page_count + 1))) [
      | inl skipped ↦ rw (extend_skips fuel p skipped) (
          get_page-extend fuel (grown p) m (λ h. taken (omega (arith, h))) nz
          ∙ get_page-grown p m taken nz)
      | inr free ↦ rw (extend_takes fuel p free) (get_page-grown p m taken nz)
    ]

write_page_count : (p : Pager) (n : ℕ) (b : List ℕ) → Bounded 0 p (write_page n b p).0
unfolding write_page
write_page_count p n b = elim (Bool-cases (length b == p.page_size)) [
  | inl fits ↦ rw fits (refl, refl, omega arith, omega arith)
  | inr not_fits ↦ rw not_fits (refl, refl, omega arith, omega arith)
]

get_written :
    (p : Pager) (n : ℕ) (b : List ℕ)
    → ¬ (p.state.page_count < n)
    → n ≢ 0
    → length b ≡ p.page_size
    → (get_page n (write_page n b p).0).1 ≡ ok b
unfolding get_page write_page overlay
get_written p n b taken nz len =
    let fits : (length b == p.page_size) ≡ true = ground (arith, len) in
    let within : (n == 0 || ltb p.state.page_count n) ≡ false = ground (arith, taken, nz) in
    let here : (n == n) ≡ true = ground arith in
    rw (fits, within, lookup-insert n b p.state.dirty n, here) refl

get_other :
    (p : Pager) (n m : ℕ) (b : List ℕ)
    → n ≢ m
    → (get_page m (write_page n b p).0).1 ≡ (get_page m p).1
unfolding write_page
get_other p n m b d = elim (Bool-cases (length b == p.page_size)) [
  | inl fits ↦ rw fits (get_page-set_dirty p n m b d)
  | inr not_fits ↦ rw not_fits refl
]

-- The pager satisfies what the b-tree code relies on.
pub pager_laws : (page_size : ℕ) → IsStore pager_store page_size
pager_laws page_size = record {
  IsFree = λ p n. p.state.page_count < n;
  Room = HasRoom page_size;
  room_less = λ p m n r le. (r.0, r.1, omega (arith, r.2, le));
  room_allocate = λ p n r.
      let b = extend-Bounded 3 p in (b.0 ∙ r.0, omega (arith, b.1, r.1), omega (arith, b.3, r.2));
  room_write = λ p n m b r.
      let k = write_page_count p m b in
      (k.0 ∙ r.0, omega (arith, k.1, r.1), omega (arith, k.3, r.2));
  number = λ p n r e. omega (arith, (extend_ends p r.1 (omega (arith, r.2))).0, e);
  small = λ p n r.
      omega (arith, (extend_ends p r.1 (omega (arith, r.2))).1, (extend-Bounded 3 p).3, r.2);
  was_free = λ p n r. (extend_ends p r.1 (omega (arith, r.2))).0;
  taken = λ p n r h. omega (arith, (extend_ends p r.1 (omega (arith, r.2))).1, h);
  allocate_keeps = λ p n h. omega (arith, (extend-Bounded 3 p).2, h);
  write_keeps = λ p n m b h. omega (arith, (write_page_count p n b).2, h);
  get_written = λ p n k b r f nz len. get_written p n b f nz (len ∙ sym r.0);
  get_other = get_other;
  get_allocated = λ p m f nz. get_page-extend 3 p m f nz;
}
