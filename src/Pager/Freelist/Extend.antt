-- ===== src/Pager/Freelist/Extend.antt =====
-- The loop of `allocate_page` behind the last page ends at a page that is not reserved.
use rustqlite.Base.{
  ℕ, suc, ◌+◌, ◌-◌, ◌*◌, ◌/◌, ◌^◌, ◌≤◌, ◌<◌, ◌≡◌, ◌⊎◌, inl, inr, refl, ap, ◌∙◌, Bool, true, false,
  not, ◌||◌, ◌&&◌, leb, ◌==◌, arith, Bool-cases,
}
use rustqlite.Pager.State.{Pager, with_state}
use rustqlite.Pager.Freelist.{extend, zero_page}
use rustqlite.Btree.Ptrmap.{
  pending_byte_page, is_pending_byte_page, pages_per_map_page, ptrmap_pageno, is_ptrmap_page,
}

-- The pages that the loop skips: the pending-byte page, and, with auto-vacuum, pointer-map pages.
unfoldable pub is_skipped : ℕ → Bool → ℕ → Bool
is_skipped usable vacuum n = is_pending_byte_page usable n || (vacuum && is_ptrmap_page usable n)

abbrev pending : ℕ
pending = 262_145

-- A multiple of the distance, two pages on.
abbrev IsBase : ℕ → ℕ → Type 0
IsBase npp n = (q : ℕ) × (q * npp + 2 ≡ n)

abbrev Skipped : ℕ → ℕ → Type 0
Skipped npp n = (n ≡ pending) ⊎ IsBase npp n ⊎ (IsBase npp pending × (n ≡ pending + 1))

is_ptrmap_page_form :
    (usable n : ℕ)
    → is_ptrmap_page usable n ≡ true
    → IsBase (pages_per_map_page usable) n
      ⊎ (IsBase (pages_per_map_page usable) pending × (n ≡ pending + 1))
unfolding is_ptrmap_page ptrmap_pageno pending_byte_page
is_ptrmap_page_form usable n h =
    let npp : ℕ = pages_per_map_page usable in
    let q : ℕ = (n - 2) / npp in
    elim (Bool-cases (q * npp + 2 == pending)) [
      | inl bumped ↦ inr ((q, ground (arith, bumped)), ground (arith, h, bumped))
      | inr plain ↦ inl (q, ground (arith, h, plain))
    ]

-- Two bases are further apart than two pages.
bases_apart : (npp m n : ℕ) → 3 ≤ npp → IsBase npp m → IsBase npp n → m < n → n ≤ m + 2 → ⊥
bases_apart npp m n wide (q, e) (r, f) less near = elim (Bool-cases (leb r q)) [
  | inl le ↦
      let s : r + (q - r) ≡ q = ground (arith, le) in omega (arith, ap (λ (t : ℕ). t * npp) s)
  | inr more ↦
      let s : q + 1 + (r - q - 1) ≡ r = ground (arith, more) in
      omega (arith, ap (λ (t : ℕ). t * npp) s)
]

three-Skipped :
    (npp c : ℕ) → 3 ≤ npp → Skipped npp (c + 1) → Skipped npp (c + 2) → Skipped npp (c + 3) → ⊥
three-Skipped npp c w (inl a) (inl b) s = omega arith
three-Skipped npp c w (inl a) (inr (inl b)) (inl d) = omega arith
three-Skipped npp c w (inl a) (inr (inl b)) (inr (inl d)) =
    bases_apart npp (c + 2) (c + 3) w b d (omega arith) (omega arith)
three-Skipped npp c w (inl a) (inr (inl b)) (inr (inr (e, f))) = omega arith
three-Skipped npp c w (inl a) (inr (inr (e, f))) (inl d) = omega arith
three-Skipped npp c w (inl a) (inr (inr (e, f))) (inr (inl d)) =
    bases_apart npp pending (c + 3) w e d (omega arith) (omega arith)
three-Skipped npp c w (inl a) (inr (inr (e, f))) (inr (inr (g, h))) = omega arith
three-Skipped npp c w (inr (inl b)) (inl a) (inl d) = omega arith
three-Skipped npp c w (inr (inl b)) (inl a) (inr (inl d)) =
    bases_apart npp (c + 1) (c + 3) w b d (omega arith) (omega arith)
three-Skipped npp c w (inr (inl b)) (inl a) (inr (inr (e, f))) =
    bases_apart npp (c + 1) pending w b e (omega arith) (omega arith)
three-Skipped npp c w (inr (inl b)) (inr (inl d)) s =
    bases_apart npp (c + 1) (c + 2) w b d (omega arith) (omega arith)
three-Skipped npp c w (inr (inl b)) (inr (inr (e, f))) (inl d) = omega arith
three-Skipped npp c w (inr (inl b)) (inr (inr (e, f))) (inr (inl d)) =
    bases_apart npp (c + 1) (c + 3) w b d (omega arith) (omega arith)
three-Skipped npp c w (inr (inl b)) (inr (inr (e, f))) (inr (inr (g, h))) = omega arith
three-Skipped npp c w (inr (inr (e, f))) (inl a) s = omega arith
three-Skipped npp c w (inr (inr (e, f))) (inr (inl d)) s =
    bases_apart npp pending (c + 2) w e d (omega arith) (omega arith)
three-Skipped npp c w (inr (inr (e, f))) (inr (inr (g, h))) s = omega arith

is_skipped_form :
    (usable : ℕ) (vacuum : Bool) (n : ℕ)
    → is_skipped usable vacuum n ≡ true
    → Skipped (pages_per_map_page usable) n
unfolding is_skipped is_pending_byte_page pending_byte_page
is_skipped_form usable vacuum n h = elim (Bool-cases (n == pending)) [
  | inl here ↦ inl (ground (arith, here))
  | inr other ↦ inr (is_ptrmap_page_form usable n (ground (arith, h, other)))
]

-- What `extend` does with a page that it takes, and with one that it skips.
abbrev pub vacuums : Pager → Bool
vacuums p = not (p.state.header.largest_root_page == 0)

abbrev pub grown : Pager → Pager
grown p =
    zero_page (p.state.page_count + 1)
      (with_state (λ st. record st { page_count = p.state.page_count + 1 }) p)

pub extend_takes :
    (fuel : ℕ) (p : Pager)
    → is_skipped p.usable_size (vacuums p) (p.state.page_count + 1) ≡ false
    → extend (suc fuel) p ≡ (p.state.page_count + 1, grown p)
unfolding extend is_skipped
extend_takes fuel p free = rw free refl

pub extend_skips :
    (fuel : ℕ) (p : Pager)
    → is_skipped p.usable_size (vacuums p) (p.state.page_count + 1) ≡ true
    → extend (suc fuel) p ≡ extend fuel (grown p)
unfolding extend is_skipped
extend_skips fuel p skipped = rw skipped refl

-- A page behind the last one, of which the count is taken, and which is not reserved.
abbrev pub IsFresh : Pager → ℕ × Pager → Type 0
IsFresh p r =
    (p.state.page_count < r.0)
    × (r.1.state.page_count ≡ r.0)
    × (is_skipped p.usable_size (vacuums p) r.0 ≡ false)
    × (r.0 < 2 ^ 32)

-- While three more pages can be counted in a `u32`, the loop takes one of the next three: a fuel of
-- three is enough. The page it ends at is behind the last one and can be counted, and it is neither
-- page 262145, which the code takes for the one of the pending byte whatever the page size, nor, with
-- auto-vacuum, a pointer-map page.
pub extend_ends :
    (p : Pager) → 480 ≤ p.usable_size → p.state.page_count + 3 < 2 ^ 32 → IsFresh p (extend 3 p)
unfolding pages_per_map_page
extend_ends p usable room =
    let c : ℕ = p.state.page_count in
    let npp : ℕ = pages_per_map_page p.usable_size in
    let wide : 3 ≤ npp = omega arith in
    let two = grown p in
    let three = grown two in
    elim (Bool-cases (is_skipped p.usable_size (vacuums p) (c + 1))) [
      | inr first ↦ rw (extend_takes 2 p first) (omega arith, refl, first, omega arith)
      | inl no_first ↦ elim (Bool-cases (is_skipped p.usable_size (vacuums p) (c + 1 + 1))) [
        | inr second ↦
            rw (extend_skips 2 p no_first, extend_takes 1 two second)
              (omega arith, refl, second, omega arith)
        | inl no_second ↦ elim (Bool-cases (is_skipped p.usable_size (vacuums p) (c + 1 + 1 + 1))) [
          | inr third ↦
              rw
                (
                  extend_skips 2 p no_first,
                  extend_skips 1 two no_second,
                  extend_takes 0 three third,
                )
                (omega arith, refl, third, omega arith)
          | inl no_third ↦ absurd (
              three-Skipped npp c wide (is_skipped_form p.usable_size (vacuums p) (c + 1) no_first)
                (is_skipped_form p.usable_size (vacuums p) (c + 2)
                  (ap (is_skipped p.usable_size (vacuums p)) e2 ∙ no_second))
                (is_skipped_form p.usable_size (vacuums p) (c + 3)
                  (ap (is_skipped p.usable_size (vacuums p)) e3 ∙ no_third)))
        ]
      ]
    ]
  where
    e2 : p.state.page_count + 2 ≡ p.state.page_count + 1 + 1
    e2 = omega arith

    e3 : p.state.page_count + 3 ≡ p.state.page_count + 1 + 1 + 1
    e3 = omega arith
