-- ===== src/Format/Varint/Groups.antt =====
-- The groups of seven bits of a number in plain arithmetic, and that both forms of
-- `write_varint` are such groups.
use rustqlite.Base.{ℕ, zero, suc, ◌+◌, ◌/◌, ◌%◌, ◌≡◌, refl, ap, ◌∙◌}
use rustqlite.Base.{List, ◌∷◌, length, arith, bit_and, bit_or, ◌==◌, Bool-cases, inl, inr}
use rustqlite.Base.Bits.{low7, set_top}
use rustqlite.Format.Varint.{group, fill_slots, tmp_loop, reversed_onto}

-- The `n` lowest groups of `v`, highest first and with the continuation bit, before `tail`.
unfoldable pub groups : ℕ → ℕ → List ℕ → List ℕ
groups zero v tail = tail
groups (suc n) v tail = groups n (v / 128) ((v % 128 + 128) ∷ tail)

pub group_lem : (v : ℕ) → group v ≡ v % 128 + 128
unfolding group
group_lem v =
    let low : bit_and (v % 256) 0x7f ≡ v % 128 = low7 (v % 256) (omega arith) ∙ (omega arith) in
    ap (λ (t : ℕ). bit_or t 0x80) low ∙ set_top (v % 128) (omega arith)

pub fill_slots_lem : (n v : ℕ) (tail : List ℕ) → fill_slots n v tail ≡ groups n v tail
unfolding fill_slots groups
fill_slots_lem zero v tail = refl
fill_slots_lem (suc n) v tail = rw (group_lem v) (fill_slots_lem n (v / 128) _)

pub reversed_tmp :
    (f v : ℕ) (tail : List ℕ)
    → reversed_onto (tmp_loop f v) tail ≡ groups (length (tmp_loop f v)) v tail
unfolding reversed_onto tmp_loop groups
reversed_tmp zero v tail = refl
reversed_tmp (suc f) v tail = elim (Bool-cases (v / 128 == 0)) [
  | inl done ↦ rw (done, group_lem v) refl
  | inr more ↦ rw (more, group_lem v) (reversed_tmp f (v / 128) _)
]
