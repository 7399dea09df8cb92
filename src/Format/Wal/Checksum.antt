-- ===== src/Format/Wal/Checksum.antt =====
-- The running checksum: it extends over consecutive chunks, and no later data can
-- mend it.
use rustqlite.Base.{
  ℕ, ◌%◌, ◌^◌, ◌<◌, ◌≡◌, refl, ap, ◌∙◌, sym, List, [], ◌∷◌, ◌++◌, length, length-append, Bool,
  arith,
}
use rustqlite.Format.Wal.{read_u32, wr_add, checksum_loop, wal_checksum}

-- A list of whole pairs of words.
pub data Pairs : List ℕ → Type 0 where
  nil : Pairs []
  pair :
      (a b c d e f g h : ℕ) {rest : List ℕ}
      → Pairs rest
      → Pairs (a ∷ b ∷ c ∷ d ∷ e ∷ f ∷ g ∷ h ∷ rest)

pub whole-Pairs : (buf : List ℕ) → length buf % 8 ≡ 0 → Pairs buf
whole-Pairs (a ∷ b ∷ c ∷ d ∷ e ∷ f ∷ g ∷ h ∷ rest) l =
    pair a b c d e f g h (whole-Pairs rest (omega arith))
whole-Pairs [] l = nil
whole-Pairs (_ ∷ []) l = absurd (omega arith)
whole-Pairs (_ ∷ _ ∷ []) l = absurd (omega arith)
whole-Pairs (_ ∷ _ ∷ _ ∷ []) l = absurd (omega arith)
whole-Pairs (_ ∷ _ ∷ _ ∷ _ ∷ []) l = absurd (omega arith)
whole-Pairs (_ ∷ _ ∷ _ ∷ _ ∷ _ ∷ []) l = absurd (omega arith)
whole-Pairs (_ ∷ _ ∷ _ ∷ _ ∷ _ ∷ _ ∷ []) l = absurd (omega arith)
whole-Pairs (_ ∷ _ ∷ _ ∷ _ ∷ _ ∷ _ ∷ _ ∷ []) l = absurd (omega arith)

pub loop-append :
    {xs : List ℕ}
    → Pairs xs
    → (ys : List ℕ) (big : Bool) (s0 s1 : ℕ)
    → checksum_loop (xs ++ ys) big s0 s1
      ≡ checksum_loop ys big (checksum_loop xs big s0 s1).0 (checksum_loop xs big s0 s1).1
unfolding checksum_loop
loop-append nil ys big s0 s1 = refl
loop-append (pair a b c d e f g h rest) ys big s0 s1 = loop-append rest ys big _ _

abbrev pub IsU32 : ℕ × ℕ → Type 0
IsU32 s = (s.0 < 2 ^ 32) × (s.1 < 2 ^ 32)

-- One round, from the two words.
abbrev pub round : ℕ × ℕ → ℕ × ℕ → ℕ × ℕ
round x s = let s0' = wr_add (wr_add s.0 x.0) s.1 in (s0', wr_add (wr_add s.1 x.1) s0')

pub wr_add-lt : (a b : ℕ) → wr_add a b < 2 ^ 32
unfolding wr_add
wr_add-lt a b = omega arith

wr_add_cancel : (a b x : ℕ) → a < 2 ^ 32 → b < 2 ^ 32 → wr_add a x ≡ wr_add b x → a ≡ b
unfolding wr_add
wr_add_cancel a b x h k e = omega arith

wr_add_comm : (a b : ℕ) → wr_add a b ≡ wr_add b a
unfolding wr_add
wr_add_comm a b = omega arith

pub round-IsU32 : (x s : ℕ × ℕ) → IsU32 (round x s)
round-IsU32 x s = (wr_add-lt _ _, wr_add-lt _ _)

-- A round over the same words tells running sums apart, and over different words from the same
-- sums it gives different ones.
round_injective : (x s t : ℕ × ℕ) → IsU32 s → IsU32 t → round x s ≡ round x t → s ≡ t
round_injective x s t hs ht e =
    let r : ℕ = (round x t).0 in
    let first : (round x s).0 ≡ r = ap (λ p. p.0) e in
    let second : wr_add (wr_add s.1 x.1) r ≡ wr_add (wr_add t.1 x.1) r =
      ap (λ q. wr_add (wr_add s.1 x.1) q) (sym first) ∙ ap (λ p. p.1) e in
    let high : s.1 ≡ t.1 =
      wr_add_cancel s.1 t.1 x.1 hs.1 ht.1
        (wr_add_cancel _ _ r (wr_add-lt s.1 x.1) (wr_add-lt t.1 x.1) second) in
    let low : s.0 ≡ t.0 = wr_add_cancel s.0 t.0 x.0 hs.0 ht.0 (
      wr_add_cancel _ _ t.1 (wr_add-lt s.0 x.0) (wr_add-lt t.0 x.0)
        (ap (λ q. wr_add (wr_add s.0 x.0) q) (sym high) ∙ first)) in
    λ i. (low i, high i)

pub round_words : (x y s : ℕ × ℕ) → IsU32 x → IsU32 y → round x s ≡ round y s → x ≡ y
round_words x y s hx hy e =
    let r : ℕ = (round y s).0 in
    let first : (round x s).0 ≡ r = ap (λ p. p.0) e in
    let second : wr_add (wr_add s.1 x.1) r ≡ wr_add (wr_add s.1 y.1) r =
      ap (λ q. wr_add (wr_add s.1 x.1) q) (sym first) ∙ ap (λ p. p.1) e in
    let swapped = λ (a b : ℕ). wr_add_comm a b in
    let high : x.1 ≡ y.1 = wr_add_cancel x.1 y.1 s.1 hx.1 hy.1 (
      wr_add_comm x.1 s.1
      ∙ wr_add_cancel _ _ r (wr_add-lt s.1 x.1) (wr_add-lt s.1 y.1) second
      ∙ wr_add_comm s.1 y.1) in
    let low : x.0 ≡ y.0 = wr_add_cancel x.0 y.0 s.0 hx.0 hy.0 (
      wr_add_comm x.0 s.0
      ∙ wr_add_cancel _ _ s.1 (wr_add-lt s.0 x.0) (wr_add-lt s.0 y.0) first
      ∙ wr_add_comm s.0 y.0) in
    λ i. (low i, high i)

pub loop-IsU32 :
    {xs : List ℕ}
    → Pairs xs
    → (big : Bool) (s : ℕ × ℕ) → IsU32 s
    → IsU32 (checksum_loop xs big s.0 s.1)
unfolding checksum_loop
loop-IsU32 nil big s h = h
loop-IsU32 (pair a b c d e f g h rest) big s u =
    loop-IsU32 rest big _
      (round-IsU32 (read_u32 (a ∷ b ∷ c ∷ d ∷ []) big, read_u32 (e ∷ f ∷ g ∷ h ∷ []) big) s)

pub loop_injective :
    {xs : List ℕ}
    → Pairs xs
    → (big : Bool) (s t : ℕ × ℕ) → IsU32 s
    → IsU32 t
    → checksum_loop xs big s.0 s.1 ≡ checksum_loop xs big t.0 t.1
    → s ≡ t
unfolding checksum_loop
loop_injective nil big s t hs ht e = e
loop_injective (pair a b c d e f g h rest) big s t hs ht same =
    let x : ℕ × ℕ = (read_u32 (a ∷ b ∷ c ∷ d ∷ []) big, read_u32 (e ∷ f ∷ g ∷ h ∷ []) big) in
    round_injective x s t hs ht
      (loop_injective rest big (round x s) (round x t) (round-IsU32 x s) (round-IsU32 x t) same)

-- The checksum of two chunks of whole pairs of words is that of the second from the sums of the
-- first.
pub wal_checksum-append :
    (xs ys : List ℕ) (big : Bool) (s0 s1 : ℕ)
    → length xs % 8 ≡ 0
    → length ys % 8 ≡ 0
    → wal_checksum (xs ++ ys) big s0 s1
      ≡ wal_checksum ys big (checksum_loop xs big s0 s1).0 (checksum_loop xs big s0 s1).1
unfolding wal_checksum
wal_checksum-append xs ys big s0 s1 hx hy =
    ground (arith, length-append xs ys, loop-append (whole-Pairs xs hx) ys big s0 s1)
