-- ===== src/Format/Wal/Detection.antt =====
-- Which corruptions of a log the running checksum detects.
use rustqlite.Base.{
  ℕ, ◌+◌, ◌%◌, ◌^◌, ◌<◌, ◌≡◌, ◌≢◌, refl, ap, ◌∙◌, sym, List, [], ◌∷◌, ◌++◌, length, length-append,
  Bool, true, false, arith,
}
use rustqlite.Base.Bytes.{All, IsByte, slice}
use rustqlite.Format.Wal.{read_u32, checksum_loop, wal_checksum}
use rustqlite.Format.Wal.Checksum.{
  IsU32, round, whole-Pairs, loop-append, round-IsU32, round_words, loop-IsU32, loop_injective,
}

-- Equal words are equal bytes, in both byte orders.
read_u32_injective :
    (a b c d e f g h : ℕ) (big : Bool)
    → All IsByte (a ∷ b ∷ c ∷ d ∷ [])
    → All IsByte (e ∷ f ∷ g ∷ h ∷ [])
    → read_u32 (a ∷ b ∷ c ∷ d ∷ []) big ≡ read_u32 (e ∷ f ∷ g ∷ h ∷ []) big
    → (a ≡ e) × (b ≡ f) × (c ≡ g) × (d ≡ h)
unfolding read_u32
read_u32_injective a b c d e f g h true x y p = omega arith
read_u32_injective a b c d e f g h false x y p = omega arith

read_u32-lt :
    (a b c d : ℕ) (big : Bool)
    → All IsByte (a ∷ b ∷ c ∷ d ∷ [])
    → read_u32 (a ∷ b ∷ c ∷ d ∷ []) big < 2 ^ 32
unfolding read_u32
read_u32-lt a b c d true x = omega arith
read_u32-lt a b c d false x = omega arith

first_four :
    {a b c d : ℕ} (rest : List ℕ)
    → All IsByte (a ∷ b ∷ c ∷ d ∷ rest)
    → All IsByte (a ∷ b ∷ c ∷ d ∷ [])
first_four rest x = (x.0, (x.1.0, (x.1.1.0, (x.1.1.1.0, tt))))

-- A block of eight bytes.
data Block : List ℕ → Type 0 where
  block : (a b c d e f g h : ℕ) → Block (a ∷ b ∷ c ∷ d ∷ e ∷ f ∷ g ∷ h ∷ [])

to_block : (xs : List ℕ) → length xs ≡ 8 → Block xs
to_block (a ∷ b ∷ c ∷ d ∷ e ∷ f ∷ g ∷ h ∷ []) l = block a b c d e f g h
to_block _ l = absurd (omega arith)

abbrev words : Bool → List ℕ → ℕ × ℕ
words big xs = (read_u32 (slice 0 4 xs) big, read_u32 (slice 4 8 xs) big)

loop-Block :
    {xs : List ℕ}
    → Block xs
    → (big : Bool) (ys : List ℕ) (s : ℕ × ℕ)
    → checksum_loop (xs ++ ys) big s.0 s.1
      ≡ checksum_loop ys big (round (words big xs) s).0 (round (words big xs) s).1
unfolding checksum_loop
loop-Block (block a b c d e f g h) big ys s = refl

words-IsU32 : {xs : List ℕ} → Block xs → (big : Bool) → All IsByte xs → IsU32 (words big xs)
words-IsU32 (block a b c d e f g h) big x =
    (read_u32-lt a b c d big (first_four (e ∷ f ∷ g ∷ h ∷ []) x), read_u32-lt e f g h big x.1.1.1.1)

words_injective :
    {xs ys : List ℕ}
    → Block xs
    → Block ys
    → (big : Bool) → All IsByte xs
    → All IsByte ys
    → words big xs ≡ words big ys
    → xs ≡ ys
words_injective (block a b c d e f g h) (block a' b' c' d' e' f' g' h') big x y p =
    let (pa, pb, pc, pd) =
      read_u32_injective a b c d a' b' c' d' big (first_four (e ∷ f ∷ g ∷ h ∷ []) x)
        (first_four (e' ∷ f' ∷ g' ∷ h' ∷ []) y) (ap (λ q. q.0) p) in
    let (pe, pf, pg, ph) =
      read_u32_injective e f g h e' f' g' h' big x.1.1.1.1 y.1.1.1.1 (ap (λ q. q.1) p) in
    cc

equal_loops :
    (xs ys : List ℕ) (big : Bool) (s0 s1 : ℕ)
    → length xs % 8 ≡ 0
    → length ys % 8 ≡ 0
    → wal_checksum xs big s0 s1 ≡ wal_checksum ys big s0 s1
    → checksum_loop xs big s0 s1 ≡ checksum_loop ys big s0 s1
unfolding wal_checksum
equal_loops xs ys big s0 s1 hx hy e = ground arith

-- With the same data before and behind, equal checksums mean equal blocks.
equal_checksums :
    (front back xs ys : List ℕ) (big : Bool) (s0 s1 : ℕ)
    → s0 < 2 ^ 32
    → s1 < 2 ^ 32
    → length front % 8 ≡ 0
    → length back % 8 ≡ 0
    → length xs ≡ 8
    → length ys ≡ 8
    → All IsByte xs
    → All IsByte ys
    → wal_checksum (front ++ (xs ++ back)) big s0 s1
      ≡ wal_checksum (front ++ (ys ++ back)) big s0 s1
    → xs ≡ ys
equal_checksums front back xs ys big s0 s1 h0 h1 hf hb hx hy bx by same =
    let s : ℕ × ℕ = checksum_loop front big s0 s1 in
    let us : IsU32 s = loop-IsU32 (whole-Pairs front hf) big (s0, s1) (h0, h1) in
    let vx = to_block xs hx in
    let vy = to_block ys hy in
    let lx =
      length-append front (xs ++ back) ∙ ap (λ (t : ℕ). length front + t) (length-append xs back) in
    let ly =
      length-append front (ys ++ back) ∙ ap (λ (t : ℕ). length front + t) (length-append ys back) in
    let run = λ (zs : List ℕ) (v : Block zs).
      loop-append (whole-Pairs front hf) (zs ++ back) big s0 s1 ∙ loop-Block v big back s in
    let loops =
      sym (run xs vx) ∙ equal_loops _ _ big s0 s1 (omega arith) (omega arith) same ∙ run ys vy in
    let rounds =
      loop_injective (whole-Pairs back hb) big (round (words big xs) s) (round (words big ys) s)
        (round-IsU32 _ s) (round-IsU32 _ s) loops in
    words_injective vx vy big bx by (
      round_words (words big xs) (words big ys) s (words-IsU32 vx big bx) (words-IsU32 vy big by)
        rounds)

-- A corruption that stays within one aligned block of eight bytes is always detected: with the same
-- running sums at the start and the same whole pairs of words before and behind, different blocks
-- have different checksums, in both byte orders.
pub wal_checksum_detects :
    (front back xs ys : List ℕ) (big : Bool) (s0 s1 : ℕ)
    → s0 < 2 ^ 32
    → s1 < 2 ^ 32
    → length front % 8 ≡ 0
    → length back % 8 ≡ 0
    → length xs ≡ 8
    → length ys ≡ 8
    → All IsByte xs
    → All IsByte ys
    → xs ≢ ys
    → wal_checksum (front ++ (xs ++ back)) big s0 s1
      ≢ wal_checksum (front ++ (ys ++ back)) big s0 s1
wal_checksum_detects front back xs ys big s0 s1 h0 h1 hf hb hx hy bx by differ same =
    differ (equal_checksums front back xs ys big s0 s1 h0 h1 hf hb hx hy bx by same)
