-- ===== src/Format/Record/Steps.antt =====
-- The rounds of the loop of `decode_record`, and that it ends on every input.
use rustqlite.Base.{
  ℕ, zero, suc, ◌-◌, ◌<◌, ◌≡◌, ◌≢◌, refl, List, [], ◌∷◌, ◌++◌, drop, arith, ltb, true, false,
  Bool-cases, Option-cases, inl, inr, ◌⊎◌, none, some, ltb→lt,
}
use rustqlite.Error.{Result, Error, ok, err}
use rustqlite.Format.TextEncoding.{TextEncoding}
use rustqlite.Format.Varint.{read_varint}
use rustqlite.Format.Varint.Reading.{read_varint_takes}
use rustqlite.Format.Record.{decode_field, decode_loop, decode_record}
use rustqlite.Types.Value.{Value, Unicode}

pub Result-cases {ℓ} :
    {A : Type ℓ} (r : Result A) → ((a : A) × (r ≡ ok a)) ⊎ ((e : Error) × (r ≡ err e))
Result-cases (ok a) = inl (a, refl)
Result-cases (err e) = inr (e, refl)

module _ (u : Unicode) where
  module _ (payload : List ℕ) (encoding : TextEncoding) (fuel end header_pos body_pos : ℕ)
      (acc : List Value) where
    pub loop_stops :
        ltb header_pos end ≡ false
        → decode_loop u (suc fuel) payload encoding end header_pos body_pos acc ≡ some (ok acc)
    unfolding decode_loop
    loop_stops stop = rw (stop, decode_loop) refl

    pub loop_fails :
        {e : Error}
        → ltb header_pos end ≡ true
        → decode_field u payload encoding header_pos body_pos ≡ err e
        → decode_loop u (suc fuel) payload encoding end header_pos body_pos acc ≡ some (err e)
    unfolding decode_loop
    loop_fails go field = rw (go, field, decode_loop) refl

    pub loop_steps :
        {header_pos' body_pos' : ℕ} {v : Value}
        → ltb header_pos end ≡ true
        → decode_field u payload encoding header_pos body_pos ≡ ok (header_pos', body_pos', v)
        → decode_loop u (suc fuel) payload encoding end header_pos body_pos acc
          ≡ decode_loop u fuel payload encoding end header_pos' body_pos' (acc ++ (v ∷ []))
    unfolding decode_loop
    loop_steps go field = rw (go, field, decode_loop) refl

  decode_field_grows :
      (payload : List ℕ) (encoding : TextEncoding) (header_pos body_pos header_pos' body_pos' : ℕ)
      (v : Value)
      → decode_field u payload encoding header_pos body_pos ≡ ok (header_pos', body_pos', v)
      → header_pos < header_pos'
  unfolding decode_field
  decode_field_grows payload encoding header_pos body_pos header_pos' body_pos' v e =
      elim (Option-cases (read_varint (drop header_pos payload))) [
        | inl r ↦ ground (arith, r)
        | inr ((c, k), r) ↦ ground (arith, read_varint_takes (drop header_pos payload) c k r)
      ]

  decode_loop-ne-none :
      (fuel : ℕ) (payload : List ℕ) (encoding : TextEncoding) (end header_pos body_pos : ℕ)
      (acc : List Value)
      → end - header_pos < fuel
      → decode_loop u fuel payload encoding end header_pos body_pos acc ≢ none
  decode_loop-ne-none zero payload encoding end header_pos body_pos acc h = absurd (omega arith)
  decode_loop-ne-none (suc fuel) payload encoding end header_pos body_pos acc h =
      elim (Bool-cases (ltb header_pos end)) [
        | inr stop ↦
            rw (loop_stops payload encoding fuel end header_pos body_pos acc stop) (λ p. cc)
        | inl go ↦ elim (Result-cases (decode_field u payload encoding header_pos body_pos)) [
          | inr (e, f) ↦
              rw (loop_fails payload encoding fuel end header_pos body_pos acc go f) (λ p. cc)
          | inl ((header_pos', body_pos', v), f) ↦
              let lt = ltb→lt header_pos end go in
              let grows =
                decode_field_grows payload encoding header_pos body_pos header_pos' body_pos' v f in
              rw (loop_steps payload encoding fuel end header_pos body_pos acc go f) (
                decode_loop-ne-none fuel payload encoding end header_pos' body_pos' _ (omega arith))
        ]
      ]

  -- `decode_record` returns on every input, well formed or not: the fuel of the model suffices.
  pub decode_record-ne-none :
      (payload : List ℕ) (encoding : TextEncoding) → decode_record u payload encoding ≢ none
  unfolding decode_record
  decode_record-ne-none payload encoding = elim (Option-cases (read_varint payload)) [
    | inl r ↦ rw (r, decode_record) (λ p. cc)
    | inr ((end, n), r) ↦
        ground (arith, r, decode_loop-ne-none (suc end) payload encoding end n end [])
  ]
