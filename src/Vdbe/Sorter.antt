-- ===== src/Vdbe/Sorter.antt =====
-- crates/rustsqlite-core/src/vdbe/sorter.rs: the sorter of `ORDER BY`. `sort_by` of the standard
-- library is a parameter.
pub mod Keys
use rustqlite.Base.{
  ℕ, zero, suc, ◌+◌, List, [], ◌∷◌, ◌++◌, map, length, get_or, Bool, true, false, not, Option, none,
  some, ltb, if◌then◌else◌,
}
use rustqlite.Error.{Result, ok, err, ◌>>=◌, corrupt, Message}
use rustqlite.Types.Value.{Value, null, Unicode}
use rustqlite.Types.Collation.{Collation, Ordering, less, equal, greater, reverse}
use rustqlite.Format.TextEncoding.{TextEncoding}
use rustqlite.Format.Record.{decode_record}
use rustqlite.Vdbe.Compare.{Floats, mem_compare}

pub record KeyField : Type 0 where
  pub desc : Bool
  pub collation : Collation

pub record Sorter : Type 0 where
  pub keys : List KeyField
  pub encoding : TextEncoding
  pub records : List (List ℕ)
  pub pos : ℕ
  pub current : Option (List Value)

unfoldable pub new_sorter : List KeyField → TextEncoding → Sorter
new_sorter keys encoding = record {
  keys = keys;
  encoding = encoding;
  records = [];
  pos = 0;
  current = none;
}

unfoldable pub insert_record : List ℕ → Sorter → Sorter
insert_record rec s = record s { records = s.records ++ rec ∷ [] }

abbrev pub is_equal : Ordering → Bool
is_equal equal = true
is_equal _ = false

abbrev pub is_greater : Ordering → Bool
is_greater greater = true
is_greater _ = false

-- The values of two records are compared from a position on.
unfoldable pub compare_from : Floats → List Value → List Value → ℕ → List KeyField → Ordering
compare_from f a b i [] = equal
compare_from f a b i (key ∷ keys) =
    let ord = mem_compare f (get_or a i null) (get_or b i null) key.collation in
    let rest = compare_from f a b (suc i) keys in
    if not (is_equal ord) then if key.desc then reverse ord else ord else rest

unfoldable pub compare_keys : Floats → List Value → List Value → List KeyField → Ordering
compare_keys f a b keys = compare_from f a b 0 keys

abbrev pub Decoded : Type 0
Decoded = List Value × List ℕ

-- `decode_record` always ends with a result.
abbrev pub result_of {ℓ} : {A : Type ℓ} → Option (Result A) → Result A
result_of none = err (corrupt (Message.plain "record header length varint"))
result_of (some r) = r

abbrev pub record_order : Floats → List KeyField → Decoded → Decoded → Ordering
record_order f keys a b = compare_keys f a.0 b.0 keys

unfoldable pub is_valid : Sorter → Bool
is_valid s = ltb s.pos (length s.records)

-- `slice::sort_by`, on the records with their values.
abbrev pub SortBy : Type 0
SortBy = (Decoded → Decoded → Ordering) → List Decoded → List Decoded

-- The outcome of decoding. The records were taken out before, so that an error leaves none.
abbrev pub sorted_as : SortBy → Floats → Sorter → Result (List Decoded) → Sorter × Result Bool
sorted_as sort_by f s (err e) = (record s { records = [] }, err e)
sorted_as sort_by f s (ok decoded) =
    let records = map (λ d. d.1) (sort_by (record_order f s.keys) decoded) in
    (record s { records = records; pos = 0; current = none }, ok (ltb 0 (length records)))

abbrev pub loaded : Sorter → Result (List Value) → Sorter × Result (Unit {0})
loaded s (err e) = (s, err e)
loaded s (ok values) = (record s { current = some values }, ok tt)

module _ (u : Unicode) where
  unfoldable pub decode_all : TextEncoding → List (List ℕ) → Result (List Decoded)
  decode_all encoding [] = ok []
  decode_all encoding (rec ∷ records) = result_of (decode_record u rec encoding) >>= λ values.
      decode_all encoding records >>= λ decoded. ok ((values, rec) ∷ decoded)

  unfoldable pub sort : SortBy → Floats → Sorter → Sorter × Result Bool
  sort sort_by f s = sorted_as sort_by f s (decode_all s.encoding s.records)

  -- The cursor is on a record: `is_valid`.
  unfoldable pub load_data : Sorter → Sorter × Result (Unit {0})
  load_data s = loaded s (result_of (decode_record u (get_or s.records s.pos []) s.encoding))

unfoldable pub next_record : Sorter → Sorter
next_record s = record s { pos = s.pos + 1 }

abbrev pub column_of : Option (List Value) → ℕ → Value
column_of none i = null
column_of (some values) i = get_or values i null

unfoldable pub column : Sorter → ℕ → Value
column s i = column_of s.current i

unfoldable pub clear_records : Sorter → Sorter
clear_records s = record s { records = []; pos = 0; current = none }
