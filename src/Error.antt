-- ===== src/Error.antt =====
-- crates/rustsqlite-core/src/error.rs: result codes, the engine's error, and fallible results.
pub mod Code
pub mod Action
use Prim.Native.String.{String}
use Code.{ResultCode, code}
use rustqlite.Base.{ℕ, List, Bool, true, false, Option, none, some}

-- A message: a fixed text, or one into which `format!` writes numbers or a name.
pub data Message : Type 0 where
  plain : String → Message
  with_number : String → ℕ → Message
  with_numbers : String → List ℕ → Message
  with_name : String → List ℕ → Message

-- `Error`, and its constructors.
pub record Error : Type 0 where
  pub result : ResultCode
  pub extended_code : ℕ
  pub message : Message

unfoldable pub new : ResultCode → Message → Error
unfolding code
new c m = record { result = c; extended_code = code c; message = m }

unfoldable pub corrupt : Message → Error
unfolding new
corrupt = new ResultCode.corrupt

unfoldable pub not_a_db : Message → Error
unfolding new
not_a_db = new ResultCode.not_a_db

unfoldable pub cant_open : Message → Error
unfolding new
cant_open = new ResultCode.cant_open

unfoldable pub io_err : Message → Error
unfolding new
io_err = new ResultCode.io_err

unfoldable pub busy : Message → Error
unfolding new
busy = new ResultCode.busy

unfoldable pub msg : Message → Error
unfolding new
msg = new ResultCode.error

-- `Result<T>`.
pub data Result {ℓ} (T : Type ℓ) : Type ℓ where
  ok : T → Result T
  err : Error → Result T

-- `opt.ok_or_else(|| e)`.
abbrev pub ok_or {ℓ} : {T : Type ℓ} → Option T → Error → Result T
ok_or (some x) e = ok x
ok_or none e = err e

-- An early `return Err(e)` unless the test holds.
abbrev pub guard : Bool → Error → Result (Unit {0})
guard false error = err error
guard true error = ok tt

-- The operator `?`.
infixl 5 ◌>>=◌ ◌>>◌
abbrev pub ◌>>=◌ {ℓ ℓ'} : {T : Type ℓ} {U : Type ℓ'} → Result T → (T → Result U) → Result U
err error >>= next = err error
ok x >>= next = next x

abbrev pub ◌>>◌ {ℓ'} : {U : Type ℓ'} → Result (Unit {0}) → Result U → Result U
first >> next = first >>= λ u. next
