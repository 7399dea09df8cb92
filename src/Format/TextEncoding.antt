-- ===== src/Format/TextEncoding.antt =====
-- `TextEncoding` of crates/rustsqlite-core/src/format/header.rs, with its codes in the header.
use rustqlite.Base.{ℕ, ◌==◌, ◌≡◌, refl, if◌then◌else◌}

pub data TextEncoding : Type 0 where
  utf8 utf16_le utf16_be : TextEncoding

-- 0 and every unknown code are read as UTF-8.
unfoldable pub from_code : ℕ → TextEncoding
from_code c = if c == 2 then utf16_le else if c == 3 then utf16_be else utf8

unfoldable pub code : TextEncoding → ℕ
code utf8 = 1
code utf16_le = 2
code utf16_be = 3

pub from_code-code : (e : TextEncoding) → from_code (code e) ≡ e
unfolding from_code code
from_code-code utf8 = refl
from_code-code utf16_le = refl
from_code-code utf16_be = refl
