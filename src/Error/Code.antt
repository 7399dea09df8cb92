-- ===== src/Error/Code.antt =====
-- The primary result codes, with the numbers of the C interface.
use rustqlite.Base.{ℕ}

-- `ResultCode`.
pub data ResultCode : Type 0 where
  ok error internal perm abort busy locked no_mem read_only interrupt io_err : ResultCode
  corrupt not_found full cant_open protocol empty schema too_big constraint : ResultCode
  mismatch misuse no_lfs auth format range not_a_db notice warning row done : ResultCode

-- `code`: `self as i32`.
unfoldable pub code : ResultCode → ℕ
code ok = 0
code error = 1
code internal = 2
code perm = 3
code abort = 4
code busy = 5
code locked = 6
code no_mem = 7
code read_only = 8
code interrupt = 9
code io_err = 10
code corrupt = 11
code not_found = 12
code full = 13
code cant_open = 14
code protocol = 15
code empty = 16
code schema = 17
code too_big = 18
code constraint = 19
code mismatch = 20
code misuse = 21
code no_lfs = 22
code auth = 23
code format = 24
code range = 25
code not_a_db = 26
code notice = 27
code warning = 28
code row = 100
code done = 101
