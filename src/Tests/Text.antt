-- ===== src/Tests/Text.antt =====
-- LIKE, GLOB, collations, affinities, journal modes, the rollback journal and the wal-index on concrete inputs.
use rustqlite.Base.{
  ℕ, map, ◌≡◌, ◌≤◌, ◌↔◌, ◌++◌, ◌==◌, ◌&&◌, Bool, none, refl, List, [], ◌∷◌, length, replicate, true,
  false, some, arith,
}
use rustqlite.Func.Like.{
  like_info, glob_info, pattern_compare, compare_loop, is_match, read, same, to_lower, is_ascii,
  scan, after_all, skip_wildcards, match_set, set_members, set_loop, set_result,
}
use rustqlite.Types.Collation.{
  equal, no_case, r_trim, to_ascii_uppercase, compare, cmp, rtrim_spaces, ascii_lower,
}
use rustqlite.Types.Collation.Classes.{AreEqual, compare_lem}
use rustqlite.Error.{ok}
use rustqlite.Format.WalIndex.{WalIndexHdr, decode_hdr, encode_hdr}
use rustqlite.Format.WalIndex.RoundTrip.{decode_hdr-encode_hdr}
use rustqlite.Func.Like.Escape.{escaped_after_all}
use rustqlite.Func.Like.Literal.{pattern_compare_plain, equal_texts, small}
use rustqlite.Types.Affinity.{affinity_of, affinity_of_upper, text}
use rustqlite.Types.Affinity.Rank.{rank, rank-affinity_of}
use rustqlite.Pager.JournalMode.{
  memory, wal_mode, name, from_name, first_named, is_named, eq_ignore_ascii_case,
}
use rustqlite.Pager.JournalMode.Sound.{Abbreviates, from_name_lem}
use rustqlite.Pager.Journal.{build_header, parse_header}
use rustqlite.Pager.Journal.Laws.{parse_header-build_header}

abbrev abc : List ℕ
abc = b'a' ∷ b'b' ∷ b'c' ∷ []

abbrev upper : List ℕ
upper = b'A' ∷ b'B' ∷ b'C' ∷ []

-- `a%` and `A_C`, which the source's tests match against `abc`.
like_prefix : pattern_compare (b'a' ∷ b'%' ∷ []) abc like_info 0 ≡ true
unfolding pattern_compare compare_loop is_match read same to_lower is_ascii scan after_all
    skip_wildcards
like_prefix = refl

like_one : pattern_compare (b'A' ∷ b'_' ∷ b'C' ∷ []) abc like_info 0 ≡ true
unfolding pattern_compare compare_loop is_match read same to_lower is_ascii scan after_all
    skip_wildcards
like_one = refl

-- The classes `[a-c]bc` and `[^b]`.
glob_range :
    pattern_compare (b'[' ∷ b'a' ∷ b'-' ∷ b'c' ∷ b']' ∷ b'b' ∷ b'c' ∷ []) abc glob_info b'[' ≡ true
unfolding pattern_compare compare_loop is_match read same to_lower is_ascii scan after_all
    skip_wildcards match_set set_members set_loop set_result
glob_range = refl

glob_inverted : pattern_compare (b'[' ∷ b'^' ∷ b'b' ∷ b']' ∷ []) (b'b' ∷ []) glob_info b'[' ≡ false
unfolding pattern_compare compare_loop is_match read same to_lower is_ascii scan after_all
    skip_wildcards match_set set_members set_loop set_result
glob_inverted = refl

pattern_compare_plain_example :
    (pattern_compare upper abc glob_info b'[' ≡ equal_texts upper abc)
    × (pattern_compare upper abc like_info 0 ≡ equal_texts (map small upper) (map small abc))
pattern_compare_plain_example = pattern_compare_plain upper abc 0 (omega arith) (omega arith)

escaped_after_all_example : pattern_compare (b'%' ∷ 92 ∷ b'%' ∷ []) abc like_info 92 ≡ true
escaped_after_all_example = escaped_after_all 92 abc (omega arith) (omega arith) (omega arith)

parse_header-build_header_example :
    (length (build_header 7 0xdead_beef 3 4096) ≡ 512)
    × (parse_header (build_header 7 0xdead_beef 3 4096)
        ≡ some (record {
          nrec = 7;
          cksum_init = 0xdead_beef;
          db_orig_size = 3;
          sector = 512;
          page_size = 4096;
        }))
parse_header-build_header_example =
    parse_header-build_header 7 0xdead_beef 3 4096 (omega arith) (omega arith) (omega arith)
      (omega arith)

rtrim_equal : compare r_trim abc (b'a' ∷ b'b' ∷ b'c' ∷ b' ' ∷ b' ' ∷ []) ≡ equal
unfolding compare rtrim_spaces cmp
rtrim_equal = refl

no_case_equal : compare no_case upper abc ≡ equal
unfolding compare ascii_lower cmp
no_case_equal = refl

compare_lem_example : (compare no_case upper abc ≡ equal) ↔ AreEqual no_case upper abc
compare_lem_example = compare_lem no_case upper abc

abbrev index_hdr : WalIndexHdr
index_hdr = record {
  i_version = 3007000;
  unused = 0;
  i_change = 42;
  is_init = 1;
  big_end_cksum = 1;
  sz_page = 4096;
  mx_frame = 17;
  n_page = 8;
  frame_cksum_0 = 0x1234_5678;
  frame_cksum_1 = 0x9abc_def0;
  salt_0 = 0x0102_0304;
  salt_1 = 0x0506_0708;
  cksum_0 = 0x1111_1111;
  cksum_1 = 0x2222_2222;
}

decode_hdr-encode_hdr_example :
    decode_hdr false (encode_hdr false index_hdr (replicate 48 0)) ≡ ok index_hdr
decode_hdr-encode_hdr_example =
    decode_hdr-encode_hdr false index_hdr (replicate 48 0) (omega arith) (omega arith)

-- `varchar(9)` holds `char`.
abbrev char_type : List ℕ
char_type = b'c' ∷ b'h' ∷ b'a' ∷ b'r' ∷ []

abbrev only_spaces : List ℕ → Bool
only_spaces [] = true
only_spaces (c ∷ s) = c == b' ' && only_spaces s

affinity_of_char : affinity_of only_spaces (some char_type) ≡ text
unfolding affinity_of affinity_of_upper to_ascii_uppercase
affinity_of_char = refl

rank-affinity_of_example :
    rank (
      affinity_of only_spaces
        (some ((b'v' ∷ b'a' ∷ b'r' ∷ []) ++ (char_type ++ (b'(' ∷ b'9' ∷ b')' ∷ [])))))
    ≤ rank (affinity_of only_spaces (some char_type))
rank-affinity_of_example =
    rank-affinity_of only_spaces (b'v' ∷ b'a' ∷ b'r' ∷ []) char_type (b'(' ∷ b'9' ∷ b')' ∷ []) refl
      refl

-- `W` and `Mem`.
from_name_mem : from_name (b'M' ∷ b'e' ∷ b'm' ∷ []) ≡ some memory
unfolding from_name first_named is_named name eq_ignore_ascii_case ascii_lower
from_name_mem = refl

from_name_x : from_name (b'x' ∷ []) ≡ none
unfolding from_name first_named is_named name eq_ignore_ascii_case ascii_lower
from_name_x = refl

from_name_lem_example : (from_name (b'W' ∷ []) ≡ some wal_mode) ↔ Abbreviates (b'W' ∷ []) wal_mode
from_name_lem_example = from_name_lem (b'W' ∷ []) wal_mode
