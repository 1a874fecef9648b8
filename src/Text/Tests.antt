-- ===== src/Text/Tests.antt =====
-- The theorems on texts at small texts.
use pgnats.Common.{◌≡◌, some, arith}
use pgnats.Text.Numbers.{parse_uint, print_uint, parse_uint-print_uint}

parse_uint-print_uint_example : parse_uint 65535 (print_uint 4222) ≡ some 4222
parse_uint-print_uint_example = parse_uint-print_uint 65535 4222 (omega arith)
