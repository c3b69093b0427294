-- ===== src/Strconv/Tests.antt =====
-- A number that is written and read back.
use live_polling.Prelude.{◌≡◌, some, arith}
use live_polling.Strconv.{format_int, parse_int}
use live_polling.Strconv.Laws.{parse_int-format_int}

parse_int-format_int_example : parse_int (format_int 42) ≡ some 42
parse_int-format_int_example = parse_int-format_int 42 (omega arith)
