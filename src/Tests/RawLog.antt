-- ===== src/Tests/RawLog.antt =====
-- The log of requests at concrete inputs: two requests, written where nothing was.
use heimdall_gateway.Prelude.{
  ◌≡◌, refl, true, none, [], ◌∷◌, ◌++◌, map, arith, nat_key, string_key, drop, All,
}
use heimdall_gateway.RawLog.{
  Text, replace_crlf, replace_code, sanitize_one_line, truncated, line_of, is_break, mark_of,
  split_from, splitlines, joined, last_lines, RingFile, existing_lines, write_ring, Files,
  with_file, try_paths, raw_targets, log_raw_request,
}
use heimdall_gateway.RawLog.Lines.{IsUsual}
use heimdall_gateway.RawLog.Ring.{IsRing}
use heimdall_gateway.RawLog.Requests.{log_all, log_all-last_lines}

abbrev empty_file : RingFile
empty_file = record { content = none; readable = true; writable = true }

-- "/log/api-raw-requests.log" is new, and so is the fallback
abbrev no_files : Files
no_files path = empty_file

-- "a", a line feed, "b"
abbrev two_lines : Text
two_lines = b'a' ∷ 10 ∷ b'b' ∷ []

-- "a", a carriage return and a line feed
abbrev with_crlf : Text
with_crlf = b'a' ∷ 13 ∷ 10 ∷ []

-- "a", the line separator U+2028, "b"
abbrev with_separator : Text
with_separator = b'a' ∷ 8232 ∷ b'b' ∷ []

empty_file-IsRing : IsRing empty_file
unfolding existing_lines splitlines split_from
empty_file-IsRing = record { reads = refl; writes = refl; short = omega arith; whole = tt }

usual : All IsUsual (two_lines ∷ with_crlf ∷ [])
unfolding is_break
usual = ((refl, (refl, (refl, tt))), ((refl, (refl, (refl, tt))), tt))

escaped : line_of two_lines ≡ b'a' ∷ b'\\' ∷ b'n' ∷ b'b' ∷ []
unfolding line_of sanitize_one_line truncated replace_crlf replace_code
escaped = refl

log_all-last_lines_example :
    existing_lines (log_all "/log" "/tmp" (two_lines ∷ with_crlf ∷ []) no_files "/log")
    ≡ last_lines (existing_lines empty_file ++ map line_of (two_lines ∷ with_crlf ∷ []))
log_all-last_lines_example =
    log_all-last_lines "/log" "/tmp" (two_lines ∷ with_crlf ∷ []) no_files empty_file-IsRing usual

-- a request with a line separator takes two lines, though it is one request
separator_splits :
    existing_lines (log_all "/log" "/tmp" (with_separator ∷ []) no_files "/log")
    ≡ (b'a' ∷ []) ∷ (b'b' ∷ []) ∷ []
unfolding existing_lines splitlines split_from mark_of is_break log_raw_request line_of
    sanitize_one_line truncated replace_crlf replace_code try_paths raw_targets write_ring
    last_lines joined with_file drop
separator_splits = refl
