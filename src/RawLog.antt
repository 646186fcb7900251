-- ===== src/RawLog.antt =====
-- cli/raw_log.py, the log of the last ten request bodies: `_sanitize_one_line`, `_write_ring` and
-- `log_raw_request`. Text is a list of code points. The paths come from outside, and so does whether a
-- file can be read and written.
pub mod Lines
pub mod Ring
pub mod Requests
use Prim.Native.String.{String}
use heimdall_gateway.Prelude.{
  ℕ, ◌-◌, Bool, true, false, not, ◌&&◌, ◌||◌, Option, none, some, List, [], ◌∷◌, ◌++◌, ltb, leb,
  nat_eq, if◌then◌else◌, or_else, ◌==◌, nat_key, string_key, length, is_empty, take, drop,
}

abbrev pub Text : Type 0
Text = List ℕ

-- text.replace("\r\n", "\\n")
unfoldable pub replace_crlf : Text → Text
replace_crlf [] = []
replace_crlf (c ∷ []) = c ∷ []
replace_crlf (c ∷ d ∷ text) = elim (nat_eq c 13 && nat_eq d 10) [
  | true ↦ b'\\' ∷ b'n' ∷ replace_crlf text
  | false ↦ c ∷ replace_crlf (d ∷ text)
]

-- text.replace(old, "\\" + letter), for a single character
unfoldable pub replace_code : ℕ → ℕ → Text → Text
replace_code old letter [] = []
replace_code old letter (c ∷ text) =
    let rest = replace_code old letter text in
    if nat_eq c old then b'\\' ∷ letter ∷ rest else c ∷ rest

unfoldable pub sanitize_one_line : Text → Text
unfolding replace_crlf replace_code
sanitize_one_line text = replace_code 13 b'r' (replace_code 10 b'n' (replace_crlf text))

-- text[:n]
unfoldable pub truncated : ℕ → Text → Text
unfolding take
truncated n text = if ltb n (length text) then take n text else text

abbrev pub raw_max_chars : ℕ
raw_max_chars = 1048576

abbrev pub raw_ring_size : ℕ
raw_ring_size = 10

-- the line of a request
unfoldable pub line_of : Text → Text
unfolding sanitize_one_line truncated
line_of text = truncated raw_max_chars (sanitize_one_line (truncated raw_max_chars text))

-- a character at which `str.splitlines` ends a line
unfoldable pub is_break : ℕ → Bool
is_break c =
    (leb 10 c && leb c 13)
    || (leb 28 c && leb c 30)
    || nat_eq c 133
    || nat_eq c 8232
    || nat_eq c 8233

-- what a character is for `str.splitlines`: a line feed after a carriage return is no end of its own
pub data Mark : Type 0 where
  joined_mark : Mark
  ending : Mark
  plain : Mark

unfoldable pub mark_of : Bool → ℕ → Mark
unfolding is_break
mark_of after_cr c =
    if after_cr && nat_eq c 10 then joined_mark else if is_break c then ending else plain

unfoldable pub split_from : Text → Text → Bool → List Text
unfolding mark_of
split_from [] line after_cr = if is_empty line then [] else line ∷ []
split_from (c ∷ text) line after_cr = elim (mark_of after_cr c) [
  | joined_mark ↦ split_from text [] false
  | ending ↦ line ∷ split_from text [] (nat_eq c 13)
  | plain ↦ split_from text (line ++ c ∷ []) false
]

unfoldable pub splitlines : Text → List Text
unfolding split_from
splitlines text = split_from text [] false

-- "\n".join(lines)
unfoldable pub joined : List Text → Text
joined [] = []
joined (line ∷ []) = line
joined (line ∷ next ∷ lines) = line ++ 10 ∷ joined (next ∷ lines)

-- the last lines, when there are too many
unfoldable pub last_lines : List Text → List Text
unfolding drop
last_lines lines =
    if ltb raw_ring_size (length lines) then drop (length lines - raw_ring_size) lines else lines

pub record RingFile : Type 0 where
  pub content : Option Text
  pub readable : Bool
  pub writable : Bool

unfoldable pub existing_lines : RingFile → List Text
unfolding splitlines
existing_lines f = if f.readable then splitlines (or_else f.content []) else []

-- `none` when it raises
unfoldable pub write_ring : Text → RingFile → Option RingFile
unfolding existing_lines last_lines joined
write_ring line f =
    let lines = last_lines (existing_lines f ++ line ∷ []) in
    if f.writable then some (record f { content = some (joined lines ++ 10 ∷ []) }) else none

abbrev pub Files : Type 0
Files = String → RingFile

unfoldable pub with_file : String → RingFile → Files → Files
with_file path f files other = if path == other then f else files other

-- the files after `_try` on a path, or what the paths after it give
abbrev pub after_try : String → Files → Option RingFile → Files → Files
after_try path files (some f) later = with_file path f files
after_try path files none later = later

-- `_try` on one path after the other, until one is written
unfoldable pub try_paths : List String → Text → Files → Files
unfolding write_ring with_file
try_paths [] line files = files
try_paths (path ∷ paths) line files =
    after_try path files (write_ring line (files path)) (try_paths paths line files)

abbrev pub raw_fallback_path : String
raw_fallback_path = "/tmp/llm-server-api-raw-requests.log"

abbrev pub old_raw_fallback_path : String
old_raw_fallback_path = "/tmp/heimdall-gateway-api-raw-requests.log"

abbrev when : Bool → String → List String
when b path = if b then path ∷ [] else []

-- the paths that are tried, from the primary target and the fallback target
unfoldable pub raw_targets : String → String → List String
raw_targets primary fallback =
    primary ∷ when (not (primary == fallback)) fallback
    ++ when (not (fallback == raw_fallback_path) && not (primary == raw_fallback_path))
        raw_fallback_path
    ++ when (not (old_raw_fallback_path == primary) && not (old_raw_fallback_path == fallback))
        old_raw_fallback_path

unfoldable pub log_raw_request : String → String → Text → Files → Files
unfolding line_of try_paths raw_targets
log_raw_request primary fallback text files =
    try_paths (raw_targets primary fallback) (line_of text) files
