-- ===== src/RawLog/Requests.antt =====
-- cli/raw_log.py, `log_raw_request`: where a request is written, and what the log holds after many.
use mathlib.Core.List.{append_assoc, append-nil}
use mathlib.Core.Path.{subst}
use Prim.Native.String.{String}
use heimdall_gateway.Prelude.{
  ◌+◌, min, ◌≡◌, refl, sym, ap, ◌∙◌, Bool, true, false, Option, none, some, List, [], ◌∷◌, ◌++◌,
  map, if◌then◌else◌, ◌==◌, nat_key, string_key, ==_refl, length, All,
}
use heimdall_gateway.RawLog.{
  Text, line_of, joined, last_lines, RingFile, existing_lines, write_ring, Files, with_file,
  after_try, try_paths, raw_targets, log_raw_request,
}
use heimdall_gateway.RawLog.Lines.{IsUsual, line_of-IsLine}
use heimdall_gateway.RawLog.Ring.{
  last_lines-append, IsRing, last_lines-short, written, existing_lines-written, written-IsRing,
}

-- the first path that can be written
abbrev pub first_writable : List String → Files → Option String
first_writable [] files = none
first_writable (path ∷ paths) files =
    if (files path).writable then some path else first_writable paths files

-- the line at the end of the file at this path, and no other file touched
abbrev pub written_at : Option String → Text → Files → Files
written_at none line files = files
written_at (some path) line files = with_file path (written line (files path)) files

after_try-written_at :
    (writes : Bool) (path : String) (line : Text) (files later : Files) (first : Option String)
    → later ≡ written_at first line files
    → after_try path files (if writes then some (written line (files path)) else none) later
      ≡ written_at (if writes then some path else first) line files
after_try-written_at true path line files later first e = refl
after_try-written_at false path line files later first e = e

try_paths-written_at :
    (paths : List String) (line : Text) (files : Files)
    → try_paths paths line files ≡ written_at (first_writable paths files) line files
unfolding try_paths write_ring
try_paths-written_at [] line files = refl
try_paths-written_at (path ∷ paths) line files =
    after_try-written_at (files path).writable path line files (try_paths paths line files)
      (first_writable paths files) (try_paths-written_at paths line files)

log_raw_request-written_at :
    (primary fallback : String) (request : Text) (files : Files)
    → log_raw_request primary fallback request files
      ≡ written_at (first_writable (raw_targets primary fallback) files) (line_of request) files
unfolding log_raw_request
log_raw_request-written_at primary fallback request files =
    try_paths-written_at (raw_targets primary fallback) (line_of request) files

-- a file before and after a line is added to it
pub record IsAdded (line : Text) (f g : RingFile) : Type 0 where
  pub dropped : List Text
  pub kept : List Text
  pub all_lines : dropped ++ kept ≡ existing_lines f ++ line ∷ []
  pub last_ten : length kept ≡ min 10 (length (existing_lines f) + 1)
  pub content : g.content ≡ some (joined kept ++ 10 ∷ [])
  pub access : (g.readable ≡ f.readable) × (g.writable ≡ f.writable)

-- the line is added to the file at the path, if there is one, and to no other
abbrev pub Adds : Option String → Text → Files → Files → Type 0
Adds none line files after = (other : String) → after other ≡ files other
Adds (some path) line files after =
    IsAdded line (files path) (after path)
    × ((other : String) → after other ≡ (if path == other then after path else files other))

with_file_same : (path : String) (f : RingFile) (files : Files) → with_file path f files path ≡ f
unfolding with_file
with_file_same path f files = rw (==_refl path) refl

first_writable-head :
    (path : String) (paths : List String) (files : Files)
    → (files path).writable ≡ true
    → first_writable (path ∷ paths) files ≡ some path
first_writable-head path paths files writes =
    ap (λ b. if b then some path else first_writable paths files) writes

primary_first :
    (primary fallback : String) (files : Files)
    → (files primary).writable ≡ true
    → first_writable (raw_targets primary fallback) files ≡ some primary
unfolding raw_targets
primary_first primary fallback files writes = first_writable-head primary _ files writes

log_raw_request-primary :
    (primary fallback : String) (request : Text) (files : Files)
    → (files primary).writable ≡ true
    → log_raw_request primary fallback request files primary
      ≡ written (line_of request) (files primary)
log_raw_request-primary primary fallback request files writes =
    ap (λ (after : Files). after primary)
      (log_raw_request-written_at primary fallback request files)
    ∙ ap (λ o. written_at o (line_of request) files primary)
        (primary_first primary fallback files writes)
    ∙ with_file_same primary _ files

-- the requests one after the other
abbrev pub log_all : String → String → List Text → Files → Files
log_all primary fallback [] files = files
log_all primary fallback (request ∷ requests) files =
    log_all primary fallback requests (log_raw_request primary fallback request files)

-- The log at the primary path, readable and writable at first and with at most ten whole lines, holds after any
-- requests without unusual line ends the last ten of the lines it had and of the lines of the
-- requests, in order, read back by `splitlines`.
pub log_all-last_lines :
    (primary fallback : String) (requests : List Text) (files : Files)
    → IsRing (files primary)
    → All IsUsual requests
    → existing_lines (log_all primary fallback requests files primary)
      ≡ last_lines (existing_lines (files primary) ++ map line_of requests)
log_all-last_lines primary fallback [] files ring usual = sym (
    ap last_lines (append-nil (existing_lines (files primary)))
    ∙ last_lines-short (existing_lines (files primary)) ring.short)
log_all-last_lines primary fallback (request ∷ requests) files ring (first, usual) =
    let single = line_of-IsLine request first in
    let same = log_raw_request-primary primary fallback request files ring.writes in
    let lines = existing_lines (files primary) in
    log_all-last_lines primary fallback requests (log_raw_request primary fallback request files)
      (subst IsRing (sym same) (written-IsRing (line_of request) (files primary) ring single)) usual
    ∙ ap (λ f. last_lines (existing_lines f ++ map line_of requests)) same
    ∙ ap (λ ls. last_lines (ls ++ map line_of requests))
        (existing_lines-written (line_of request) (files primary) ring single)
    ∙ last_lines-append (lines ++ line_of request ∷ []) (map line_of requests)
    ∙ ap last_lines (append_assoc lines (line_of request ∷ []) (map line_of requests))
