-- ===== src/RawLog/Lines.antt =====
-- cli/raw_log.py: one line per request, and lines that are read back.
use mathlib.Core.List.{append_assoc, append-nil}
use heimdall_gateway.Prelude.{
  ℕ, ◌≤◌, ◌≡◌, refl, sym, ap, ◌∙◌, ◌⊎◌, inl, inr, Bool, true, false, not, ◌&&◌, ◌||◌, List, [], ◌∷◌,
  ◌++◌, arith, ltb, nat_eq, le→not_ltb, Bool-cases, if_elim, nat_key, string_key, length, any, All,
  take-All, every, weaken,
}
use heimdall_gateway.RawLog.{
  Text, replace_crlf, replace_code, sanitize_one_line, truncated, raw_max_chars, line_of, is_break,
  mark_of, split_from, splitlines, joined,
}

-- no character of the line ends a line
abbrev pub IsLine : Text → Type 0
IsLine = All (λ c. is_break c ≡ false)

-- no character ends a line but a line feed or a carriage return
abbrev pub IsUsual : Text → Type 0
IsUsual = All (λ c. is_break c && not (nat_eq c 10 || nat_eq c 13) ≡ false)

replace_crlf-IsUsual : (text : Text) → IsUsual text → IsUsual (replace_crlf text)
unfolding replace_crlf is_break
replace_crlf-IsUsual [] usual = tt
replace_crlf-IsUsual (c ∷ []) usual = usual
replace_crlf-IsUsual (c ∷ d ∷ text) (first, (second, usual)) =
    elim (Bool-cases (nat_eq c 13 && nat_eq d 10)) [
      | inl e ↦ rw (replace_crlf, e) (refl, (refl, replace_crlf-IsUsual text usual))
      | inr e ↦ rw (replace_crlf, e) (first, replace_crlf-IsUsual (d ∷ text) (second, usual))
    ]

-- a property of every character that is written is one of every character of the text
replace_code-All :
    (P : ℕ → Type 0) (old letter : ℕ) (text : Text)
    → P b'\\'
    → P letter
    → All (λ c. nat_eq c old ≡ false → P c) text
    → All P (replace_code old letter text)
unfolding replace_code
replace_code-All P old letter [] slash new holds = tt
replace_code-All P old letter (c ∷ text) slash new (kept, holds) =
    elim (Bool-cases (nat_eq c old)) [
      | inl e ↦ rw e (slash, (new, replace_code-All P old letter text slash new holds))
      | inr e ↦ rw e (kept e, replace_code-All P old letter text slash new holds)
    ]

truncated-All : (P : ℕ → Type 0) (n : ℕ) (text : Text) → All P text → All P (truncated n text)
unfolding truncated
truncated-All P n text holds =
    if_elim (All P) (ltb n (length text)) _ _ (take-All P n text holds) holds

usual_break :
    (c : ℕ)
    → is_break c && not (nat_eq c 10 || nat_eq c 13) ≡ false
    → nat_eq c 10 ≡ false
    → nat_eq c 13 ≡ false
    → is_break c ≡ false
usual_break c usual lf cr = ground arith

-- no line feed and no carriage return
abbrev pub IsUnbroken : Text → Type 0
IsUnbroken = All (λ c. nat_eq c 10 || nat_eq c 13 ≡ false)

line_break :
    (c : ℕ) → nat_eq c 10 ≡ false → nat_eq c 13 ≡ false → (nat_eq c 10 || nat_eq c 13) ≡ false
line_break c lf cr = ground arith

-- whatever the request is, its line has neither
pub line_of-IsUnbroken : (text : Text) → IsUnbroken (line_of text)
unfolding line_of sanitize_one_line
line_of-IsUnbroken text =
    let crlf = replace_crlf (truncated raw_max_chars text) in
    let lf = replace_code 10 b'n' crlf in
    truncated-All (λ c. (nat_eq c 10 || nat_eq c 13) ≡ false) raw_max_chars
      (replace_code 13 b'r' lf)
      (replace_code-All (λ c. (nat_eq c 10 || nat_eq c 13) ≡ false) 13 b'r' lf refl refl
        (replace_code-All (λ c. nat_eq c 13 ≡ false → (nat_eq c 10 || nat_eq c 13) ≡ false) 10 b'n'
          crlf (λ e. refl) (λ e. refl) (every line_break crlf)))

replace_crlf_unbroken : (text : Text) → IsUnbroken text → replace_crlf text ≡ text
unfolding replace_crlf
replace_crlf_unbroken [] unbroken = refl
replace_crlf_unbroken (c ∷ []) unbroken = refl
replace_crlf_unbroken (c ∷ d ∷ text) (first, rest) =
    let no_pair : (nat_eq c 13 && nat_eq d 10) ≡ false = ground (arith, first) in
    rw (no_pair, replace_crlf) (ap (λ tail. c ∷ tail) (replace_crlf_unbroken (d ∷ text) rest))

replace_code_unbroken :
    (old letter : ℕ) (text : Text)
    → All (λ c. nat_eq c old ≡ false) text
    → replace_code old letter text ≡ text
unfolding replace_code
replace_code_unbroken old letter [] unbroken = refl
replace_code_unbroken old letter (c ∷ text) (first, rest) =
    rw (first, replace_code_unbroken old letter text rest) refl

line_of_unbroken :
    (text : Text) → IsUnbroken text → length text ≤ raw_max_chars → line_of text ≡ text
unfolding line_of sanitize_one_line truncated
line_of_unbroken text unbroken short =
    rw
      (
        le→not_ltb raw_max_chars (length text) short,
        replace_crlf_unbroken text unbroken,
        replace_code_unbroken 10 b'n' text (weaken (λ c e. ground (arith, e)) text unbroken),
        replace_code_unbroken 13 b'r' text (weaken (λ c e. ground (arith, e)) text unbroken),
        le→not_ltb raw_max_chars (length text) short,
      )
      refl

-- a character that ends a line of the file
abbrev pub is_newline : ℕ → Bool
is_newline c = nat_eq c 10 || nat_eq c 13

IsUnbroken-All : (text : Text) → any is_newline text ≡ false → IsUnbroken text
IsUnbroken-All [] e = tt
IsUnbroken-All (c ∷ text) e = (ground arith, IsUnbroken-All text (ground arith))

-- a request that has neither and is not too long is its own line
pub line_of-cases :
    (text : Text)
    → (line_of text ≡ text) ⊎ ((any is_newline text || ltb raw_max_chars (length text)) ≡ true)
line_of-cases text = elim (Bool-cases (any is_newline text || ltb raw_max_chars (length text))) [
  | inl e ↦ inr e
  | inr e ↦
      inl (line_of_unbroken text (IsUnbroken-All text (ground (arith, e))) (ground (arith, e)))
]

pub line_of-IsLine : (text : Text) → IsUsual text → IsLine (line_of text)
unfolding line_of sanitize_one_line is_break
line_of-IsLine text usual =
    let crlf =
      replace_crlf-IsUsual (truncated raw_max_chars text)
        (truncated-All _ raw_max_chars text usual) in
    truncated-All _ raw_max_chars _ (
      replace_code-All (λ c. is_break c ≡ false) 13 b'r' _ refl refl
        (replace_code-All (λ c. nat_eq c 13 ≡ false → is_break c ≡ false) 10 b'n' _ (λ e. refl)
          (λ e. refl) (weaken usual_break _ crlf)))

split_from-line :
    (line rest before : Text)
    → IsLine line
    → split_from (line ++ 10 ∷ rest) before false ≡ (before ++ line) ∷ split_from rest [] false
unfolding split_from mark_of is_break
split_from-line [] rest before whole =
    ap (λ l. l ∷ split_from rest [] false) (sym (append-nil before))
split_from-line (c ∷ line) rest before (kept, whole) =
    rw (split_from, mark_of, kept)
      (split_from-line line rest (before ++ c ∷ []) whole
        ∙ ap (λ l. l ∷ split_from rest [] false) (append_assoc before (c ∷ []) line))

pub splitlines-joined :
    (line : Text) (lines : List Text)
    → All IsLine (line ∷ lines)
    → splitlines (joined (line ∷ lines) ++ 10 ∷ []) ≡ line ∷ lines
unfolding splitlines joined split_from
splitlines-joined line [] (whole, rest) = split_from-line line [] [] whole
splitlines-joined line (next ∷ lines) (whole, rest) =
    ap (λ t. split_from t [] false) (append_assoc line (10 ∷ joined (next ∷ lines)) (10 ∷ []))
    ∙ split_from-line line (joined (next ∷ lines) ++ 10 ∷ []) [] whole
    ∙ ap (λ ls. line ∷ ls) (splitlines-joined next lines rest)
