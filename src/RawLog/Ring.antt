-- ===== src/RawLog/Ring.antt =====
-- cli/raw_log.py: the log holds the last ten requests, and a request is written in one place.
use heimdall_gateway.Prelude.{
  ℕ, zero, suc, ◌+◌, ◌-◌, ◌≤◌, min, ◌≡◌, refl, ap, ◌∙◌, inl, inr, true, false, some, List, [], ◌∷◌,
  ◌++◌, arith, ltb, le→not_ltb, Bool-cases, if_elim, nat_key, string_key, length, is_empty, take,
  drop, length-append, drop_of_nothing, All, drop-All, append-All,
}
use heimdall_gateway.RawLog.{Text, joined, last_lines, RingFile, existing_lines}
use heimdall_gateway.RawLog.Lines.{IsLine, splitlines-joined}

drop-append : (n : ℕ) (xs ys : List Text) → n ≤ length xs → drop n xs ++ ys ≡ drop n (xs ++ ys)
unfolding drop
drop-append zero xs ys le = refl
drop-append (suc n) [] ys le = absurd (omega arith)
drop-append (suc n) (x ∷ xs) ys le = drop-append n xs ys (omega arith)

drop-drop : (a b n : ℕ) (xs : List Text) → n ≡ b + a → drop a (drop b xs) ≡ drop n xs
unfolding drop
drop-drop a zero n xs e = ap (λ k. drop k xs) (omega arith)
drop-drop a (suc b) zero xs e = absurd (omega arith)
drop-drop a (suc b) (suc n) [] e = drop_of_nothing a
drop-drop a (suc b) (suc n) (x ∷ xs) e = drop-drop a b n xs (omega arith)

take-drop : (n : ℕ) (xs : List Text) → take n xs ++ drop n xs ≡ xs
unfolding take drop
take-drop zero xs = refl
take-drop (suc n) [] = refl
take-drop (suc n) (x ∷ xs) = ap (λ rest. x ∷ rest) (take-drop n xs)

length-drop : (n : ℕ) (xs : List Text) → n ≤ length xs → length (drop n xs) + n ≡ length xs
unfolding drop
length-drop zero xs le = omega arith
length-drop (suc n) [] le = absurd (omega arith)
length-drop (suc n) (x ∷ xs) le = let shorter = length-drop n xs (omega arith) in omega arith

last_lines-drop : (xs : List Text) → last_lines xs ≡ drop (length xs - 10) xs
unfolding last_lines drop
last_lines-drop xs = elim (Bool-cases (ltb 10 (length xs))) [
  | inl e ↦ rw e refl
  | inr e ↦ rw e (ap (λ n. drop n xs) (the_same e))
]
  where
    the_same : ltb 10 (length xs) ≡ false → 0 ≡ length xs - 10
    the_same e = ground arith

-- what is cut off early would be cut off later
pub last_lines-append :
    (xs ys : List Text) → last_lines (last_lines xs ++ ys) ≡ last_lines (xs ++ ys)
last_lines-append xs ys =
    let n = length xs - 10 in
    let cut = drop n xs in
    rw (last_lines-drop xs, last_lines-drop (cut ++ ys), last_lines-drop (xs ++ ys))
      (ap (drop (length (cut ++ ys) - 10)) (drop-append n xs ys (omega arith))
        ∙ drop-drop (length (cut ++ ys) - 10) n (length (xs ++ ys) - 10) (xs ++ ys) counts)
  where
    counts :
        length (xs ++ ys) - 10 ≡ length xs - 10 + (length (drop (length xs - 10) xs ++ ys) - 10)
    counts =
        let left = length-drop (length xs - 10) xs (omega arith) in
        let one = length-append (drop (length xs - 10) xs) ys in
        let two = length-append xs ys in omega arith

-- a file that can be read and written, with at most ten lines, which are whole
pub record IsRing (f : RingFile) : Type 0 where
  pub reads : f.readable ≡ true
  pub writes : f.writable ≡ true
  pub short : length (existing_lines f) ≤ 10
  pub whole : All IsLine (existing_lines f)

pub last_lines-short : (xs : List Text) → length xs ≤ 10 → last_lines xs ≡ xs
unfolding last_lines
last_lines-short xs short = rw (le→not_ltb 10 (length xs) short) refl

length-last_lines : (xs : List Text) → length (last_lines xs) ≤ 10
length-last_lines xs =
    let left = length-drop (length xs - 10) xs (omega arith) in
    rw (last_lines-drop xs) (omega arith)

last_lines-All : (P : Text → Type 0) (xs : List Text) → All P xs → All P (last_lines xs)
unfolding last_lines
last_lines-All P xs holds = if_elim (All P) (ltb 10 (length xs)) _ _ (drop-All P _ xs holds) holds

-- the lines that are cut off stand before those that are kept, as many as there are, up to ten
pub last_lines-suffix :
    (xs : List Text)
    → (dropped : List Text) × (dropped ++ last_lines xs ≡ xs)
      × (length (last_lines xs) ≡ min 10 (length xs))
last_lines-suffix xs =
    let n = length xs - 10 in
    let left = length-drop n xs (omega arith) in
    (
      take n xs,
      rw (last_lines-drop xs) (take-drop n xs),
      rw (last_lines-drop xs) (omega (arith, left)),
    )

-- the file that `write_ring` leaves
abbrev pub written : Text → RingFile → RingFile
written line f = record f {
  content = some (joined (last_lines (existing_lines f ++ line ∷ [])) ++ 10 ∷ []);
}

existing_lines-joined :
    (f : RingFile) (lines : List Text)
    → f.readable ≡ true
    → is_empty lines ≡ false
    → All IsLine lines
    → existing_lines (record f { content = some (joined lines ++ 10 ∷ []) }) ≡ lines
unfolding existing_lines
existing_lines-joined f [] reads some_line whole = absurd (ground arith)
existing_lines-joined f (line ∷ lines) reads some_line whole =
    rw reads (splitlines-joined line lines whole)

last_lines-some : (xs : List Text) (line : Text) → is_empty (last_lines (xs ++ line ∷ [])) ≡ false
last_lines-some xs line =
    let more = length-append xs (line ∷ []) in
    let n = length (xs ++ line ∷ []) - 10 in
    let left = length-drop n (xs ++ line ∷ []) (omega arith) in
    rw (last_lines-drop (xs ++ line ∷ [])) (nonempty (drop n (xs ++ line ∷ [])) (omega arith))
  where
    nonempty : (ls : List Text) → 1 ≤ length ls → is_empty ls ≡ false
    nonempty [] le = absurd (omega arith)
    nonempty (l ∷ ls) le = refl

pub existing_lines-written :
    (line : Text) (f : RingFile)
    → IsRing f
    → IsLine line
    → existing_lines (written line f) ≡ last_lines (existing_lines f ++ line ∷ [])
existing_lines-written line f ring single =
    existing_lines-joined f _ ring.reads (last_lines-some (existing_lines f) line)
      (last_lines-All IsLine _ (append-All IsLine (existing_lines f) _ ring.whole (single, tt)))

pub written-IsRing : (line : Text) (f : RingFile) → IsRing f → IsLine line → IsRing (written line f)
written-IsRing line f ring single = record {
  reads = ring.reads;
  writes = ring.writes;
  short = rw (existing_lines-written line f ring single) (length-last_lines _);
  whole =
      rw (existing_lines-written line f ring single)
        (last_lines-All IsLine _ (append-All IsLine (existing_lines f) _ ring.whole (single, tt)));
}
