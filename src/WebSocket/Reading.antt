-- ===== src/WebSocket/Reading.antt =====
-- debug_manager.py, `_read_exact`: the loop ends, and what it reads does not depend on the pieces in
-- which the bytes arrive.
use mathlib.Core.List.{append_assoc, append-nil}
use native.Mathlib.Numerals.{unary_clauses}
use heimdall_gateway.Prelude.{
  ℕ, zero, suc, ◌-◌, ◌<◌, ◌≡◌, refl, ap, ◌∙◌, inl, inr, false, Option, some, [], ◌∷◌, ◌++◌, arith,
  leb, Bool-cases, nat_key, string_key, length, is_empty, take, drop, length-append,
  take_of_nothing, drop_of_nothing,
}
use heimdall_gateway.WebSocket.{ByteList, Connection, pushed_back, recv, read_loop, read_exact}

-- the bytes that the connection gives until it is closed
unfoldable pub arriving : Connection → ByteList
arriving [] = []
arriving ([] ∷ pieces) = []
arriving ((b ∷ piece) ∷ pieces) = (b ∷ piece) ++ arriving pieces

first-split :
    (n : ℕ) (xs ys : ByteList)
    → take n xs ++ take (n - length (take n xs)) (drop n xs ++ ys) ≡ take n (xs ++ ys)
unfolding take drop
first-split zero xs ys = refl
first-split (suc n) [] ys = let same : suc n - 0 ≡ suc n = omega arith in ap (λ k. take k ys) same
first-split (suc n) (x ∷ xs) ys = simp unary_clauses (ap (λ rest. x ∷ rest) (first-split n xs ys))

after-split :
    (n : ℕ) (xs ys : ByteList) → drop (n - length (take n xs)) (drop n xs ++ ys) ≡ drop n (xs ++ ys)
unfolding take drop
after-split zero xs ys = refl
after-split (suc n) [] ys = let same : suc n - 0 ≡ suc n = omega arith in ap (λ k. drop k ys) same
after-split (suc n) (x ∷ xs) ys = simp unary_clauses (after-split n xs ys)

arriving-pushed_back :
    (bytes : ByteList) (pieces : Connection)
    → arriving (pushed_back bytes pieces) ≡ bytes ++ arriving pieces
unfolding arriving
arriving-pushed_back [] pieces = refl
arriving-pushed_back (b ∷ bytes) pieces = refl

-- what is read, and what is left to read
pub record IsRead (n : ℕ) (chunks : ByteList) (c : Connection)
    (result : Option (ByteList × Connection)) : Type 0 where
  pub rest : Connection
  pub reads : result ≡ some (chunks ++ take n (arriving c), rest)
  pub leaves : arriving rest ≡ drop n (arriving c)

IsRead-closed :
    (n : ℕ) (chunks : ByteList) (c : Connection)
    → arriving c ≡ []
    → IsRead n chunks c (some (chunks, c))
IsRead-closed n chunks c closed = record {
  rest = c;
  reads = rw (closed, take_of_nothing n, append-nil chunks) refl;
  leaves = rw (closed, drop_of_nothing n) refl;
}

-- one round, and the rounds after it
IsRead-more :
    (n : ℕ) (chunks piece : ByteList) (pieces : Connection)
    (result : Option (ByteList × Connection))
    → IsRead
        (n - length (take n piece))
        (chunks ++ take n piece)
        (pushed_back (drop n piece) pieces)
        result
    → (rest : Connection) × (result ≡ some (chunks ++ take n (piece ++ arriving pieces), rest))
      × (arriving rest ≡ drop n (piece ++ arriving pieces))
IsRead-more n chunks piece pieces result read =
    let got = take n piece in
    let coming = arriving-pushed_back (drop n piece) pieces in
    (
      read.rest,
      read.reads
          ∙ ap (λ bytes. some (bytes, read.rest))
              (append_assoc chunks got _
                ∙ ap (λ more. chunks ++ more)
                    (ap (λ later. got ++ take (n - length got) later) coming
                      ∙ first-split n piece (arriving pieces))),
      read.leaves
          ∙ (ap (λ later. drop (n - length got) later) coming
              ∙ after-split n piece (arriving pieces)),
    )

left_over :
    (size : ℕ) (chunks got : ByteList)
    → size - length (chunks ++ got) ≡ size - length chunks - length got
left_over size chunks got = omega (arith, length-append chunks got)

IsRead-same :
    (m n : ℕ) (chunks : ByteList) (c : Connection) (result : Option (ByteList × Connection))
    → m ≡ n
    → IsRead m chunks c result
    → IsRead n chunks c result
IsRead-same m n chunks c result e read = rw (← e) read

sub_zero : (size : ℕ) → size - 0 ≡ size
sub_zero size = omega arith

IsRead-none :
    (n : ℕ) (chunks : ByteList) (c : Connection) → n ≡ 0 → IsRead n chunks c (some (chunks, c))
unfolding take drop
IsRead-none zero chunks c none_left = record {
  rest = c;
  reads = rw (append-nil chunks) refl;
  leaves = refl;
}
IsRead-none (suc n) chunks c none_left = absurd (omega arith)

take_some :
    (n b : ℕ) (bytes : ByteList)
    → 0 < n
    → (is_empty (take n (b ∷ bytes)) ≡ false) × (0 < length (take n (b ∷ bytes)))
unfolding take
take_some zero b bytes pos_n = absurd (omega arith)
take_some (suc n) b bytes pos_n = (refl, omega arith)

read_loop-IsRead :
    (fuel size : ℕ) (chunks : ByteList) (c : Connection)
    → size - length chunks < fuel
    → IsRead (size - length chunks) chunks c (read_loop fuel size chunks c)
unfolding read_loop recv arriving
read_loop-IsRead zero size chunks c enough = absurd (omega arith)
read_loop-IsRead (suc fuel) size chunks [] enough = elim (Bool-cases (leb size (length chunks))) [
  | inl full ↦ rw full (IsRead-none _ chunks [] (ground (arith, full)))
  | inr left_some ↦ rw left_some (IsRead-closed _ chunks [] refl)
]
read_loop-IsRead (suc fuel) size chunks ([] ∷ pieces) enough =
    elim (Bool-cases (leb size (length chunks))) [
      | inl full ↦ rw full (IsRead-none _ chunks ([] ∷ pieces) (ground (arith, full)))
      | inr left_some ↦ rw left_some (IsRead-closed _ chunks ([] ∷ pieces) refl)
    ]
read_loop-IsRead (suc fuel) size chunks ((b ∷ piece) ∷ pieces) enough =
    elim (Bool-cases (leb size (length chunks))) [
      | inl full ↦ rw full (IsRead-none _ chunks ((b ∷ piece) ∷ pieces) (ground (arith, full)))
      | inr left_some ↦
          let n = size - length chunks in
          let got = take n (b ∷ piece) in
          let pos_n : 0 < n = ground (arith, left_some) in
          let some_read = take_some n b piece pos_n in
          let (rest, reads, leaves) = IsRead-more n chunks (b ∷ piece) pieces _ (
            rw (← left_over size chunks got) (
              read_loop-IsRead fuel size (chunks ++ got) (pushed_back (drop n (b ∷ piece)) pieces)
                (rw (left_over size chunks got) (omega (arith, some_read.1))))) in
          rw (left_some, some_read.0) (record { rest = rest; reads = reads; leaves = leaves })
    ]

-- For a connection that delivers its bytes in whatever pieces, the loop ends, with the bytes that were
-- asked for, or fewer only if the connection is closed before; it leaves the bytes behind them.
pub read_exact_total :
    (size : ℕ) (c : Connection)
    → (rest : Connection) × (read_exact size c ≡ some (take size (arriving c), rest))
      × (arriving rest ≡ drop size (arriving c))
unfolding read_exact
read_exact_total size c =
    let read =
      IsRead-same _ size [] c _ (sub_zero size)
        (read_loop-IsRead (suc size) size [] c (omega arith)) in
    (read.rest, read.reads, read.leaves)
