-- ===== src/Tee/Bounds.antt =====
-- dedup.py, `TeeBroadcast`: the size of the buffer.
use heimdall_gateway.Prelude.{
  ℕ, ◌+◌, ◌-◌, ◌≤◌, ◌<◌, ◌≡◌, ◌⊎◌, List, [], ◌∷◌, ◌++◌, arith, if_elim, nat_key, string_key, length,
  length-append,
}
use heimdall_gateway.Tee.{TeeBroadcast, trim, without_oldest, append}

unfoldable pub total : {L : Type 0} → (L → ℕ) → List L → ℕ
total size [] = 0
total size (x ∷ xs) = size x + total size xs

-- the buffer is no longer than its limit, its bytes are counted, and they are within theirs
-- unless one line alone is longer
pub record IsBounded {L : Type 0} (size : L → ℕ) (s : TeeBroadcast L) : Type 0 where
  pub has_room : 0 < s.tee_buffer_lines
  pub in_lines : length s.buffer ≤ s.tee_buffer_lines
  pub is_counted : s.buffer_bytes ≡ total size s.buffer
  pub in_bytes : (s.buffer_bytes ≤ s.tee_buffer_bytes) ⊎ (length s.buffer ≤ 1)

module _ {L : Type 0} (size : L → ℕ) where
  total-append : (xs ys : List L) → total size (xs ++ ys) ≡ total size xs + total size ys
  unfolding total
  total-append [] ys = omega arith
  total-append (x ∷ xs) ys = omega (arith, total-append xs ys)

  trim-counted :
      (limit bytes : ℕ) (buffer : List L)
      → bytes ≡ total size buffer
      → ((trim size limit bytes buffer).1 ≡ total size (trim size limit bytes buffer).0)
        × (length (trim size limit bytes buffer).0 ≤ length buffer)
        × (((trim size limit bytes buffer).1 ≤ limit)
            ⊎ (length (trim size limit bytes buffer).0 ≤ 1))
  unfolding trim total
  trim-counted limit bytes [] counted = ground arith
  trim-counted limit bytes (x ∷ []) counted = ground arith
  trim-counted limit bytes (x ∷ y ∷ rest) counted =
      ground (arith, trim-counted limit (bytes - size x) (y ∷ rest))

  without_oldest-counted :
      (maxlen bytes : ℕ) (buffer : List L)
      → 0 < maxlen
      → bytes ≡ total size buffer
      → length buffer ≤ maxlen
      → ((without_oldest size maxlen buffer bytes).1
          ≡ total size (without_oldest size maxlen buffer bytes).0)
        × (length (without_oldest size maxlen buffer bytes).0 < maxlen)
  unfolding without_oldest total
  without_oldest-counted maxlen bytes [] room counted fits = ground arith
  without_oldest-counted maxlen bytes (x ∷ xs) room counted fits = ground arith

  total-pushed :
      (bytes : ℕ) (item : L) (buffer : List L)
      → bytes ≡ total size buffer
      → bytes + size item ≡ total size (buffer ++ item ∷ [])
  unfolding total
  total-pushed bytes item buffer counted = omega (arith, total-append buffer (item ∷ []))

  -- Appending keeps the buffer within its limits: at most tee_buffer_lines lines, and at most
  -- tee_buffer_bytes bytes unless it holds a single line; and the count of its bytes stays exact.
  pub append-IsBounded :
      (item : L) (s : TeeBroadcast L) → IsBounded size s → IsBounded size (append size item s)
  unfolding append
  append-IsBounded item s bounded =
      let (counted, shorter) =
        without_oldest-counted s.tee_buffer_lines s.buffer_bytes s.buffer bounded.has_room
          bounded.is_counted bounded.in_lines in
      let (room, bytes) = without_oldest size s.tee_buffer_lines s.buffer s.buffer_bytes in
      let (exact, fewer, within) =
        trim-counted s.tee_buffer_bytes (bytes + size item) (room ++ item ∷ [])
          (total-pushed bytes item room counted) in
      if_elim (IsBounded size) s.closed s _ bounded (record {
        has_room = bounded.has_room;
        in_lines = omega (arith, length-append room (item ∷ []));
        is_counted = exact;
        in_bytes = within;
      })
