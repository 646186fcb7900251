-- ===== src/Tee/Buffer.antt =====
-- dedup.py, `TeeBroadcast`: which lines the buffer holds after many.
use mathlib.Core.List.{append_assoc, append-nil}
use heimdall_gateway.Prelude.{
  ℕ, ◌+◌, ◌-◌, ◌≤◌, ◌<◌, ◌≡◌, refl, sym, ap, ◌∙◌, ◌⊎◌, inl, inr, Bool, true, false, ◌||◌, List, [],
  ◌∷◌, ◌++◌, arith, ltb, nat_eq, le→not_ltb, Bool-cases, nat_key, string_key, length, length-append,
}
use heimdall_gateway.Tee.{TeeBroadcast, trim, without_oldest, deliver, drop_slow, append}
use heimdall_gateway.Tee.Bounds.{total}

module _ {L : Type 0} (size : L → ℕ) where
  unfoldable pub append_all : List L → TeeBroadcast L → TeeBroadcast L
  append_all [] s = s
  append_all (item ∷ items) s = append_all items (append size item s)

  pub append-unclosed :
      (item : L) (s : TeeBroadcast L)
      → s.closed ≡ false
      → ((append size item s).closed ≡ false)
        × ((append size item s).tee_buffer_lines ≡ s.tee_buffer_lines)
        × ((append size item s).tee_buffer_bytes ≡ s.tee_buffer_bytes)
        × ((append size item s).followers ≡ deliver size s item s.followers)
        × ((append size item s).left ≡ drop_slow size s item s.followers s.left)
  unfolding append
  append-unclosed item s unclosed = rw (unclosed, append) (refl, refl, refl, refl, refl)

  trim-suffix :
      (limit bytes : ℕ) (buffer : List L)
      → (dropped : List L) × (dropped ++ (trim size limit bytes buffer).0 ≡ buffer)
  unfolding trim
  trim-suffix limit bytes [] = ([], refl)
  trim-suffix limit bytes (x ∷ []) = ([], refl)
  trim-suffix limit bytes (x ∷ y ∷ rest) =
      let (dropped, suffix) = trim-suffix limit (bytes - size x) (y ∷ rest) in
      elim (Bool-cases (ltb limit bytes)) [
        | inl e ↦ rw e (x ∷ dropped, ap (λ r. x ∷ r) suffix)
        | inr e ↦ rw e ([], refl)
      ]

  trim-fits :
      (limit bytes : ℕ) (buffer : List L)
      → bytes ≤ limit
      → trim size limit bytes buffer ≡ (buffer, bytes)
  unfolding trim
  trim-fits limit bytes [] light = refl
  trim-fits limit bytes (x ∷ []) light = refl
  trim-fits limit bytes (x ∷ y ∷ rest) light = rw (le→not_ltb limit bytes light) refl

  without_oldest-suffix :
      (maxlen bytes : ℕ) (buffer : List L)
      → (dropped : List L) × (dropped ++ (without_oldest size maxlen buffer bytes).0 ≡ buffer)
  unfolding without_oldest
  without_oldest-suffix maxlen bytes [] = ([], refl)
  without_oldest-suffix maxlen bytes (oldest ∷ buffer) =
      elim (Bool-cases (nat_eq (length (oldest ∷ buffer)) maxlen)) [
        | inl e ↦ rw e (oldest ∷ [], refl)
        | inr e ↦ rw e ([], refl)
      ]

  without_oldest-fits :
      (maxlen bytes : ℕ) (buffer : List L)
      → length buffer < maxlen
      → without_oldest size maxlen buffer bytes ≡ (buffer, bytes)
  unfolding without_oldest
  without_oldest-fits maxlen bytes [] room = refl
  without_oldest-fits maxlen bytes (oldest ∷ buffer) room = ground (arith, room)

  -- what is lost of the buffer and the new line stands at the front
  append-suffix :
      (item : L) (s : TeeBroadcast L)
      → s.closed ≡ false
      → (dropped : List L) × (dropped ++ (append size item s).buffer ≡ s.buffer ++ item ∷ [])
  unfolding append
  append-suffix item s unclosed =
      let (room, bytes) = without_oldest size s.tee_buffer_lines s.buffer s.buffer_bytes in
      let (oldest, before) = without_oldest-suffix s.tee_buffer_lines s.buffer_bytes s.buffer in
      let (dropped, suffix) =
        trim-suffix s.tee_buffer_bytes (bytes + size item) (room ++ item ∷ []) in
      let kept = (trim size s.tee_buffer_bytes (bytes + size item) (room ++ item ∷ [])).0 in
      rw (unclosed, append)
        (
          oldest ++ dropped,
          append_assoc oldest dropped kept
              ∙ ap (λ r. oldest ++ r) suffix
              ∙ sym (append_assoc oldest room (item ∷ []))
              ∙ ap (λ r. r ++ item ∷ []) before,
        )

  append-fits :
      (item : L) (s : TeeBroadcast L)
      → s.closed ≡ false
      → length s.buffer < s.tee_buffer_lines
      → s.buffer_bytes + size item ≤ s.tee_buffer_bytes
      → ((append size item s).buffer ≡ s.buffer ++ item ∷ [])
        × ((append size item s).buffer_bytes ≡ s.buffer_bytes + size item)
  unfolding append
  append-fits item s unclosed room light =
      rw
        (
          unclosed,
          append,
          without_oldest-fits s.tee_buffer_lines s.buffer_bytes s.buffer room,
          trim-fits s.tee_buffer_bytes (s.buffer_bytes + size item) (s.buffer ++ item ∷ []) light,
        )
        (refl, refl)

  pub append_all-open :
      (items : List L) (s : TeeBroadcast L)
      → s.closed ≡ false
      → ((append_all items s).closed ≡ false)
        × ((append_all items s).tee_buffer_lines ≡ s.tee_buffer_lines)
        × ((append_all items s).tee_buffer_bytes ≡ s.tee_buffer_bytes)
  unfolding append_all
  append_all-open [] s unclosed = (unclosed, refl, refl)
  append_all-open (item ∷ items) s unclosed =
      let (still, lines, bytes, followers, left) = append-unclosed item s unclosed in
      let (open_still, all_lines, all_bytes) = append_all-open items (append size item s) still in
      (open_still, all_lines ∙ lines, all_bytes ∙ bytes)

  append_all-suffix :
      (items : List L) (s : TeeBroadcast L)
      → s.closed ≡ false
      → (dropped : List L) × (dropped ++ (append_all items s).buffer ≡ s.buffer ++ items)
  unfolding append_all
  append_all-suffix [] s unclosed = ([], sym (append-nil s.buffer))
  append_all-suffix (item ∷ items) s unclosed =
      let still = (append-unclosed item s unclosed).0 in
      let (first, one) = append-suffix item s unclosed in
      let (more, rest) = append_all-suffix items (append size item s) still in
      (
        first ++ more,
        append_assoc first more (append_all items (append size item s)).buffer
            ∙ ap (λ r. first ++ r) rest
            ∙ sym (append_assoc first (append size item s).buffer items)
            ∙ ap (λ r. r ++ items) one
            ∙ append_assoc s.buffer (item ∷ []) items,
      )

  append_all-fits :
      (items : List L) (s : TeeBroadcast L)
      → s.closed ≡ false
      → length s.buffer + length items ≤ s.tee_buffer_lines
      → s.buffer_bytes + total size items ≤ s.tee_buffer_bytes
      → (append_all items s).buffer ≡ s.buffer ++ items
  unfolding append_all total
  append_all-fits [] s unclosed short light = sym (append-nil s.buffer)
  append_all-fits (item ∷ items) s unclosed short light =
      let (still, lines, bytes, followers, left) = append-unclosed item s unclosed in
      let (buffer, counted) = append-fits item s unclosed (omega arith) (omega arith) in
      let longer = ap (λ (b : List L). length b) buffer ∙ length-append s.buffer (item ∷ []) in
      append_all-fits items (append size item s) still (omega (arith, lines, longer))
        (omega (arith, bytes, counted))
      ∙ ap (λ r. r ++ items) buffer
      ∙ append_assoc s.buffer (item ∷ []) items

  -- the lines do not all fit behind those of the buffer
  abbrev pub overflows : List L → TeeBroadcast L → Bool
  overflows items s =
      ltb s.tee_buffer_lines (length s.buffer + length items)
      || ltb s.tee_buffer_bytes (s.buffer_bytes + total size items)

  -- what a reader is given to replay: the last of the lines, all of them if they fit
  pub append_all-replay :
      (items : List L) (s : TeeBroadcast L)
      → s.closed ≡ false
      → (dropped : List L) × (dropped ++ (append_all items s).buffer ≡ s.buffer ++ items)
        × ((dropped ≡ []) ⊎ (overflows items s ≡ true))
  append_all-replay items s unclosed = elim (Bool-cases (overflows items s)) [
    | inl over ↦
        let (dropped, suffix) = append_all-suffix items s unclosed in (dropped, suffix, inr over)
    | inr fits ↦ (
      [],
      append_all-fits items s unclosed (ground (arith, fits)) (ground (arith, fits)),
      inl refl,
    )
  ]
