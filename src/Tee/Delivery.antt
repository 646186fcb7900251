-- ===== src/Tee/Delivery.antt =====
-- dedup.py, `TeeBroadcast`: what reaches a reader.
use heimdall_gateway.Prelude.{
  ℕ, ◌+◌, ◌≤◌, ◌<◌, ◌≡◌, refl, sym, ap, ◌∙◌, ◌⊎◌, true, false, none, some, List, [], ◌∷◌, ◌++◌, map,
  arith, nat_eq_iff, nat_key, string_key, ==_refl, length, length-append,
}
use heimdall_gateway.Dict.{Dict, get, put, get-put}
use heimdall_gateway.Tee.{
  Item, line, Follower, TeeBroadcast, put_done, subscribe, keeps_up, deliver, drop_slow, append,
}
use heimdall_gateway.Tee.Bounds.{total}
use heimdall_gateway.Tee.Buffer.{
  append_all, append-unclosed, append_all-open, overflows, append_all-replay,
}

module _ {L : Type 0} (size : L → ℕ) where
  abbrev pub received : Follower L → L → Follower L
  received f item = record { queue = f.queue ++ line item ∷ []; bytes = f.bytes + size item }

  get-deliver :
      (s : TeeBroadcast L) (item : L) (fid : ℕ) (f : Follower L) (followers : Dict ℕ (Follower L))
      → get followers fid ≡ some f
      → keeps_up size s item f ≡ true
      → get (deliver size s item followers) fid ≡ some (received f item)
  unfolding deliver get
  get-deliver s item fid f [] found quick = cc
  get-deliver s item fid f ((j, g) ∷ followers) found quick =
      ground (arith, found, quick, get-deliver s item fid f followers)

  get-drop_slow :
      (s : TeeBroadcast L) (item : L) (fid : ℕ) (f : Follower L) (followers : Dict ℕ (Follower L))
      (left : Dict ℕ (List (Item L)))
      → get followers fid ≡ some f
      → keeps_up size s item f ≡ false
      → get (drop_slow size s item followers left) fid ≡ some (put_done s.tee_buffer_lines f.queue)
  unfolding drop_slow get
  get-drop_slow s item fid f [] left found slow = cc
  get-drop_slow s item fid f ((j, g) ∷ followers) left found slow = ground (
    arith,
    found,
    slow,
    get-drop_slow s item fid f followers left,
    get-put (drop_slow size s item followers left) j fid (put_done s.tee_buffer_lines g.queue),
  )

  keeps_up_fits :
      (item : L) (f : Follower L) (s : TeeBroadcast L)
      → length f.queue < s.tee_buffer_lines
      → f.bytes + size item ≤ s.tee_buffer_bytes
      → keeps_up size s item f ≡ true
  unfolding keeps_up
  keeps_up_fits item f s short light = ground arith

  append_nil : (q : List (Item L)) → q ++ [] ≡ q
  append_nil [] = refl
  append_nil (x ∷ q) = ap (λ r. x ∷ r) (append_nil q)

  append_push : (q r : List (Item L)) (x : Item L) → (q ++ x ∷ []) ++ r ≡ q ++ x ∷ r
  append_push [] r x = refl
  append_push (y ∷ q) r x = ap (λ p. y ∷ p) (append_push q r x)

  abbrev pub follower : List (Item L) → ℕ → Follower L
  follower queue bytes = record { queue = queue; bytes = bytes }

  cong_follower : {q r : List (Item L)} {a b : ℕ} → q ≡ r → a ≡ b → follower q a ≡ follower r b
  cong_follower e h = cc

  append_all-delivers :
      (items : List L) (fid : ℕ) (f : Follower L) (s : TeeBroadcast L)
      → s.closed ≡ false
      → get s.followers fid ≡ some f
      → length f.queue + length items ≤ s.tee_buffer_lines
      → f.bytes + total size items ≤ s.tee_buffer_bytes
      → get (append_all size items s).followers fid
        ≡ some (record { queue = f.queue ++ map line items; bytes = f.bytes + total size items })
  unfolding append_all total
  append_all-delivers [] fid f s unclosed found short light =
      found ∙ ap some (cong_follower (sym (append_nil f.queue)) (omega arith))
  append_all-delivers (item ∷ items) fid f s unclosed found short light =
      let (still, lines, bytes, delivered, others) = append-unclosed size item s unclosed in
      append_all-delivers items fid (received f item) (append size item s) still
        (ap (λ followers. get followers fid) delivered
          ∙ get-deliver s item fid f s.followers found
              (keeps_up_fits item f s (omega arith) (omega arith)))
        (omega (arith, lines, length-append f.queue (line item ∷ []))) (omega (arith, bytes))
      ∙ ap some (cong_follower (append_push f.queue (map line items) (line item)) (omega arith))

  abbrev joined : TeeBroadcast L → TeeBroadcast L
  joined s = record s {
    next_id = s.next_id + 1;
    followers = put s.followers s.next_id (follower [] 0);
  }

  subscribe-joined :
      (s : TeeBroadcast L) → s.closed ≡ false → subscribe s ≡ (joined s, s.buffer, some s.next_id)
  unfolding subscribe
  subscribe-joined s unclosed = ground (arith, unclosed)

  -- one more reader on an open broadcast, and the lines that follow
  joined-delivers :
      (items : List L) (s : TeeBroadcast L)
      → s.closed ≡ false
      → length items ≤ s.tee_buffer_lines
      → total size items ≤ s.tee_buffer_bytes
      → ((subscribe s).1 ≡ s.buffer)
        × ((subscribe s).2 ≡ some s.next_id)
        × (get (append_all size items (subscribe s).0).followers s.next_id
            ≡ some (record { queue = map line items; bytes = total size items }))
  joined-delivers items s unclosed short light = rw (subscribe-joined s unclosed) (
    refl,
    refl,
    append_all-delivers items s.next_id (follower [] 0) (joined s) unclosed
          (get-put s.followers s.next_id s.next_id (follower [] 0)
            ∙ ground (arith, ==_refl s.next_id))
          (omega arith) (omega arith)
        ∙ ap some (cong_follower refl (omega arith)),
  )

  -- A reader that subscribes while the broadcast is open, after any lines, is given to replay a last
  -- part of the lines that the buffer held before and these lines, in order, and all of them if they
  -- fit the buffer, by number and by bytes. Then it loses no line and gets none twice: as long as the
  -- lines that follow fit its queue, and it has read none yet, its queue holds exactly them, in order.
  pub subscribe-delivers :
      (earlier items : List L) (s : TeeBroadcast L)
      → s.closed ≡ false
      → length items ≤ s.tee_buffer_lines
      → total size items ≤ s.tee_buffer_bytes
      → let t = append_all size earlier s in
        (dropped : List L) × (dropped ++ (subscribe t).1 ≡ s.buffer ++ earlier)
        × ((dropped ≡ []) ⊎ (overflows size earlier s ≡ true))
        × ((subscribe t).2 ≡ some t.next_id)
        × (get (append_all size items (subscribe t).0).followers t.next_id
            ≡ some (record { queue = map line items; bytes = total size items }))
  subscribe-delivers earlier items s unclosed short light =
      let t = append_all size earlier s in
      let (still, lines, bytes) = append_all-open size earlier s unclosed in
      let (dropped, suffix, fits) = append_all-replay size earlier s unclosed in
      let (replayed, known, delivered) =
        joined-delivers items t still (omega (arith, lines)) (omega (arith, bytes)) in
      (dropped, ap (λ r. dropped ++ r) replayed ∙ suffix, fits, known, delivered)

  -- each key stands once, as in a dict
  abbrev pub IsDict : Dict ℕ (Follower L) → Type 0
  IsDict [] = Unit
  IsDict ((j, f) ∷ followers) = (get followers j ≡ none) × IsDict followers

  deliver-none :
      (s : TeeBroadcast L) (item : L) (fid : ℕ) (followers : Dict ℕ (Follower L))
      → get followers fid ≡ none
      → get (deliver size s item followers) fid ≡ none
  unfolding deliver get
  deliver-none s item fid [] absent = refl
  deliver-none s item fid ((j, g) ∷ followers) absent =
      ground (arith, absent, deliver-none s item fid followers)

  deliver-slow :
      (s : TeeBroadcast L) (item : L) (fid : ℕ) (f : Follower L) (followers : Dict ℕ (Follower L))
      → IsDict followers
      → get followers fid ≡ some f
      → keeps_up size s item f ≡ false
      → get (deliver size s item followers) fid ≡ none
  unfolding deliver get
  deliver-slow s item fid f [] single found slow = refl
  deliver-slow s item fid f ((j, g) ∷ followers) (once, single) found slow = ground (
    arith,
    found,
    slow,
    once,
    nat_eq_iff j fid,
    deliver-none s item fid followers,
    deliver-slow s item fid f followers single,
  )

  -- On an open broadcast whose readers each stand once, a reader whose queue holds as many lines as the
  -- limit when a line comes is dropped: it is no follower any more, and what is left to it is the
  -- queue as it was, with no sentinel.
  pub append-drops :
      (item : L) (fid : ℕ) (f : Follower L) (s : TeeBroadcast L)
      → s.closed ≡ false
      → IsDict s.followers
      → get s.followers fid ≡ some f
      → s.tee_buffer_lines ≤ length f.queue
      → (get (append size item s).followers fid ≡ none)
        × (get (append size item s).left fid ≡ some f.queue)
  unfolding keeps_up put_done
  append-drops item fid f s unclosed single found full =
      let (still, lines, bytes, delivered, others) = append-unclosed size item s unclosed in
      let slow : keeps_up size s item f ≡ false = ground arith in
      (
        ap (λ followers. get followers fid) delivered
            ∙ deliver-slow s item fid f s.followers single found slow,
        ap (λ left. get left fid) others
            ∙ get-drop_slow s item fid f s.followers s.left found slow
            ∙ ground arith,
      )
