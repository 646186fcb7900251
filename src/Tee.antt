-- ===== src/Tee.antt =====
-- dedup.py: `TeeBroadcast`. Each method holds the lock, so each is one step, and so are the locked
-- parts of the generator `subscribe_replay_then_live`. `size` is the number of bytes of a line. A
-- queue that is no longer registered is still held by its reader: it is kept in `left`. The two
-- dicts `_followers` and `_follower_bytes`, which have the same keys, are one.
pub mod Bounds
pub mod Buffer
pub mod Delivery
use heimdall_gateway.Prelude.{
  ℕ, ◌+◌, ◌-◌, max, Bool, true, false, not, ◌&&◌, ◌||◌, Option, none, some, List, [], ◌∷◌, ◌++◌,
  ltb, leb, nat_eq, if◌then◌else◌, nat_key, string_key, length, is_empty,
}
use heimdall_gateway.Dict.{Dict, get, put}

-- an item of a queue: a line, or _DONE_SENTINEL
pub data Item (L : Type 0) : Type 0 where
  line : L → Item L
  done : Item L

pub record Follower (L : Type 0) : Type 0 where
  pub queue : List (Item L)
  pub bytes : ℕ

pub record TeeBroadcast (L : Type 0) : Type 0 where
  pub tee_buffer_lines : ℕ
  pub tee_buffer_bytes : ℕ
  pub buffer : List L
  pub buffer_bytes : ℕ
  pub followers : Dict ℕ (Follower L)
  pub left : Dict ℕ (List (Item L))
  pub next_id : ℕ
  pub closed : Bool

-- what a reader meets when it takes from its queue
pub data Received (L : Type 0) : Type 0 where
  waits ends ends_done : Received L
  gets : L → Received L
  gets_last : L → Received L

unfoldable pub new_tee : {L : Type 0} → ℕ → ℕ → TeeBroadcast L
new_tee tee_buffer_lines tee_buffer_bytes = record {
  tee_buffer_lines = max 1 tee_buffer_lines;
  tee_buffer_bytes = max 1 tee_buffer_bytes;
  buffer = [];
  buffer_bytes = 0;
  followers = [];
  left = [];
  next_id = 0;
  closed = false;
}

-- q.put_nowait(_DONE_SENTINEL), where queue.Full is passed over
unfoldable pub put_done : {L : Type 0} → ℕ → List (Item L) → List (Item L)
put_done maxsize q = if leb maxsize (length q) then q else q ++ done ∷ []

-- the queues of all followers, with the sentinel where there is room
unfoldable pub leave_all :
    {L : Type 0} → ℕ → Dict ℕ (Follower L) → Dict ℕ (List (Item L)) → Dict ℕ (List (Item L))
unfolding put_done
leave_all maxsize [] left = left
leave_all maxsize ((fid, f) ∷ followers) left =
    put (leave_all maxsize followers left) fid (put_done maxsize f.queue)

unfoldable pub close : {L : Type 0} → TeeBroadcast L → TeeBroadcast L
unfolding leave_all
close s = if s.closed then s else record s {
  closed = true;
  left = leave_all s.tee_buffer_lines s.followers s.left;
  followers = [];
}

-- the locked part of `subscribe_replay_then_live`: what is replayed, and the id unless it is closed
unfoldable pub subscribe : {L : Type 0} → TeeBroadcast L → TeeBroadcast L × List L × Option ℕ
subscribe s = if s.closed then (s, s.buffer, none) else (
  record s {
    next_id = s.next_id + 1;
    followers = put s.followers s.next_id (record { queue = []; bytes = 0 });
  },
  s.buffer,
  some s.next_id,
)

module _ {L : Type 0} (size : L → ℕ) where
  -- while self._buffer_bytes > self._tee_buffer_bytes and len(self._buffer) > 1
  unfoldable pub trim : ℕ → ℕ → List L → List L × ℕ
  trim limit bytes [] = ([], bytes)
  trim limit bytes (x ∷ []) = (x ∷ [], bytes)
  trim limit bytes (x ∷ y ∷ rest) =
      let trimmed = trim limit (bytes - size x) (y ∷ rest) in
      if ltb limit bytes then trimmed else (x ∷ y ∷ rest, bytes)

  -- a deque with maxlen drops its oldest item when it is full
  unfoldable pub without_oldest : ℕ → List L → ℕ → List L × ℕ
  without_oldest maxlen [] bytes = ([], bytes)
  without_oldest maxlen (oldest ∷ buffer) bytes =
      if nat_eq (length (oldest ∷ buffer)) maxlen
      then (buffer, bytes - size oldest)
      else (oldest ∷ buffer, bytes)

  -- neither the queue nor its bytes are over the limit
  unfoldable pub keeps_up : TeeBroadcast L → L → Follower L → Bool
  keeps_up s item f =
      not (leb s.tee_buffer_lines (length f.queue) || ltb s.tee_buffer_bytes (f.bytes + size item))

  unfoldable pub deliver : TeeBroadcast L → L → Dict ℕ (Follower L) → Dict ℕ (Follower L)
  unfolding keeps_up
  deliver s item [] = []
  deliver s item ((fid, f) ∷ followers) =
      let rest = deliver s item followers in
      if keeps_up s item f
      then (fid, record { queue = f.queue ++ line item ∷ []; bytes = f.bytes + size item }) ∷ rest
      else rest

  -- the slow followers are dropped
  unfoldable pub drop_slow :
      TeeBroadcast L → L → Dict ℕ (Follower L) → Dict ℕ (List (Item L)) → Dict ℕ (List (Item L))
  unfolding keeps_up put_done
  drop_slow s item [] left = left
  drop_slow s item ((fid, f) ∷ followers) left =
      let rest = drop_slow s item followers left in
      if keeps_up s item f then rest else put rest fid (put_done s.tee_buffer_lines f.queue)

  unfoldable pub append : L → TeeBroadcast L → TeeBroadcast L
  unfolding trim without_oldest deliver drop_slow
  append item s =
      if s.closed
      then s
      else (let (room, bytes) = without_oldest s.tee_buffer_lines s.buffer s.buffer_bytes in
          let (buffer, buffer_bytes) =
            trim s.tee_buffer_bytes (bytes + size item) (room ++ item ∷ []) in
          record s {
            buffer = buffer;
            buffer_bytes = buffer_bytes;
            followers = deliver s item s.followers;
            left = drop_slow s item s.followers s.left;
          })

  -- what the reader of a queue meets, and the queue that it leaves; `closed` as it reads it
  unfoldable pub take_item : Bool → List (Item L) → Received L × List (Item L)
  take_item closed [] = (if closed then ends else waits, [])
  take_item closed (done ∷ q) = (ends_done, q)
  take_item closed (line item ∷ q) = (if closed && is_empty q then gets_last item else gets item, q)

  -- the bytes of a line that was taken are given back
  unfoldable pub give_back : Received L → ℕ → ℕ
  give_back (gets item) bytes = bytes - size item
  give_back (gets_last item) bytes = bytes - size item
  give_back _ bytes = bytes

  -- one turn of the live loop of follower `fid`
  unfoldable pub receive : ℕ → TeeBroadcast L → TeeBroadcast L × Received L
  unfolding take_item give_back
  receive fid s = elim (get s.followers fid) [
    | some f ↦
        let (received, q) = take_item s.closed f.queue in
        (
          record s {
            followers =
                put s.followers fid (record { queue = q; bytes = give_back received f.bytes });
          },
          received,
        )
    | none ↦ elim (get s.left fid) [
      | none ↦ (s, ends)
      | some queue ↦
          let (received, q) = take_item s.closed queue in
          (record s { left = put s.left fid q }, received)
    ]
  ]
