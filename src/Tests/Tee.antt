-- ===== src/Tests/Tee.antt =====
-- `TeeBroadcast` at concrete inputs: a line is its number of bytes.
use heimdall_gateway.Prelude.{
  ℕ, ◌≡◌, refl, ◌⊎◌, inl, true, false, none, some, List, [], ◌∷◌, ◌++◌, arith, nat_key, string_key,
}
use heimdall_gateway.Dict.{get, put}
use heimdall_gateway.Tee.{
  line, TeeBroadcast, put_done, leave_all, close, subscribe, trim, without_oldest, append,
  take_item, give_back, receive,
}
use heimdall_gateway.Tee.Bounds.{total, IsBounded, append-IsBounded}
use heimdall_gateway.Tee.Buffer.{append_all, overflows}
use heimdall_gateway.Tee.Delivery.{subscribe-delivers, append-drops}

abbrev size : ℕ → ℕ
size n = n

abbrev two_lines : TeeBroadcast ℕ
two_lines = record {
  tee_buffer_lines = 2;
  tee_buffer_bytes = 100;
  buffer = 10 ∷ 20 ∷ [];
  buffer_bytes = 30;
  followers = (0, record { queue = line 10 ∷ line 20 ∷ []; bytes = 30 }) ∷ [];
  left = [];
  next_id = 1;
  closed = false;
}

third_replaces_first : (append size 95 two_lines).buffer ≡ 95 ∷ []
unfolding append trim without_oldest
third_replaces_first = refl

closing_a_full_queue : (close two_lines).left ≡ (0, line 10 ∷ line 20 ∷ []) ∷ []
unfolding close leave_all put_done put
closing_a_full_queue = refl

reading_gives_back :
    (receive size 0 two_lines).0.followers ≡ (0, record { queue = line 20 ∷ []; bytes = 20 }) ∷ []
unfolding receive take_item give_back get put
reading_gives_back = refl

append-IsBounded_example : IsBounded size (append size 95 two_lines)
unfolding total
append-IsBounded_example = append-IsBounded size 95 two_lines (record {
  has_room = omega arith;
  in_lines = omega arith;
  is_counted = refl;
  in_bytes = inl (omega arith);
})

subscribe-delivers_example :
    (dropped : List ℕ) × (dropped ++ (subscribe (append_all size (7 ∷ []) two_lines)).1
      ≡ 10 ∷ 20 ∷ 7 ∷ [])
    × ((dropped ≡ []) ⊎ (overflows size (7 ∷ []) two_lines ≡ true))
    × ((subscribe (append_all size (7 ∷ []) two_lines)).2
        ≡ some (append_all size (7 ∷ []) two_lines).next_id)
    × (get
          (append_all size
            (5 ∷ 6 ∷ [])
            (subscribe (append_all size (7 ∷ []) two_lines)).0).followers
          (append_all size (7 ∷ []) two_lines).next_id
        ≡ some (record { queue = line 5 ∷ line 6 ∷ []; bytes = 11 }))
unfolding total
subscribe-delivers_example =
    subscribe-delivers size (7 ∷ []) (5 ∷ 6 ∷ []) two_lines refl (omega arith) (omega arith)

append-drops_example :
    (get (append size 95 two_lines).followers 0 ≡ none)
    × (get (append size 95 two_lines).left 0 ≡ some (line 10 ∷ line 20 ∷ []))
unfolding get
append-drops_example =
    append-drops size 95 0 (record { queue = line 10 ∷ line 20 ∷ []; bytes = 30 }) two_lines refl
      (refl, tt) refl (omega arith)
