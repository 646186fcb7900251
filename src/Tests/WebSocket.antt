-- ===== src/Tests/WebSocket.antt =====
-- The frames of the debug stream at concrete inputs: "hi", in three pieces, and the next frame's start.
use heimdall_gateway.Prelude.{
  ◌≡◌, refl, some, [], ◌∷◌, ◌++◌, arith, nat_key, string_key, take, drop,
}
use heimdall_gateway.WebSocket.{
  Connection, recv, read_loop, read_exact, ws_frame_text, unmask, read_key, read_data, read_payload,
  read_header, ws_read_frame,
}
use heimdall_gateway.WebSocket.Reading.{arriving, read_exact_total}
use heimdall_gateway.WebSocket.Frames.{
  parse_frame, Refines, ws_read_frame-Refines, text_frame, ws_read_frame-ws_frame_text,
}

abbrev pieces_of_hi : Connection
pieces_of_hi = (129 ∷ []) ∷ (2 ∷ 104 ∷ []) ∷ (105 ∷ 129 ∷ []) ∷ []

hi_runs : ws_read_frame pieces_of_hi ≡ some (some (text_frame (104 ∷ 105 ∷ [])), (129 ∷ []) ∷ [])
unfolding ws_read_frame read_exact read_loop recv take drop read_header read_payload read_key
    read_data unmask
hi_runs = refl

cut_short : ws_read_frame ((129 ∷ 2 ∷ 104 ∷ []) ∷ []) ≡ some (some (text_frame (104 ∷ [])), [])
unfolding ws_read_frame read_exact read_loop recv take drop read_header read_payload read_key
    read_data unmask
cut_short = refl

read_exact_total_example :
    (rest : Connection) × (read_exact 2 pieces_of_hi ≡ some (take 2 (arriving pieces_of_hi), rest))
    × (arriving rest ≡ drop 2 (arriving pieces_of_hi))
read_exact_total_example = read_exact_total 2 pieces_of_hi

ws_read_frame-Refines_example :
    Refines (ws_read_frame pieces_of_hi) (parse_frame (arriving pieces_of_hi))
ws_read_frame-Refines_example = ws_read_frame-Refines pieces_of_hi

hi_arrives : arriving pieces_of_hi ≡ ws_frame_text (104 ∷ 105 ∷ []) ++ 129 ∷ []
unfolding arriving ws_frame_text
hi_arrives = refl

ws_read_frame-ws_frame_text_example :
    (rest : Connection) × (ws_read_frame pieces_of_hi
      ≡ some (some (text_frame (104 ∷ 105 ∷ [])), rest))
    × (arriving rest ≡ 129 ∷ [])
ws_read_frame-ws_frame_text_example =
    ws_read_frame-ws_frame_text (104 ∷ 105 ∷ []) (129 ∷ []) pieces_of_hi (omega arith) hi_arrives
