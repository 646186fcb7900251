-- ===== src/WebSocket/Frames.antt =====
-- debug_manager.py, `_ws_read_frame` against a reader of frames that has all bytes at hand, and the
-- frames of `_ws_frame_text` read back.
use heimdall_gateway.Prelude.{
  ℕ, zero, suc, ◌%◌, ◌<◌, ◌≡◌, refl, ap, ◌∙◌, inl, inr, Bool, true, false, Option, none, some, [],
  ◌∷◌, ◌++◌, arith, ltb, leb, nat_eq, if◌then◌else◌, ltb→lt, Bool-cases, nat_key, string_key,
  length, take, drop,
}
use heimdall_gateway.WebSocket.{
  ByteList, Connection, big_endian, unpacked, ws_frame_text, unmask, Frame, Reply, read_key,
  read_data, read_payload, read_length, read_header, ws_read_frame,
}
use heimdall_gateway.WebSocket.Bytes.{
  length-big_endian, capacity, unpacked-big_endian, take-append, drop-append,
}
use heimdall_gateway.WebSocket.Reading.{arriving, read_exact_total}

-- the frame at the head of the bytes, and the bytes behind it
unfoldable pub parse_payload : ℕ → Bool → ℕ → ByteList → Option Frame × ByteList
parse_payload opcode true size bytes = (
  some (record { opcode = opcode; payload = unmask (take 4 bytes) (take size (drop 4 bytes)) }),
  drop size (drop 4 bytes),
)
parse_payload opcode false size bytes =
    (some (record { opcode = opcode; payload = unmask [] (take size bytes) }), drop size bytes)

unfoldable pub parse_length : ℕ → ℕ → Bool → ByteList → Option Frame × ByteList
unfolding parse_payload
parse_length k opcode masked bytes =
    if ltb (length (take k bytes)) k
    then (none, drop k bytes)
    else parse_payload opcode masked (unpacked 0 (take k bytes)) (drop k bytes)

unfoldable pub parse_header : ByteList → ByteList → Option Frame × ByteList
unfolding parse_length parse_payload
parse_header (first ∷ second ∷ []) bytes =
    if nat_eq (second % 128) 126
    then parse_length 2 (first % 16) (leb 128 second) bytes
    else if nat_eq (second % 128) 127
    then parse_length 8 (first % 16) (leb 128 second) bytes
    else parse_payload (first % 16) (leb 128 second) (second % 128) bytes
parse_header header bytes = (none, bytes)

unfoldable pub parse_frame : ByteList → Option Frame × ByteList
unfolding parse_header
parse_frame bytes = parse_header (take 2 bytes) (drop 2 bytes)

-- the reader answers what the parser does, and leaves the bytes that the parser leaves
abbrev pub Refines : Reply → Option Frame × ByteList → Type 0
Refines reply parsed =
    (rest : Connection) × (reply ≡ some (parsed.0, rest)) × (arriving rest ≡ parsed.1)

key_refines :
    (masked : Bool) (c : Connection)
    → (rest : Connection) × (read_key masked c
        ≡ some ((if masked then take 4 (arriving c) else []), rest))
      × (arriving rest ≡ (if masked then drop 4 (arriving c) else arriving c))
unfolding read_key
key_refines true c = read_exact_total 4 c
key_refines false c = (c, refl, refl)

data_refines :
    (size : ℕ) (c : Connection)
    → (rest : Connection) × (read_data size c ≡ some (take size (arriving c), rest))
      × (arriving rest ≡ drop size (arriving c))
unfolding read_data take drop
data_refines zero c = (c, refl, refl)
data_refines (suc n) c = read_exact_total (suc n) c

payload-Refines :
    (opcode : ℕ) (masked : Bool) (size : ℕ) (c : Connection)
    → Refines (read_payload opcode masked size c) (parse_payload opcode masked size (arriving c))
unfolding read_payload parse_payload
payload-Refines opcode true size c =
    let (c1, key, after_key) = key_refines true c in
    let (c2, read, after) = data_refines size c1 in
    (c2, rw (read_payload, key, read, after_key) refl, after ∙ ap (drop size) after_key)
payload-Refines opcode false size c =
    let (c2, read, after) = data_refines size c in
    (c2, rw (read_payload, read_key, read) refl, after)

length-Refines :
    (k opcode : ℕ) (masked : Bool) (c : Connection)
    → Refines (read_length k opcode masked c) (parse_length k opcode masked (arriving c))
unfolding read_length parse_length
length-Refines k opcode masked c =
    let (c1, read, after) = read_exact_total k c in
    elim (Bool-cases (ltb (length (take k (arriving c))) k)) [
      | inl short ↦ rw short (c1, rw (read_length, read, short) refl, after)
      | inr enough ↦
          let (c2, frame, rest) =
            payload-Refines opcode masked (unpacked 0 (take k (arriving c))) c1 in
          rw (enough) (c2, rw (read_length, read, enough, frame, after) refl, rest ∙ rw after refl)
    ]

header-Refines :
    (header : ByteList) (c : Connection)
    → Refines (read_header header c) (parse_header header (arriving c))
unfolding read_header parse_header
header-Refines [] c = (c, refl, refl)
header-Refines (first ∷ []) c = (c, refl, refl)
header-Refines (first ∷ second ∷ []) c = elim (Bool-cases (nat_eq (second % 128) 126)) [
  | inl two ↦ rw two (length-Refines 2 (first % 16) (leb 128 second) c)
  | inr e ↦ elim (Bool-cases (nat_eq (second % 128) 127)) [
    | inl eight ↦ rw (e, eight) (length-Refines 8 (first % 16) (leb 128 second) c)
    | inr f ↦ rw (e, f) (payload-Refines (first % 16) (leb 128 second) (second % 128) c)
  ]
]
header-Refines (first ∷ second ∷ third ∷ header) c = (c, refl, refl)

-- In whatever pieces the bytes arrive, reading a frame ends, and answers what a parser answers that has
-- all bytes at hand; it leaves the bytes behind the frame for the next.
pub ws_read_frame-Refines : (c : Connection) → Refines (ws_read_frame c) (parse_frame (arriving c))
unfolding ws_read_frame parse_frame
ws_read_frame-Refines c =
    let (c1, header, after) = read_exact_total 2 c in
    let (c2, frame, rest) = header-Refines (take 2 (arriving c)) c1 in
    (c2, rw (ws_read_frame, header, frame, after) refl, rest ∙ rw after refl)

unmask_plain : (bytes : ByteList) → unmask [] bytes ≡ bytes
unfolding unmask
unmask_plain [] = refl
unmask_plain (b ∷ bytes) = ap (λ rest. b ∷ rest) (unmask_plain bytes)

-- the frame of a text with these bytes
abbrev pub text_frame : ByteList → Frame
text_frame payload = record { opcode = 1; payload = payload }

parse_plain :
    (data_bytes more : ByteList)
    → parse_payload 1 false (length data_bytes) (data_bytes ++ more)
      ≡ (some (text_frame data_bytes), more)
unfolding parse_payload
parse_plain data_bytes more =
    rw (take-append data_bytes more, drop-append data_bytes more, unmask_plain data_bytes) refl

parse_sized :
    (k : ℕ) (data_bytes more : ByteList)
    → length data_bytes < capacity k
    → parse_length k 1 false (big_endian k (length data_bytes) ++ (data_bytes ++ more))
      ≡ (some (text_frame data_bytes), more)
unfolding parse_length
parse_sized k data_bytes more small =
    let size = length data_bytes in
    let head =
      rw (length-big_endian k size) at (take-append (big_endian k size) (data_bytes ++ more)) in
    let tail =
      rw (length-big_endian k size) at (drop-append (big_endian k size) (data_bytes ++ more)) in
    let enough : ltb k k ≡ false = ground arith in
    rw
      (parse_length, head, tail, length-big_endian k size, enough, unpacked-big_endian k size small)
      (parse_plain data_bytes more)

small_header :
    (n : ℕ)
    → n < 126
    → (n % 128 ≡ n) × (leb 128 n ≡ false) × (nat_eq n 126 ≡ false) × (nat_eq n 127 ≡ false)
small_header n small = (omega arith, ground arith, ground arith, ground arith)

-- A frame that was written is read back as a text frame with the same bytes, whatever follows it,
-- provided that the text has fewer bytes than 64 bits count.
parse_frame-ws_frame_text :
    (payload more : ByteList)
    → length payload < capacity 8
    → parse_frame (ws_frame_text payload ++ more) ≡ (some (text_frame payload), more)
unfolding parse_frame ws_frame_text parse_header take drop
parse_frame-ws_frame_text payload more fits =
    let size = length payload in
    elim (Bool-cases (ltb size 126)) [
      | inl short ↦
          let (same, bare, no_two, no_eight) = small_header size (ltb→lt size 126 short) in
          rw (short, same, no_two, no_eight, bare) (parse_plain payload more)
      | inr long ↦ elim (Bool-cases (ltb size 65536)) [
        | inl medium ↦ rw (long, medium) (parse_sized 2 payload more (ltb→lt size 65536 medium))
        | inr large ↦ rw (long, large) (parse_sized 8 payload more fits)
      ]
    ]

-- A text frame that arrives in whatever pieces, before whatever else, is read as what was written,
-- and the bytes behind it are left, provided that the text has fewer bytes than 64 bits count.
pub ws_read_frame-ws_frame_text :
    (payload more : ByteList) (c : Connection)
    → length payload < capacity 8
    → arriving c ≡ ws_frame_text payload ++ more
    → (rest : Connection) × (ws_read_frame c ≡ some (some (text_frame payload), rest))
      × (arriving rest ≡ more)
ws_read_frame-ws_frame_text payload more c fits comes =
    let (rest, reads, leaves) = ws_read_frame-Refines c in
    let parsed = ap parse_frame comes ∙ parse_frame-ws_frame_text payload more fits in
    (rest, reads ∙ rw parsed refl, leaves ∙ rw parsed refl)
