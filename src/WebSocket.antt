-- ===== src/WebSocket.antt =====
-- debug_manager.py, the WebSocket frames of the debug stream: `_ws_frame_text`, `_read_exact` and
-- `_ws_read_frame`. A byte is a number below 256.
pub mod Bytes
pub mod Reading
pub mod Frames
pub mod Masking
use heimdall_gateway.Prelude.{◌>>=◌}
use heimdall_gateway.Prelude.{
  ℕ, zero, suc, ◌+◌, ◌-◌, ◌*◌, ◌/◌, ◌%◌, Bool, true, false, Option, none, some, List, [], ◌∷◌, ◌++◌,
  ltb, leb, nat_eq, if◌then◌else◌, nat_key, string_key, length, is_empty, take, drop,
}

abbrev pub ByteList : Type 0
ByteList = List ℕ

-- What `recv` gives in turn: the pieces in which the peer's bytes arrive. An empty piece, or the end
-- of the list, is a connection that the peer has closed.
abbrev pub Connection : Type 0
Connection = List ByteList

-- what is left of the first piece
abbrev pub pushed_back : ByteList → Connection → Connection
pushed_back [] pieces = pieces
pushed_back (b ∷ bytes) pieces = (b ∷ bytes) ∷ pieces

-- `connection.recv(n)`: at most n bytes of the piece that is there
unfoldable pub recv : ℕ → Connection → ByteList × Connection
unfolding take drop
recv n [] = ([], [])
recv n ([] ∷ pieces) = ([], [] ∷ pieces)
recv n ((b ∷ piece) ∷ pieces) = (take n (b ∷ piece), pushed_back (drop n (b ∷ piece)) pieces)

-- the loop of `_read_exact`, on fuel; `none` means that the fuel ran out
unfoldable pub read_loop : ℕ → ℕ → ByteList → Connection → Option (ByteList × Connection)
unfolding recv
read_loop zero size chunks c = none
read_loop (suc fuel) size chunks c =
    let (piece, rest) = recv (size - length chunks) c in
    let more = read_loop fuel size (chunks ++ piece) rest in
    if leb size (length chunks)
    then some (chunks, c)
    else if is_empty piece
    then some (chunks, rest)
    else more

-- each round but the last reads a byte at least, so one more round than bytes is enough
unfoldable pub read_exact : ℕ → Connection → Option (ByteList × Connection)
unfolding read_loop
read_exact size c = read_loop (suc size) size [] c

-- `struct.pack` of an unsigned number in k bytes, the most significant first
unfoldable pub big_endian : ℕ → ℕ → ByteList
big_endian zero n = []
big_endian (suc k) n = big_endian k (n / 256) ++ n % 256 ∷ []

-- `struct.unpack` of such bytes, behind those that were read before
unfoldable pub unpacked : ℕ → ByteList → ℕ
unpacked n [] = n
unpacked n (b ∷ bytes) = unpacked (n * 256 + b) bytes

-- `_ws_frame_text`, on the UTF-8 bytes of the text
unfoldable pub ws_frame_text : ByteList → ByteList
unfolding big_endian
ws_frame_text payload =
    let size = length payload in
    if ltb size 126
    then 129 ∷ size ∷ payload
    else if ltb size 65536
    then 129 ∷ 126 ∷ big_endian 2 size ++ payload
    else 129 ∷ 127 ∷ big_endian 8 size ++ payload

-- `a ^ b` on numbers of k bits
unfoldable pub xor_bits : ℕ → ℕ → ℕ → ℕ
xor_bits zero a b = 0
xor_bits (suc k) a b = (a % 2 + b % 2) % 2 + 2 * xor_bits k (a / 2) (b / 2)

-- `bytes(byte ^ mask_key[index % 4] for ...)`: the key is turned by one at each byte
unfoldable pub unmask : ByteList → ByteList → ByteList
unfolding xor_bits
unmask key [] = []
unmask [] (b ∷ bytes) = b ∷ unmask [] bytes
unmask (m ∷ key) (b ∷ bytes) = xor_bits 8 b m ∷ unmask (key ++ m ∷ []) bytes

pub record Frame : Type 0 where
  pub opcode : ℕ
  pub payload : ByteList

-- what is read next: too few bytes end the frame, and `none` inside is Python's None
abbrev pub Reply : Type 0
Reply = Option (Option Frame × Connection)

-- `_read_exact(connection, 4) if masked else b""`
unfoldable pub read_key : Bool → Connection → Option (ByteList × Connection)
unfolding read_exact
read_key true c = read_exact 4 c
read_key false c = some ([], c)

-- `_read_exact(connection, int(length)) if length else b""`
unfoldable pub read_data : ℕ → Connection → Option (ByteList × Connection)
unfolding read_exact
read_data zero c = some ([], c)
read_data (suc n) c = read_exact (suc n) c

-- the mask key and the payload, once the length is known
unfoldable pub read_payload : ℕ → Bool → ℕ → Connection → Reply
unfolding read_key read_data unmask
read_payload opcode masked size c = do
  (key, c1) ← read_key masked c
  (payload, c2) ← read_data size c1
  some (some (record { opcode = opcode; payload = unmask key payload }), c2)

-- the extended length of k bytes
unfoldable pub read_length : ℕ → ℕ → Bool → Connection → Reply
unfolding read_exact read_payload unpacked
read_length k opcode masked c = do
  (raw, c1) ← read_exact k c
  if ltb (length raw) k then some (none, c1) else read_payload opcode masked (unpacked 0 raw) c1

unfoldable pub read_header : ByteList → Connection → Reply
unfolding read_length read_payload
read_header (first ∷ second ∷ []) c =
    let size = second % 128 in
    let masked = leb 128 second in
    if nat_eq size 126
    then read_length 2 (first % 16) masked c
    else if nat_eq size 127
    then read_length 8 (first % 16) masked c
    else read_payload (first % 16) masked size c
read_header header c = some (none, c)

unfoldable pub ws_read_frame : Connection → Reply
unfolding read_exact read_header
ws_read_frame c = do (header, c1) ← read_exact 2 c; read_header header c1
