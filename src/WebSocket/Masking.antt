-- ===== src/WebSocket/Masking.antt =====
-- debug_manager.py, `_ws_read_frame`: the mask of a client's frame.
use mathlib.Core.List.{append_assoc}
use heimdall_gateway.Prelude.{
  ℕ, zero, suc, ◌+◌, ◌*◌, ◌/◌, ◌%◌, ◌<◌, ◌≡◌, refl, ap, true, false, some, [], ◌∷◌, ◌++◌, arith,
  leb, nat_eq, nat_key, string_key, length, take, drop, All,
}
use heimdall_gateway.WebSocket.{ByteList, xor_bits, unmask}
use heimdall_gateway.WebSocket.Bytes.{take-append, drop-append}
use heimdall_gateway.WebSocket.Frames.{parse_header, parse_frame, text_frame}

low_bit : (a b r : ℕ) → (((a % 2 + b % 2) % 2 + 2 * r) % 2 + b % 2) % 2 ≡ a % 2
low_bit a b r = omega arith

high_bits : (a b r : ℕ) → ((a % 2 + b % 2) % 2 + 2 * r) / 2 ≡ r
high_bits a b r = omega arith

-- the numbers of k bits
abbrev pub bit_capacity : ℕ → ℕ
bit_capacity zero = 1
bit_capacity (suc k) = 2 * bit_capacity k

xor_bits-xor_bits : (k a b : ℕ) → a < bit_capacity k → xor_bits k (xor_bits k a b) b ≡ a
unfolding xor_bits
xor_bits-xor_bits zero a b small = omega arith
xor_bits-xor_bits (suc k) a b small =
    let r = xor_bits k (a / 2) (b / 2) in
    rw (low_bit a b r, high_bits a b r, xor_bits-xor_bits k (a / 2) (b / 2) (omega arith))
      (omega arith)

-- A peer that masks its payload by a key as the reader takes the mask off: the reader finds what the
-- peer had, for whatever key, if the payload is of bytes.
pub unmask-unmask :
    (bytes key : ByteList) → All (λ b. b < 256) bytes → unmask key (unmask key bytes) ≡ bytes
unfolding unmask
unmask-unmask [] key small = refl
unmask-unmask (b ∷ bytes) [] (small, rest) = ap (λ more. b ∷ more) (unmask-unmask bytes [] rest)
unmask-unmask (b ∷ bytes) (m ∷ key) (small, rest) =
    rw (xor_bits-xor_bits 8 b m small, unmask-unmask bytes (key ++ m ∷ []) rest) refl

length-unmask : (key bytes : ByteList) → length (unmask key bytes) ≡ length bytes
unfolding unmask
length-unmask key [] = refl
length-unmask [] (b ∷ bytes) = ap suc (length-unmask [] bytes)
length-unmask (m ∷ key) (b ∷ bytes) = ap suc (length-unmask (key ++ m ∷ []) bytes)

-- the short text frame of a client, with its mask
abbrev pub masked_frame : ByteList → ByteList → ByteList
masked_frame key payload = 129 ∷ (128 + length payload) ∷ key ++ unmask key payload

masked_header :
    (n : ℕ)
    → n < 126
    → ((128 + n) % 128 ≡ n)
      × (leb 128 (128 + n) ≡ true)
      × (nat_eq n 126 ≡ false)
      × (nat_eq n 127 ≡ false)
masked_header n small = (omega arith, ground arith, ground arith, ground arith)

-- A client's short text frame, masked by a key of four bytes, is parsed to the text that the client had,
-- and the bytes behind it are left.
pub parse_frame-masked_frame :
    (payload key more : ByteList)
    → All (λ b. b < 256) payload
    → length key ≡ 4
    → length payload < 126
    → parse_frame (masked_frame key payload ++ more) ≡ (some (text_frame payload), more)
unfolding parse_frame parse_header take drop
parse_frame-masked_frame payload key more small four short =
    let size = length payload in
    let (same, masked, no_two, no_eight) = masked_header size short in
    let sent = unmask key payload in
    let key_first = rw four at (take-append key (sent ++ more)) in
    let key_after = rw four at (drop-append key (sent ++ more)) in
    let sent_first = rw (length-unmask key payload) at (take-append sent more) in
    let sent_after = rw (length-unmask key payload) at (drop-append sent more) in
    rw
      (
        same,
        no_two,
        no_eight,
        masked,
        append_assoc key sent more,
        key_first,
        key_after,
        sent_first,
        sent_after,
        unmask-unmask payload key small,
      )
      refl
