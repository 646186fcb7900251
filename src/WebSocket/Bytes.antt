-- ===== src/WebSocket/Bytes.antt =====
-- debug_manager.py, the WebSocket frames: numbers in bytes, and cutting lists of bytes.
use heimdall_gateway.Prelude.{
  ℕ, zero, suc, ◌+◌, ◌*◌, ◌/◌, ◌%◌, ◌<◌, ◌≡◌, refl, ap, ◌∙◌, [], ◌∷◌, ◌++◌, arith, nat_key,
  string_key, length, take, drop, length-append,
}
use heimdall_gateway.WebSocket.{ByteList, big_endian, unpacked}

pub length-big_endian : (k n : ℕ) → length (big_endian k n) ≡ k
unfolding big_endian
length-big_endian zero n = refl
length-big_endian (suc k) n =
    ground
      (arith, length-append (big_endian k (n / 256)) (n % 256 ∷ []), length-big_endian k (n / 256))

unpacked-append :
    (n b : ℕ) (bytes : ByteList) → unpacked n (bytes ++ b ∷ []) ≡ unpacked n bytes * 256 + b
unfolding unpacked
unpacked-append n b [] = refl
unpacked-append n b (c ∷ bytes) = unpacked-append (n * 256 + c) b bytes

-- the numbers that k bytes hold
abbrev pub capacity : ℕ → ℕ
capacity zero = 1
capacity (suc k) = 256 * capacity k

pub unpacked-big_endian : (k n : ℕ) → n < capacity k → unpacked 0 (big_endian k n) ≡ n
unfolding unpacked big_endian
unpacked-big_endian zero n small = omega arith
unpacked-big_endian (suc k) n small =
    unpacked-append 0 (n % 256) (big_endian k (n / 256))
    ∙ rw (unpacked-big_endian k (n / 256) (omega arith)) (omega arith)

pub take-append : (xs ys : ByteList) → take (length xs) (xs ++ ys) ≡ xs
unfolding take
take-append [] ys = refl
take-append (x ∷ xs) ys = ap (λ rest. x ∷ rest) (take-append xs ys)

pub drop-append : (xs ys : ByteList) → drop (length xs) (xs ++ ys) ≡ ys
unfolding drop
drop-append [] ys = refl
drop-append (x ∷ xs) ys = drop-append xs ys
