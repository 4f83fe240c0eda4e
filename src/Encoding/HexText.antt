-- ===== src/Encoding/HexText.antt =====
-- Hexadecimal text: what `mem2hex` prints, `hex2mem` and `hexToInt` read.
use jtag_js.Base.{
  ℕ, ◌+◌, ◌*◌, ◌/◌, ◌%◌, ◌^◌, ◌<◌, ◌≡◌, refl, ap, ap₂, ◌∙◌, arith, some, none, [], ◌∷◌, ◌++◌,
  length, Bytes, IsBytes,
}
use jtag_js.Encoding.{
  hexchar, byte_to_hex, hex, hex_to_int_loop, hex_to_int, mem2hex, hex_pair, hex2mem,
}

pub hex-hexchar : (x : ℕ) → x < 16 → hex (hexchar x) ≡ some x
unfolding hex hexchar
hex-hexchar x h = ground arith

pub hex_pair-hexchar : (b : ℕ) → b < 256 → hex_pair (hexchar (b / 16)) (hexchar (b % 16)) ≡ b
unfolding hex_pair
hex_pair-hexchar b h =
    rw (hex-hexchar (b / 16) (omega arith), hex-hexchar (b % 16) (omega arith)) (omega arith)

-- Bytes printed by `mem2hex` are read back by `hex2mem`, whatever text follows.
pub hex2mem-mem2hex :
    (mem rest : Bytes) → IsBytes mem → hex2mem (mem2hex mem (length mem) ++ rest) (length mem) ≡ mem
unfolding hex2mem mem2hex
hex2mem-mem2hex [] rest h = refl
hex2mem-mem2hex (b ∷ mem) rest (q, h) =
    rw (hex_pair-hexchar b q) (ap (◌∷◌ b) (hex2mem-mem2hex mem rest h))

-- The number that bytes stand for, the first one highest.
abbrev pub big_endian : ℕ → Bytes → ℕ
big_endian acc [] = acc
big_endian acc (b ∷ mem) = big_endian ((acc * 256 + b) % 2 ^ 32) mem

-- A text that does not go on with a hexadecimal digit.
abbrev pub Stops : Bytes → Type 0
Stops [] = Unit
Stops (c ∷ rest) = hex c ≡ none

hex_to_int_loop-stop :
    (rest : Bytes) (value n : ℕ) → Stops rest → hex_to_int_loop rest value n ≡ (rest, value, n)
unfolding hex_to_int_loop
hex_to_int_loop-stop [] value n h = refl
hex_to_int_loop-stop (c ∷ rest) value n h = rw (h, hex_to_int_loop)

hex_to_int_loop-byte :
    (b value n : ℕ) (rest : Bytes)
    → b < 256
    → hex_to_int_loop (byte_to_hex b ++ rest) value n
      ≡ hex_to_int_loop rest ((value * 256 + b) % 2 ^ 32) (n + 2)
unfolding hex_to_int_loop byte_to_hex
hex_to_int_loop-byte b value n rest q =
    rw (hex-hexchar (b / 16) (omega arith), hex-hexchar (b % 16) (omega arith), hex_to_int_loop)
      (ap₂ (hex_to_int_loop rest) (omega arith) (omega arith))

hex_to_int_loop-mem2hex :
    (mem rest : Bytes) (value n : ℕ)
    → IsBytes mem
    → Stops rest
    → hex_to_int_loop (mem2hex mem (length mem) ++ rest) value n
      ≡ (rest, big_endian value mem, n + 2 * length mem)
unfolding mem2hex
hex_to_int_loop-mem2hex [] rest value n h s = hex_to_int_loop-stop rest value n s ∙ ground arith
hex_to_int_loop-mem2hex (b ∷ mem) rest value n (q, h) s =
    hex_to_int_loop-byte b value n (mem2hex mem (length mem) ++ rest) q
    ∙ hex_to_int_loop-mem2hex mem rest ((value * 256 + b) % 2 ^ 32) (n + 2) h s
    ∙ ground arith

-- `hexToInt` reads printed bytes as the big-endian number that they are, in 32 bits, counts two
-- characters for each byte, and stops at what is no digit.
pub hex_to_int-mem2hex :
    (mem rest : Bytes)
    → IsBytes mem
    → Stops rest
    → hex_to_int (mem2hex mem (length mem) ++ rest) ≡ (rest, big_endian 0 mem, 2 * length mem)
unfolding hex_to_int
hex_to_int-mem2hex mem rest h s = hex_to_int_loop-mem2hex mem rest 0 0 h s ∙ ground arith
