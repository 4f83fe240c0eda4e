-- ===== src/Encoding.antt =====
-- src/utils.cc: numbers as bytes, and bytes as the hexadecimal text of the gdb protocol. A function
-- that writes through a pointer returns the bytes it writes; one that reads takes the bytes from the
-- pointer on. A read past the end gives 0, the NUL that ends a C string.
pub mod Words
pub mod HexText
pub mod Escapes
use jtag_js.Base.{
  ℕ, zero, suc, ◌+◌, ◌-◌, ◌*◌, ◌/◌, ◌%◌, ◌^◌, bit_or, Bool, ◌&&◌, ◌||◌, Option, none, some, [], ◌∷◌,
  ◌++◌, leb, ◌==◌, if◌then◌else◌, get_or, Bytes,
}

unfoldable pub b4_to_u32 : Bytes → ℕ
b4_to_u32 b = get_or b 0 0 + get_or b 1 0 * 2 ^ 8 + get_or b 2 0 * 2 ^ 16 + get_or b 3 0 * 2 ^ 24

unfoldable pub u32_to_b4 : ℕ → Bytes
u32_to_b4 l = l % 256 ∷ l / 2 ^ 8 % 256 ∷ l / 2 ^ 16 % 256 ∷ l / 2 ^ 24 % 256 ∷ []

unfoldable pub b2_to_u16 : Bytes → ℕ
b2_to_u16 b = get_or b 0 0 + get_or b 1 0 * 2 ^ 8

unfoldable pub u16_to_b2 : ℕ → Bytes
u16_to_b2 l = l % 256 ∷ l / 2 ^ 8 % 256 ∷ []

-- "0123456789abcdef"[x]
unfoldable pub hexchar : ℕ → ℕ
hexchar x = if leb x 9 then x + b'0' else x - 10 + b'a'

unfoldable pub byte_to_hex : ℕ → Bytes
unfolding hexchar
byte_to_hex x = hexchar (x / 16) ∷ hexchar (x % 16) ∷ []

-- `none` is the -1 of the source.
unfoldable pub hex : ℕ → Option ℕ
hex ch =
    if leb b'a' ch && leb ch b'f'
    then some (ch - b'a' + 10)
    else if leb b'0' ch && leb ch b'9'
    then some (ch - b'0')
    else if leb b'A' ch && leb ch b'F'
    then some (ch - b'A' + 10)
    else none

-- The result of `hex` converted to an unsigned char.
abbrev pub to_uchar : Option ℕ → ℕ
to_uchar none = 255
to_uchar (some d) = d % 256

-- The loop of `hexToInt`: what follows the number, the value as a 32-bit pattern, and the number of
-- characters. The low four bits of `value << 4` are clear, so `|` is `+`.
pub hex_to_int_loop : Bytes → ℕ → ℕ → Bytes × ℕ × ℕ
hex_to_int_loop [] value num_chars = ([], value, num_chars)
hex_to_int_loop (c ∷ ptr) value num_chars = elim (hex c) [
  | none ↦ (c ∷ ptr, value, num_chars)
  | some digit ↦ hex_to_int_loop ptr ((value * 16 + digit) % 2 ^ 32) (num_chars + 1)
]

unfoldable pub hex_to_int : Bytes → Bytes × ℕ × ℕ
unfolding hex_to_int_loop hex
hex_to_int ptr = hex_to_int_loop ptr 0 0

unfoldable pub mem2hex : Bytes → ℕ → Bytes
unfolding byte_to_hex
mem2hex mem zero = []
mem2hex [] (suc count) = byte_to_hex 0 ++ mem2hex [] count
mem2hex (b ∷ mem) (suc count) = byte_to_hex b ++ mem2hex mem count

-- Two characters as an unsigned char.
unfoldable pub hex_pair : ℕ → ℕ → ℕ
hex_pair a b = (to_uchar (hex a) * 16 % 256 + to_uchar (hex b)) % 256

unfoldable pub hex2mem : Bytes → ℕ → Bytes
unfolding hex_pair hex
hex2mem buf zero = []
hex2mem [] (suc count) = hex_pair 0 0 ∷ hex2mem [] count
hex2mem (a ∷ []) (suc count) = hex_pair a 0 ∷ hex2mem [] count
hex2mem (a ∷ b ∷ buf) (suc count) = hex_pair a b ∷ hex2mem buf count

-- Characters that are unescaped behind 0x7d.
abbrev pub is_escaped : ℕ → Bool
is_escaped c = c == 0x3 || c == 0x4 || c == 0x5d

unfoldable pub bin2mem : Bytes → ℕ → Bytes
bin2mem buf zero = []
bin2mem [] (suc count) = 0 ∷ bin2mem [] count
bin2mem (a ∷ []) (suc count) = a ∷ bin2mem [] count
bin2mem (a ∷ b ∷ buf) (suc count) =
    let unescaped = bit_or b 0x20 ∷ bin2mem buf count in
    let plain = a ∷ bin2mem (b ∷ buf) count in
    if a == 0x7d && is_escaped b then unescaped else plain
