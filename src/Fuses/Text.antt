-- ===== src/Fuses/Text.antt =====
-- src/jtaggeneric.cc: the text of the fuses, as `sscanf` reads it.
use jtag_js.Base.{
  ℕ, ◌+◌, ◌*◌, ◌/◌, ◌%◌, ◌<◌, ◌≤◌, ◌≡◌, refl, ap, ◌∙◌, arith, Bool, false, some, [], ◌∷◌, ◌++◌,
  ◌==◌, ◌||◌, if◌then◌else◌, Bytes,
}
use jtag_js.Encoding.{hex, hexchar, byte_to_hex, mem2hex}
use jtag_js.Encoding.HexText.{hex-hexchar}
use jtag_js.Mk2.Run.Names.{is_space}
use jtag_js.Fuses.{is_prefix, second_digit, scan_byte, scan_fuses}

-- A printed digit is at least '0', and no x.
abbrev is_x : ℕ → Bool
is_x d = d == b'x' || d == b'X'

hexchar-le : (x : ℕ) → b'0' ≤ hexchar x
unfolding hexchar
hexchar-le x = ground arith

is_x-hexchar : (x : ℕ) → x < 16 → is_x (hexchar x) ≡ false
unfolding hexchar
is_x-hexchar x h = ground arith

-- Two digits are read as a number.
scan_digits :
    (c d v w : ℕ) (text : Bytes)
    → b'0' ≤ c
    → is_x d ≡ false
    → hex c ≡ some v
    → hex d ≡ some w
    → scan_byte (c ∷ d ∷ text) ≡ some (v * 16 + w, text)
unfolding scan_byte
scan_digits c d v w text low no_x first second =
    let no_space : is_space c ≡ false = ground arith in
    let no_minus : (c == b'-') ≡ false = ground arith in
    let no_plus : (c == b'+') ≡ false = ground arith in
    let no_prefix : is_prefix c (d ∷ text) ≡ false = ground (arith, no_x) in
    rw no_space (
      rw (no_minus, no_plus)
        (rw no_prefix (rw (if◌then◌else◌, first) (rw (second_digit, second) refl))))

-- A printed byte is read back by `%02x`.
scan_byte-hex :
    (b : ℕ) (text : Bytes) → b < 256 → scan_byte (byte_to_hex b ++ text) ≡ some (b, text)
unfolding byte_to_hex
scan_byte-hex b text h =
    scan_digits (hexchar (b / 16)) (hexchar (b % 16)) (b / 16) (b % 16) text (hexchar-le (b / 16))
      (is_x-hexchar (b % 16) (omega arith)) (hex-hexchar (b / 16) (omega arith))
      (hex-hexchar (b % 16) (omega arith))
    ∙ ap (λ v. some (v, text)) (omega arith)

-- The fuses as `jtagWriteFuses` takes them, in the order extended, high, low.
pub scan_fuses-hex :
    (extended high low : ℕ)
    → extended < 256
    → high < 256
    → low < 256
    → scan_fuses (mem2hex (extended ∷ high ∷ low ∷ []) 3) ≡ some (low ∷ high ∷ extended ∷ [])
unfolding mem2hex
scan_fuses-hex extended high low e h l =
    rw (scan_fuses, scan_byte-hex extended (byte_to_hex high ++ (byte_to_hex low ++ [])) e)
      (rw (scan_byte-hex high (byte_to_hex low ++ []) h) (rw (scan_byte-hex low [] l) refl))
