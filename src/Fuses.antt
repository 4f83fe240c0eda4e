-- ===== src/Fuses.antt =====
-- Fuses and lock bits: `jtagWriteFuses`, `jtagReadFuses`, `jtagWriteLockBits` and `jtagReadLockBits` of
-- src/jtaggeneric.cc. What is read is a result here, and shown on the console there. The conversion
-- `%02x` of sscanf is written out.
pub mod Text
use jtag_js.Base.{
  ℕ, ◌+◌, ◌-◌, ◌*◌, ◌%◌, Bool, true, false, ◌&&◌, ◌||◌, Option, none, some, [], ◌∷◌, ◌==◌,
  if◌then◌else◌, length, get_or, drop, Bytes,
}
use jtag_js.Encoding.{hex}
use jtag_js.Image.{Programmer, failed, crashed, F, ◌>>=◌, ◌>>◌, pure, ask, check}
use jtag_js.Mk2.Setup.{lock_space, fuse_space}
use jtag_js.Mk2.Run.Names.{is_space}

abbrev skip_space : Bytes → Bytes
skip_space [] = []
skip_space (c ∷ text) = if is_space c then skip_space text else c ∷ text

-- One digit, or up to two; 0x with no room for digits is no number.
abbrev pub one_digit : Bytes → Option (ℕ × Bytes)
one_digit [] = none
one_digit (c ∷ text) = elim (hex c) [ none ↦ none | some v ↦ some (v, text) ]

abbrev pub second_digit : ℕ → Bytes → ℕ × Bytes
second_digit v [] = (v, [])
second_digit v (c ∷ text) = elim (hex c) [ none ↦ (v, c ∷ text) | some d ↦ (v * 16 + d, text) ]

abbrev pub is_prefix : ℕ → Bytes → Bool
is_prefix c [] = false
is_prefix c (d ∷ text) = c == b'0' && (d == b'x' || d == b'X')

abbrev pub two_digits : ℕ → Bytes → Option (ℕ × Bytes)
two_digits c text =
    if is_prefix c text
    then none
    else elim (hex c) [ none ↦ none | some v ↦ some (second_digit v text) ]

abbrev pub negated : Option (ℕ × Bytes) → Option (ℕ × Bytes)
negated none = none
negated (some (v, text)) = some ((256 - v) % 256, text)

-- A sign counts for the width of two.
abbrev pub scan_number : Bytes → Option (ℕ × Bytes)
scan_number [] = none
scan_number (c ∷ text) =
    if c == b'-'
    then negated (one_digit text)
    else if c == b'+'
    then one_digit text
    else two_digits c text

-- A byte read by `%02x`, and what follows.
unfoldable pub scan_byte : Bytes → Option (ℕ × Bytes)
scan_byte text = scan_number (skip_space text)

-- The text has the extended fuse byte first, and the low one last.
abbrev pub scan_fuses : Bytes → Option Bytes
scan_fuses fuses = elim (scan_byte fuses) [
  | none ↦ none
  | some (extended, text) ↦ elim (scan_byte text) [
    | none ↦ none
    | some (high, text) ↦ elim (scan_byte text) [
      | none ↦ none
      | some (low, text) ↦ some (low ∷ high ∷ extended ∷ [])
    ]
  ]
]

-- `memcmp(bits, response, length) == 0`
abbrev pub is_read_back : Bytes → Bytes → Bool
is_read_back [] response = true
is_read_back (b ∷ bits) response = b == get_or response 0 0 && is_read_back bits (drop 1 response)

module _ {B : Type 0} (box : Programmer B) where
  abbrev pub compare : Bytes → Option Bytes → F B (Unit {0})
  compare bits none = λ _. crashed
  compare bits (some response) = check (is_read_back bits response)

  abbrev pub read_back : ℕ → Bytes → F B (Unit {0})
  read_back addr bits = do
    response ← ask (box.jtag_read addr (length bits))
    ask box.disable_programming
    compare bits response

  abbrev pub write_back : ℕ → Bytes → F B (Unit {0})
  write_back addr bits = do
    ask box.enable_programming
    written ← ask (box.jtag_write addr bits)
    check written
    read_back addr bits

  -- A null argument, and a text that is not three numbers, are errors.
  unfoldable pub jtag_write_fuses : Option Bytes → F B (Unit {0})
  jtag_write_fuses none = λ _. failed
  jtag_write_fuses (some fuses) = elim (scan_fuses fuses) [
    | none ↦ λ _. failed
    | some fuse_bits ↦ write_back fuse_space fuse_bits
  ]

  unfoldable pub jtag_write_lock_bits : Option Bytes → F B (Unit {0})
  jtag_write_lock_bits none = λ _. failed
  jtag_write_lock_bits (some lock) =
      if length lock == 2
      then (elim (scan_byte lock) [
        | none ↦ λ _. failed
        | some (lock_bits, text) ↦ write_back lock_space (lock_bits ∷ [])
      ])
      else (λ _. failed)

  abbrev pub demand : Option Bytes → F B Bytes
  demand none = λ _. failed
  demand (some bits) = pure bits

  abbrev pub read_bits : ℕ → ℕ → F B Bytes
  read_bits addr size = do
    ask box.enable_programming
    bits ← ask (box.jtag_read addr size)
    ask box.disable_programming
    demand bits

  unfoldable pub jtag_read_fuses : F B Bytes
  jtag_read_fuses = read_bits fuse_space 3

  unfoldable pub jtag_read_lock_bits : F B Bytes
  jtag_read_lock_bits = read_bits lock_space 1
