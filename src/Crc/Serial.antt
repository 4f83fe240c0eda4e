-- ===== src/Crc/Serial.antt =====
-- The table-driven sum is the bit-serial CRC with the reflected polynomial 0x8408 of CRC-CCITT.
use jtag_js.Base.{
  ℕ, zero, suc, ◌*◌, ◌/◌, ◌%◌, ◌^◌, ◌<◌, bit_xor, ◌≡◌, refl, ap, ◌∙◌, sym, arith, true, [], ◌∷◌,
  length, get_or, ◌==◌, ==_iff, if◌then◌else◌, Bytes, IsBytes,
}
use jtag_js.Base.Bits.{
  holds_under, holds_under-true, bit_xor_step, xor_assoc, xor_low_byte, xor_high_byte,
}
use native.Mathlib.Nat.{mul-one, pow-suc}
use jtag_js.Crc.{crc_table, crc_step, crcsum}

-- One bit: shift right, and subtract the polynomial if a one falls out.
shift : ℕ → ℕ
shift x = if x % 2 == 0 then x / 2 else bit_xor (x / 2) 0x8408

shift_by : ℕ → ℕ → ℕ
shift_by zero x = x
shift_by (suc k) x = shift_by k (shift x)

-- The reference: a byte is added to the low bits, and eight bits are shifted out.
pub crc_serial : Bytes → ℕ → ℕ
crc_serial [] crc = crc
crc_serial (b ∷ message) crc = crc_serial message (shift_by 8 (bit_xor crc b))

-- High bits only move down while the low ones are shifted out.
shift-xor : (h x : ℕ) → shift (bit_xor (h * 2) x) ≡ bit_xor h (shift x)
unfolding shift
shift-xor h x = ground (
  arith,
  bit_xor_step (h * 2) x,
  ap (λ (t : ℕ). bit_xor t (x / 2)) (double-half h),
  xor_assoc h (x / 2) 0x8408,
)
  where
    double-half : (n : ℕ) → n * 2 / 2 ≡ n
    double-half n = omega arith

shift_by-xor : (k h x : ℕ) → shift_by k (bit_xor (h * 2 ^ k) x) ≡ bit_xor h (shift_by k x)
unfolding shift_by
shift_by-xor zero h x = rw mul-one
shift_by-xor (suc k) h x =
    ap (shift_by k) (ap (λ (t : ℕ). shift (bit_xor t x)) (double h k) ∙ shift-xor (h * 2 ^ k) x)
    ∙ shift_by-xor k h (shift x)
  where
    double : (m j : ℕ) → m * 2 ^ suc j ≡ m * 2 ^ j * 2
    double m j = omega (arith, ap (λ (t : ℕ). m * t) (pow-suc 2 j))

-- Eight bits of a low byte are the table's entry.
table_entries : holds_under (λ x. shift_by 8 x == get_or crc_table x 0) 256 ≡ true
unfolding holds_under shift_by shift crc_table
table_entries = refl

crc_step-serial : (crc c : ℕ) → c < 256 → crc_step crc c ≡ shift_by 8 (bit_xor crc c)
unfolding crc_step
crc_step-serial crc c q =
    let (split, small) = xor_low_byte crc c q in
    let low = bit_xor (crc % 256) c in
    let at_low : bit_xor crc c % 256 ≡ low = omega arith in
    let apart : bit_xor crc c ≡ bit_xor (crc / 256 * 2 ^ 8) low =
      split ∙ sym (xor_high_byte (crc / 256) low small) in
    let entry = (==_iff _ _).0 (holds_under-true _ 256 table_entries low small) in
    rw at_low (rw (← entry) (sym (ap (shift_by 8) apart ∙ shift_by-xor 8 (crc / 256) low)))

-- Over bytes, the table-driven sum of a whole message is the bit-serial CRC with the polynomial
-- 0x8408 from the same start value.
pub crcsum-crc_serial :
    (message : Bytes) (crc : ℕ)
    → IsBytes message
    → crcsum message (length message) crc ≡ crc_serial message crc
unfolding crcsum crc_serial
crcsum-crc_serial [] crc h = refl
crcsum-crc_serial (b ∷ message) crc (q, h) =
    rw (← crc_step-serial crc b q) (crcsum-crc_serial message (crc_step crc b) h)
