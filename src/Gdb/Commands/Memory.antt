-- ===== src/Gdb/Commands/Memory.antt =====
-- src/remote.cc, `talkToGdb`: what gdb is told of memory and registers.
use jtag_js.Base.{
  ℕ, ◌+◌, ◌*◌, ◌^◌, ◌<◌, ◌≡◌, false, leb, arith, ◌≢◌, refl, sym, ap, ◌∙◌, some, [], ◌∷◌, ◌++◌,
  append-nil, length-append, length, take, take-append, ==_false, Bytes, IsBytes,
}
use jtag_js.Encoding.{mem2hex, hex2mem, u32_to_b4, byte_to_hex}
use jtag_js.Encoding.HexText.{hex2mem-mem2hex}
use jtag_js.Gdb.{JtagIce, Gdb, got, ask}
use jtag_js.Gdb.Steps.{>>=-got, ask-some}
use jtag_js.Gdb.Parse.{parse_span}
use jtag_js.Gdb.Reports.{data_space_addr_offset, error}
use jtag_js.Gdb.Packets.{bufmax}
use jtag_js.Gdb.Commands.{reply_memory, read_memory, read_registers, pc_invalid}

take-length : (m : Bytes) (n : ℕ) → length m ≡ n → take n m ≡ m
take-length m n e =
    ap (λ k. take k m) (sym e)
    ∙ ap (λ (t : Bytes). take (length m) t) (sym (append-nil m))
    ∙ take-append m []

decoded : (m : Bytes) (n : ℕ) → IsBytes m → length m ≡ n → hex2mem (mem2hex m n) n ≡ m
decoded m n h e =
    ap (λ k. hex2mem (mem2hex m k) k) (sym e)
    ∙ ap (λ (t : Bytes). hex2mem t (length m)) (sym (append-nil (mem2hex m (length m))))
    ∙ hex2mem-mem2hex m [] h

reply_memory-fits :
    {B : Type 0} (m : Bytes) (len : ℕ) (g : Gdb B)
    → len < 200
    → reply_memory m len g ≡ got tt (record g { remcom_out_buffer = mem2hex m len })
reply_memory-fits m len g fits =
    let positive : leb (2 ^ 31) len ≡ false = ground (arith, fits) in
    let short : leb bufmax (2 * len) ≡ false = ground (arith, fits) in rw (positive, short) refl

-- When the box reads the bytes that an 'm' command asks for, fewer than 200, the reply is the text that
-- decodes to exactly these bytes; nothing is sent yet, and only the box and the reply have changed.
pub read_memory_decodes :
    {B : Type 0} (ice : JtagIce B) (ptr rest m : Bytes) (addr len : ℕ) (g : Gdb B) (box : B)
    → parse_span ptr ≡ some (addr, len, rest)
    → ice.jtag_read addr len g.the_jtag_ice ≡ some (some m, box)
    → IsBytes m
    → length m ≡ len
    → len < 200
    → (reply : Bytes) × (read_memory ice ptr g
        ≡ got tt (record g { remcom_out_buffer = reply; the_jtag_ice = box }))
      × (hex2mem reply len ≡ m)
unfolding read_memory error
read_memory_decodes ice ptr rest m addr len g box parsed read bytes size fits = (
  mem2hex m len,
  rw parsed (
      >>=-got (ask (ice.jtag_read addr len)) _ _ _ _ _
        (ask-some (ice.jtag_read addr len) (record g { remcom_out_buffer = b'E' ∷ byte_to_hex 1 }) _
          box read)
        (reply_memory-fits m len _ fits)),
  decoded m len bytes size,
)

-- When the box reads the general registers and SPL, SPH and SREG, and gives a program counter other
-- than PC_INVALID, the reply to 'g' decodes to the 39 bytes that gdb expects: the general registers,
-- SREG, SPL, SPH, and the program counter with its low byte first.
pub read_registers_decodes :
    {B : Type 0} (ice : JtagIce B) (gprs : Bytes) (spl sph sreg pc : ℕ) (g : Gdb B) (b₁ b₂ b₃ : B)
    → ice.jtag_read data_space_addr_offset 0x20 g.the_jtag_ice ≡ some (some gprs, b₁)
    → ice.jtag_read (0x5d + data_space_addr_offset) 3 b₁ ≡ some (some (spl ∷ sph ∷ sreg ∷ []), b₂)
    → ice.get_program_counter b₂ ≡ some (pc, b₃)
    → IsBytes (gprs ++ (sreg ∷ spl ∷ sph ∷ u32_to_b4 pc))
    → length gprs ≡ 0x20
    → pc ≢ pc_invalid
    → (reply : Bytes) × (read_registers ice g
        ≡ got tt (record g { remcom_out_buffer = reply; the_jtag_ice = b₃ }))
      × (hex2mem reply 39 ≡ gprs ++ (sreg ∷ spl ∷ sph ∷ u32_to_b4 pc))
unfolding read_registers u32_to_b4
read_registers_decodes ice gprs spl sph sreg pc g b₁ b₂ b₃ r₁ r₂ r₃ bytes size valid = (
  mem2hex (gprs ++ (sreg ∷ spl ∷ sph ∷ u32_to_b4 pc)) 39,
  >>=-got (ask (ice.jtag_read data_space_addr_offset 0x20)) _ g _ _ _
      (ask-some (ice.jtag_read data_space_addr_offset 0x20) g _ b₁ r₁)
      (>>=-got (ask (ice.jtag_read (0x5d + data_space_addr_offset) 3)) _ _ _ _ _
        (ask-some (ice.jtag_read (0x5d + data_space_addr_offset) 3) (record g { the_jtag_ice = b₁ })
          _ b₂ r₂)
        (>>=-got (ask ice.get_program_counter) _ _ _ _ _
          (ask-some ice.get_program_counter (record g { the_jtag_ice = b₂ }) _ b₃ r₃)
          (rw (==_false pc pc_invalid valid, take-length gprs 0x20 size) refl))),
  decoded _ 39 bytes (length-append gprs _ ∙ rw size refl),
)
