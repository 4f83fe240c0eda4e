-- ===== src/Mk2/Memory/Plain.antt =====
-- src/jtag2rw.cc, `jtagRead` without pages: what is asked of the box, and what is returned.
use jtag_js.Base.{
  ℕ, ◌+◌, ◌-◌, ◌*◌, ◌/◌, ◌%◌, ◌≡◌, ◌≢◌, ◌<◌, arith, List, ◌∷◌, length, length-drop, drop, ==_false,
  Bytes,
}
use jtag_js.Port.{Link, Event}
use jtag_js.Mk2.Command.Replies.{Message}
use jtag_js.Mk2.Command.Answers.{IsPositive, Gives, then-Gives}
use jtag_js.Mk2.Memory.{mtype_spm, bytes_of, read_command, read_plain}

-- The answer to a read: the code of the response, and the bytes.
abbrev pub memory_message : ℕ → ℕ → Bytes → Message
memory_message seqno rsp bytes = record { seqno = seqno; payload = rsp ∷ bytes }

-- Outside flash, the box is asked for the very bytes, and what it answers is what is returned.
pub read_plain-Gives :
    (space addr num_bytes rsp : ℕ) (bytes : Bytes) (rest : List Event) (l : Link)
    → space ≢ mtype_spm
    → IsPositive (memory_message l.command_sequence rsp bytes) l
    → Gives
        (read_plain space addr num_bytes)
        (read_command space num_bytes addr)
        bytes
        (memory_message l.command_sequence rsp bytes)
        rest
        l
unfolding read_plain
read_plain-Gives space addr num_bytes rsp bytes rest l h p =
    let m = memory_message l.command_sequence rsp bytes in
    let direct : addr - 0 ≡ addr = omega arith in
    rw (==_false space mtype_spm h, direct)
      (then-Gives (read_command space num_bytes addr) (λ r. drop (1 + 0) (bytes_of r)) m rest l p)

-- Flash outside of programming mode is read in words. From an even address, rounding up the number of
-- bytes asks for all of them. From an odd address, an even number of bytes is asked for from one byte
-- earlier, so what is returned of a full answer is one byte short.
pub read_plain_flash :
    (addr num_bytes rsp : ℕ) (bytes : Bytes) (rest : List Event) (l : Link)
    → addr % 2 ≡ 1
    → num_bytes % 2 ≡ 0
    → 0 < num_bytes
    → length bytes ≡ num_bytes
    → IsPositive (memory_message l.command_sequence rsp bytes) l
    → Gives
        (read_plain mtype_spm addr num_bytes)
        (read_command mtype_spm num_bytes (addr - 1))
        (drop 1 bytes)
        (memory_message l.command_sequence rsp bytes)
        rest
        l
      × (length (drop 1 bytes) + 1 ≡ num_bytes)
unfolding read_plain
read_plain_flash addr num_bytes rsp bytes rest l odd even pos size p = (
  rw (odd, rounded)
      (then-Gives (read_command mtype_spm num_bytes (addr - 1)) (λ r. drop (1 + 1) (bytes_of r))
        (memory_message l.command_sequence rsp bytes) rest l p),
  omega (arith, length-drop 1 bytes, size, pos),
)
  where
    rounded : (num_bytes + 1) / 2 * 2 ≡ num_bytes
    rounded = omega arith
