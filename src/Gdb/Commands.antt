-- ===== src/Gdb/Commands.antt =====
-- src/remote.cc, `talkToGdb`: the commands of the gdb protocol, one definition for each case of the
-- switch. `ptr` is the packet behind its first character.
pub mod Orphans
pub mod Memory
use jtag_js.Base.{
  ℕ, zero, suc, ◌+◌, ◌-◌, ◌*◌, ◌%◌, ◌^◌, Bool, true, false, not, ◌&&◌, ◌||◌, Option, none, some,
  List, [], ◌∷◌, ◌++◌, ltb, leb, ◌==◌, if◌then◌else◌, length, get_or, set, take, drop, Bytes,
}
use jtag_js.Encoding.{hex_to_int, hex2mem, mem2hex, b4_to_u32, u32_to_b4}
use jtag_js.Gdb.{
  BpType, none_type, code, write_data, read_data, access_data, JtagIce, IoReg, Setting, Gdb, Run,
  got, exited, failed, overrun, stuck, G, ◌>>=◌, ◌>>◌, pure, ask, set_reply, percent_02x,
}
use jtag_js.Gdb.Packets.{bufmax, gdb_out}
use jtag_js.Gdb.Parse.{parse_hex, expect, parse_span, parse_write, parse_breakpoint}
use jtag_js.Gdb.Reports.{
  data_space_addr_offset, sigtrap, ok, error, report_status_extended, report_status, single_step,
  rep_status,
}

-- A comparison of ints; the constant is positive.
abbrev pub int_below : ℕ → ℕ → Bool
int_below n bound = ltb n bound || leb (2 ^ 31) n

-- The address, the length and the buffer's memory of the write that 'M' makes, and the orphan that is
-- pending behind it.
pub record Write : Type 0 where
  pub addr : ℕ
  pub len : ℕ
  pub memory : Bytes
  pub orphan : Option ℕ

-- `lead` is 1 when a byte of the packet before is still to be written. `hex2mem` then writes one byte
-- more than the packet has, behind the buffer.
abbrev pub fill : Bool → ℕ → ℕ → Bytes → Bytes
fill true last_orphan len ptr = last_orphan ∷ hex2mem ptr len
fill false last_orphan len ptr = hex2mem ptr len

abbrev pub split_odd : ℕ → ℕ → ℕ → Bytes → Write
split_odd heap addr len memory =
    if int_below addr data_space_addr_offset && len % 2 == 1
    then record {
      addr = addr;
      len = len - 1;
      memory = memory;
      orphan = some (get_or memory len heap);
    }
    else record { addr = addr; len = len; memory = memory; orphan = none }

-- Gdb may write words of program memory in two packets; the odd byte at the end of one is kept for the
-- next.
unfoldable pub plan_write : {B : Type 0} → Gdb B → ℕ → ℕ → Bytes → Write
plan_write g addr len ptr =
    if addr % 2 == 1 && (g.last_cmd == b'M' && g.last_orphan_pending)
    then split_odd g.heap (addr - 1) (len + 1) (fill true g.last_orphan (len + 1) ptr)
    else split_odd g.heap addr len (fill false g.last_orphan len ptr)

abbrev pub keep_orphan : {B : Type 0} → Option ℕ → G B (Unit {0})
keep_orphan none g = got tt (record g { last_orphan_pending = false })
keep_orphan (some b) g = got tt (record g { last_orphan_pending = true; last_orphan = b })

abbrev pub ok_if : {B : Type 0} → Bool → G B (Unit {0})
ok_if fine = if fine then ok else pure tt

-- MAA..AA,LLLL: Write LLLL bytes at address AA.AA return OK
unfoldable pub write_memory : {B : Type 0} → JtagIce B → Bytes → G B (Unit {0})
write_memory ice ptr g =
    (do
      error 1
      elim (parse_write ptr) [
        | none ↦ pure tt
        | some (addr, len, ptr) ↦
            let w = plan_write g addr len ptr in
            keep_orphan w.orphan >> (ask (ice.jtag_write w.addr (take w.len w.memory)) >>= ok_if)
      ])
      g

-- `mem2hex` into the buffer of the reply, whose end it does not know: two characters for each byte and
-- the NUL. The count is an int, and none is written for a negative one.
abbrev pub reply_memory : {B : Type 0} → Bytes → ℕ → G B (Unit {0})
reply_memory m len =
    if leb (2 ^ 31) len
    then set_reply []
    else if leb bufmax (2 * len)
    then (λ g. overrun)
    else set_reply (mem2hex m len)

-- mAA..AA,LLLL  Read LLLL bytes at address AA..AA
unfoldable pub read_memory : {B : Type 0} → JtagIce B → Bytes → G B (Unit {0})
read_memory ice ptr = do
  error 1
  elim (parse_span ptr) [
    | none ↦ pure tt
    | some (addr, len, _) ↦ ask (ice.jtag_read addr len) >>= λ buffer. elim buffer [
      | none ↦ pure tt
      | some m ↦ reply_memory m len
    ]
  ]

abbrev pub pc_invalid : ℕ
pc_invalid = 0xffffffff

-- The registers: R0 to R31, SREG, SPL, SPH and the four bytes of the PC.
unfoldable pub read_registers : {B : Type 0} → JtagIce B → G B (Unit {0})
read_registers ice = do
  general ← ask (ice.jtag_read data_space_addr_offset 0x20)
  elim general [
    | none ↦ error 1
    | some gprs ↦ (do
      special ← ask (ice.jtag_read (0x5d + data_space_addr_offset) 3)
      elim special [
        | none ↦ error 1
        | some m ↦ (do
          new_pc ← ask ice.get_program_counter
          let registers =
              take 0x20 gprs ++ (get_or m 2 0 ∷ get_or m 0 0 ∷ get_or m 1 0 ∷ u32_to_b4 new_pc)
          if new_pc == pc_invalid then error 1 else set_reply (mem2hex registers 39))
      ])
  ]

abbrev pub numregs : ℕ
numregs = 32

-- One register is set: a general one, SREG (32), SP (33) or PC (34). `regno >= 0` is the test of the
-- sign of an int.
unfoldable pub write_register : {B : Type 0} → JtagIce B → ℕ → Bytes → G B (Unit {0})
write_register ice regno ptr =
    if ltb regno numregs
    then (ask (ice.jtag_write (regno + data_space_addr_offset) (hex2mem ptr 1)) >>= ok_if)
    else if regno == 32
    then (ask (ice.jtag_write (0x5f + data_space_addr_offset) (hex2mem ptr 1)) >>= ok_if)
    else if regno == 33
    then (ask (ice.jtag_write (0x5d + data_space_addr_offset) (hex2mem ptr 2)) >>= ok_if)
    else if regno == 34
    then (ask (ice.set_program_counter (b4_to_u32 (hex2mem ptr 4))) >>= ok_if)
    else pure tt

unfoldable pub set_register : {B : Type 0} → JtagIce B → Bytes → G B (Unit {0})
set_register ice ptr = do
  error 1
  elim (parse_hex ptr) [
    | none ↦ pure tt
    | some (regno, rest) ↦ elim (expect b'=' rest) [
      | none ↦ pure tt
      | some value ↦ write_register ice regno value
    ]
  ]

-- "Failed to set PC"
abbrev failed_to_set : Bytes
failed_to_set =
    b'F' ∷ b'a' ∷ b'i' ∷ b'l' ∷ b'e' ∷ b'd' ∷ b' ' ∷ b't' ∷ b'o' ∷ b' ' ∷ b's' ∷ b'e' ∷ b't' ∷ b' '
    ∷ b'P' ∷ b'C' ∷ []

-- The optional address of 's' and 'c'.
abbrev pub move_pc : {B : Type 0} → JtagIce B → Bytes → G B (Unit {0})
move_pc ice ptr = elim (parse_hex ptr) [
  | none ↦ pure tt
  | some (addr, _) ↦ ask (ice.set_program_counter addr) >>= λ moved.
      if moved then pure tt else gdb_out ice failed_to_set
]

unfoldable pub step_command : {B : Type 0} → Setting → JtagIce B → Bytes → G B (Unit {0})
step_command setting ice ptr = do
  move_pc ice ptr
  stopped ← single_step setting ice
  rep_status ice stopped

unfoldable pub continue_command : {B : Type 0} → JtagIce B → Bytes → G B (Unit {0})
continue_command ice ptr = do
  move_pc ice ptr
  stopped ← ask ice.jtag_continue
  rep_status ice stopped

-- "C<sig>": the signal SIGHUP (1) resets the program.
unfoldable pub signal_command : {B : Type 0} → JtagIce B → Bytes → G B (Unit {0})
signal_command ice ptr = elim (parse_hex ptr) [
  | none ↦ pure tt
  | some (sig, _) ↦
      if sig == 1
      then (ask ice.reset_program >>= λ done.
          if done then report_status_extended ice sigtrap else pure tt)
      else pure tt
]

unfoldable pub detach : {B : Type 0} → JtagIce B → G B (Unit {0})
detach ice = ask ice.resume_program >>= λ done. if done then ok else error 1

-- Types 0 and 1 are code breakpoints.
unfoldable pub breakpoint_mode : ℕ → Option BpType
breakpoint_mode i =
    if leb i 1
    then some code
    else if i == 2
    then some write_data
    else if i == 3
    then some read_data
    else if i == 4
    then some access_data
    else none

-- An unknown type deletes the box and ends avarice.
unfoldable pub breakpoint_command : {B : Type 0} → JtagIce B → Bool → Bytes → G B (Unit {0})
breakpoint_command ice adding ptr = do
  error 1
  elim (parse_breakpoint ptr) [
    | none ↦ pure tt
    | some (i, addr, len) ↦ elim (breakpoint_mode i) [
      | none ↦ (ask ice.destroy >> λ g. exited 1 g)
      | some mode ↦
          ask (
            if adding
            then ice.add_breakpoint addr mode len
            else ice.delete_breakpoint addr mode len)
          >>= ok_if
    ]
  ]
