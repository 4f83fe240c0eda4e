-- ===== src/Gdb.antt =====
-- The gdb side: src/remote.cc and remote.h. The JTAG box is an interface, `JtagIce`, that holds the
-- virtual functions of src/jtag.h that `GdbRemote` calls.
pub mod Steps
pub mod Packets
pub mod Reports
pub mod Parse
pub mod IoRegs
pub mod Commands
pub mod Talk
use jtag_js.Base.{
  ℕ, zero, suc, Bool, Option, none, some, List, [], ◌∷◌, ◌++◌, ◌+◌, ◌/◌, ◌%◌, ltb, if◌then◌else◌,
  Bytes,
}
use jtag_js.Encoding.{hexchar}

-- jtag_constants.h, `bpType`.
pub data BpType : Type 0 where
  none_type code softcode write_data read_data access_data data_mask : BpType

-- A call of the box: its result and the state behind it, or the exception that it throws.
abbrev pub Ask : Type 0 → Type 0 → Type 0
Ask B A = B → Option (A × B)

-- The calls that `GdbRemote` makes; `destroy` is the destructor, which signs off. A null result of
-- `jtagRead` is `none`.
pub record JtagIce (B : Type 0) : Type 0 where
  pub jtag_read : ℕ → ℕ → Ask B (Option Bytes)
  pub jtag_write : ℕ → Bytes → Ask B Bool
  pub get_program_counter : Ask B ℕ
  pub set_program_counter : ℕ → Ask B Bool
  pub reset_program : Ask B Bool
  pub interrupt_program : Ask B Bool
  pub resume_program : Ask B Bool
  pub jtag_single_step : Ask B Bool
  pub jtag_continue : Ask B Bool
  pub code_breakpoint_at : ℕ → Ask B Bool
  pub add_breakpoint : ℕ → BpType → ℕ → Ask B Bool
  pub delete_breakpoint : ℕ → BpType → ℕ → Ask B Bool
  pub destroy : Ask B (Unit {0})

-- jtag_device_desc.h: an I/O register of the device, by its name without the closing NUL.
pub record IoReg : Type 0 where
  pub name : Bytes
  pub reg_addr : ℕ
  pub flags : ℕ

-- What is fixed while gdb is served: of the device description, `vectors_end` and `io_reg_defs` (or
-- null), the option `ignoreInterrupts`, and the number of rounds after which the model gives up on
-- the loops that the source does not bound.
pub record Setting : Type 0 where
  pub vectors_end : ℕ
  pub io_reg_defs : Option (List IoReg)
  pub ignore_interrupts : Bool
  pub rounds : ℕ

-- `GdbRemote`, with the characters that are still to come from gdb and those sent to it, the static
-- variables of `talkToGdb`, the box, and the byte that happens to lie behind a new buffer.
pub record Gdb (B : Type 0) : Type 0 where
  pub input : Bytes
  pub output : Bytes
  pub remcom_in_buffer : Bytes
  pub remcom_out_buffer : Bytes
  pub last_cmd : ℕ
  pub last_orphan_pending : Bool
  pub last_orphan : ℕ
  pub heap : ℕ
  pub the_jtag_ice : B

-- A result; `exit` with its status; an exception of the box; a write behind the end of the buffer of
-- the reply; or the rounds of the model are over.
pub data Run (B : Type 0) (A : Type 0) : Type 0 where
  got : A → Gdb B → Run B A
  exited : ℕ → Gdb B → Run B A
  failed overrun stuck : Run B A

abbrev pub G : Type 0 → Type 0 → Type 0
G B A = Gdb B → Run B A

infixl 5 ◌>>=◌ ◌>>◌
abbrev pub ◌>>=◌ : {B A C : Type 0} → G B A → (A → G B C) → G B C
◌>>=◌ m f g = elim (m g) [
  | got a g' ↦ f a g'
  | exited status g' ↦ exited status g'
  | failed ↦ failed
  | overrun ↦ overrun
  | stuck ↦ stuck
]

abbrev pub ◌>>◌ : {B A C : Type 0} → G B A → G B C → G B C
m >> k = m >>= λ _. k

abbrev pub pure : {B A : Type 0} → A → G B A
pure a g = got a g

abbrev pub ask : {B A : Type 0} → Ask B A → G B A
ask f g = elim (f g.the_jtag_ice) [
  | none ↦ failed
  | some (a, ice) ↦ got a (record g { the_jtag_ice = ice })
]

-- `strcpy(remcomOutBuffer, …)` and the like.
abbrev pub set_reply : {B : Type 0} → Bytes → G B (Unit {0})
set_reply reply g = got tt (record g { remcom_out_buffer = reply })

-- The digits of "%x", in at most as many rounds as are given.
abbrev pub hex_digits : ℕ → ℕ → Bytes
hex_digits zero n = []
hex_digits (suc rounds) n =
    let rest = hex_digits rounds (n / 16) in
    if ltb n 16 then hexchar n ∷ [] else rest ++ hexchar (n % 16) ∷ []

-- "%02x" of a 32-bit number.
abbrev pub percent_02x : ℕ → Bytes
percent_02x n = if ltb n 16 then hexchar 0 ∷ hexchar n ∷ [] else hex_digits 8 n
