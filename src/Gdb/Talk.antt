-- ===== src/Gdb/Talk.antt =====
-- src/remote.cc, `talkToGdb`: one packet of gdb, and the reply to it.
pub mod Replies
use jtag_js.Base.{
  ℕ, Bool, true, false, not, ◌||◌, Option, none, some, [], ◌∷◌, ◌==◌, if◌then◌else◌, get_or, drop,
  Bytes,
}
use jtag_js.Gdb.{JtagIce, Setting, Gdb, Run, got, failed, G, ◌>>=◌, ◌>>◌, pure, ask, set_reply}
use jtag_js.Gdb.Packets.{getpacket, putpacket, gdb_out, c_string}
use jtag_js.Gdb.Reports.{ok, error, report_status, sigtrap}
use jtag_js.Gdb.IoRegs.{query}
use jtag_js.Gdb.Commands.{
  write_memory, read_memory, read_registers, set_register, step_command, continue_command,
  signal_command, detach, breakpoint_command,
}

-- "reset failed\n"
abbrev reset_failed : Bytes
reset_failed =
    b'r' ∷ b'e' ∷ b's' ∷ b'e' ∷ b't' ∷ b' ' ∷ b'f' ∷ b'a' ∷ b'i' ∷ b'l' ∷ b'e' ∷ b'd' ∷ 0x0a ∷ []

unfoldable pub reset_command : {B : Type 0} → JtagIce B → G B (Unit {0})
reset_command ice =
    ask ice.reset_program >>= λ done. if done then pure tt else gdb_out ice reset_failed

-- The switch. An unknown command leaves the reply empty.
unfoldable pub run_command : {B : Type 0} → Setting → JtagIce B → ℕ → Bytes → G B (Unit {0})
run_command setting ice cmd ptr =
    if cmd == b'k'
    then pure tt
    else if cmd == b'R'
    then reset_command ice
    else if cmd == b'!'
    then ok
    else if cmd == b'M'
    then write_memory ice ptr
    else if cmd == b'm'
    then read_memory ice ptr
    else if cmd == b'?'
    then report_status sigtrap
    else if cmd == b'g'
    then read_registers ice
    else if cmd == b'q'
    then query setting ice ptr
    else if cmd == b'P'
    then set_register ice ptr
    else if cmd == b'G'
    then error 1
    else if cmd == b's'
    then step_command setting ice ptr
    else if cmd == b'C'
    then signal_command ice ptr
    else if cmd == b'c'
    then continue_command ice ptr
    else if cmd == b'D'
    then detach ice
    else if cmd == b'Z'
    then breakpoint_command ice true ptr
    else if cmd == b'z'
    then breakpoint_command ice false ptr
    else pure tt

-- Neither 'k' nor 'R' is replied to.
abbrev pub is_replied : ℕ → Bool
is_replied cmd = not (cmd == b'k' || cmd == b'R')

-- Behind the switch.
unfoldable pub finish_command : {B : Type 0} → JtagIce B → ℕ → G B (Unit {0})
finish_command ice cmd g =
    let g' = record g { last_cmd = cmd } in
    if is_replied cmd then putpacket ice (c_string g.remcom_out_buffer) g' else got tt g'

unfoldable pub talk_to_gdb : {B : Type 0} → Setting → JtagIce B → G B (Unit {0})
talk_to_gdb setting ice = do
  ptr ← getpacket ice
  set_reply []
  run_command setting ice (get_or ptr 0 0) (drop 1 ptr)
  finish_command ice (get_or ptr 0 0)
