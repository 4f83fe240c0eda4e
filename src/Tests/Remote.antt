-- ===== src/Tests/Remote.antt =====
-- src/remote.cc on concrete inputs, with a box whose memory is a list of bytes.
use jtag_js.Base.{
  ◌≡◌, refl, arith, true, false, none, some, [], ◌∷◌, ◌++◌, take, replicate, if◌then◌else◌, Bytes,
}
use jtag_js.Encoding.{hex, hexchar, byte_to_hex, mem2hex, hex2mem, u32_to_b4}
use jtag_js.Gdb.{JtagIce, Setting, Gdb, Run, got}
use jtag_js.Gdb.Packets.{packet, getpacket, putpacket, c_string}
use jtag_js.Gdb.Packets.Reading.{buffer_with, getpacket-packet}
use jtag_js.Gdb.Packets.Writing.{copies, putpacket_resends}
use jtag_js.Gdb.Parse.{parse_span, parse_write}
use jtag_js.Gdb.Commands.{read_memory, read_registers, write_memory}
use jtag_js.Gdb.Commands.Memory.{read_memory_decodes, read_registers_decodes}
use jtag_js.Gdb.Commands.Orphans.{write_memory_whole}
use jtag_js.Gdb.Talk.{talk_to_gdb}
use jtag_js.Gdb.Talk.Replies.{talk_to_gdb_replies}

abbrev box : JtagIce Bytes
box = record {
  jtag_read = λ addr len m. some (some (take len m), m);
  jtag_write = λ addr buffer m. some (true, buffer);
  get_program_counter = λ m. some (0x20, m);
  set_program_counter = λ pc m. some (true, m);
  reset_program = λ m. some (true, m);
  interrupt_program = λ m. some (true, m);
  resume_program = λ m. some (true, m);
  destroy = λ m. some (tt, m);
  jtag_single_step = λ m. some (true, m);
  jtag_continue = λ m. some (true, m);
  code_breakpoint_at = λ address m. some (false, m);
  add_breakpoint = λ address type len m. some (true, m);
  delete_breakpoint = λ address type len m. some (true, m);
}

abbrev setting : Setting
setting = record { vectors_end = 0; io_reg_defs = none; ignore_interrupts = false; rounds = 3 }

-- Thirty-two bytes of 7.
abbrev sevens : Bytes
sevens = replicate 32 7

abbrev start : Gdb Bytes
start = record {
  input = [];
  output = [];
  remcom_in_buffer = replicate 400 0;
  remcom_out_buffer = [];
  last_cmd = 0;
  last_orphan_pending = false;
  last_orphan = 0xff;
  heap = 0xee;
  the_jtag_ice = sevens;
}

getpacket-packet_example :
    getpacket box (record start { input = b'+' ∷ [] ++ (packet (b'm' ∷ b'0' ∷ []) ++ b'+' ∷ []) })
    ≡ got (buffer_with (b'm' ∷ b'0' ∷ []) start.remcom_in_buffer) (record start {
      input = b'+' ∷ [];
      output = start.output ++ b'+' ∷ [];
      remcom_in_buffer = buffer_with (b'm' ∷ b'0' ∷ []) start.remcom_in_buffer;
    })
getpacket-packet_example =
    getpacket-packet box (b'm' ∷ b'0' ∷ []) (b'+' ∷ []) (b'+' ∷ []) start (omega arith, tt)
      ((omega arith, omega arith), ((omega arith, omega arith), tt)) (omega arith) refl
      (omega arith)

putpacket_resends_example :
    putpacket box (b'O' ∷ b'K' ∷ []) (record start { input = b'-' ∷ [] ++ b'+' ∷ b'$' ∷ [] })
    ≡ got tt (record start {
      input = b'$' ∷ [];
      output = start.output ++ copies 2 (packet (b'O' ∷ b'K' ∷ []));
    })
putpacket_resends_example =
    putpacket_resends box (b'O' ∷ b'K' ∷ []) (b'-' ∷ []) (b'$' ∷ []) start (omega arith, tt)

talk_to_gdb_replies_example :
    talk_to_gdb setting box (record start { input = packet (b'!' ∷ []) ++ b'+' ∷ b'$' ∷ [] })
    ≡ got tt (record start {
      input = b'$' ∷ [];
      output = b'+' ∷ [] ++ packet (c_string (b'O' ∷ b'K' ∷ []));
      remcom_in_buffer = buffer_with (b'!' ∷ []) start.remcom_in_buffer;
      remcom_out_buffer = b'O' ∷ b'K' ∷ [];
      last_cmd = b'!';
    })
unfolding jtag_js.Gdb.Talk.run_command jtag_js.Gdb.Reports.ok
talk_to_gdb_replies_example =
    talk_to_gdb_replies setting box b'!' [] (b'+' ∷ b'$' ∷ []) (b'$' ∷ []) start
      (record start {
        output = b'+' ∷ [];
        remcom_in_buffer = buffer_with (b'!' ∷ []) start.remcom_in_buffer;
        remcom_out_buffer = b'O' ∷ b'K' ∷ [];
      })
      ((omega arith, omega arith), tt) (omega arith) refl (omega arith) refl refl

-- "0,2"
abbrev span_text : Bytes
span_text = b'0' ∷ b',' ∷ b'2' ∷ []

read_memory_decodes_example :
    (reply : Bytes) × (read_memory box span_text start
      ≡ got tt (record start { remcom_out_buffer = reply; the_jtag_ice = sevens }))
    × (hex2mem reply 2 ≡ 7 ∷ 7 ∷ [])
unfolding parse_span jtag_js.Encoding.hex_to_int
read_memory_decodes_example =
    read_memory_decodes box span_text [] (7 ∷ 7 ∷ []) 0 2 start sevens refl refl
      (omega arith, (omega arith, tt)) refl (omega arith)

read_registers_decodes_example :
    (reply : Bytes) × (read_registers box start
      ≡ got tt (record start { remcom_out_buffer = reply; the_jtag_ice = sevens }))
    × (hex2mem reply 39 ≡ sevens ++ (7 ∷ 7 ∷ 7 ∷ u32_to_b4 0x20))
unfolding u32_to_b4
read_registers_decodes_example =
    read_registers_decodes box sevens 7 7 7 0x20 start sevens sevens sevens refl refl refl
      (ground arith) refl (omega arith)

-- "0,2:"
abbrev write_text : Bytes
write_text = b'0' ∷ b',' ∷ b'2' ∷ b':' ∷ []

write_memory_whole_example :
    write_memory box (write_text ++ (mem2hex (1 ∷ 2 ∷ []) 2 ++ [])) start
    ≡ got tt (record start {
      remcom_out_buffer = if true then b'O' ∷ b'K' ∷ [] else b'E' ∷ b'0' ∷ b'1' ∷ [];
      last_orphan_pending = false;
      the_jtag_ice = 1 ∷ 2 ∷ [];
    })
unfolding parse_write parse_span jtag_js.Encoding.hex_to_int
write_memory_whole_example =
    write_memory_whole box (write_text ++ (mem2hex (1 ∷ 2 ∷ []) 2 ++ [])) (1 ∷ 2 ∷ []) [] 0 start
      true (1 ∷ 2 ∷ []) refl (omega arith, (omega arith, tt)) refl refl refl
