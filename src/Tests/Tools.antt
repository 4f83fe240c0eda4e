-- ===== src/Tests/Tools.antt =====
-- Setting up the mkI on concrete inputs: src/jtagio.cc.
use jtag_js.Base.{◌*◌, ◌≡◌, refl, false, none, List, [], ◌∷◌, ◌++◌, map, length, codes, arith}
use jtag_js.Port.{Link, byte, returned, thrown}
use jtag_js.Port.Post.{Post}
use jtag_js.Devices.{DeviceDef, terminator}
use jtag_js.Devices.Parts.Atmega16.{atmega16}
use jtag_js.Mk2.Command.Silence.{copies}
use jtag_js.Mk2.Setup.Silent.{schedule}
use jtag_js.Mk1.Breakpoints.{Breakpoints}
use jtag_js.Mk1.Io.{r_ok}
use jtag_js.Mk1.Setup.{Box, read_device_id, start_jtag_link}
use jtag_js.Mk1.Setup.DeviceId.{tells, stops, word_byte, jtag_word, after, read_device_id-jtag_word}
use jtag_js.Mk1.Setup.Silent.{signing, start_jtag_link-signing}

abbrev table : List DeviceDef
table = atmega16 ∷ terminator ∷ []

abbrev mk1_box : Box
mk1_box = record {
  is_usb = false;
  apply_nsrst = false;
  dchain = record { units_before = 0; units_after = 0; bits_before = 0; bits_after = 0 };
  device_name = none;
  device = none;
  bit_rate = 0;
}

-- The mkI signs on at the first bit rate, and answers OK to all that follows; its device is an
-- ATmega16.
abbrev mk1_line : Link
mk1_line = record {
  input = map byte (
      codes "AAAVRNOCDA"
      ++ (codes "AA" ++ (codes "A0AA0AA000A" ++ (codes "A?AA000A" ++ (b'A' ∷ 0x30 ∷ b'A' ∷ []))))
      ++ (codes "A@AA" ++ (0x09 ∷ codes "AAA")));
  writes = [];
  output = [];
  ctrl_pipe = false;
  ctrl_output = [];
  command_sequence = 0;
  port_rates = [];
  junk = λ n. n;
}

abbrev no_breakpoints : Breakpoints
no_breakpoints = record { bp_code = []; bp_data = [] }

start_jtag_link-signing_example :
    start_jtag_link mk1_box (record mk1_line { input = []; writes = [] })
    ≡ thrown (record mk1_line {
      input = [];
      writes = [];
      output = mk1_line.output ++ copies 15 signing;
      port_rates =
          mk1_line.port_rates
          ++ schedule (3 * 7) (length mk1_line.output) (115200 ∷ 19200 ∷ 57600 ∷ 38400 ∷ 9600 ∷ []);
    })
start_jtag_link-signing_example = start_jtag_link-signing mk1_box mk1_line refl

-- The word of an ATmega16 of version 4.
abbrev id_line : Link
id_line = record mk1_line {
  input = tells (word_byte (jtag_word 4 0x9403 0x3f) 0) (
      stops 0 0 0 r_ok (
        tells (word_byte (jtag_word 4 0x9403 0x3f) 1) (
          tells (word_byte (jtag_word 4 0x9403 0x3f) 2)
            (tells (word_byte (jtag_word 4 0x9403 0x3f) 3) []))));
}

read_device_id-jtag_word_example : read_device_id id_line ≡ returned 0x9403 (after [] id_line)
read_device_id-jtag_word_example =
    read_device_id-jtag_word 4 0x9403 0x3f 0 0 0 r_ok [] id_line (omega arith) (omega arith)
      (omega arith) refl refl
