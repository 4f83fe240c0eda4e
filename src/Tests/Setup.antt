-- ===== src/Tests/Setup.antt =====
-- Setting up the mkII on a concrete line: src/jtag2io.cc.
use jtag_js.Base.{
  ◌≡◌, refl, arith, true, false, none, some, List, [], ◌∷◌, ◌++◌, ◌*◌, length, zeros, Bytes,
}
use jtag_js.Port.{Link, quiet, returned, thrown}
use jtag_js.Mk2.Frame.{frame_bytes}
use jtag_js.Mk2.Command.Dialogue.{answers, Answered, Said}
use jtag_js.Mk2.Command.Silence.{copies}
use jtag_js.Mk2.Breakpoints.{delete_all_breakpoints}
use jtag_js.Devices.{DeviceDef, terminator}
use jtag_js.Devices.Lookup.{device_by_id}
use jtag_js.Devices.Parts.Atmega16.{atmega16}
use jtag_js.Mk2.Setup.{Box, start_jtag_link, init_jtag_box}
use jtag_js.Mk2.Setup.Silent.{schedule, start_jtag_link_silent}
use jtag_js.Mk2.Setup.Detect.{IsAlone, configured}
use jtag_js.Mk2.Setup.Initialise.{Answers, id_of, linked, dialogue, init_jtag_box-dialogue}
use jtag_js.Tests.Answers.{fresh, numbered, answer-IsPositive, numbered-IsPositive}

-- A mkII on a serial line, with its reset line in use.
abbrev serial_box : Box
serial_box = record {
  is_usb = false;
  is_dragon = false;
  use_debug_wire = false;
  apply_nsrst = true;
  is_xmega = false;
  dchain = record { units_before = 0; units_after = 0; bits_before = 0; bits_after = 0 };
  device_name = none;
  devdescrlen = 299;
  signed_in = false;
  device = none;
  bit_rate = 0;
}

serial_box-IsAlone : IsAlone serial_box
serial_box-IsAlone = record { jtag = refl; unnamed = refl; chain = refl }

-- A sign-on of 29 bytes, of firmware 0.0, and the id of the ATmega16.
abbrev replies : Answers
replies = record {
  signs_on = record { seqno = 0; payload = 0x86 ∷ zeros 28 };
  resets_line = numbered 1;
  sets_mode = numbered 2;
  raises = numbered 3;
  stops = numbered 4;
  id_seqno = 5;
  id_bytes = (0x3f, 0x30, 0x40, 0x09);
  describes = numbered 6;
}

abbrev table : List DeviceDef
table = atmega16 ∷ terminator ∷ []

detected : device_by_id table (id_of replies) ≡ some atmega16
unfolding device_by_id
detected = refl

abbrev line : Link
line = record fresh { input = answers (dialogue serial_box atmega16 replies) ++ quiet ∷ [] }

line-Answered : Answered line (dialogue serial_box atmega16 replies)
line-Answered = (
  answer-IsPositive 0 0x86 (zeros 28) _ (omega arith) (omega arith) refl (omega arith)
      (omega arith),
  (
    numbered-IsPositive 1 _ (omega arith) refl,
    (
      numbered-IsPositive 2 _ (omega arith) refl,
      (
        numbered-IsPositive 3 _ (omega arith) refl,
        (
          numbered-IsPositive 4 _ (omega arith) refl,
          (
            answer-IsPositive 5 0x81 (0x3f ∷ 0x30 ∷ 0x40 ∷ 0x09 ∷ []) _ (omega arith) (omega arith)
                refl (omega arith) (omega arith),
            (numbered-IsPositive 6 _ (omega arith) refl, tt),
          ),
        ),
      ),
    ),
  ),
)

init_jtag_box-dialogue_example :
    (l' : Link) × (init_jtag_box table serial_box [] line
      ≡ returned
          (configured atmega16 (linked replies.signs_on serial_box), delete_all_breakpoints [])
          l')
    × Said line l' (dialogue serial_box atmega16 replies) (quiet ∷ [])
init_jtag_box-dialogue_example =
    init_jtag_box-dialogue table serial_box [] atmega16 replies line (quiet ∷ []) serial_box-IsAlone
      (record { code = refl; long = omega arith }) detected refl refl line-Answered

start_jtag_link_silent_example :
    (c : Bytes) × (start_jtag_link serial_box (record line { input = []; writes = [] })
      ≡ thrown (record line {
        input = [];
        writes = [];
        output = line.output ++ copies 15 (frame_bytes line.command_sequence (0x01 ∷ []));
        ctrl_output = c;
        port_rates =
            line.port_rates
            ++ schedule
                (3 * length (frame_bytes line.command_sequence (0x01 ∷ [])))
                (length line.output)
                (19200 ∷ 115200 ∷ 57600 ∷ 38400 ∷ 9600 ∷ []);
      }))
start_jtag_link_silent_example = start_jtag_link_silent serial_box line refl
