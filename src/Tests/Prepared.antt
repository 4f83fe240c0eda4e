-- ===== src/Tests/Prepared.antt =====
-- Lock bits and fuses through the mkII on a concrete line: src/jtag2io.cc and jtaggeneric.cc.
use jtag_js.Base.{◌≡◌, refl, arith, false, [], ◌∷◌, ◌++◌}
use jtag_js.Port.{Link, quiet}
use jtag_js.Mk2.Command.Replies.{Message}
use jtag_js.Mk2.Command.Dialogue.{answers, Said}
use jtag_js.Mk2.Memory.{Device, Target}
use jtag_js.Mk2.Setup.Unlocked.{FuseAnswers, preparation}
use jtag_js.Image.{done}
use jtag_js.Fuses.{jtag_read_fuses}
use jtag_js.Mk2.Programmer.{programmer, fuse_reading, jtag_read_fuses-programmer}
use jtag_js.Mk2.Programmer.Writes.{fuse_writing}
use jtag_js.Tests.Answers.{fresh, numbered, answer-IsPositive, numbered-IsPositive}

-- A target that is locked, and whose high fuse byte forbids debugging.
abbrev fuse_answers : FuseAnswers
fuse_answers = record {
  sets_clock = numbered 0;
  enters = 1;
  tells_lock = record { seqno = 2; payload = 0x82 ∷ 0xfc ∷ [] };
  writes_lock = numbered 3;
  tells_fuses = record { seqno = 4; payload = 0x82 ∷ 0xe1 ∷ 0x99 ∷ 0xff ∷ [] };
  writes_fuses = numbered 5;
  leaves = 6;
}

abbrev mk2 : Device
mk2 = record { flash_page_size = 128; eeprom_page_size = 4; use_debug_wire = false }

abbrev target : Target
target = record {
  programming_enabled = false;
  flash_cache = [];
  flash_cache_page_addr = 0;
  eeprom_cache = [];
  eeprom_cache_page_addr = 0;
}

abbrev fuse_line : Link
fuse_line = record fresh { input = answers (preparation 1000000 fuse_answers) ++ [] }

abbrev fuses : Message
fuses = record { seqno = 1; payload = 0x82 ∷ 0xe1 ∷ 0x99 ∷ 0xff ∷ [] }

abbrev reading_line : Link
reading_line = record fresh { input = answers (fuse_reading 0 fuses 2) ++ quiet ∷ [] }

jtag_read_fuses-programmer_example :
    (l' : Link) × (jtag_read_fuses (programmer mk2) (reading_line, target)
      ≡ done (0xe1 ∷ 0x99 ∷ 0xff ∷ []) (l', record target { programming_enabled = false }))
    × Said reading_line l' (fuse_reading 0 fuses 2) (quiet ∷ [])
jtag_read_fuses-programmer_example =
    jtag_read_fuses-programmer mk2 target 0 2 fuses reading_line (quiet ∷ []) refl refl refl (
      numbered-IsPositive 0 _ (omega arith) refl,
      (
        answer-IsPositive 1 0x82 (0xe1 ∷ 0x99 ∷ 0xff ∷ []) _ (omega arith) (omega arith) refl
            (omega arith) (omega arith),
        (numbered-IsPositive 2 _ (omega arith) refl, tt),
      ),
    )

abbrev wrote : Message
wrote = record { seqno = 1; payload = 0x80 ∷ [] }

abbrev read_again : Message
read_again = record { seqno = 2; payload = 0x82 ∷ 0xe1 ∷ 0x99 ∷ 0xff ∷ [] }

abbrev writing_line : Link
writing_line = record fresh {
  input = answers (fuse_writing mk2 0xe1 0x99 0xff 0 wrote read_again 3) ++ quiet ∷ [];
}
