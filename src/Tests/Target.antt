-- ===== src/Tests/Target.antt =====
-- src/jtag2rw.cc and src/jtag2run.cc on concrete inputs.
use jtag_js.Base.{
  ◌-◌, ◌*◌, ◌/◌, ◌≡◌, refl, arith, true, false, List, [], ◌∷◌, ◌++◌, replicate, get_or, codes,
}
use jtag_js.Encoding.{u32_to_b4}
use jtag_js.Port.{Link, quiet, returned, ◌>>=◌}
use jtag_js.Mk2.Command.{rsp_ok}
use jtag_js.Mk2.Command.Replies.{Message}
use jtag_js.Mk2.Command.Dialogue.{Exchange, answers, Answered, Said}
use jtag_js.Mk2.Memory.{Target, mtype_flash_page, slice, cache_of, page_of, read_paged}
use jtag_js.Mk2.Memory.Cached.{read_paged-cached}
use jtag_js.Mk2.Run.{Flags, get_program_counter, set_program_counter}
use jtag_js.Mk2.Run.Counter.{
  counter_message, writes_counter, reads_counter, get_program_counter-set,
}
use jtag_js.Mk2.Run.Names.{parse_events}
use jtag_js.Mk2.Run.Events.{with_comma, parse_events_comma}

abbrev idle : Link
idle = record {
  input = [];
  writes = [];
  output = [];
  ctrl_pipe = false;
  ctrl_output = [];
  command_sequence = 5;
  port_rates = [];
  junk = λ n. n;
}

-- The page at 0x100 is in the cache.
abbrev target : Target
target = record {
  programming_enabled = true;
  flash_cache = replicate 256 9;
  flash_cache_page_addr = 0x100;
  eeprom_cache = [];
  eeprom_cache_page_addr = 0xffff;
}

read_paged-cached_example :
    read_paged mtype_flash_page 256 0x104 2 target idle
    ≡ returned (slice (0x104 - page_of 256 0x104) 2 (cache_of mtype_flash_page target), target) idle
read_paged-cached_example =
    read_paged-cached mtype_flash_page 256 0x104 2 target idle (omega arith) refl (omega arith)

abbrev fine : Message
fine = record { seqno = 5; payload = rsp_ok ∷ [] }

-- The two commands with their answers.
abbrev counter_exchanges : List Exchange
counter_exchanges =
    writes_counter (0x21 / 2) fine ∷ reads_counter (counter_message 6 0x84 (0x21 / 2)) ∷ []

abbrev counter_line : Link
counter_line = record idle { input = answers counter_exchanges ++ quiet ∷ [] }

counter_line-Answered : Answered counter_line counter_exchanges
unfolding u32_to_b4
counter_line-Answered = (
  record {
    valid = record { non_empty = omega arith; fits = omega arith; word = omega arith };
    current = refl;
    from_ok = omega arith;
    below_failed = omega arith;
  },
  (
    record {
      valid = record { non_empty = omega arith; fits = omega arith; word = omega arith };
      current = refl;
      from_ok = omega arith;
      below_failed = omega arith;
    },
    tt,
  ),
)

get_program_counter-set_example :
    (l' : Link) × ((set_program_counter 0x21 >>= λ _. get_program_counter) counter_line
      ≡ returned (0x21 / 2 * 2) l')
    × Said counter_line l' counter_exchanges (quiet ∷ [])
get_program_counter-set_example =
    get_program_counter-set 0x21 0x84 6 fine counter_line (quiet ∷ []) (omega arith) refl refl
      counter_line-Answered

-- The box stops at a breakpoint.
abbrev running : Flags
running = record { breakpoint = false; gdb_interrupt = false }

-- "sleep,"
parse_events_comma_example : get_or (parse_events (with_comma (codes "sleep"))) 0 false ≡ true
parse_events_comma_example = parse_events_comma (codes "sleep")
