-- ===== src/Tests/First.antt =====
-- The mkI on concrete inputs: src/jtagbp.cc, src/jtagio.cc and src/jtagrun.cc.
use jtag_js.Base.{◌≡◌, refl, arith, true, false, List, [], ◌∷◌, ◌++◌, map}
use jtag_js.Port.{Link, byte, quiet, returned}
use jtag_js.Port.Post.{Post}
use jtag_js.Gdb.{code, write_data}
use jtag_js.Mk1.Io.{r_ok, do_jtag_command}
use jtag_js.Mk1.Io.Tries.{Anything, do_jtag_command-Ends, do_jtag_command-answer}
use jtag_js.Mk1.Breakpoints.{
  Breakpoint, Breakpoints, add_breakpoint, delete_breakpoint, delete_all_breakpoints,
  code_breakpoint_at,
}
use jtag_js.Mk1.Breakpoints.Limits.{IsWithin, breakpoints-IsWithin, add-delete}
use jtag_js.Mk1.Breakpoints.Units.{Units}

abbrev codes : List Breakpoint
codes =
    record { address = 0x10; bp_type = code }
    ∷ record { address = 0x20; bp_type = code }
    ∷ record { address = 0x30; bp_type = code }
    ∷ []

abbrev datas : List Breakpoint
datas = record { address = 0x161; bp_type = write_data } ∷ []

-- Three code breakpoints and a data breakpoint.
abbrev four : Breakpoints
four = record { bp_code = codes; bp_data = datas }

four-IsWithin : IsWithin four
four-IsWithin = record { data_fits = omega arith; total_fits = omega arith }

breakpoints-IsWithin_example :
    IsWithin (add_breakpoint four 0x40 code).1
    × IsWithin (delete_breakpoint four 0x40 code).1
    × IsWithin (delete_all_breakpoints four)
breakpoints-IsWithin_example = breakpoints-IsWithin four 0x40 code four-IsWithin

abbrev three : Breakpoints
three = record { bp_code = codes; bp_data = [] }

add-delete_example :
    ((add_breakpoint three 0x80 code).0 ≡ true)
    × (code_breakpoint_at (add_breakpoint three 0x80 code).1 0x80 ≡ true)
    × (delete_breakpoint (add_breakpoint three 0x80 code).1 0x80 code ≡ (true, three))
unfolding code_breakpoint_at
add-delete_example = add-delete three 0x80 (omega arith) refl

-- X and Y still watch two addresses from before.
abbrev stale : Units
stale = record { x_high = 1; x_low = 2; y_high = 3; y_low = 4; mode = 0x30 }

abbrev line : Link
line = record {
  input = quiet ∷ byte 0 ∷ quiet ∷ [];
  writes = [];
  output = [];
  ctrl_pipe = false;
  ctrl_output = [];
  command_sequence = 0;
  port_rates = [];
  junk = λ n. n;
}

do_jtag_command-Ends_example : Post Anything (do_jtag_command (b'2' ∷ 0x20 ∷ 0x20 ∷ []) 4 line)
do_jtag_command-Ends_example = do_jtag_command-Ends (b'2' ∷ 0x20 ∷ 0x20 ∷ []) 4 line

do_jtag_command-answer_example :
    do_jtag_command
      (b'2' ∷ [])
      2
      (record line { input = byte r_ok ∷ (map byte (7 ∷ r_ok ∷ []) ++ quiet ∷ []); writes = [] })
    ≡ returned
        (7 ∷ r_ok ∷ [])
        (record line { input = quiet ∷ []; writes = []; output = line.output ++ b'2' ∷ [] })
do_jtag_command-answer_example =
    do_jtag_command-answer (b'2' ∷ []) (7 ∷ r_ok ∷ []) (quiet ∷ []) line
