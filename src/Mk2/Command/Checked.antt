-- ===== src/Mk2/Command/Checked.antt =====
-- src/jtag2io.cc: a command whose failure is checked for ends.
use jtag_js.Base.{◌+◌, arith, Bool, true, false, Bytes}
use jtag_js.Port.{Link, ◌>>◌, pure, check}
use jtag_js.Port.Post.{Post, >>=-Post}
use jtag_js.Mk2.Command.{max_jtag_comm_attemps, do_jtag_command, checked_command}
use jtag_js.Mk2.Command.Attempts.{Always, do_command_loop-Post}

check-Always : (ok : Bool) (l : Link) → Post Always (check ok l)
check-Always true l = tt
check-Always false l = tt

pub checked_command-Post : (command : Bytes) (l : Link) → Post Always (checked_command command l)
unfolding checked_command do_jtag_command
checked_command-Post command l =
    >>=-Post Always Always (do_jtag_command command true) (λ p. check p.0 >> pure p.1) l
      (do_command_loop-Post (max_jtag_comm_attemps + 1) command true 0 l (omega arith)
        (omega arith))
      (λ p l' _.
        >>=-Post Always Always (check p.0) (λ _. pure p.1) l' (check-Always p.0 l') (λ _ _ _. tt))
