-- ===== src/Tests/Answers.antt =====
-- Positive answers of the mkII, for the tests.
use jtag_js.Base.{ℕ, ◌<◌, ◌≤◌, ◌≡◌, sym, length, arith, false, [], ◌∷◌, Bytes}
use jtag_js.Port.{Link}
use jtag_js.Mk2.Frame.{max_message}
use jtag_js.Mk2.Command.{rsp_ok, rsp_failed}
use jtag_js.Mk2.Command.Replies.{Message}
use jtag_js.Mk2.Command.Answers.{IsPositive}

-- A line on which nothing comes.
abbrev pub fresh : Link
fresh = record {
  input = [];
  writes = [];
  output = [];
  ctrl_pipe = false;
  ctrl_output = [];
  command_sequence = 0;
  port_rates = [];
  junk = λ n. n;
}

abbrev pub ok : Message
ok = record { seqno = 0; payload = 0x80 ∷ [] }

abbrev pub numbered : ℕ → Message
numbered n = record ok { seqno = n }

-- A response with its code, behind as many commands as its number says.
pub answer-IsPositive :
    (n code : ℕ) (rest : Bytes) (l : Link)
    → n < 65536
    → length (code ∷ rest) ≤ max_message
    → l.command_sequence ≡ n
    → rsp_ok ≤ code
    → code < rsp_failed
    → IsPositive (record { seqno = n; payload = code ∷ rest }) l
answer-IsPositive n code rest l word fits current from_ok below_failed = record {
  valid = record { non_empty = omega arith; fits = fits; word = word };
  current = sym current;
  from_ok = from_ok;
  below_failed = below_failed;
}

pub numbered-IsPositive :
    (n : ℕ) (l : Link) → n < 65536 → l.command_sequence ≡ n → IsPositive (numbered n) l
numbered-IsPositive n l word current =
    answer-IsPositive n 0x80 [] l word (omega arith) current (omega arith) (omega arith)
