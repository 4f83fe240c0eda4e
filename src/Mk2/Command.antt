-- ===== src/Mk2/Command.antt =====
-- Commands and their responses: src/jtag2io.cc `recv`, `sendJtagCommand`, `doJtagCommand`,
-- `doSimpleJtagCommand`, and src/jtag2misc.cc.
pub mod Sequence
pub mod Replies
pub mod Attempts
pub mod Silence
pub mod Checked
pub mod Answers
pub mod Dialogue
use jtag_js.Base.{
  ℕ, zero, suc, ◌+◌, ◌-◌, ◌%◌, ◌^◌, Bool, true, false, not, ◌&&◌, ◌||◌, Option, none, some, [], ◌∷◌,
  ◌++◌, ltb, leb, ◌==◌, if◌then◌else◌, length, get_or, take, drop, Bytes,
}
use jtag_js.Port.{
  Link, Outcome, returned, thrown, crashed, stuck, hung, M, ◌>>=◌, ◌>>◌, pure, throw, check,
  signal_daemon,
}
use jtag_js.Mk2.Frame.{Received, frame, bad_frame, recv_frame, send_frame}

abbrev pub max_jtag_comm_attemps : ℕ
max_jtag_comm_attemps = 10

abbrev pub rsp_ok : ℕ
rsp_ok = 0x80

abbrev pub rsp_parameter : ℕ
rsp_parameter = 0x81

abbrev pub rsp_failed : ℕ
rsp_failed = 0xa0

-- The size of a response, as the 32-bit pattern of an int, and its bytes or null.
pub record Response : Type 0 where
  pub size : ℕ
  pub msg : Option Bytes

-- An int that is greater than 0.
abbrev pub is_positive : ℕ → Bool
is_positive n = ltb 0 n && ltb n (2 ^ 31)

abbrev pub minus_one : ℕ
minus_one = 2 ^ 32 - 1

-- `if (++command_sequence == 0xffff) command_sequence = 0`
abbrev pub next_sequence : ℕ → ℕ
next_sequence s = let s' = (s + 1) % 2 ^ 16 in if s' == 0xffff then 0 else s'

-- What `recv` does with what `recvFrame` returns: pass it on; take it as the awaited response; drop
-- it and go on; or read through a null pointer.
pub data Verdict : Type 0 where
  answer awaited : Response → Verdict
  skip null_read : Verdict

-- The payload moves to the front of the buffer; the response is its first `len` bytes.
abbrev pub payload_of : ℕ → Bytes → Bytes
payload_of len buf = take len (drop 8 buf)

abbrev judge_positive : ℕ → Option Bytes → ℕ → ℕ → Verdict
judge_positive sequence none len seqno =
    if seqno == sequence then null_read else if seqno == 0xffff then null_read else skip
judge_positive sequence (some buf) len seqno =
    if seqno == sequence
    then awaited (record { size = len; msg = some (payload_of len buf) })
    else skip

unfoldable pub judge : ℕ → Received → Verdict
judge sequence bad_frame = answer (record { size = minus_one; msg = none })
judge sequence (frame msg len seqno) =
    if is_positive len
    then judge_positive sequence msg len seqno
    else answer (record { size = len; msg = msg })

unfoldable pub recv_in : ℕ → M Response
recv_in zero l = stuck
recv_in (suc fuel) l = elim (recv_frame l) [
  | returned x l' ↦ elim (judge l'.command_sequence x) [
    | answer r ↦ returned r l'
    | awaited r ↦ returned r (record l' { command_sequence = next_sequence l'.command_sequence })
    | skip ↦ recv_in fuel l'
    | null_read ↦ crashed
  ]
  | thrown l' ↦ thrown l'
  | crashed ↦ crashed
  | stuck ↦ stuck
  | hung ↦ hung
]

-- A frame that is dropped has used up an event, so this is enough rounds.
unfoldable pub recv : M Response
recv l = recv_in (length l.input + 1) l

abbrev pub first_byte : Response → ℕ
first_byte r = elim r.msg [ none ↦ 0 | some m ↦ get_or m 0 0 ]

-- The result, the count of tries, and the response.
pub record Sent : Type 0 where
  pub positive : Bool
  pub tries : ℕ
  pub response : Response

unfoldable pub classify : ℕ → Response → Sent
classify tries r = record {
  positive = is_positive r.size && leb rsp_ok (first_byte r) && ltb (first_byte r) rsp_failed;
  tries = tries;
  response = r;
}

unfoldable pub send_jtag_command : Bytes → ℕ → Bool → M Sent
send_jtag_command command tries verify = do
  check (ltb tries max_jtag_comm_attemps)
  send_frame command
  r ← recv
  check (not verify || is_positive r.size)
  pure (classify (tries + 1) r)

-- Past three tries, a USB daemon is told to reset the endpoints.
abbrev pub reset_endpoints : ℕ → M (Unit {0})
reset_endpoints tries l = if ltb 3 tries then signal_daemon b'c' l else returned tt l

unfoldable pub do_command_loop : ℕ → Bytes → Bool → ℕ → M (Bool × Response)
do_command_loop zero command retry tries l = stuck
do_command_loop (suc fuel) command retry tries l = elim (send_jtag_command command tries false l) [
  | returned s l' ↦
      let again = (reset_endpoints s.tries >> do_command_loop fuel command retry s.tries) l' in
      if s.positive
      then returned (true, s.response) l'
      else if is_positive s.response.size || not retry
      then returned (false, s.response) l'
      else again
  | thrown l' ↦ thrown l'
  | crashed ↦ crashed
  | stuck ↦ stuck
  | hung ↦ hung
]

-- The check of the tries ends the loop, so one round more than the tries allowed is enough.
unfoldable pub do_jtag_command : Bytes → Bool → M (Bool × Response)
do_jtag_command command retry = do_command_loop (max_jtag_comm_attemps + 1) command retry 0

-- `jtagCheck(dummy <= 0)` checks the truth value of the comparison, 0 or 1, for being negative: it
-- never fails, so what is no positive response is tried again, whatever it is.
unfoldable pub do_simple_loop : ℕ → ℕ → ℕ → M (Unit {0})
do_simple_loop zero command tries l = stuck
do_simple_loop (suc fuel) command tries l = elim (send_jtag_command (command ∷ []) tries false l) [
  | returned s l' ↦
      let again = do_simple_loop fuel command s.tries l' in
      if s.positive
      then check (s.response.size == 1 && first_byte s.response == rsp_ok) l'
      else again
  | thrown l' ↦ thrown l'
  | crashed ↦ crashed
  | stuck ↦ stuck
  | hung ↦ hung
]

unfoldable pub do_simple_jtag_command : ℕ → M (Unit {0})
do_simple_jtag_command command = do_simple_loop (max_jtag_comm_attemps + 1) command 0

-- `check(doJtagCommand(…), …)`
unfoldable pub checked_command : Bytes → M Response
checked_command command = do (positive, r) ← do_jtag_command command true; check positive; pure r

unfoldable pub set_jtag_parameter : ℕ → Bytes → M (Unit {0})
set_jtag_parameter item value = do
  check (leb (length value) 4)
  r ← checked_command (0x02 ∷ item ∷ value)
  pure tt

unfoldable pub get_jtag_parameter : ℕ → M Response
get_jtag_parameter item = do
  r ← checked_command (0x03 ∷ item ∷ [])
  check (first_byte r == rsp_parameter && is_positive r.size && ltb 1 r.size)
  pure r
