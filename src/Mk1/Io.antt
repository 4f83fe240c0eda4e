-- ===== src/Mk1/Io.antt =====
-- src/jtagio.cc, src/jtagmisc.cc and the program counter of src/jtagrun.cc. `tcflush` drops what has
-- come before a command, so the events of the line are those behind it; it and `tcdrain` are taken to
-- succeed. An info byte is taken to be no `send_ok`.
pub mod Tries
pub mod Counter
use jtag_js.Base.{
  ℕ, zero, suc, ◌+◌, ◌-◌, ◌*◌, ◌/◌, ◌%◌, ◌^◌, Bool, true, false, not, ◌&&◌, ◌||◌, Option, none,
  some, [], ◌∷◌, ◌++◌, ltb, leb, ◌==◌, if◌then◌else◌, length, get_or, Bytes,
}
use jtag_js.Port.{
  Link, Outcome, returned, thrown, crashed, stuck, M, ◌>>=◌, ◌>>◌, pure, check, timeout_read,
  safewrite,
}

abbrev pub max_attempts : ℕ
max_attempts = 10

abbrev pub r_ok : ℕ
r_ok = b'A'

abbrev pub r_info : ℕ
r_info = b'G'

-- JTAG_EOM
abbrev pub eom : Bytes
eom = 0x20 ∷ 0x20 ∷ []

pub data SendResult : Type 0 where
  send_failed send_ok mcu_data : SendResult

-- The two bytes behind an info response.
abbrev pub info_result : Bytes → SendResult
info_result (a ∷ b ∷ []) = if b == r_ok then mcu_data else send_failed
info_result _ = send_failed

abbrev pub read_answer : Bytes → M SendResult
read_answer [] = pure send_failed
read_answer (ok ∷ _) =
    if ok == r_ok
    then pure send_ok
    else if ok == r_info
    then (timeout_read 2 >>= λ info. pure (info_result info))
    else pure send_failed

-- The number of tries is the caller's to count on.
unfoldable pub send_jtag_command : Bytes → ℕ → M SendResult
send_jtag_command command tries = do
  check (ltb tries max_attempts)
  fine ← safewrite command
  check fine
  answer ← timeout_read 1
  read_answer answer

-- `none` is the null pointer of a timeout.
unfoldable pub get_jtag_response : ℕ → M (Option Bytes)
get_jtag_response size = do
  bytes ← timeout_read size
  pure (if ltb (length bytes) size then none else some bytes)

abbrev pub sync_command : Bytes
sync_command = 0x20 ∷ []

abbrev pub stop_command : Bytes
stop_command = b'S' ∷ eom

-- `check(response != NULL)`
abbrev pub demand : Option Bytes → M Bytes
demand none l = thrown l
demand (some bytes) l = returned bytes l

-- What is done when blanks were sent, a command was sent, or the target's data was to be stopped.
abbrev pub after_sync : M Bytes → M Bytes → SendResult → M Bytes
after_sync resync resend send_ok = resend
after_sync resync resend send_failed = resync
after_sync resync resend mcu_data = resync

abbrev pub after_stop : M Bytes → SendResult → M Bytes
after_stop resend send_ok = get_jtag_response 8 >> resend
after_stop resend send_failed = resend
after_stop resend mcu_data = resend

abbrev pub after_command : ℕ → M Bytes → M Bytes → SendResult → M Bytes
after_command size resync stop send_ok = get_jtag_response size >>= demand
after_command size resync stop send_failed = resync
after_command size resync stop mcu_data = stop

-- The loops of `doJtagCommand`: sending the command, or (`syncing`) sending blanks until the box
-- answers.
unfoldable pub command_rounds : ℕ → Bool → Bytes → ℕ → ℕ → M Bytes
command_rounds zero syncing command size tries l = stuck
command_rounds (suc rounds) true command size tries l =
    let resync = command_rounds rounds true command size (tries + 1) in
    let resend = command_rounds rounds false command size (tries + 1) in
    (send_jtag_command sync_command tries >>= after_sync resync resend) l
command_rounds (suc rounds) false command size tries l =
    let resync = command_rounds rounds true command size (tries + 1) in
    let resend = command_rounds rounds false command size (tries + 2) in
    let stop = send_jtag_command stop_command (tries + 1) >>= after_stop resend in
    (send_jtag_command command tries >>= after_command size resync stop) l

-- The check of the tries ends the loops, so one round more than the tries allowed is enough.
unfoldable pub do_jtag_command : Bytes → ℕ → M Bytes
do_jtag_command command size = command_rounds (max_attempts + 1) false command size 0

unfoldable pub do_simple_jtag_command : ℕ → ℕ → M Bool
do_simple_jtag_command cmd size = do
  response ← do_jtag_command (cmd ∷ eom) size
  pure (size == 0 || get_or response (size - 1) 0 == r_ok)

unfoldable pub set_jtag_parameter : ℕ → ℕ → M (Unit {0})
set_jtag_parameter item value = do
  response ← do_jtag_command (b'B' ∷ item ∷ value ∷ eom) 1
  check (get_or response 0 0 == r_ok)

unfoldable pub get_jtag_parameter : ℕ → M ℕ
get_jtag_parameter item = do
  response ← do_jtag_command (b'q' ∷ item ∷ eom) 2
  check (get_or response 1 0 == r_ok)
  pure (get_or response 0 0)

unfoldable pub decode_address : Bytes → ℕ
decode_address buf = get_or buf 0 0 * 2 ^ 16 + get_or buf 1 0 * 2 ^ 8 + get_or buf 2 0

unfoldable pub encode_address : ℕ → Bytes
encode_address x = x / 2 ^ 16 % 256 ∷ x / 2 ^ 8 % 256 ∷ x % 256 ∷ []

abbrev pub pc_invalid : ℕ
pc_invalid = 0xffffffff

-- A word address one ahead, as a byte address, in 64 bits.
unfoldable pub pc_of : Bytes → ℕ
pc_of response =
    if get_or response 3 0 == r_ok
    then (decode_address response + (2 ^ 64 - 1)) % 2 ^ 64 * 2 % 2 ^ 64
    else pc_invalid

unfoldable pub get_program_counter : M ℕ
get_program_counter = do response ← do_jtag_command (b'2' ∷ eom) 4; pure (pc_of response)

unfoldable pub set_program_counter : ℕ → M Bool
set_program_counter pc = do
  response ← do_jtag_command (b'3' ∷ encode_address (pc / 2 + 1) ++ eom) 1
  pure (get_or response 0 0 == r_ok)

unfoldable pub reset_program : Bool → M Bool
reset_program use_nsrst = do
  (if use_nsrst then set_jtag_parameter 0x8b 1 else pure tt)
  result ← do_simple_jtag_command b'x' 1
  (if use_nsrst then set_jtag_parameter 0x8b 0 else pure tt)
  pure result

unfoldable pub interrupt_program : M Bool
interrupt_program = do_simple_jtag_command b'F' 4

unfoldable pub resume_program : M Bool
resume_program = do_simple_jtag_command b'G' 0

unfoldable pub jtag_single_step : Bool → M Bool
jtag_single_step use_hll = do_simple_jtag_command b'1' 1
