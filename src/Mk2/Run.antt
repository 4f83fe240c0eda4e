-- ===== src/Mk2/Run.antt =====
-- src/jtag2run.cc: the program counter, reset, interrupt, and the events that the box posts. The loop
-- of `eventLoop` has no exit in the source; it is followed for as many rounds as a caller says.
pub mod Counter
pub mod Events
pub mod Names
use jtag_js.Base.{
  ℕ, zero, suc, ◌+◌, ◌-◌, ◌*◌, ◌/◌, ◌^◌, Bool, true, false, not, ◌&&◌, ◌||◌, Option, none, some,
  List, [], ◌∷◌, ◌++◌, ltb, leb, ◌==◌, if◌then◌else◌, length, get_or, set, take, drop, replicate,
  Bytes,
}
use jtag_js.Encoding.{b4_to_u32, u32_to_b4}
use jtag_js.Port.{
  Event, byte, quiet, fault, hangup, Link, Outcome, returned, thrown, crashed, stuck, M, ◌>>=◌,
  ◌>>◌, pure, signal_daemon,
}
use jtag_js.Mk2.Frame.{Received, frame, bad_frame, recv_frame}
use jtag_js.Mk2.Command.{Response, do_jtag_command, do_simple_jtag_command, checked_command}

unfoldable pub get_program_counter : M ℕ
get_program_counter = do
  r ← checked_command (0x07 ∷ [])
  elim r.msg [ none ↦ pure 0 | some m ↦ pure (b4_to_u32 (drop 1 m) * 2) ]

unfoldable pub set_program_counter : ℕ → M Bool
set_program_counter pc = do r ← checked_command (0x06 ∷ u32_to_b4 (pc / 2)); pure true

unfoldable pub interrupt_program : M Bool
interrupt_program = do (positive, r) ← do_jtag_command (0x0a ∷ 0x01 ∷ []) true; pure positive

unfoldable pub resume_program : M Bool
resume_program = do do_simple_jtag_command 0x08; pure true

unfoldable pub start_polling : M (Unit {0})
start_polling = signal_daemon b'p'

abbrev pub evt_break : ℕ
evt_break = 0xe0

-- What an event does to the two flags: stop at a breakpoint, as if gdb had interrupted, or nothing.
pub data Effect : Type 0 where
  sets_breakpoint sets_interrupt goes_on : Effect

-- The switch of `pollDevice`: the break events, and the two that go on; every other event, known or
-- not, interrupts.
unfoldable pub event_effect : ℕ → Effect
event_effect event =
    if event == 0xe0 || (event == 0xe7 || (event == 0xf2 || (event == 0xf3 || event == 0xf1)))
    then sets_breakpoint
    else if event == 0xef || event == 0xe1
    then goes_on
    else sets_interrupt

pub record Flags : Type 0 where
  pub breakpoint : Bool
  pub gdb_interrupt : Bool

abbrev pub apply_effect : Effect → Flags → Flags
apply_effect sets_breakpoint f = record f { breakpoint = true }
apply_effect sets_interrupt f = record f { gdb_interrupt = true }
apply_effect goes_on f = f

-- What `select` finds on the line within 10 ms: nothing yet, and the wait goes on in the next round,
-- or something to read, be it an error or the end of the line.
unfoldable pub wait_read : M Bool
wait_read l = elim l.input [
  | [] ↦ returned false l
  | event ∷ input ↦ elim event [
    | quiet ↦ returned false (record l { input = input })
    | byte b ↦ returned true l
    | fault ↦ returned true l
    | hangup ↦ returned true l
  ]
]

-- `pollDevice`, when there is something to read from the box. A frame of no event is dropped; a
-- null buffer with the number of an event is read through, and an event below EVT_BREAK reads before
-- the array of flags: both are `crashed` here.
abbrev pub on_frame : List Bool → Flags → Received → M Flags
on_frame nonbreaking f bad_frame = pure f
on_frame nonbreaking f (frame msg len seqno) =
    if leb (2 ^ 31) len then pure f else if not (seqno == 0xffff) then pure f else elim msg [
      | none ↦ (λ l. crashed)
      | some buf ↦
          let event = get_or buf 8 0 in
          if ltb event evt_break
          then (λ l. crashed)
          else pure (
              if get_or nonbreaking (event - evt_break) false
              then f
              else apply_effect (event_effect event) f)
    ]

unfoldable pub poll_device : List Bool → Flags → M Flags
poll_device nonbreaking f = do
  ready ← wait_read
  (if ready then (recv_frame >>= on_frame nonbreaking f) else pure f)

-- One round of `eventLoop` is one of `pollDevice`, whose arguments the caller has swapped.
abbrev pub swap_flags : Flags → Flags
swap_flags f = record { breakpoint = f.gdb_interrupt; gdb_interrupt = f.breakpoint }

unfoldable pub event_rounds : ℕ → List Bool → Flags → M Bool
event_rounds zero nonbreaking f l = stuck
event_rounds (suc rounds) nonbreaking f l =
    (do
      f' ← poll_device nonbreaking (swap_flags f)
      event_rounds rounds nonbreaking (swap_flags f'))
      l

unfoldable pub event_loop : ℕ → List Bool → M Bool
event_loop rounds nonbreaking = do
  start_polling
  event_rounds rounds nonbreaking (record { breakpoint = false; gdb_interrupt = false })

unfoldable pub reset_program : ℕ → List Bool → Bool → M Bool
reset_program rounds nonbreaking true = do
  stopped ← interrupt_program
  (if stopped then set_program_counter 0 else pure false)
reset_program rounds nonbreaking false = do
  (rv, resp) ← do_jtag_command (0x0b ∷ 0x01 ∷ []) true
  event_loop rounds nonbreaking
  pure rv

-- The command of `jtagSingleStep`, given again while the state of the MCU is illegal. The response
-- is read even when there is none.
unfoldable pub step_command : ℕ → Bool → M Bool
step_command zero use_hll l = returned false l
step_command (suc i) use_hll l =
    let again = step_command i use_hll in
    (do
      (rv, resp) ←
          do_jtag_command (0x09 ∷ (if use_hll then 2 else 1) ∷ (if use_hll then 0 else 1) ∷ []) true
      elim resp.msg [
        | none ↦ (λ l. crashed)
        | some m ↦ if rv then pure true else if get_or m 0 0 == 0xa5 then again else pure false
      ])
      l

unfoldable pub jtag_single_step : ℕ → List Bool → Bool → M Bool
jtag_single_step rounds nonbreaking use_hll = do
  stepped ← step_command 3 use_hll
  (if stepped
      then (do
        stopped ← event_loop rounds nonbreaking
        (if stopped then pure tt else (interrupt_program >> pure tt))
        pure true)
      else pure false)

-- `jtagContinue`, behind the update of the breakpoints.
unfoldable pub jtag_continue : ℕ → List Bool → Bool → M Bool
jtag_continue rounds nonbreaking have_hidden_breakpoint = do
  (if have_hidden_breakpoint
      then (jtag_single_step rounds nonbreaking true >> pure tt)
      else do_simple_jtag_command 0x08)
  event_loop rounds nonbreaking
