-- ===== src/Gdb/Reports.antt =====
-- src/remote.cc, the replies and reports: `ok`, `error`, `reportStatusExtended`, `reportStatus`,
-- `readLWord`, `readBWord`, `readSP`, `handleInterrupt`, `singleStep` and `repStatus`.
use jtag_js.Base.{
  ℕ, zero, suc, ◌+◌, ◌*◌, ◌%◌, ◌^◌, Bool, true, false, not, ◌&&◌, ◌||◌, none, some, [], ◌∷◌, ◌++◌,
  ltb, if◌then◌else◌, get_or, Bytes,
}
use jtag_js.Encoding.{byte_to_hex, u32_to_b4, mem2hex}
use jtag_js.Gdb.{JtagIce, Setting, stuck, G, ◌>>=◌, ◌>>◌, pure, ask, set_reply, code}
use jtag_js.Gdb.Packets.{gdb_out}

abbrev pub data_space_addr_offset : ℕ
data_space_addr_offset = 0x800000

abbrev pub sigint : ℕ
sigint = 2

abbrev pub sigtrap : ℕ
sigtrap = 5

unfoldable pub ok : {B : Type 0} → G B (Unit {0})
ok = set_reply (b'O' ∷ b'K' ∷ [])

unfoldable pub error : {B : Type 0} → ℕ → G B (Unit {0})
error n = set_reply (b'E' ∷ byte_to_hex (n % 256))

-- "T%02x20:%02x;21:%02x%02x;22:%02x%02x%02x%02x;"
unfoldable pub status_text : ℕ → ℕ → ℕ → ℕ → ℕ → Bytes
status_text sigval sreg spl sph pc =
    b'T' ∷ byte_to_hex (sigval % 256)
    ++ (b'2' ∷ b'0' ∷ b':' ∷ byte_to_hex sreg
        ++ (b';' ∷ b'2' ∷ b'1' ∷ b':' ∷ byte_to_hex spl
            ++ (byte_to_hex sph
                ++ (b';' ∷ b'2' ∷ b'2' ∷ b':' ∷ mem2hex (u32_to_b4 pc) 4 ++ b';' ∷ []))))

unfoldable pub report_status_extended : {B : Type 0} → JtagIce B → ℕ → G B (Unit {0})
report_status_extended ice sigval = do
  pc ← ask ice.get_program_counter
  jtag_buffer ← ask (ice.jtag_read (0x5d + data_space_addr_offset) 3)
  elim jtag_buffer [
    | none ↦ error 1
    | some m ↦ set_reply (status_text sigval (get_or m 2 0) (get_or m 0 0) (get_or m 1 0) pc)
  ]

unfoldable pub report_status : {B : Type 0} → ℕ → G B (Unit {0})
report_status sigval = set_reply (b'S' ∷ byte_to_hex sigval)

unfoldable pub read_l_word : {B : Type 0} → JtagIce B → ℕ → G B ℕ
read_l_word ice address = do
  mem ← ask (ice.jtag_read (data_space_addr_offset + address) 2)
  elim mem [ none ↦ pure 0 | some m ↦ pure (get_or m 0 0 + get_or m 1 0 * 2 ^ 8) ]

unfoldable pub read_b_word : {B : Type 0} → JtagIce B → ℕ → G B ℕ
read_b_word ice address = do
  mem ← ask (ice.jtag_read (data_space_addr_offset + address) 2)
  elim mem [ none ↦ pure 0 | some m ↦ pure (get_or m 0 0 * 2 ^ 8 + get_or m 1 0) ]

unfoldable pub read_sp : {B : Type 0} → JtagIce B → G B ℕ
read_sp ice = read_l_word ice 0x5d

-- What is done behind a stop: the breakpoint that was added goes again, and the loop is left unless
-- the stop was an unrelated excursion to the return address.
unfoldable pub after_stop : {B : Type 0} → JtagIce B → Bool → ℕ → ℕ → Bool → G B Bool → G B Bool
after_stop ice need_bp intr_sp ret_pc result again = do
  (if need_bp then (ask (ice.delete_breakpoint ret_pc code 0) >> pure tt) else pure tt)
  (if not result || not need_bp
      then pure result
      else (read_sp ice >>= λ sp. if ltb intr_sp sp then pure result else again))

unfoldable pub interrupt_loop : {B : Type 0} → ℕ → JtagIce B → Bool → ℕ → ℕ → G B Bool
interrupt_loop zero ice need_bp intr_sp ret_pc g = stuck
interrupt_loop (suc rounds) ice need_bp intr_sp ret_pc g =
    let again = interrupt_loop rounds ice need_bp intr_sp ret_pc in
    (do
      room ← (if need_bp then ask (ice.add_breakpoint ret_pc code 0) else pure true)
      (if room
          then (do
            result ← ask ice.jtag_continue
            after_stop ice need_bp intr_sp ret_pc result again)
          else pure false))
      g

-- The breakpoint stands at the return address of the interrupt.
unfoldable pub handle_interrupt : {B : Type 0} → Setting → JtagIce B → G B Bool
handle_interrupt setting ice = do
  intr_sp ← read_sp ice
  word ← read_b_word ice (intr_sp + 1)
  let ret_pc = word * 2
  there ← ask (ice.code_breakpoint_at ret_pc)
  interrupt_loop setting.rounds ice (not there) intr_sp ret_pc

-- "Failed to single-step"
abbrev failed_to_step : Bytes
failed_to_step =
    b'F' ∷ b'a' ∷ b'i' ∷ b'l' ∷ b'e' ∷ b'd' ∷ b' ' ∷ b't' ∷ b'o' ∷ b' ' ∷ b's' ∷ b'i' ∷ b'n' ∷ b'g'
    ∷ b'l' ∷ b'e' ∷ b'-' ∷ b's' ∷ b't' ∷ b'e' ∷ b'p' ∷ []

unfoldable pub single_step : {B : Type 0} → Setting → JtagIce B → G B Bool
single_step setting ice = do
  stepped ← ask ice.jtag_single_step
  (if stepped then pure tt else gdb_out ice failed_to_step)
  new_pc ← ask ice.get_program_counter
  at_breakpoint ← ask (ice.code_breakpoint_at new_pc)
  (if at_breakpoint
      then pure true
      else if setting.ignore_interrupts && ltb new_pc setting.vectors_end
      then handle_interrupt setting ice
      else pure true)

-- Without a breakpoint, gdb is taken to have sent a break: the target is halted.
unfoldable pub rep_status : {B : Type 0} → JtagIce B → Bool → G B (Unit {0})
rep_status ice true = report_status_extended ice sigtrap
rep_status ice false = ask ice.interrupt_program >> report_status_extended ice sigint
