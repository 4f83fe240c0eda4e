-- ===== src/Mk1/Setup.antt =====
-- src/jtagio.cc from `changeBitRate` on, with the programming mode of src/jtagprog.cc: signing on and
-- setting up the mkI. `tcflush` drops what has come before, so the events of the line are those behind
-- it. Where an expression of the source calls `getJtagParameter` more than once, the calls are taken
-- from left to right.
pub mod Silent
pub mod DeviceId
pub mod Ends
pub mod Supported
use jtag_js.Base.{
  ℕ, zero, suc, ◌+◌, ◌-◌, ◌*◌, ◌/◌, ◌%◌, ◌^◌, bit_and, Bool, true, false, ◌&&◌, Option, none, some,
  List, [], ◌∷◌, ltb, leb, ◌==◌, if◌then◌else◌, get_or, codes, Bytes,
}
use jtag_js.Port.{
  Outcome, returned, thrown, crashed, M, ◌>>=◌, ◌>>◌, pure, throw, check, set_port_rate,
}
use jtag_js.Devices.{DeviceDef, devfl_mkii_only, desc1_bytes}
use jtag_js.Devices.Lookup.{device_by_id, device_by_name}
use jtag_js.Mk2.Setup.{DaisyChain, is_bit_rate, or_junk, lock_space, fuse_space}
use jtag_js.Mk1.Io.{
  eom, r_ok, SendResult, send_failed, send_jtag_command, get_jtag_response, do_jtag_command,
  do_simple_jtag_command, set_jtag_parameter, get_jtag_parameter, reset_program, interrupt_program,
}
use jtag_js.Mk1.Memory.{jtag_read, jtag_write}
use jtag_js.Mk1.Breakpoints.{Breakpoints, delete_all_breakpoints}

-- What the `jtag1` object holds besides the line and the breakpoints.
pub record Box : Type 0 where
  pub is_usb : Bool
  pub apply_nsrst : Bool
  pub dchain : DaisyChain
  pub device_name : Option Bytes
  pub device : Option DeviceDef
  pub bit_rate : ℕ

unfoldable pub change_local_bit_rate : ℕ → Box → M Box
change_local_bit_rate rate box =
    if box.is_usb
    then pure box
    else if is_bit_rate rate
    then (set_port_rate rate >> pure (record box { bit_rate = rate }))
    else throw

-- The code of a bit rate; `none` is the variable that has not been set.
abbrev pub bit_rate_code : ℕ → Option ℕ
bit_rate_code rate =
    if rate == 9600
    then some 0xf4
    else if rate == 19200
    then some 0xfa
    else if rate == 38400
    then some 0xfd
    else if rate == 57600
    then some 0xfe
    else if rate == 115200
    then some 0xff
    else none

unfoldable pub change_bit_rate : ℕ → Box → M Box
change_bit_rate rate box = do
  jtagrate ← or_junk (bit_rate_code rate)
  set_jtag_parameter b'b' jtagrate
  change_local_bit_rate rate box

unfoldable pub set_device_descriptor : DeviceDef → M (Unit {0})
set_device_descriptor dev = do
  response ← do_jtag_command (desc1_bytes dev.dev_desc1) 1
  check (get_or response 0 0 == r_ok)

abbrev pub same_bytes : Bytes → Bytes → Bool
same_bytes [] [] = true
same_bytes (a ∷ bs) (b ∷ cs) = a == b && same_bytes bs cs
same_bytes _ _ = false

-- The response against "AVRNOCDA"; `none` is a timeout.
abbrev pub is_emulator : Option Bytes → Bool
is_emulator none = false
is_emulator (some response) = same_bytes response (codes "AVRNOCDA")

abbrev pub unless_failed : M Bool → SendResult → M Bool
unless_failed ask send_failed = pure false
unless_failed ask _ = ask

unfoldable pub check_for_emulator : M Bool
check_for_emulator =
    send_jtag_command (b'S' ∷ eom) 0
    >>= unless_failed (get_jtag_response 8 >>= λ response. pure (is_emulator response))

abbrev pub max_jtag_sync_attemps : ℕ
max_jtag_sync_attemps = 3

-- The loop of `synchroniseAt`, which counts the tries from 0 on; the rounds that are left.
unfoldable pub sync_rounds : ℕ → M Bool
sync_rounds zero l = returned false l
sync_rounds (suc rounds) l =
    let again = sync_rounds rounds in
    (send_jtag_command (codes "SE  ") (max_jtag_sync_attemps - suc rounds)
        >> (check_for_emulator >>= λ found. if found then pure true else again))
      l

unfoldable pub synchronise_at : ℕ → Box → M (Bool × Box)
synchronise_at rate box = do
  box ← change_local_bit_rate rate box
  found ← sync_rounds max_jtag_sync_attemps
  pure (found, box)

unfoldable pub try_rates : List ℕ → Box → M Box
try_rates [] box l = thrown l
try_rates (rate ∷ rates) box l =
    let next = try_rates rates in
    (synchronise_at rate box >>= λ r. if r.0 then pure r.1 else next r.1) l

abbrev pub bitrates : List ℕ
bitrates = 115200 ∷ 19200 ∷ 57600 ∷ 38400 ∷ 9600 ∷ []

unfoldable pub start_jtag_link : Box → M Box
start_jtag_link = try_rates bitrates

abbrev pub set_if_positive : ℕ → ℕ → M (Unit {0})
set_if_positive item value = if ltb 0 value then set_jtag_parameter item value else pure tt

unfoldable pub config_daisy_chain : DaisyChain → M (Unit {0})
config_daisy_chain d = do
  set_if_positive 0xab d.units_before
  set_if_positive 0xac d.units_after
  set_if_positive 0xad d.bits_before
  set_if_positive 0xae d.bits_after

unfoldable pub read_device_id : M ℕ
read_device_id = do
  b0 ← get_jtag_parameter 0xa7
  stopped ← interrupt_program
  b1 ← get_jtag_parameter 0xa8
  b2 ← get_jtag_parameter 0xa9
  b3 ← get_jtag_parameter 0xaa
  pure ((b0 + (b1 * 2 ^ 8 + b2 * 2 ^ 16 + b3 * 2 ^ 24)) / 2 ^ 12 % 2 ^ 16)

abbrev pub is_supported : DeviceDef → Bool
is_supported d = bit_and d.device_flags devfl_mkii_only == 0

-- A device that is not there, or is for the mkII only, ends the configuration.
abbrev pub demand_device : Option DeviceDef → M DeviceDef
demand_device none l = thrown l
demand_device (some d) l = if is_supported d then returned d l else thrown l

-- The table is `deviceDefinitions`.
module _ (definitions : List DeviceDef) where
  abbrev pub wanted_device : Option Bytes → ℕ → Option DeviceDef
  wanted_device none id = device_by_id definitions id
  wanted_device (some name) id = device_by_name definitions name

  unfoldable pub device_auto_config : Box → M Box
  device_auto_config box = do
    config_daisy_chain box.dchain
    id ← read_device_id
    d ← demand_device (wanted_device box.device_name id)
    set_device_descriptor d
    pure (record box { device_name = d.name; device = some d })

  unfoldable pub init_jtag_box : Box → Breakpoints → M (Box × Breakpoints)
  init_jtag_box box bp = do
    box ← start_jtag_link box
    box ← change_bit_rate 115200 box
    hw_ver ← get_jtag_parameter 0x7a
    sw_ver ← get_jtag_parameter 0x7b
    stopped ← interrupt_program
    box ← device_auto_config box
    pure (box, delete_all_breakpoints bp)

unfoldable pub enable_programming : M (Unit {0})
enable_programming = do_simple_jtag_command 0xa3 1 >>= check

unfoldable pub disable_programming : M (Unit {0})
disable_programming = do_simple_jtag_command 0xa4 1 >>= check

unfoldable pub erase_program_memory : M (Unit {0})
erase_program_memory = do_simple_jtag_command 0xa5 1 >>= check

unfoldable pub erase_program_page : ℕ → M (Unit {0})
erase_program_page address = do
  response ← do_jtag_command (0xa1 ∷ address / 2 ^ 8 % 256 ∷ address % 256 ∷ 0 ∷ eom) 1
  check (get_or response 0 0 == r_ok)

unfoldable pub clock_code : ℕ → ℕ
clock_code bitrate =
    if leb 1000000 bitrate
    then 0xff
    else if leb 500000 bitrate
    then 0xfe
    else if leb 250000 bitrate
    then 0xfd
    else 0xfb

-- Neither lies in program memory, so nothing behind the buffer is taken.
abbrev pub unlock : Option Bytes → M (Unit {0})
unlock none l = crashed
unlock (some lock_bits) l =
    (if get_or lock_bits 0 0 == 0xff
        then pure tt
        else (jtag_write true 0 lock_space (0xff ∷ []) >> pure tt))
      l

abbrev pub enable_ocd : Option Bytes → M (Unit {0})
enable_ocd none l = crashed
enable_ocd (some fuse_bits) l =
    (if bit_and (get_or fuse_bits 1 0) 0x80 == 0x80
        then (jtag_write true 0 (fuse_space + 1) ((get_or fuse_bits 1 0 - 0x80) ∷ []) >> pure tt)
        else pure tt)
      l

unfoldable pub init_jtag_on_chip_debugging : Box → ℕ → M (Unit {0})
init_jtag_on_chip_debugging box bitrate = do
  set_jtag_parameter 0x86 (clock_code bitrate)
  enable_programming
  lock_bits ← jtag_read true lock_space 1
  unlock lock_bits
  fuse_bits ← jtag_read true fuse_space 3
  enable_ocd fuse_bits
  disable_programming
  first ← reset_program false
  set_jtag_parameter 0xa0 0
  second ← reset_program box.apply_nsrst
  pure tt
