-- ===== src/Mk2/Setup.antt =====
-- Signing on and setting up the mkII: the second half of src/jtag2io.cc, with `changeLocalBitRate` of
-- src/jtagserial.cc. `tcflush` drops what has come before, so the events of the line are those behind
-- it. What a short response holds behind its end is what the memory there happens to hold.
pub mod Silent
pub mod SignOn
pub mod Detect
pub mod Initialise
pub mod Programming
pub mod Unlocked
use jtag_js.Base.{
  ℕ, zero, suc, ◌+◌, ◌-◌, ◌*◌, ◌/◌, ◌%◌, ◌^◌, bit_and, Bool, true, false, not, ◌&&◌, ◌||◌, Option,
  none, some, List, [], ◌∷◌, ltb, leb, ◌==◌, if◌then◌else◌, get_or, take, Bytes,
}
use jtag_js.Port.{
  Link, Outcome, returned, thrown, crashed, stuck, M, ◌>>=◌, ◌>>◌, pure, throw, check,
  set_port_rate,
}
use jtag_js.Mk2.Command.{
  Response, send_jtag_command, checked_command, set_jtag_parameter, get_jtag_parameter, first_byte,
}
use jtag_js.Mk2.Breakpoints.{delete_all_breakpoints}
use jtag_js.Mk2.Breakpoints.Table.{Breakpoint}
use jtag_js.Mk2.Memory.{
  Device, Target, enable_programming, disable_programming, jtag_read, jtag_write,
}
use jtag_js.Mk2.Run.{interrupt_program, reset_program}
use jtag_js.Devices.{DeviceDef, desc2_bytes}
use jtag_js.Devices.Lookup.{device_by_id, device_by_name}

-- The units and bits before and after the device in the chain, a byte each.
pub record DaisyChain : Type 0 where
  pub units_before : ℕ
  pub units_after : ℕ
  pub bits_before : ℕ
  pub bits_after : ℕ

-- What the `jtag2` object holds besides the line, the table and the caches.
pub record Box : Type 0 where
  pub is_usb : Bool
  pub is_dragon : Bool
  pub use_debug_wire : Bool
  pub apply_nsrst : Bool
  pub is_xmega : Bool
  pub dchain : DaisyChain
  pub device_name : Option Bytes
  pub devdescrlen : ℕ
  pub signed_in : Bool
  pub device : Option DeviceDef
  -- the bit rate of the local port
  pub bit_rate : ℕ

abbrev pub is_bit_rate : ℕ → Bool
is_bit_rate rate =
    rate == 9600 || (rate == 19200 || (rate == 38400 || (rate == 57600 || rate == 115200)))

-- A bit rate that is not supported ends the program.
unfoldable pub change_local_bit_rate : ℕ → Box → M Box
change_local_bit_rate rate box =
    if box.is_usb
    then pure box
    else if is_bit_rate rate
    then (set_port_rate rate >> pure (record box { bit_rate = rate }))
    else throw

-- The code of a bit rate; `none` is the variable that has not been set.
abbrev pub par_baud : ℕ → Option ℕ
par_baud rate =
    if rate == 9600
    then some 0x03
    else if rate == 19200
    then some 0x04
    else if rate == 38400
    then some 0x05
    else if rate == 57600
    then some 0x06
    else if rate == 115200
    then some 0x07
    else none

abbrev pub or_junk : Option ℕ → M ℕ
or_junk none l = returned (l.junk 0) l
or_junk (some value) l = returned value l

unfoldable pub change_bit_rate : ℕ → Box → M Box
change_bit_rate rate box = if box.is_usb then pure box else (do
  jtagrate ← or_junk (par_baud rate)
  set_jtag_parameter 0x05 (jtagrate ∷ [])
  change_local_bit_rate rate box)

unfoldable pub set_device_descriptor : DeviceDef → Box → M (Unit {0})
set_device_descriptor dev box =
    checked_command (take box.devdescrlen (desc2_bytes dev.dev_desc2)) >> pure tt

abbrev pub max_jtag_sync_attemps : ℕ
max_jtag_sync_attemps = 3

abbrev pub rsp_sign_on : ℕ
rsp_sign_on = 0x86

abbrev pub byte_at : Response → ℕ → ℕ
byte_at r i = elim r.msg [ none ↦ 0 | some m ↦ get_or m i 0 ]

-- FWVER(maj, min) of the S_MCU
abbrev pub firmware : Response → ℕ
firmware r = byte_at r 8 * 2 ^ 8 + byte_at r 7

-- Before firmware 4.0 the mkII knows a shorter description; the Dragon always has the full one.
abbrev pub signed_on : Response → Box → Box
signed_on r box =
    if not box.is_dragon && ltb (firmware r) (4 * 2 ^ 8)
    then record box { devdescrlen = box.devdescrlen - 2 }
    else box

-- The loop of `synchroniseAt`, which counts the tries from 0 on; the rounds that are left.
unfoldable pub sync_rounds : ℕ → Box → M (Bool × Box)
sync_rounds zero box l = returned (false, box) l
sync_rounds (suc rounds) box l =
    let again = sync_rounds rounds box in
    (send_jtag_command (0x01 ∷ []) (max_jtag_sync_attemps - suc rounds) false >>= λ s.
    if s.positive
    then (check (first_byte s.response == rsp_sign_on && ltb 17 s.response.size)
        >> pure (true, signed_on s.response box))
    else again)
      l

unfoldable pub synchronise_at : ℕ → Box → M (Bool × Box)
synchronise_at rate box = do
  box ← change_local_bit_rate rate box
  sync_rounds max_jtag_sync_attemps box

abbrev pub emulator_mode : Box → ℕ
emulator_mode box = if box.use_debug_wire then 0x00 else if box.is_xmega then 0x05 else 0x01

abbrev pub after_sign_on : Box → M Box
after_sign_on box = do
  (if box.apply_nsrst then set_jtag_parameter 0x13 (0x01 ∷ []) else pure tt)
  set_jtag_parameter 0x03 (emulator_mode box ∷ [])
  pure (record box { signed_in = true })

unfoldable pub try_rates : List ℕ → Box → M Box
try_rates [] box l = thrown l
try_rates (rate ∷ rates) box l =
    let next = try_rates rates in
    (synchronise_at rate box >>= λ r. if r.0 then after_sign_on r.1 else next r.1) l

abbrev pub bitrates : List ℕ
bitrates = 19200 ∷ 115200 ∷ 57600 ∷ 38400 ∷ 9600 ∷ []

unfoldable pub start_jtag_link : Box → M Box
start_jtag_link = try_rates bitrates

unfoldable pub config_daisy_chain : DaisyChain → M (Unit {0})
config_daisy_chain d =
    if ltb 0 d.units_before || (ltb 0 d.units_after || (ltb 0 d.bits_before || ltb 0 d.bits_after))
    then set_jtag_parameter 0x1b
        (d.units_before ∷ d.units_after ∷ d.bits_before ∷ d.bits_after ∷ [])
    else pure tt

-- A byte of a response, or what lies behind it.
abbrev pub peek : Response → ℕ → M ℕ
peek r i l = elim r.msg [ none ↦ crashed | some m ↦ returned (get_or m i (l.junk i)) l ]

-- `jtagCheck(respSize == …)` checks the truth value for being negative: it never fails.
unfoldable pub read_device_id : Box → M ℕ
read_device_id box =
    if box.use_debug_wire
    then (do
      resp ← get_jtag_parameter 0x1d
      b1 ← peek resp 1
      b2 ← peek resp 2
      pure (b1 + b2 * 2 ^ 8))
    else (do
      resp ← get_jtag_parameter 0x0e
      b1 ← peek resp 1
      b2 ← peek resp 2
      b3 ← peek resp 3
      b4 ← peek resp 4
      pure ((b1 + b2 * 2 ^ 8 + b3 * 2 ^ 16 + b4 * 2 ^ 24) / 2 ^ 12 % 2 ^ 16))

-- `check(pDevice->name, …)`
abbrev pub demand_device : Option DeviceDef → M DeviceDef
demand_device none l = thrown l
demand_device (some d) l = returned d l

-- The table is `deviceDefinitions`.
module _ (definitions : List DeviceDef) where
  abbrev pub wanted_device : Option Bytes → ℕ → Option DeviceDef
  wanted_device none id = device_by_id definitions id
  wanted_device (some name) id = device_by_name definitions name

  unfoldable pub device_auto_config : Box → M Box
  device_auto_config box = do
    config_daisy_chain box.dchain
    id ← read_device_id box
    d ← demand_device (wanted_device box.device_name id)
    set_device_descriptor d (record box { device_name = d.name; device = some d })
    pure (record box { device_name = d.name; device = some d })

  -- A device named on the command line overrides `is_xmega`.
  abbrev pub name_overrides : Box → Box
  name_overrides box = elim box.device_name [
    | none ↦ box
    | some name ↦ elim (device_by_name definitions name) [
      | none ↦ box
      | some d ↦ record box { is_xmega = d.is_xmega }
    ]
  ]

  unfoldable pub init_jtag_box : Box → List Breakpoint → M (Box × List Breakpoint)
  init_jtag_box box bp = do
    box ← start_jtag_link (name_overrides box)
    box ← change_bit_rate 115200 box
    stopped ← interrupt_program
    box ← device_auto_config box
    pure (box, delete_all_breakpoints bp)

-- The divisor of the clock of the target's JTAG.
unfoldable pub clock_divisor : ℕ → ℕ
clock_divisor bitrate =
    if leb 6400000 bitrate
    then 0
    else if leb 2800000 bitrate
    then 1
    else if leb 20900 bitrate
    then 5350000 / bitrate % 256
    else 255

abbrev pub lock_space : ℕ
lock_space = 0x830000

abbrev pub fuse_space : ℕ
fuse_space = 0x820000

abbrev pub unlock : Device → Bytes → Target → M Target
unlock device lock_bits t =
    if get_or lock_bits 0 0 == 0xff
    then pure t
    else (jtag_write device lock_space (0xff ∷ []) t >>= λ r. pure r.1)

-- FUSE_OCDEN is the topmost bit, and is programmed when it is 0.
abbrev pub enable_ocd : Device → Bytes → Target → M Target
enable_ocd device fuse_bits t =
    let high = get_or fuse_bits 1 0 in
    if bit_and high 0x80 == 0x80
    then (jtag_write device (fuse_space + 1) ((high - 0x80) ∷ []) t >>= λ r. pure r.1)
    else pure t

abbrev pub prepare_fuses : Device → ℕ → Target → M Target
prepare_fuses device bitrate t = do
  set_jtag_parameter 0x07 (clock_divisor bitrate ∷ [])
  t ← enable_programming device t
  (lock_bits, t) ← jtag_read device lock_space 1 t
  t ← unlock device lock_bits t
  (fuse_bits, t) ← jtag_read device fuse_space 3 t
  t ← enable_ocd device fuse_bits t
  disable_programming device t

-- `rounds` and `nonbreaking` are those of `resetProgram`.
unfoldable pub init_jtag_on_chip_debugging : Device → Box → ℕ → List Bool → ℕ → Target → M Target
init_jtag_on_chip_debugging device box rounds nonbreaking bitrate t = do
  t ← (if device.use_debug_wire then pure t else prepare_fuses device bitrate t)
  first ← reset_program rounds nonbreaking false
  (if box.is_xmega then pure tt else set_jtag_parameter 0x09 (0 ∷ []))
  second ← reset_program rounds nonbreaking false
  pure t
