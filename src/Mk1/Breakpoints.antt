-- ===== src/Mk1/Breakpoints.antt =====
-- src/jtagbp.cc: the breakpoints of the mkI, and which of its units each one gets. The arrays with
-- their counts are lists.
pub mod Limits
pub mod Units
use jtag_js.Base.{
  ℕ, zero, suc, ◌+◌, ◌-◌, ◌*◌, ◌/◌, ◌%◌, Bool, true, false, not, ◌&&◌, ◌||◌, Option, none, some,
  List, [], ◌∷◌, ◌++◌, ltb, leb, ◌==◌, if◌then◌else◌, length, get_elem?, Bytes,
}
use jtag_js.Port.{Link, Outcome, returned, M, ◌>>=◌, ◌>>◌, pure}
use jtag_js.Gdb.{BpType, none_type, code, softcode, write_data, read_data, access_data, data_mask}
use jtag_js.Mk2.Breakpoints.Table.{eq_type, is_code}
use jtag_js.Mk1.Io.{set_jtag_parameter}
use jtag_js.Mk1.Memory.{jtag_write}

pub record Breakpoint : Type 0 where
  pub address : ℕ
  pub bp_type : BpType

pub record Breakpoints : Type 0 where
  pub bp_code : List Breakpoint
  pub bp_data : List Breakpoint

abbrev pub max_breakpoints_code : ℕ
max_breakpoints_code = 4

abbrev pub max_breakpoints_data : ℕ
max_breakpoints_data = 2

abbrev pub max_breakpoints : ℕ
max_breakpoints = 4

abbrev pub any_address : (ℕ → Bool) → List Breakpoint → Bool
any_address test [] = false
any_address test (b ∷ bps) = test b.address || any_address test bps

unfoldable pub code_breakpoint_at : Breakpoints → ℕ → Bool
code_breakpoint_at s address = any_address (λ a. a == address / 2) s.bp_code

unfoldable pub code_breakpoint_between : Breakpoints → ℕ → ℕ → Bool
code_breakpoint_between s start end_ =
    any_address (λ a. leb (start / 2) a && ltb a (end_ / 2)) s.bp_code

unfoldable pub delete_all_breakpoints : Breakpoints → Breakpoints
delete_all_breakpoints s = record { bp_code = []; bp_data = [] }

-- Code breakpoints are kept by word address.
abbrev pub entry : ℕ → BpType → Breakpoint
entry address type = record {
  address = if is_code type then address / 2 else address;
  bp_type = type;
}

unfoldable pub add_breakpoint : Breakpoints → ℕ → BpType → Bool × Breakpoints
add_breakpoint s address type =
    if length s.bp_code + length s.bp_data == max_breakpoints
    then (false, s)
    else if is_code type
    then if length s.bp_code == max_breakpoints_code
      then (false, s)
      else (true, record s { bp_code = s.bp_code ++ entry address type ∷ [] })
    else if length s.bp_data == max_breakpoints_data
    then (false, s)
    else (true, record s { bp_data = s.bp_data ++ entry address type ∷ [] })

-- The first entry that matches goes, and those behind it move up.
unfoldable pub remove_entry : List Breakpoint → Breakpoint → Bool × List Breakpoint
remove_entry [] x = (false, [])
remove_entry (b ∷ bps) x =
    let (found, rest) = remove_entry bps x in
    if eq_type b.bp_type x.bp_type && b.address == x.address then (true, bps) else (found, b ∷ rest)

unfoldable pub delete_breakpoint : Breakpoints → ℕ → BpType → Bool × Breakpoints
delete_breakpoint s address type =
    if is_code type
    then (let (found, bps) = remove_entry s.bp_code (entry address type) in
        (found, record s { bp_code = bps }))
    else (let (found, bps) = remove_entry s.bp_data (entry address type) in
        (found, record s { bp_data = bps }))

-- What `updateBreakpoints` tells the box, in order: writes to the breakpoint space for the units 0
-- and 1, and parameters for the units X and Y.
pub data Order : Type 0 where
  write_unit : ℕ → ℕ → Order
  parameter : ℕ → ℕ → Order

abbrev pub mode_number : BpType → ℕ
mode_number read_data = 0
mode_number write_data = 1
mode_number access_data = 2
mode_number code = 3
mode_number _ = 0

-- The breakpoints that the units X and Y get: first the code breakpoints that are left, then data.
abbrev pub for_units : Breakpoints → List Breakpoint
for_units s = jtag_js.Base.drop 2 s.bp_code ++ s.bp_data

abbrev pub unit_y : List Breakpoint → List Order × ℕ
unit_y [] = ([], 0)
unit_y (b ∷ _) = (
  parameter 0xa4 (b.address / 256 % 256) ∷ parameter 0xa5 (b.address % 256) ∷ [],
  0x10 + mode_number b.bp_type,
)

abbrev pub unit_x : List Breakpoint → List Order
unit_x [] = []
unit_x (b ∷ rest) =
    let (orders, mode) = unit_y rest in
    (parameter 0xa2 (b.address / 256 % 256) ∷ parameter 0xa3 (b.address % 256) ∷ [])
    ++ (orders ++ parameter 0xa6 (0x20 + mode_number b.bp_type * 4 + mode) ∷ [])

abbrev pub code_units : List Breakpoint → List Order
code_units [] = []
code_units (a ∷ []) = write_unit a.address 0 ∷ []
code_units (a ∷ b ∷ _) = write_unit a.address 0 ∷ write_unit b.address 1 ∷ []

unfoldable pub update_orders : Breakpoints → List Order
update_orders s = code_units s.bp_code ++ unit_x (for_units s)

-- A failed write is not looked at.
abbrev pub give_order : Order → M (Unit {0})
give_order (write_unit address value) =
    jtag_write false 0 (0x900000 + address) (value ∷ []) >> pure tt
give_order (parameter item value) = set_jtag_parameter item value

unfoldable pub give_orders : List Order → M (Unit {0})
give_orders [] = pure tt
give_orders (o ∷ os) = give_order o >> give_orders os

unfoldable pub update_breakpoints : Breakpoints → M (Unit {0})
update_breakpoints s = give_orders (update_orders s)
