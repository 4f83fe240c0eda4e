-- ===== src/Tests/Table.antt =====
-- src/jtag2bp.cc on concrete tables.
use jtag_js.Base.{ℕ, arith, Bool, true, false, List, [], ◌∷◌}
use jtag_js.Gdb.{code}
use jtag_js.Mk2.Breakpoints.Table.{Breakpoint, default_bp, Device}
use jtag_js.Mk2.Breakpoints.Layout.{code_pass}
use jtag_js.Mk2.Breakpoints.Slots.{Accounts, code_pass-Accounts}

abbrev device : Device
device = record { no_softbp = false; use_debug_wire = false }

-- A code breakpoint that is to be added.
abbrev code_bp : ℕ → Breakpoint
code_bp address = record default_bp {
  address = address;
  bp_type = code;
  enabled = true;
  last = false;
  toadd = true;
}

abbrev two_codes : List Breakpoint
two_codes = code_bp 0x10 ∷ code_bp 0x20 ∷ default_bp ∷ []

abbrev all_slots : List Bool
all_slots = false ∷ true ∷ true ∷ true ∷ false ∷ false ∷ []

code_pass-Accounts_example : Accounts 1 all_slots (code_pass true two_codes all_slots)
code_pass-Accounts_example = code_pass-Accounts true two_codes all_slots 1 (omega arith)
