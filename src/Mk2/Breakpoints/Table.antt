-- ===== src/Mk2/Breakpoints/Table.antt =====
-- src/jtag2.h, `breakpoint2`: an entry of the table of breakpoints, and how the table is read.
use jtag_js.Base.{
  ℕ, suc, Bool, true, false, not, ◌&&◌, List, [], ◌∷◌, if◌then◌else◌, get_or, replicate,
}
use jtag_js.Gdb.{BpType, none_type, code, softcode, write_data, read_data, access_data, data_mask}

-- `has_mask` is the bit HAS_MASK of the source's type.
pub record Breakpoint : Type 0 where
  pub address : ℕ
  pub mask_pointer : ℕ
  pub bp_type : BpType
  pub has_mask : Bool
  pub enabled : Bool
  pub last : Bool
  pub icestatus : Bool
  pub toremove : Bool
  pub toadd : Bool
  pub bpnum : ℕ

abbrev pub default_bp : Breakpoint
default_bp = record {
  address = 0;
  mask_pointer = 0;
  bp_type = none_type;
  has_mask = false;
  enabled = false;
  last = true;
  icestatus = false;
  toremove = false;
  toadd = false;
  bpnum = 0;
}

abbrev pub max_total_breakpoints2 : ℕ
max_total_breakpoints2 = 32

abbrev pub no_breakpoints : List Breakpoint
no_breakpoints = replicate max_total_breakpoints2 default_bp

-- What the layout depends on: `device_flags == DEVFL_NO_SOFTBP`, and debugWire.
pub record Device : Type 0 where
  pub no_softbp : Bool
  pub use_debug_wire : Bool

abbrev pub is_code : BpType → Bool
is_code code = true
is_code _ = false

abbrev pub eq_type : BpType → BpType → Bool
eq_type none_type none_type = true
eq_type code code = true
eq_type softcode softcode = true
eq_type write_data write_data = true
eq_type read_data read_data = true
eq_type access_data access_data = true
eq_type data_mask data_mask = true
eq_type _ _ = false

abbrev pub same_type : Breakpoint → BpType → Bool
same_type b type = eq_type b.bp_type type && not b.has_mask

abbrev pub bp_at : List Breakpoint → ℕ → Breakpoint
bp_at bp i = get_or bp i default_bp

-- The index of the first entry that is the end or passes the test.
unfoldable pub search : (Breakpoint → Bool) → List Breakpoint → ℕ
search test [] = 0
search test (b ∷ bp) =
    let behind = search test bp in if b.last then 0 else if test b then 0 else suc behind
