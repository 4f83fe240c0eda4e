-- ===== src/Mk2/Breakpoints/Update.antt =====
-- src/jtag2bp.cc, `updateBreakpoints`: the ICE is told what has changed.
use jtag_js.Base.{
  ℕ, ◌/◌, true, false, ◌&&◌, Option, none, some, List, [], ◌∷◌, ◌++◌, ◌==◌, if◌then◌else◌, Bytes,
}
use jtag_js.Encoding.{u32_to_b4}
use jtag_js.Port.{M, ◌>>=◌, pure, throw}
use jtag_js.Gdb.{none_type, code, softcode, write_data, read_data, access_data, data_mask}
use jtag_js.Mk2.Command.{checked_command}
use jtag_js.Mk2.Breakpoints.Table.{Breakpoint, Device}
use jtag_js.Mk2.Breakpoints.Layout.{layout_breakpoints}

-- CMND_CLR_BREAK; software breakpoints need the address.
unfoldable pub clear_bytes : Breakpoint → Bytes
clear_bytes b = 0x1a ∷ b.bpnum ∷ u32_to_b4 (if b.bpnum == 0 then b.address / 2 else 0)

-- CMND_SET_BREAK: the type, the slot, the address and the mode; `none` for an invalid type. The ICE
-- sees program memory as 16-bit words.
abbrev pub set_command : Breakpoint → ℕ → ℕ → ℕ → Bytes
set_command b kind address mode = 0x11 ∷ kind ∷ b.bpnum ∷ u32_to_b4 address ++ mode ∷ []

unfoldable pub set_bytes : Breakpoint → Option Bytes
set_bytes b = elim b.bp_type [
  | read_data ↦ some (set_command b 2 b.address 0)
  | write_data ↦ some (set_command b 2 b.address 1)
  | access_data ↦ some (set_command b 2 b.address 2)
  | data_mask ↦ if b.has_mask then none else some (set_command b 3 b.address 0)
  | code ↦ if b.has_mask then none else some (set_command b 1 (b.address / 2) 3)
  | none_type ↦ none
  | softcode ↦ none
]

unfoldable pub clear_pass : List Breakpoint → M (List Breakpoint)
clear_pass [] = pure []
clear_pass (b ∷ bp) =
    if b.last
    then pure (b ∷ bp)
    else if b.toremove
    then (do
      r ← checked_command (clear_bytes b)
      rest ← clear_pass bp
      pure (record b { icestatus = false; toremove = false } ∷ rest))
    else (do rest ← clear_pass bp; pure (b ∷ rest))

unfoldable pub set_pass : List Breakpoint → M (List Breakpoint)
set_pass [] = pure []
set_pass (b ∷ bp) =
    if b.last
    then pure (b ∷ bp)
    else if b.toadd && b.enabled
    then elim (set_bytes b) [
      | none ↦ throw
      | some bytes ↦ (do
        r ← checked_command bytes
        rest ← set_pass bp
        pure (record b { icestatus = true; toadd = false } ∷ rest))
    ]
    else (do rest ← set_pass bp; pure (b ∷ rest))

-- The table behind an exception is not kept.
unfoldable pub update_breakpoints : Device → List Breakpoint → M (List Breakpoint)
update_breakpoints device bp = do
  cleared ← clear_pass (layout_breakpoints device bp).1
  set_pass cleared
