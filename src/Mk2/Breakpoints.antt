-- ===== src/Mk2/Breakpoints.antt =====
-- src/jtag2bp.cc and the table of breakpoints of src/jtag2.h. The table ends at the first entry that
-- is `last`; a search that would run behind the table stops at its length, where a read gives
-- `default_bp` and a write is lost.
pub mod Layout
pub mod Update
pub mod Slots
pub mod Table
pub mod Ranges
use jtag_js.Base.{
  ℕ, zero, suc, ◌+◌, ◌-◌, ◌*◌, ◌/◌, ◌%◌, ◌^◌, Bool, true, false, not, ◌&&◌, ◌||◌, Option, none,
  some, List, [], ◌∷◌, ltb, leb, ◌==◌, if◌then◌else◌, length, get_or, set, replicate,
}
use jtag_js.Gdb.{BpType, none_type, code, softcode, write_data, read_data, access_data, data_mask}
use jtag_js.Mk2.Breakpoints.Layout.{layout_breakpoints}
use jtag_js.Mk2.Breakpoints.Table.{
  Breakpoint, default_bp, same_type, is_code, max_total_breakpoints2, bp_at, search, Device,
}

-- A live code breakpoint whose address the test accepts.
abbrev pub any_code : (ℕ → Bool) → List Breakpoint → Bool
any_code test [] = false
any_code test (b ∷ bp) =
    if b.last
    then false
    else (test b.address && (same_type b code && b.enabled)) || any_code test bp

unfoldable pub code_breakpoint_at : List Breakpoint → ℕ → Bool
code_breakpoint_at bp address = any_code (λ a. a == address) bp

unfoldable pub code_breakpoint_between : List Breakpoint → ℕ → ℕ → Bool
code_breakpoint_between bp start end_ = any_code (λ a. leb start a && ltb a end_) bp

unfoldable pub delete_all_breakpoints : List Breakpoint → List Breakpoint
delete_all_breakpoints [] = []
delete_all_breakpoints (b ∷ bp) =
    if b.last
    then b ∷ bp
    else record b { enabled = false; toremove = (b.enabled && b.icestatus) || b.toremove }
      ∷ delete_all_breakpoints bp

-- The first entry that matches is enabled; the index is its, or that of the end.
abbrev pub matches : ℕ → BpType → Breakpoint → Bool
matches address type b = b.address == address && same_type b type

abbrev pub set_enabled : Bool → ℕ → List Breakpoint → List Breakpoint
set_enabled on i bp =
    let b = bp_at bp i in if b.last then bp else set bp i (record b { enabled = on })

-- The search for an entry that may be written over.
abbrev is_busy : Breakpoint → Bool
is_busy b = b.enabled || b.toremove

abbrev first_free : List Breakpoint → ℕ
first_free [] = 0
first_free (b ∷ bp) = if is_busy b then first_free bp + 1 else 0

-- Entry i gets the new breakpoint; if it was the end, the next one becomes the end.
abbrev pub write_entry : List Breakpoint → ℕ → ℕ → BpType → List Breakpoint
write_entry bp i address type =
    let next = record (bp_at bp (i + 1)) {
      last = true;
      enabled = false;
      address = 0;
      bp_type = none_type;
      has_mask = false;
    } in
    let bp = if (bp_at bp i).last then set bp (i + 1) next else bp in
    set bp i (record (bp_at bp i) {
      last = false;
      enabled = true;
      address = address;
      bp_type = type;
      has_mask = false;
    })

-- The first part of `addBreakpoint`: the table and the index of the breakpoint, or `none` when the
-- table is full. `type == type` always holds, so an entry that was found is written again.
unfoldable pub place : List Breakpoint → ℕ → BpType → List Breakpoint × Option ℕ
place bp address type =
    let i = search (matches address type) bp in
    let bp = set_enabled true i bp in
    let j = if i + 1 == max_total_breakpoints2 then first_free bp else i in
    if j + 1 == max_total_breakpoints2 then (bp, none) else (write_entry bp j address type, some j)

-- The last part: a new breakpoint is to be downloaded, and all are laid out. Without room the
-- breakpoint and its mask are off again, and the result is true nevertheless.
unfoldable pub finish_add : Device → List Breakpoint → ℕ → Bool × List Breakpoint
finish_add device bp i =
    let b = bp_at bp i in
    let bp = set bp i (record b { toadd = not b.icestatus; toremove = false }) in
    let (room, bp) = layout_breakpoints device bp in
    if room
    then (true, bp)
    else let b = bp_at bp i in
      let bp = set bp i (record b { enabled = false; toadd = false }) in
      if b.has_mask
      then (
        true,
        set bp b.mask_pointer (record (bp_at bp b.mask_pointer) { enabled = false; toadd = false }),
      )
      else (true, bp)

-- `addBreakpoint` for one location, which is how the mask of a range is added too.
unfoldable pub add_single : Device → List Breakpoint → ℕ → BpType → Bool × List Breakpoint
add_single device bp address type =
    let (bp', at) = place bp address type in
    elim at [ none ↦ (false, bp') | some i ↦ finish_add device bp' i ]

-- 1 << (ffs(length) - 1), for a length that is not 0: its lowest bit.
abbrev pub lowest_bit : ℕ → ℕ → ℕ
lowest_bit zero n = 1
lowest_bit (suc rounds) n =
    let half = lowest_bit rounds (n / 2) in if n % 2 == 1 then 1 else half * 2

-- Entry i becomes the end of the table, whatever stands behind it.
abbrev pub give_up : List Breakpoint → ℕ → Bool × List Breakpoint
give_up bp i = (false, set bp i (record (bp_at bp i) { last = true; enabled = false }))

-- The search for the mask looks at the address of entry i, not of entry j.
abbrev pub mask_index : List Breakpoint → ℕ → ℕ → ℕ
mask_index bp i mask = search (λ b. same_type b data_mask && (bp_at bp i).address == mask) bp

unfoldable pub add_range : Device → List Breakpoint → ℕ → ℕ → ℕ → Bool × List Breakpoint
add_range device bp i address len =
    if not (lowest_bit 32 len == len)
    then give_up bp i
    else if not (address % len == 0)
    then give_up bp i
    else let mask = 2 ^ 32 - len in
      let bp = set bp i (record (bp_at bp i) { has_mask = true }) in
      let (fine, bp') = add_single device bp mask data_mask in
      if fine
      then finish_add device
          (set bp' i (record (bp_at bp' i) { mask_pointer = mask_index bp' i mask })) i
      else give_up bp' i

unfoldable pub add_breakpoint : Device → List Breakpoint → ℕ → BpType → ℕ → Bool × List Breakpoint
add_breakpoint device bp address type len =
    let (bp', at) = place bp address type in
    elim at [
      | none ↦ (false, bp')
      | some i ↦
          if ltb 1 len && not (is_code type)
          then add_range device bp' i address len
          else finish_add device bp' i
    ]

-- `deleteBreakpoint` behind its search. A breakpoint that is in the ICE is flagged for removal.
unfoldable pub delete_at : Device → List Breakpoint → ℕ → BpType → ℕ → Bool × List Breakpoint
delete_at device bp address type i =
    let bp = set_enabled false i bp in
    let b = bp_at bp i in
    if b.enabled || not (matches address type b) then (false, bp) else (
      true,
      (layout_breakpoints device (set bp i (record b { toadd = false; toremove = b.icestatus }))).1,
    )

-- The length is not used.
unfoldable pub delete_breakpoint : Device → List Breakpoint → ℕ → BpType → Bool × List Breakpoint
delete_breakpoint device bp address type =
    delete_at device bp address type (search (matches address type) bp)
