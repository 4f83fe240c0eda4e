-- ===== src/Mk2/Breakpoints/Layout.antt =====
-- src/jtag2bp.cc, `layoutBreakpoints`: which breakpoint gets which slot of the ICE.
use jtag_js.Base.{
  ℕ, zero, suc, ◌+◌, Bool, true, false, not, ◌&&◌, ◌||◌, List, [], ◌∷◌, leb, ltb, ◌==◌,
  if◌then◌else◌, length, get_or, set,
}
use jtag_js.Gdb.{BpType, code, write_data, read_data, access_data}
use jtag_js.Mk2.Breakpoints.Table.{Breakpoint, same_type, bp_at, Device}

abbrev pub max_breakpoints2 : ℕ
max_breakpoints2 = 4

abbrev pub first_data_slot : ℕ
first_data_slot = 2

abbrev pub data_mask_slot : ℕ
data_mask_slot = 3

-- `remaining_bps`: which slots are still available, from slot 0, which is for software breakpoints.
abbrev pub initial_slots : Device → List Bool
initial_slots device =
    let hardware = not device.use_debug_wire in
    false ∷ hardware ∷ hardware ∷ hardware ∷ false ∷ false ∷ []

abbrev pub is_stable : Breakpoint → Bool
is_stable b = b.enabled && (not b.toremove && b.icestatus)

-- The slots of the breakpoints that stay in the ICE are taken.
unfoldable pub take_stable : List Breakpoint → List Bool → List Bool
take_stable [] slots = slots
take_stable (b ∷ bp) slots =
    if b.last
    then slots
    else take_stable bp (if is_stable b then set slots b.bpnum false else slots)

abbrev pub is_data : BpType → Bool
is_data read_data = true
is_data write_data = true
is_data access_data = true
is_data _ = false

abbrev pub is_free : List Bool → ℕ → Bool
is_free slots n = get_or slots n false

-- The search from slot n on; it stops at the slot behind the last one at the latest.
unfoldable pub next_slot : ℕ → List Bool → ℕ → ℕ
next_slot zero slots n = n
next_slot (suc rounds) slots n =
    let rest = next_slot rounds slots (n + 1) in
    if not (is_free slots n) && leb n max_breakpoints2 then rest else n

abbrev pub switch_off : List Breakpoint → ℕ → List Breakpoint
switch_off bp i = set bp i (record (bp_at bp i) { enabled = false; toadd = false })

abbrev pub give_slot : List Breakpoint → ℕ → ℕ → List Breakpoint
give_slot bp i n = set bp i (record (bp_at bp i) { bpnum = n })

-- Data breakpoints, from entry i on. A range takes the slot for masks too, or is switched off.
unfoldable pub data_pass :
    ℕ → List Breakpoint → List Bool → ℕ → Bool → Bool × List Breakpoint × List Bool
data_pass zero bp slots i room = (room, bp, slots)
data_pass (suc rounds) bp slots i room =
    let b = bp_at bp i in
    let skip = data_pass rounds bp slots (i + 1) room in
    let dropped =
      data_pass rounds (switch_off (switch_off bp b.mask_pointer) i) slots (i + 1) false in
    let masked = if b.has_mask then give_slot bp b.mask_pointer data_mask_slot else bp in
    let slots' = if b.has_mask then set slots data_mask_slot false else slots in
    let n = next_slot 6 slots' first_data_slot in
    let placed = data_pass rounds (give_slot masked i n) (set slots' n false) (i + 1) room in
    if b.last
    then (room, bp, slots)
    else if not (b.enabled && (b.toadd && is_data b.bp_type))
    then skip
    else if b.has_mask
        && (not (is_free slots data_mask_slot) || not (is_free slots first_data_slot))
    then dropped
    else if ltb max_breakpoints2 n
    then (false, masked, slots')
    else placed

-- The slot for the next code breakpoint: a free one, else 0, a software breakpoint, else 0xff.
abbrev pub code_slot : Bool → List Bool → ℕ
code_slot softwarebps slots =
    let n = next_slot 6 slots 0 in
    if ltb max_breakpoints2 n then (if softwarebps then 0 else 0xff) else n

abbrev pub wants_code : Breakpoint → Bool
wants_code b = b.enabled && (b.toadd && same_type b code)

unfoldable pub code_pass : Bool → List Breakpoint → List Bool → Bool × List Breakpoint × List Bool
code_pass softwarebps [] slots = (true, [], slots)
code_pass softwarebps (b ∷ bp) slots =
    let n = code_slot softwarebps slots in
    let (kept, bp_kept, slots_kept) = code_pass softwarebps bp slots in
    let (room, bp_placed, slots_placed) = code_pass softwarebps bp (set slots n false) in
    if b.last
    then (true, b ∷ bp, slots)
    else if wants_code b
    then if n == 0xff
      then (false, b ∷ bp, slots)
      else (room, record b { bpnum = n } ∷ bp_placed, slots_placed)
    else (kept, b ∷ bp_kept, slots_kept)

-- The masks of range breakpoints change other entries, so the data pass goes by index; the table is
-- as long as the pass can get.
unfoldable pub layout_breakpoints : Device → List Breakpoint → Bool × List Breakpoint
layout_breakpoints device bp =
    let slots = take_stable bp (initial_slots device) in
    let (data_room, bp, slots) = data_pass (length bp) bp slots 0 true in
    let (code_room, bp, _) = code_pass (not device.no_softbp) bp slots in
    (data_room && code_room, bp)
