-- ===== src/Gdb/IoRegs.antt =====
-- src/remote.cc, `talkToGdb`, case 'q': the query for the I/O registers of the device.
use jtag_js.Base.{
  ℕ, zero, suc, ◌+◌, ◌-◌, ◌^◌, Bool, true, not, ◌&&◌, ◌||◌, none, some, List, [], ◌∷◌, ◌++◌, ltb,
  leb, ◌==◌, if◌then◌else◌, length, get_or, drop, Bytes,
}
use jtag_js.Encoding.{hex_to_int, byte_to_hex}
use jtag_js.Gdb.{
  JtagIce, IoReg, Setting, got, stuck, G, ◌>>=◌, ◌>>◌, pure, ask, set_reply, percent_02x,
}
use jtag_js.Gdb.Reports.{data_space_addr_offset}

abbrev pub starts_with : Bytes → Bytes → Bool
starts_with [] ptr = true
starts_with (c ∷ cs) ptr = get_or ptr 0 0 == c && starts_with cs (drop 1 ptr)

-- "Ravr.io_reg"
abbrev pub io_reg_query : Bytes
io_reg_query = b'R' ∷ b'a' ∷ b'v' ∷ b'r' ∷ b'.' ∷ b'i' ∷ b'o' ∷ b'_' ∷ b'r' ∷ b'e' ∷ b'g' ∷ []

abbrev pub append_reply : {B : Type 0} → Bytes → G B (Unit {0})
append_reply text g = set_reply (g.remcom_out_buffer ++ text) g

-- The number of registers, at most j, at consecutive addresses from addr on and without flags.
unfoldable pub consecutive : ℕ → ℕ → List IoReg → ℕ
consecutive zero addr regs = 0
consecutive (suc j) addr [] = 0
consecutive (suc j) addr (reg ∷ regs) =
    let rest = consecutive j (addr + 1) regs in
    if not (reg.flags == 0) || not (reg.reg_addr == addr) then 0 else rest + 1

-- "[-- %s --],00;"
unfoldable pub special_text : Bytes → Bytes
special_text name =
    b'[' ∷ b'-' ∷ b'-' ∷ b' ' ∷ name ++ (b' ' ∷ b'-' ∷ b'-' ∷ b']' ∷ b',' ∷ b'0' ∷ b'0' ∷ b';' ∷ [])

-- "%s,%02x;" for each register and its byte.
unfoldable pub register_texts : ℕ → List IoReg → Bytes → Bytes
register_texts zero regs m = []
register_texts (suc count) [] m = []
register_texts (suc count) (reg ∷ regs) m =
    (reg.name ++ (b',' ∷ byte_to_hex (get_or m 0 0) ++ b';' ∷ []))
    ++ register_texts count regs (drop 1 m)

-- The loop over the registers from i on, j at most; `regs` are those behind the first i. A read that
-- fails is done again.
unfoldable pub register_loop : {B : Type 0} → ℕ → JtagIce B → ℕ → List IoReg → G B (Unit {0})
register_loop zero ice j regs g = stuck
register_loop (suc rounds) ice j [] g = got tt g
register_loop (suc rounds) ice j (reg ∷ regs) g =
    let past = register_loop rounds ice (j - 1) regs in
    let count = consecutive j reg.reg_addr (reg ∷ regs) in
    let behind = register_loop rounds ice (j - count) (drop count (reg ∷ regs)) in
    let again = register_loop rounds ice j (reg ∷ regs) in
    (if j == 0
        then pure tt
        else if not (reg.flags == 0)
        then (append_reply (special_text reg.name) >> past)
        else (ask (ice.jtag_read (data_space_addr_offset + reg.reg_addr) count) >>= λ buffer.
            elim buffer [
              | none ↦ again
              | some m ↦ append_reply (register_texts count (reg ∷ regs) m) >> behind
            ]))
      g

-- A negative j is no positive count; a negative i makes the source read before the table.
unfoldable pub query_sequence :
    {B : Type 0} → Setting → JtagIce B → List IoReg → Bytes → G B (Unit {0})
query_sequence setting ice regs ptr =
    let (ptr, i, _) = hex_to_int ptr in
    let (_, j, _) = hex_to_int (drop 1 ptr) in
    let count = if get_or ptr 0 0 == b',' && ltb j (2 ^ 31) then j else 0 in
    if leb (2 ^ 31) i && ltb 0 count
    then (λ g. stuck)
    else register_loop (length regs + setting.rounds + 1) ice count (drop i regs)

-- Without a colon behind it, the query is for the number of registers.
unfoldable pub query : {B : Type 0} → Setting → JtagIce B → Bytes → G B (Unit {0})
query setting ice ptr = elim setting.io_reg_defs [
  | none ↦ pure tt
  | some regs ↦
      let behind = drop 11 ptr in
      if starts_with io_reg_query ptr
      then if get_or behind 0 0 == 0
        then set_reply (percent_02x (length regs))
        else if get_or behind 0 0 == b':'
        then query_sequence setting ice regs (drop 1 behind)
        else pure tt
      else pure tt
]
