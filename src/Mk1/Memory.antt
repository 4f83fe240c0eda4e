-- ===== src/Mk1/Memory.antt =====
-- src/jtagrw.cc: target memory through the mkI. A null result is `none`; what the source reads of a
-- response is what the box has sent.
use jtag_js.Base.{
  ℕ, suc, ◌+◌, ◌-◌, ◌*◌, ◌/◌, ◌%◌, bit_and, Bool, true, false, not, Option, none, some, [], ◌∷◌,
  ◌++◌, ltb, ◌==◌, if◌then◌else◌, length, get_or, take, drop, Bytes,
}
use jtag_js.Port.{M, ◌>>=◌, ◌>>◌, pure}
use jtag_js.Mk1.Io.{r_ok, eom, do_jtag_command, encode_address}

-- The code of the space, 0 for program memory, and the address without the bits that tell it.
unfoldable pub memory_space : ℕ → ℕ × ℕ
memory_space addr =
    let mask = if bit_and addr 0x800000 == 0 then 0 else bit_and addr 0x970000 in
    (
      (if mask == 0x810000
          then 0xb1
          else if mask == 0x820000
          then 0xb2
          else if mask == 0x830000
          then 0xb3
          else if mask == 0x840000
          then 0xb4
          else if mask == 0x900000
          then 0x60
          else if mask == 0x800000
          then 0x20
          else 0),
      addr - mask,
    )

unfoldable pub swap_bytes : Bytes → ℕ → Bytes
swap_bytes (a ∷ b ∷ rest) (suc (suc count)) = b ∷ a ∷ swap_bytes rest count
swap_bytes bytes count = bytes

abbrev pub read_bytes_command : ℕ → ℕ → ℕ → Bytes
read_bytes_command space locations addr =
    b'R' ∷ space ∷ (locations - 1) % 256 ∷ encode_address addr ++ eom

abbrev pub prog_space : Bool → ℕ
prog_space programming = if programming then 0xb0 else 0xa0

unfoldable pub read_data_space : ℕ → ℕ → ℕ → M (Option Bytes)
read_data_space space addr num_bytes = if ltb 256 num_bytes then pure none else (do
  response ← do_jtag_command (read_bytes_command space num_bytes addr) (num_bytes + 2)
  pure (if get_or response (num_bytes + 1) 0 == r_ok then some response else none))

-- Program memory is read in words, from one byte earlier for an odd address.
abbrev pub locations_of : ℕ → ℕ → ℕ
locations_of addr num_bytes = if addr % 2 == 1 then (num_bytes + 2) / 2 else (num_bytes + 1) / 2

abbrev pub unpack : Bool → ℕ → ℕ → ℕ → Bytes → Bytes
unpack programming addr num_bytes locations response =
    let swapped = if programming then response else swap_bytes response (locations * 2) in
    if addr % 2 == 1 then take num_bytes (drop 1 swapped) ++ drop num_bytes swapped else swapped

unfoldable pub read_program_space : Bool → ℕ → ℕ → M (Option Bytes)
read_program_space programming addr num_bytes =
    let locations = locations_of addr num_bytes in
    if ltb 256 locations then pure none else (do
      response ←
          do_jtag_command (read_bytes_command (prog_space programming) locations (addr / 2))
            (locations * 2 + 2)
      pure (
          if get_or response (locations * 2 + 1) 0 == r_ok
          then some (unpack programming addr num_bytes locations response)
          else none))

unfoldable pub jtag_read : Bool → ℕ → ℕ → M (Option Bytes)
jtag_read programming addr num_bytes =
    let (space, addr') = memory_space addr in
    if num_bytes == 0
    then pure (some (0 ∷ []))
    else if space == 0
    then read_program_space programming addr' num_bytes
    else read_data_space space addr' num_bytes

-- The two parts of a write: the address, then the data.
unfoldable pub write_parts : ℕ → ℕ → ℕ → Bytes → M Bool
write_parts space locations addr bytes = if ltb 256 locations then pure false else (do
  do_jtag_command (b'W' ∷ space ∷ (locations - 1) % 256 ∷ encode_address addr ++ eom) 0
  do_jtag_command (b'h' ∷ bytes ++ eom) 1
  pure true)

-- `behind` is the byte that lies behind the caller's buffer: an odd write to program memory takes it
-- too.
unfoldable pub jtag_write : Bool → ℕ → ℕ → Bytes → M Bool
jtag_write programming behind addr buffer =
    let (space, addr') = memory_space addr in
    let even = if length buffer % 2 == 1 then buffer ++ behind ∷ [] else buffer in
    if length buffer == 0
    then pure true
    else if not (space == 0)
    then write_parts space (length buffer) addr' buffer
    else if addr' % 2 == 1
    then pure false
    else write_parts (prog_space programming) (length even / 2) (addr' / 2)
        (if programming then even else swap_bytes even (length even))
