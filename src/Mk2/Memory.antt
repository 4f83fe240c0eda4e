-- ===== src/Mk2/Memory.antt =====
-- src/jtag2rw.cc, and the programming mode of src/jtag2prog.cc: how target memory is read and
-- written through the mkII. The state behind an exception is not kept.
pub mod Cached
pub mod Plain
use jtag_js.Base.{
  ℕ, zero, suc, ◌+◌, ◌-◌, ◌*◌, ◌/◌, ◌%◌, bit_and, Bool, true, false, not, ◌&&◌, ◌||◌, Option, none,
  some, [], ◌∷◌, ◌++◌, ltb, leb, ◌==◌, if◌then◌else◌, get_or, take, drop, replicate, Bytes,
}
use jtag_js.Encoding.{u32_to_b4}
use jtag_js.Port.{Link, Outcome, returned, thrown, crashed, stuck, M, ◌>>=◌, ◌>>◌, pure, check}
use jtag_js.Mk2.Command.{Response, checked_command, do_simple_jtag_command}

-- The page sizes of the device description, and the mode of the debugger.
pub record Device : Type 0 where
  pub flash_page_size : ℕ
  pub eeprom_page_size : ℕ
  pub use_debug_wire : Bool

-- What the `jtag2` object remembers of the target's memory.
pub record Target : Type 0 where
  pub programming_enabled : Bool
  pub flash_cache : Bytes
  pub flash_cache_page_addr : ℕ
  pub eeprom_cache : Bytes
  pub eeprom_cache_page_addr : ℕ

abbrev pub mtype_sram : ℕ
mtype_sram = 0x20

abbrev pub mtype_spm : ℕ
mtype_spm = 0xa0

abbrev pub mtype_flash_page : ℕ
mtype_flash_page = 0xb0

abbrev pub mtype_eeprom_page : ℕ
mtype_eeprom_page = 0xb1

abbrev pub addr_space_mask : ℕ
addr_space_mask = 0x970000

-- The bits of the address that tell the space, if the bit for data space is set.
abbrev pub space_bits : ℕ → ℕ
space_bits addr = if bit_and addr 0x800000 == 0 then 0 else bit_and addr addr_space_mask

abbrev pub space_code : Device → Bool → ℕ → ℕ
space_code device programming mask =
    if mask == 0x810000
    then if not device.use_debug_wire && programming then mtype_eeprom_page else 0x22
    else if mask == 0x820000
    then 0xb2
    else if mask == 0x830000
    then 0xb3
    else if mask == 0x840000
    then 0xb4
    else if mask == 0x900000
    then 0x60
    else if mask == 0x800000
    then mtype_sram
    else if device.use_debug_wire || programming
    then mtype_flash_page
    else mtype_spm

-- `memorySpace`: the code of the space, and the address without the bits that tell it.
unfoldable pub memory_space : Device → Bool → ℕ → ℕ × ℕ
memory_space device programming addr =
    let mask = space_bits addr in (space_code device programming mask, addr - mask)

unfoldable pub enable_programming : Device → Target → M Target
enable_programming device t =
    if device.use_debug_wire
    then pure t
    else (do_simple_jtag_command 0x14 >> pure (record t { programming_enabled = true }))

unfoldable pub disable_programming : Device → Target → M Target
disable_programming device t =
    if device.use_debug_wire
    then pure t
    else (do_simple_jtag_command 0x15 >> pure (record t { programming_enabled = false }))

unfoldable pub erase_program_memory : M (Unit {0})
erase_program_memory = do_simple_jtag_command 0x13

unfoldable pub erase_program_page : ℕ → M (Unit {0})
erase_program_page address = do
  r ← checked_command (
      0x0d
      ∷ address / 0x1000000 % 256
      ∷ address / 0x10000 % 256
      ∷ address / 256 % 256
      ∷ address % 256
      ∷ [])
  pure tt

-- n bytes of memory from an offset on; behind what is known of it, zeros.
abbrev pub slice : ℕ → ℕ → Bytes → Bytes
slice offset n memory = take n (drop offset memory ++ replicate n 0)

abbrev pub bytes_of : Response → Bytes
bytes_of r = elim r.msg [ none ↦ [] | some m ↦ m ]

abbrev pub page_size_of : Device → ℕ → ℕ
page_size_of device space =
    if space == mtype_flash_page
    then device.flash_page_size
    else if space == mtype_eeprom_page
    then device.eeprom_page_size
    else 0

abbrev pub cache_of : ℕ → Target → Bytes
cache_of space t = if space == mtype_flash_page then t.flash_cache else t.eeprom_cache

abbrev pub cache_addr : ℕ → Target → ℕ
cache_addr space t =
    if space == mtype_flash_page then t.flash_cache_page_addr else t.eeprom_cache_page_addr

abbrev pub store_page : ℕ → ℕ → Bytes → Target → Target
store_page space page_addr page t =
    if space == mtype_flash_page
    then record t { flash_cache = page; flash_cache_page_addr = page_addr }
    else record t { eeprom_cache = page; eeprom_cache_page_addr = page_addr }

-- CMND_READ_MEMORY
abbrev pub read_command : ℕ → ℕ → ℕ → Bytes
read_command space n addr = 0x05 ∷ space ∷ u32_to_b4 n ++ u32_to_b4 addr

-- The page is in the cache, or it is read into it.
unfoldable pub load_page : ℕ → ℕ → ℕ → Target → M Target
load_page space page_size page_addr t = if page_addr == cache_addr space t then pure t else (do
  r ← checked_command (read_command space page_size page_addr)
  let page = slice 0 page_size (drop 1 (bytes_of r)) ++ drop page_size (cache_of space t)
  pure (store_page space page_addr page t))

-- The loop over the pages. The offset into the page is the same in each round, as in the source.
unfoldable pub read_pages : ℕ → ℕ → ℕ → ℕ → ℕ → ℕ → ℕ → Target → M (Bytes × Target)
read_pages zero space page_size offset page_addr num_bytes chunk t l = stuck
read_pages (suc rounds) space page_size offset page_addr num_bytes chunk t l =
    elim (num_bytes == 0) [
      | true ↦ returned ([], t) l
      | false ↦
          let left = num_bytes - chunk in
          let chunk' = if ltb page_size left then page_size else left in
          (do
            t' ← load_page space page_size page_addr t
            (rest, t'') ←
                read_pages rounds space page_size offset (page_addr + page_size) left chunk' t'
            pure (slice offset chunk (cache_of space t') ++ rest, t''))
            l
    ]

-- The page that an address lies in; a page size is a power of two.
abbrev pub page_of : ℕ → ℕ → ℕ
page_of page_size addr = addr - bit_and addr (page_size - 1)

-- A first chunk does not go past the end of its page.
abbrev pub first_chunk : ℕ → ℕ → ℕ → ℕ
first_chunk page_size addr num_bytes =
    let end_ = page_of page_size addr + page_size in
    if leb end_ (addr + num_bytes) then num_bytes - (addr + num_bytes - end_) else num_bytes

-- A round uses up at least one byte, so one round more than there are bytes is enough.
unfoldable pub read_paged : ℕ → ℕ → ℕ → ℕ → Target → M (Bytes × Target)
read_paged space page_size addr num_bytes t =
    read_pages (num_bytes + 1) space page_size (addr - page_of page_size addr)
      (page_of page_size addr) num_bytes (first_chunk page_size addr num_bytes) t

-- Flash is read in words: the address is rounded down and the number of bytes up.
unfoldable pub read_plain : ℕ → ℕ → ℕ → M Bytes
read_plain space addr num_bytes =
    let is_spm = space == mtype_spm in
    let offset = if is_spm then addr % 2 else 0 in
    let n = if is_spm then (num_bytes + 1) / 2 * 2 else num_bytes in
    (do
      r ← checked_command (read_command space n (addr - offset))
      pure (drop (1 + offset) (bytes_of r)))

abbrev pub needs_progmode : ℕ → Bool
needs_progmode space = leb mtype_flash_page space

abbrev pub enter_mode : Device → ℕ → Target → M Target
enter_mode device space t =
    if needs_progmode space && not t.programming_enabled
    then enable_programming device t
    else pure t

abbrev pub leave_mode : Device → ℕ → Bool → Target → M Target
leave_mode device space was_progmode t =
    if needs_progmode space && not was_progmode then disable_programming device t else pure t

unfoldable pub jtag_read : Device → ℕ → ℕ → Target → M (Bytes × Target)
jtag_read device addr num_bytes t =
    if num_bytes == 0
    then pure (0 ∷ [], t)
    else let (space, addr) = memory_space device t.programming_enabled addr in
      let page_size = page_size_of device space in
      (do
        t' ← enter_mode device space t
        (bytes, t'') ←
            (if ltb 0 page_size
              then read_paged space page_size addr num_bytes t'
              else (read_plain space addr num_bytes >>= λ bytes. pure (bytes, t')))
        t''' ← leave_mode device space t.programming_enabled t''
        pure (bytes, t'''))

-- CMND_WRITE_MEMORY
abbrev pub write_command : ℕ → ℕ → Bytes → Bytes
write_command space addr buffer =
    0x04 ∷ space ∷ u32_to_b4 (jtag_js.Base.length buffer) ++ (u32_to_b4 addr ++ buffer)

-- A write of more than four bytes to the start of flash is taken for the begin of a "load", which
-- erases the device.
abbrev pub erase_for_load : ℕ → ℕ → ℕ → M (Unit {0})
erase_for_load space addr num_bytes =
    if space == mtype_spm && (addr == 0 && ltb 4 num_bytes) then erase_program_memory else pure tt

-- The buffer holds exactly the bytes to write. A page is written whole.
unfoldable pub jtag_write : Device → ℕ → Bytes → Target → M (Bool × Target)
jtag_write device addr buffer t =
    let num_bytes = jtag_js.Base.length buffer in
    if num_bytes == 0
    then pure (true, t)
    else let (space, addr) = memory_space device t.programming_enabled addr in
      let page_size = page_size_of device space in
      (do
        erase_for_load space addr num_bytes
        t' ← enter_mode device space t
        check (page_size == 0 || num_bytes == page_size)
        r ←
            checked_command
              (write_command space (if page_size == 0 then addr else page_of page_size addr) buffer)
        t'' ← leave_mode device space t.programming_enabled t'
        pure (true, t''))
