-- ===== src/Image.antt =====
-- Memory images: how src/jtaggeneric.cc writes one to the target and verifies it, and how jtagprog.cc
-- and jtag2prog.cc make it from the sections of a file. The sections are what BFD reports of the file;
-- the box is an interface.
pub mod Pages
pub mod Programmed
pub mod Sections
use jtag_js.Base.{
  ℕ, zero, suc, ◌+◌, ◌-◌, ◌*◌, ◌≤◌, ◌<◌, bit_and, Bool, true, false, not, ◌&&◌, ◌||◌, Option, none,
  some, List, [], ◌∷◌, ltb, leb, ◌==◌, if◌then◌else◌, length, get_or, Bytes,
}
use jtag_js.Gdb.{Ask}

-- jtag.h, `BFDmemoryType`.
pub data MemType : Type 0 where
  mem_flash mem_eeprom mem_ram : MemType

-- The virtual functions of the box that programming uses. A null result of `jtagRead` is `none`.
pub record Programmer (B : Type 0) : Type 0 where
  pub jtag_read : ℕ → ℕ → Ask B (Option Bytes)
  pub jtag_write : ℕ → Bytes → Ask B Bool
  pub enable_programming : Ask B (Unit {0})
  pub disable_programming : Ask B (Unit {0})

-- A result; a failed check or an exception of the box; a use of a null pointer or a write behind the
-- array of an image; or the rounds of the model are over.
pub data Flow (B : Type 0) (A : Type 0) : Type 0 where
  done : A → B → Flow B A
  failed crashed stuck : Flow B A

abbrev pub F : Type 0 → Type 0 → Type 0
F B A = B → Flow B A

infixl 5 ◌>>=◌ ◌>>◌
abbrev pub ◌>>=◌ : {B A C : Type 0} → F B A → (A → F B C) → F B C
◌>>=◌ m f b = elim (m b) [
  | done a b' ↦ f a b'
  | failed ↦ failed
  | crashed ↦ crashed
  | stuck ↦ stuck
]

abbrev pub ◌>>◌ : {B A C : Type 0} → F B A → F B C → F B C
m >> k = m >>= λ _. k

abbrev pub pure : {B A : Type 0} → A → F B A
pure a b = done a b

abbrev pub ask : {B A : Type 0} → Ask B A → F B A
ask f b = elim (f b) [ none ↦ failed | some (a, b') ↦ done a b' ]

abbrev pub check : {B : Type 0} → Bool → F B (Unit {0})
check ok b = if ok then done tt b else failed

pub record Cell : Type 0 where
  pub val : ℕ
  pub used : Bool

abbrev pub max_image_size : ℕ
max_image_size = 1000000

-- `BFDimage`. The array has MAX_IMAGE_SIZE cells.
pub record Image : Type 0 where
  pub image : ℕ → Cell
  pub last_address : ℕ
  pub first_address : ℕ
  pub first_address_ok : Bool
  pub has_data : Bool

-- The page sizes of the device description.
pub record PageSizes : Type 0 where
  pub flash_page_size : ℕ
  pub eeprom_page_size : ℕ

unfoldable pub get_page_size : PageSizes → MemType → ℕ
get_page_size sizes mem_flash = sizes.flash_page_size
get_page_size sizes mem_eeprom = sizes.eeprom_page_size
get_page_size sizes mem_ram = 1

-- `addr & ~(page_size - 1)`: all but the low bits are kept, and none for a page of size 0.
abbrev pub page_start : ℕ → ℕ → ℕ
page_start zero addr = 0
page_start (suc mask) addr = addr - bit_and addr mask

unfoldable pub page_addr : PageSizes → ℕ → MemType → ℕ
unfolding get_page_size
page_addr sizes addr memtype = page_start (get_page_size sizes memtype) addr

-- `BFDmemorySpaceOffset`
abbrev pub space_offset : MemType → ℕ
space_offset mem_flash = 0x000000
space_offset mem_eeprom = 0x810000
space_offset mem_ram = 0x800000

abbrev pub is_flash : MemType → Bool
is_flash mem_flash = true
is_flash _ = false

-- A byte that must be programmed: erased flash holds 0xff already.
abbrev pub needs_write : MemType → Cell → Bool
needs_write memtype cell = cell.used && not (is_flash memtype && cell.val == 0xff)

-- `pageIsEmpty`, from an index on.
unfoldable pub page_is_empty : MemType → Image → ℕ → ℕ → Bool
page_is_empty memtype image idx zero = true
page_is_empty memtype image idx (suc size) =
    let rest = page_is_empty memtype image (idx + 1) size in
    if leb image.last_address idx
    then true
    else if needs_write memtype (image.image idx)
    then false
    else rest

-- The raw data of a page.
abbrev pub page_bytes : Image → ℕ → ℕ → Bytes
page_bytes image addr zero = []
page_bytes image addr (suc size) = (image.image addr).val ∷ page_bytes image (addr + 1) size

-- Only the addresses in use are compared; behind the end of a response there is 0.
abbrev pub page_matches : Image → ℕ → ℕ → Bytes → Bool
page_matches image addr zero response = true
page_matches image addr (suc size) response =
    (not (image.image addr).used || (image.image addr).val == get_or response 0 0)
    && page_matches image (addr + 1) size (jtag_js.Base.drop 1 response)

abbrev pub page_is_used : Image → ℕ → ℕ → Bool
page_is_used image addr zero = false
page_is_used image addr (suc size) = (image.image addr).used || page_is_used image (addr + 1) size

module _ {B : Type 0} (box : Programmer B) where
  -- The loop over the pages, one round for each.
  unfoldable pub program_pages : ℕ → MemType → Image → ℕ → ℕ → F B (Unit {0})
  program_pages zero memtype image page_size addr b = stuck
  program_pages (suc rounds) memtype image page_size addr b =
      let next = program_pages rounds memtype image page_size (addr + page_size) in
      (if ltb addr image.last_address
          then if page_is_empty memtype image addr page_size
            then next
            else (ask
                  (box.jtag_write (space_offset memtype + addr) (page_bytes image addr page_size))
                >>= λ ok. check ok >> next)
          else pure tt)
        b

  -- The result is `is_verified`.
  unfoldable pub verify_pages : ℕ → MemType → Image → ℕ → ℕ → F B Bool
  verify_pages zero memtype image page_size addr b = stuck
  verify_pages (suc rounds) memtype image page_size addr b =
      let next = verify_pages rounds memtype image page_size (addr + page_size) in
      (if ltb addr image.last_address
          then (ask (box.jtag_read (space_offset memtype + addr) page_size) >>= λ response.
              elim response [
                | none ↦ if page_is_used image addr page_size then (λ _. crashed) else next
                | some bytes ↦
                    next >>= λ verified. pure (page_matches image addr page_size bytes && verified)
              ])
          else pure true)
        b

  -- A page is at least one byte, so one round more than the last address is enough.
  unfoldable pub jtag_flash_image : PageSizes → Image → MemType → Bool → Bool → F B (Unit {0})
  jtag_flash_image sizes image memtype program verify =
      let page_size = get_page_size sizes memtype in
      let addr = page_addr sizes image.first_address memtype in
      let rounds = image.last_address + 1 in
      if not image.has_data
      then (λ _. failed)
      else ((if program then program_pages rounds memtype image page_size addr else pure tt)
          >> (if verify
              then (verify_pages rounds memtype image page_size addr >>= check)
              else pure tt))
