-- ===== src/Image/Sections.antt =====
-- src/jtagprog.cc and jtag2prog.cc: the image of a file, and its download. What BFD reports of a file
-- is a list of sections; opening the file and telling its format are calls of BFD.
pub mod Covered
use jtag_js.Base.{
  ℕ, suc, ◌+◌, ◌-◌, bit_and, Bool, true, false, not, ◌&&◌, ◌||◌, Option, none, some, List, [], ◌∷◌,
  ltb, ◌==◌, if◌then◌else◌, length, Bytes,
}
use jtag_js.Image.{
  MemType, mem_flash, mem_eeprom, mem_ram, Programmer, Flow, crashed, F, ◌>>=◌, ◌>>◌, pure, ask,
  Cell, Image, max_image_size, PageSizes, jtag_flash_image,
}

-- The load address, the flags SEC_HAS_CONTENTS, SEC_ALLOC and SEC_LOAD, and the contents.
pub record Section : Type 0 where
  pub lma : ℕ
  pub has_contents : Bool
  pub alloc : Bool
  pub load : Bool
  pub contents : Bytes

abbrev pub eq_memtype : MemType → MemType → Bool
eq_memtype mem_flash mem_flash = true
eq_memtype mem_eeprom mem_eeprom = true
eq_memtype mem_ram mem_ram = true
eq_memtype _ _ = false

-- Behind the EEPROM, the variable for the type of memory is not set: it is what it happens to hold.
abbrev pub section_memtype : MemType → ℕ → MemType
section_memtype stale lma =
    if ltb lma 0x800000
    then mem_flash
    else if ltb lma 0x810000
    then mem_ram
    else if ltb lma 0x820000
    then mem_eeprom
    else stale

abbrev pub no_address : ℕ
no_address = 0xffffff

abbrev pub masked : MemType → ℕ → ℕ
masked mem_flash lma = lma
masked _ lma = lma - bit_and lma 0x970000

unfoldable pub get_section_addr : MemType → Section → MemType → ℕ
get_section_addr stale section memtype =
    if section.has_contents && (section.alloc || section.load)
    then if eq_memtype memtype (section_memtype stale section.lma)
      then masked (section_memtype stale section.lma) section.lma
      else no_address
    else no_address

-- The bytes of a section at consecutive addresses, marked as used. The source checks no index: `none`
-- is a write behind the array.
abbrev pub update : (ℕ → Cell) → ℕ → Cell → ℕ → Cell
update image addr cell c = if c == addr then cell else image c

unfoldable pub copy_section : ℕ → Bytes → (ℕ → Cell) → Option (ℕ → Cell)
copy_section addr [] image = some image
copy_section addr (b ∷ buf) image =
    let rest = copy_section (addr + 1) buf (update image addr (record { val = b; used = true })) in
    if ltb addr max_image_size then rest else none

abbrev pub init_image : Image
init_image = record {
  image = λ _. record { val = 0; used = false };
  last_address = 0;
  first_address = 0;
  first_address_ok = false;
  has_data = false;
}

-- The image with a section at an address, once the cells are copied.
abbrev pub with_section : ℕ → Bytes → Image → (ℕ → Cell) → Image
with_section addr contents image cells =
    let end_address = addr + length contents in
    record {
      image = cells;
      last_address = if ltb image.last_address end_address then end_address else image.last_address;
      first_address =
          if not image.first_address_ok || ltb addr image.first_address
          then addr
          else image.first_address;
      first_address_ok = true;
      has_data = true;
    }

unfoldable pub jtag_create_image : MemType → MemType → Section → Image → Option Image
jtag_create_image stale memtype section image =
    let addr = get_section_addr stale section memtype in
    if addr == no_address
    then some image
    else elim (copy_section addr section.contents image.image) [
      | none ↦ none
      | some cells ↦ some (with_section addr section.contents image cells)
    ]

-- The loop over the sections.
unfoldable pub file_image : MemType → MemType → List Section → Image → Option Image
file_image stale memtype [] image = some image
file_image stale memtype (p ∷ sections) image = elim (jtag_create_image stale memtype p image) [
  | none ↦ none
  | some image' ↦ file_image stale memtype sections image'
]

abbrev pub flash_if_data :
    {B : Type 0} → Programmer B → PageSizes → Image → MemType → Bool → Bool → F B (Unit {0})
flash_if_data box sizes image memtype program verify =
    if image.has_data then jtag_flash_image box sizes image memtype program verify else pure tt

-- Behind the loop over the sections, which makes the two images.
abbrev pub flash_images :
    {B : Type 0} → Programmer B → PageSizes → Image → Image → Bool → Bool → F B (Unit {0})
flash_images box sizes flashimg eepromimg program verify = do
  ask box.enable_programming
  flash_if_data box sizes flashimg mem_flash program verify
  flash_if_data box sizes eepromimg mem_eeprom program verify
  ask box.disable_programming

unfoldable pub download_to_target :
    {B : Type 0} → Programmer B → PageSizes → MemType → List Section → Bool → Bool → F B (Unit {0})
download_to_target box sizes stale sections program verify =
    elim (file_image stale mem_flash sections init_image) [
      | none ↦ (λ b. crashed)
      | some flashimg ↦ elim (file_image stale mem_eeprom sections init_image) [
        | none ↦ (λ b. crashed)
        | some eepromimg ↦ flash_images box sizes flashimg eepromimg program verify
      ]
    ]
