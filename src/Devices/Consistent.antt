-- ===== src/Devices/Consistent.antt =====
-- The entries of src/devdescr.cc against one another: what a device description tells the box, and
-- what the program itself uses.
use jtag_js.Base.{
  ℕ, ◌*◌, ◌≡◌, ◌≢◌, ◌↔◌, refl, arith, Bool, true, not, ◌&&◌, none, some, List, [], ◌∷◌, ◌==◌,
  if◌then◌else◌, Bytes,
}
use jtag_js.Encoding.{b2_to_u16, b4_to_u32}
use jtag_js.Devices.{DeviceDef, devfl_mkii_only, fill_b2, fill_b4}
use jtag_js.Devices.Lookup.{find_device}
use jtag_js.Devices.Parts.{device_definitions}

-- A test of all entries with a name.
unfoldable pub all_devices : (DeviceDef → Bool) → List DeviceDef → Bool
all_devices test [] = true
all_devices test (d ∷ table) = elim d.name [
  | none ↦ true
  | some name ↦ test d && all_devices test table
]

module _ (wanted : Bytes → DeviceDef → Bool) (test : DeviceDef → Bool) where
  pub find_device-all_devices :
      (table : List DeviceDef) (d : DeviceDef)
      → all_devices test table ≡ true
      → find_device wanted table ≡ some d
      → test d ≡ true
  unfolding all_devices find_device
  find_device-all_devices [] d h found = cc
  find_device-all_devices (e ∷ table) d h found = ground (arith, find_device-all_devices table d)

-- What the mkI is told of a device that it knows; the others have an empty description.
abbrev mk1_page_size : DeviceDef → ℕ
mk1_page_size d = if d.device_flags == devfl_mkii_only then 0 else d.flash_page_size

abbrev pub atmega640_id : ℕ
atmega640_id = 0x9608

-- Both descriptions agree with the sizes that the program works with.
pub record IsDescribed (d : DeviceDef) : Type 0 where
  pub flash_page_size : b2_to_u16 d.dev_desc2.ui_flash_page_size ≡ d.flash_page_size
  pub flash_pages : b2_to_u16 d.dev_desc2.ui_flashpages ≡ d.flash_page_count
  pub eeprom_page_size : d.dev_desc2.uc_eeprom_page_size ≡ d.eeprom_page_size
  pub mk1_page_size : b2_to_u16 d.dev_desc1.flash_pg_sz ≡ mk1_page_size d

abbrev described : DeviceDef → Bool
described d =
    b2_to_u16 d.dev_desc2.ui_flash_page_size == d.flash_page_size
    && (b2_to_u16 d.dev_desc2.ui_flashpages == d.flash_page_count
        && (d.dev_desc2.uc_eeprom_page_size == d.eeprom_page_size
            && b2_to_u16 d.dev_desc1.flash_pg_sz == mk1_page_size d))

all_described : all_devices described device_definitions ≡ true
unfolding all_devices b2_to_u16 fill_b2
all_described = refl

-- A device that the loops find in the table is described to the box by its own page sizes and
-- number of pages; the mkI is told the page size of the devices that it knows, and 0 for the others.
pub find_device-IsDescribed :
    (wanted : Bytes → DeviceDef → Bool) (d : DeviceDef)
    → find_device wanted device_definitions ≡ some d
    → IsDescribed d
find_device-IsDescribed wanted d found =
    let passed =
      find_device-all_devices wanted described device_definitions d all_described found in
    record {
      flash_page_size = ground (arith, passed);
      flash_pages = ground (arith, passed);
      eeprom_page_size = ground (arith, passed);
      mk1_page_size = ground (arith, passed);
    }

-- Whether the size of the flash is the product that the page table makes.
abbrev flash_size_agrees : DeviceDef → Bool
flash_size_agrees d = b4_to_u32 d.dev_desc2.ul_flash_size == d.flash_page_size * d.flash_page_count

all_sized :
    all_devices
      (λ d. if d.device_id == atmega640_id then not (flash_size_agrees d) else flash_size_agrees d)
      device_definitions
    ≡ true
unfolding all_devices b4_to_u32 fill_b4
all_sized = refl

-- The mkII is told the size of the flash that the pages make, of every device but one: the
-- ATmega640, whose description has another size.
pub find_device-flash_size :
    (wanted : Bytes → DeviceDef → Bool) (d : DeviceDef)
    → find_device wanted device_definitions ≡ some d
    → (b4_to_u32 d.dev_desc2.ul_flash_size ≡ d.flash_page_size * d.flash_page_count)
      ↔ (d.device_id ≢ atmega640_id)
find_device-flash_size wanted d found =
    let passed = find_device-all_devices wanted _ device_definitions d all_sized found in
    (ground (arith, passed), ground (arith, passed))
