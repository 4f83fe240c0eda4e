-- ===== src/Tests/Images.antt =====
-- The flash image on concrete inputs: src/jtag2prog.cc and jtaggeneric.cc.
use jtag_js.Base.{ℕ, ◌≡◌, arith, true, ◌||◌, ◌==◌, some, List, [], ◌∷◌, inl}
use jtag_js.Image.{Image, PageSizes, mem_flash}
use jtag_js.Image.Sections.{Section, init_image, file_image}
use jtag_js.Image.Sections.Covered.{last_byte, cell_of, file_image_lem}

abbrev section : ℕ → List ℕ → Section
section lma bytes = record {
  lma = lma;
  has_contents = true;
  alloc = true;
  load = true;
  contents = bytes;
}

-- Two sections, of which the second overlaps the first.
abbrev sections : List Section
sections = section 0x11 (1 ∷ 2 ∷ 3 ∷ []) ∷ section 0x13 (9 ∷ 8 ∷ []) ∷ []

file_image_lem_example :
    (image' : Image) × (file_image mem_flash mem_flash sections init_image ≡ some image')
    × ((c : ℕ) → image'.image c ≡ cell_of (last_byte sections c) (init_image.image c))
file_image_lem_example =
    file_image_lem mem_flash sections init_image (inl (omega arith), (inl (omega arith), tt))

abbrev sizes : PageSizes
sizes = record { flash_page_size = 4; eeprom_page_size = 4 }

-- Two bytes in the first page and one in the third.
abbrev three_bytes : Image
three_bytes = record {
  image = λ c. record { val = 7; used = c == 0x11 || (c == 0x12 || c == 0x1a) };
  last_address = 0x1b;
  first_address = 0x11;
  first_address_ok = true;
  has_data = true;
}
