-- ===== src/Image/Sections/Covered.antt =====
-- src/jtag2prog.cc: what the flash image of a file holds.
use jtag_js.Base.{
  ℕ, zero, suc, ◌+◌, ◌-◌, ◌≤◌, ◌<◌, ◌≡◌, refl, sym, ap, ◌∙◌, arith, Bool, true, false, ◌&&◌, ◌||◌,
  List, [], ◌∷◌, ltb, leb, ◌==◌, if◌then◌else◌, Bool-cases, ◌⊎◌, inl, inr, length, get_or, Option,
  none, some, Bytes,
}
use jtag_js.Image.{MemType, mem_flash, Cell, Image, max_image_size}
use jtag_js.Image.Sections.{
  Section, no_address, get_section_addr, update, copy_section, with_section, jtag_create_image,
  file_image,
}

abbrev pub holding : ℕ → Cell
holding b = record { val = b; used = true }

abbrev pub covers : ℕ → Bytes → ℕ → Bool
covers addr buf c = leb addr c && ltb c (addr + length buf)

first_byte :
    (addr b : ℕ) (buf : Bytes) (image : ℕ → Cell) (c : ℕ)
    → (if covers (addr + 1) buf c
        then holding (get_or buf (c - (addr + 1)) 0)
        else update image addr (holding b) c)
      ≡ (if covers addr (b ∷ buf) c then holding (get_or (b ∷ buf) (c - addr) 0) else image c)
first_byte addr b buf image c = elim (Bool-cases (ltb addr c)) [
  | inl after ↦
      let later : c - addr ≡ suc (c - (addr + 1)) = ground (arith, after) in
      rw later (ground (arith, after))
  | inr upto ↦ elim (Bool-cases (c == addr)) [
    | inl same ↦ let at : c - addr ≡ zero = ground (arith, same) in rw at (ground (arith, same))
    | inr before ↦ ground (arith, upto, before)
  ]
]

-- Within the array all bytes are copied: where the section lies, its bytes; elsewhere the image as it
-- was.
copy_section_lem :
    (addr : ℕ) (buf : Bytes) (image : ℕ → Cell)
    → addr + length buf ≤ max_image_size
    → (cells : ℕ → Cell) × (copy_section addr buf image ≡ some cells)
      × ((c : ℕ)
          → cells c ≡ (if covers addr buf c then holding (get_or buf (c - addr) 0) else image c))
unfolding copy_section
copy_section_lem addr [] image fits = (image, refl, λ c. ground arith)
copy_section_lem addr (b ∷ buf) image fits =
    let (cells, copied, holds) =
      copy_section_lem (addr + 1) buf (update image addr (holding b)) (omega (arith, fits)) in
    let inside : ltb addr max_image_size ≡ true = ground (arith, fits) in
    (cells, rw inside copied, λ c. holds c ∙ first_byte addr b buf image c)

-- A section that goes to the target has contents, and is allocated or loaded; flash is below 0x800000.
abbrev pub is_loaded : Section → Bool
is_loaded p = p.has_contents && (p.alloc || p.load)

abbrev pub is_for_flash : Section → Bool
is_for_flash p = is_loaded p && ltb p.lma 0x800000

-- Its bytes end within the array, or it is for the RAM or the EEPROM.
abbrev pub Fits : Section → Type 0
Fits p = (p.lma + length p.contents ≤ max_image_size) ⊎ ((0x800000 ≤ p.lma) × (p.lma < 0x820000))

abbrev pub AllFit : List Section → Type 0
AllFit [] = Unit
AllFit (p ∷ sections) = Fits p × AllFit sections

-- The byte that a section has for an address of flash, and that the last section which covers it has.
abbrev pub byte_in : Section → ℕ → Option ℕ
byte_in p c =
    if is_for_flash p && covers p.lma p.contents c
    then some (get_or p.contents (c - p.lma) 0)
    else none

abbrev pub last_byte : List Section → ℕ → Option ℕ
last_byte [] c = none
last_byte (p ∷ sections) c = elim (last_byte sections c) [ some v ↦ some v | none ↦ byte_in p c ]

abbrev pub cell_of : Option ℕ → Cell → Cell
cell_of none cell = cell
cell_of (some v) cell = holding v

-- Where a section for flash goes is its load address; any other goes nowhere.
flash_addr :
    (stale : MemType) (p : Section)
    → is_for_flash p ≡ true
    → get_section_addr stale p mem_flash ≡ p.lma
unfolding get_section_addr
flash_addr stale p h = elim (Bool-cases (is_loaded p)) [
  | inl loaded ↦ elim (Bool-cases (ltb p.lma 0x800000)) [
    | inl low ↦ rw (loaded, low) refl
    | inr high ↦ ground (arith, loaded, high)
  ]
  | inr other ↦ ground (arith, other)
]

no_flash_addr :
    (stale : MemType) (p : Section)
    → Fits p
    → is_for_flash p ≡ false
    → get_section_addr stale p mem_flash ≡ no_address
unfolding get_section_addr
no_flash_addr stale p fits h = elim (Bool-cases (is_loaded p)) [
  | inl loaded ↦ elim fits [
    | inl inside ↦
        let low : ltb p.lma 0x800000 ≡ true = ground (arith, inside) in
        ground (arith, loaded, low, h)
    | inr (from, below) ↦
        let high : ltb p.lma 0x800000 ≡ false = ground (arith, from) in
        elim (Bool-cases (ltb p.lma 0x810000)) [
          | inl ram ↦ rw (loaded, high, ram) refl
          | inr more ↦
              let eeprom : ltb p.lma 0x820000 ≡ true = ground (arith, below) in
              rw (loaded, high, more, eeprom) refl
        ]
  ]
  | inr other ↦ rw other refl
]

as_cell :
    (x : Bool) (v : ℕ) (cell : Cell)
    → (if x then holding v else cell) ≡ cell_of (if x then some v else none) cell
as_cell true v cell = refl
as_cell false v cell = refl

created :
    (stale : MemType) (p : Section) (image : Image) (addr : ℕ) (cells : ℕ → Cell)
    → get_section_addr stale p mem_flash ≡ addr
    → (addr == no_address) ≡ false
    → copy_section addr p.contents image.image ≡ some cells
    → jtag_create_image stale mem_flash p image ≡ some (with_section addr p.contents image cells)
unfolding jtag_create_image
created stale p image addr cells e present copied = rw (e, present, copied, e) refl

create_image_lem :
    (stale : MemType) (p : Section) (image : Image)
    → Fits p
    → (image' : Image) × (jtag_create_image stale mem_flash p image ≡ some image')
      × ((c : ℕ) → image'.image c ≡ cell_of (byte_in p c) (image.image c))
unfolding jtag_create_image
create_image_lem stale p image fits = elim (Bool-cases (is_for_flash p)) [
  | inl flash ↦
      let low : ltb p.lma 0x800000 ≡ true = ground (arith, flash) in
      let inside : p.lma + length p.contents ≤ max_image_size = elim fits [
        | inl e ↦ e
        | inr (from, below) ↦ ground (arith, low, from)
      ] in
      let present : (p.lma == no_address) ≡ false = ground (arith, low) in
      let (cells, copied, holds) = copy_section_lem p.lma p.contents image.image inside in
      (
        with_section p.lma p.contents image cells,
        created stale p image p.lma cells (flash_addr stale p flash) present copied,
        λ c.
            holds c
            ∙ as_cell (covers p.lma p.contents c) (get_or p.contents (c - p.lma) 0) (image.image c)
            ∙ ap
                (λ x.
                  cell_of
                    (if x && covers p.lma p.contents c
                      then some (get_or p.contents (c - p.lma) 0)
                      else none)
                    (image.image c))
                (sym flash),
      )
  | inr other ↦ (image, rw (no_flash_addr stale p fits other) refl, λ c. rw other refl)
]

cell_of_twice :
    (x y : Option ℕ) (cell : Cell)
    → cell_of x (cell_of y cell) ≡ cell_of (elim x [ some v ↦ some v | none ↦ y ]) cell
cell_of_twice none y cell = refl
cell_of_twice (some v) y cell = refl

file_image-step :
    (stale : MemType) (p : Section) (sections : List Section) (image image₁ : Image)
    → jtag_create_image stale mem_flash p image ≡ some image₁
    → file_image stale mem_flash (p ∷ sections) image ≡ file_image stale mem_flash sections image₁
unfolding file_image
file_image-step stale p sections image image₁ e = rw (file_image, e) refl

-- When each section ends within the array of the image or is for the RAM or the EEPROM, the loop over
-- the sections makes a flash image that holds, at each address, the byte of the last loaded section
-- below 0x800000 that lies there by its load address, marked as used; where none lies, the cell is as it
-- was.
pub file_image_lem :
    (stale : MemType) (sections : List Section) (image : Image)
    → AllFit sections
    → (image' : Image) × (file_image stale mem_flash sections image ≡ some image')
      × ((c : ℕ) → image'.image c ≡ cell_of (last_byte sections c) (image.image c))
unfolding file_image
file_image_lem stale [] image fits = (image, refl, λ c. refl)
file_image_lem stale (p ∷ sections) image (first, others) =
    let (image₁, placed, holds) = create_image_lem stale p image first in
    let (image₂, made, holds') = file_image_lem stale sections image₁ others in
    (
      image₂,
      file_image-step stale p sections image image₁ placed ∙ made,
      λ c.
          holds' c
          ∙ ap (λ cell. cell_of (last_byte sections c) cell) (holds c)
          ∙ cell_of_twice (last_byte sections c) (byte_in p c) (image.image c),
    )
