-- ===== src/Image/Programmed/Complete.antt =====
-- src/jtaggeneric.cc, `jtag_flash_image`: lists of pages that are written, and what they hold.
use jtag_js.Base.{
  ℕ, ◌+◌, ◌-◌, ◌≤◌, ◌<◌, ◌≡◌, refl, ap, ◌∙◌, arith, true, Bool-cases, inl, inr, List, [], ◌∷◌, ltb,
  length, get_or, All, ◌⊎◌, Bytes,
}
use jtag_js.Image.{
  MemType, Programmer, F, ◌>>=◌, ◌>>◌, pure, ask, check, Image, space_offset, needs_write,
  page_is_empty, page_bytes,
}
use jtag_js.Image.Pages.{length-page_bytes, get_or-page_bytes, page_is_empty_lem}

-- Writes to the box one after the other, at their addresses; the first that is refused ends them.
pub record Write : Type 0 where
  pub addr : ℕ
  pub bytes : Bytes

abbrev pub write_all : {B : Type 0} → Programmer B → List Write → F B (Unit {0})
write_all box [] = pure tt
write_all box (w ∷ ws) = ask (box.jtag_write w.addr w.bytes) >>= λ ok. check ok >> write_all box ws

-- Some write puts the byte at the address.
abbrev pub Puts : List Write → ℕ → ℕ → Type 0
Puts [] a v = ⊥
Puts (w ∷ ws) a v =
    ((k : ℕ) × (k < length w.bytes) × (w.addr + k ≡ a) × (get_or w.bytes k 0 ≡ v)) ⊎ Puts ws a v

module _ (memtype : MemType) (image : Image) (page_size : ℕ) where
  -- A write of one page of the image.
  pub record IsPage (w : Write) : Type 0 where
    pub from : ℕ
    pub at : w.addr ≡ space_offset memtype + from
    pub size : length w.bytes ≡ page_size
    pub holds : (k : ℕ) → k < page_size → get_or w.bytes k 0 ≡ (image.image (from + k)).val

  -- The writes are pages, and from an address of the image on all that must be written is.
  pub record IsComplete (addr : ℕ) (ws : List Write) : Type 0 where
    pub pages : All IsPage ws
    pub complete :
        (c : ℕ)
        → addr ≤ c
        → c < image.last_address
        → needs_write memtype (image.image c) ≡ true
        → Puts ws (space_offset memtype + c) (image.image c).val

  abbrev pub page_at : ℕ → Write
  page_at addr = record {
    addr = space_offset memtype + addr;
    bytes = page_bytes image addr page_size;
  }

  page_at-IsPage : (addr : ℕ) → IsPage (page_at addr)
  page_at-IsPage addr = record {
    from = addr;
    at = refl;
    size = length-page_bytes image addr page_size;
    holds = λ k h. get_or-page_bytes image addr page_size k h;
  }

  page_at-Puts :
      (addr c : ℕ) (ws : List Write)
      → addr ≤ c
      → c < addr + page_size
      → Puts (page_at addr ∷ ws) (space_offset memtype + c) (image.image c).val
  page_at-Puts addr c ws from below = inl (
    c - addr,
    omega (arith, length-page_bytes image addr page_size),
    omega arith,
    get_or-page_bytes image addr page_size (c - addr) (omega arith)
        ∙ ap (λ x. (image.image x).val) (omega arith),
  )

  pub none-IsComplete : (addr : ℕ) → image.last_address ≤ addr → IsComplete addr []
  none-IsComplete addr last = record {
    pages = tt;
    complete = λ c from below needed. absurd (omega arith);
  }

  pub skipped-IsComplete :
      (addr : ℕ) (ws : List Write)
      → page_is_empty memtype image addr page_size ≡ true
      → IsComplete (addr + page_size) ws
      → IsComplete addr ws
  skipped-IsComplete addr ws empty h = record {
    pages = h.pages;
    complete = λ c from below needed. elim (Bool-cases (ltb c (addr + page_size))) [
      | inl inside ↦
          let unneeded =
            page_is_empty_lem memtype image addr page_size c empty from (ground (arith, inside))
              below in
          cc
      | inr outside ↦ h.complete c (ground (arith, outside)) below needed
    ];
  }

  pub written-IsComplete :
      (addr : ℕ) (ws : List Write)
      → IsComplete (addr + page_size) ws
      → IsComplete addr (page_at addr ∷ ws)
  written-IsComplete addr ws h = record {
    pages = (page_at-IsPage addr, h.pages);
    complete = λ c from below needed. elim (Bool-cases (ltb c (addr + page_size))) [
      | inl inside ↦ page_at-Puts addr c ws from (ground (arith, inside))
      | inr outside ↦ inr (h.complete c (ground (arith, outside)) below needed)
    ];
  }
