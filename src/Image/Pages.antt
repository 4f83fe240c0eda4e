-- ===== src/Image/Pages.antt =====
-- The pages of an image: what is in them, and when they are empty.
use jtag_js.Base.{
  ℕ, zero, suc, ◌+◌, ◌≤◌, ◌<◌, ◌≡◌, refl, ap, ◌∙◌, arith, Bool, true, false, leb, ◌==◌, ==_iff,
  if◌then◌else◌, Bool-cases, inl, inr, length, get_or,
}
use jtag_js.Image.{MemType, Image, needs_write, page_is_empty, page_bytes}

pub length-page_bytes : (image : Image) (addr size : ℕ) → length (page_bytes image addr size) ≡ size
length-page_bytes image addr zero = refl
length-page_bytes image addr (suc size) = ap suc (length-page_bytes image (addr + 1) size)

pub get_or-page_bytes :
    (image : Image) (addr size k : ℕ)
    → k < size
    → get_or (page_bytes image addr size) k 0 ≡ (image.image (addr + k)).val
get_or-page_bytes image addr zero k h = elim h [ ]
get_or-page_bytes image addr (suc size) zero h = ap (λ c. (image.image c).val) (omega arith)
get_or-page_bytes image addr (suc size) (suc k) h =
    get_or-page_bytes image (addr + 1) size k (omega arith)
    ∙ ap (λ c. (image.image c).val) (omega arith)

first_of_page :
    (memtype : MemType) (image : Image) (addr size : ℕ)
    → page_is_empty memtype image addr (suc size) ≡ true
    → addr < image.last_address
    → (needs_write memtype (image.image addr) ≡ false)
      × (page_is_empty memtype image (addr + 1) size ≡ true)
unfolding page_is_empty
first_of_page memtype image addr size h last =
    if_chain (leb image.last_address addr) (needs_write memtype (image.image addr)) _
      (le_false _ _ last) h
  where
    le_false : (a b : ℕ) → b < a → leb a b ≡ false
    le_false a b p = ground arith

    if_chain :
        (x y z : Bool)
        → x ≡ false
        → (if x then true else if y then false else z) ≡ true
        → (y ≡ false) × (z ≡ true)
    if_chain true y z e p = cc
    if_chain false true z e p = cc
    if_chain false false z e p = (refl, p)

-- A page that is left out has nothing to write.
pub page_is_empty_lem :
    (memtype : MemType) (image : Image) (addr size c : ℕ)
    → page_is_empty memtype image addr size ≡ true
    → addr ≤ c
    → c < addr + size
    → c < image.last_address
    → needs_write memtype (image.image c) ≡ false
unfolding page_is_empty
page_is_empty_lem memtype image addr zero c h from below last = absurd (omega arith)
page_is_empty_lem memtype image addr (suc size) c h from below last =
    let (unneeded, rest) = first_of_page memtype image addr size h (omega arith) in
    elim (Bool-cases (c == addr)) [
      | inl same ↦
          let at : c ≡ addr = (==_iff c addr).0 same in
          ap (λ x. needs_write memtype (image.image x)) at ∙ unneeded
      | inr other ↦
          page_is_empty_lem memtype image (addr + 1) size c rest (ground (arith, other))
            (omega arith) last
    ]
