-- ===== src/Encoding/Escapes.antt =====
-- The binary escapes of gdb: 0x7d in front of `#`, `$` and 0x7d itself, with bit 5 cleared.
use jtag_js.Base.{
  ℕ, suc, ◌||◌, false, inl, inr, ◌∙◌, append_assoc, ==_iff, Bool-cases, bit_xor, ◌≡◌, refl, ap, [],
  ◌∷◌, ◌++◌, ◌==◌, if◌then◌else◌, length, Bytes,
}
use jtag_js.Encoding.{bin2mem}

-- What gdb sends for one byte of memory.
abbrev pub escape_byte : ℕ → Bytes
escape_byte b = if b == b'#' || b == b'$' || b == 0x7d then 0x7d ∷ bit_xor b 0x20 ∷ [] else b ∷ []

abbrev pub escape : Bytes → Bytes
escape [] = []
escape (b ∷ mem) = escape_byte b ++ escape mem

bin2mem-plain :
    (b : ℕ) (rest : Bytes) (count : ℕ)
    → (b == 0x7d) ≡ false
    → bin2mem (b ∷ rest) (suc count) ≡ b ∷ bin2mem rest count
unfolding bin2mem
bin2mem-plain b [] count h = refl
bin2mem-plain b (c ∷ rest) count h = rw h

bin2mem-escape_byte :
    (b : ℕ) (rest : Bytes) (count : ℕ)
    → bin2mem (escape_byte b ++ rest) (suc count) ≡ b ∷ bin2mem rest count
unfolding bin2mem
bin2mem-escape_byte b rest count = elim (Bool-cases (b == b'#')) [
  | inl e ↦ rw ((==_iff b b'#').0 e) refl
  | inr n ↦ elim (Bool-cases (b == b'$')) [
    | inl e ↦ rw ((==_iff b b'$').0 e) refl
    | inr n' ↦ elim (Bool-cases (b == 0x7d)) [
      | inl e ↦ rw ((==_iff b 0x7d).0 e) refl
      | inr n'' ↦ rw (n, n', n'') (bin2mem-plain b rest count n'')
    ]
  ]
]

-- Escaped memory is read back byte by byte, whatever follows it.
pub bin2mem-escape : (mem rest : Bytes) → bin2mem (escape mem ++ rest) (length mem) ≡ mem
unfolding bin2mem
bin2mem-escape [] rest = refl
bin2mem-escape (b ∷ mem) rest =
    ap (λ (t : Bytes). bin2mem t (suc (length mem)))
      (append_assoc (escape_byte b) (escape mem) rest)
    ∙ bin2mem-escape_byte b (escape mem ++ rest) (length mem)
    ∙ ap (◌∷◌ b) (bin2mem-escape mem rest)
