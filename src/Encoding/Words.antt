-- ===== src/Encoding/Words.antt =====
-- Little-endian words: `u32_to_b4` with `b4_to_u32`, `u16_to_b2` with `b2_to_u16`.
use jtag_js.Base.{ℕ, ◌^◌, ◌<◌, ◌≡◌, arith, [], ◌∷◌, ◌++◌, Bytes, IsBytes}
use jtag_js.Encoding.{b4_to_u32, u32_to_b4, b2_to_u16, u16_to_b2}

pub b4_to_u32-u32_to_b4 : (l : ℕ) (rest : Bytes) → l < 2 ^ 32 → b4_to_u32 (u32_to_b4 l ++ rest) ≡ l
unfolding b4_to_u32 u32_to_b4
b4_to_u32-u32_to_b4 l rest h = omega arith

pub b2_to_u16-u16_to_b2 : (l : ℕ) (rest : Bytes) → l < 2 ^ 16 → b2_to_u16 (u16_to_b2 l ++ rest) ≡ l
unfolding b2_to_u16 u16_to_b2
b2_to_u16-u16_to_b2 l rest h = omega arith

pub u32_to_b4-b4_to_u32 :
    (a b c d : ℕ) (rest : Bytes)
    → IsBytes (a ∷ b ∷ c ∷ d ∷ [])
    → u32_to_b4 (b4_to_u32 (a ∷ b ∷ c ∷ d ∷ rest)) ≡ a ∷ b ∷ c ∷ d ∷ []
unfolding b4_to_u32 u32_to_b4
u32_to_b4-b4_to_u32 a b c d rest h = ground arith

-- A 32-bit number is read back from its four bytes, whatever follows them, a 16-bit number from its
-- two, and four bytes are the bytes of the number that is read from them.
words_roundtrip :
    (l s : ℕ) (a b c d : ℕ) (rest : Bytes)
    → l < 2 ^ 32
    → s < 2 ^ 16
    → IsBytes (a ∷ b ∷ c ∷ d ∷ [])
    → (b4_to_u32 (u32_to_b4 l ++ rest) ≡ l)
      × (b2_to_u16 (u16_to_b2 s ++ rest) ≡ s)
      × (u32_to_b4 (b4_to_u32 (a ∷ b ∷ c ∷ d ∷ rest)) ≡ a ∷ b ∷ c ∷ d ∷ [])
words_roundtrip l s a b c d rest hl hs h = (
  b4_to_u32-u32_to_b4 l rest hl,
  b2_to_u16-u16_to_b2 s rest hs,
  u32_to_b4-b4_to_u32 a b c d rest h,
)
