-- ===== src/Base/Text.antt =====
-- Texts of the source as their bytes; they are all in ASCII.
use Prim.Native.Char.{code}
use Prim.Native.Nat.{ℕ, zero, suc, ◌+◌, ◌-◌, ◌*◌}
use Prim.Native.String.{String}
use mathlib.Core.List.{List, [], ◌∷◌}
use jtag_js.Base.Tests.{ltb, if◌then◌else◌}

abbrev pub codes : String → List ℕ
codes String.[] = []
codes (String.◌∷◌ c text) = code c ∷ codes text

abbrev pub zeros : ℕ → List ℕ
zeros zero = []
zeros (suc n) = 0 ∷ zeros n

-- Bytes written as two hexadecimal digits each, in upper case, with a space between them.
abbrev hex_digit : ℕ → ℕ
hex_digit c = if ltb c b'A' then c - b'0' else c - b'A' + 10

abbrev hex_pairs : List ℕ → List ℕ
hex_pairs (h ∷ l ∷ space ∷ digits) = (hex_digit h * 16 + hex_digit l) ∷ hex_pairs digits
hex_pairs (h ∷ l ∷ []) = (hex_digit h * 16 + hex_digit l) ∷ []
hex_pairs _ = []

abbrev pub hexes : String → List ℕ
hexes text = hex_pairs (codes text)
