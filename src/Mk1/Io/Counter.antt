-- ===== src/Mk1/Io/Counter.antt =====
-- src/jtag1.h and src/jtagrun.cc: addresses as three bytes, and the program counter.
use jtag_js.Base.{ℕ, ◌+◌, ◌-◌, ◌*◌, ◌/◌, ◌%◌, ◌^◌, ◌≡◌, ◌<◌, ap, ◌∙◌, arith, [], ◌∷◌, ◌++◌, Bytes}
use jtag_js.Mk1.Io.{r_ok, encode_address, decode_address, pc_of}

decode-encode : (x : ℕ) (rest : Bytes) → x < 2 ^ 24 → decode_address (encode_address x ++ rest) ≡ x
unfolding decode_address encode_address
decode-encode x rest h = omega arith

-- A program counter below 2 ^ 25 - 2, written as the box takes it, one word ahead, and read back from
-- the box with its OK, is the same program counter, rounded down to a word.
pub pc_of-encode_address :
    (pc : ℕ) → pc + 2 < 2 ^ 25 → pc_of (encode_address (pc / 2 + 1) ++ r_ok ∷ []) ≡ pc / 2 * 2
unfolding pc_of encode_address
pc_of-encode_address pc h =
    ap (λ n. (n + (2 ^ 64 - 1)) % 2 ^ 64 * 2 % 2 ^ 64)
      (decode-encode (pc / 2 + 1) (r_ok ∷ []) (omega arith))
    ∙ omega arith
