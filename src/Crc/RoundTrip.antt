-- ===== src/Crc/RoundTrip.antt =====
-- What `crcappend` writes, `crcverify` accepts.
use jtag_js.Base.{
  ℕ, zero, suc, ◌+◌, ◌-◌, ◌/◌, ◌%◌, ◌≤◌, ◌≡◌, refl, ◌∙◌, arith, true, [], ◌∷◌, length, length-set,
  get_or, get_or-set_self, get_or-set_ne, set, ◌==◌, ==_iff, Bytes,
}
use jtag_js.Crc.{crc_init, crc_step, crcsum, crcverify, crcappend}

-- A write behind the summed bytes does not change the sum.
pub crcsum-set :
    (message : Bytes) (n i v crc : ℕ)
    → n ≤ i
    → crcsum (set message i v) n crc ≡ crcsum message n crc
unfolding crcsum
crcsum-set message zero i v crc h = refl
crcsum-set [] (suc n) i v crc h = refl
crcsum-set (b ∷ message) (suc n) zero v crc h = absurd (omega arith)
crcsum-set (b ∷ message) (suc n) (suc i) v crc h =
    crcsum-set message n i v (crc_step crc b) (omega arith)

==_refl : (a : ℕ) → (a == a) ≡ true
==_refl a = (==_iff a a).1 refl

-- Whatever a buffer holds, once `crcappend` has written the sum of its first n bytes behind them,
-- `crcverify` accepts the n + 2 bytes.
pub crcverify-crcappend :
    (message : Bytes) (n : ℕ)
    → n + 2 ≤ length message
    → crcverify (crcappend message n) (n + 2) ≡ true
unfolding crcverify crcappend
crcverify-crcappend message n room =
    let total = crcsum message n crc_init in
    let low = set message n (total % 256) in
    let full = set low (n + 1) (total / 256 % 256) in
    let summed : crcsum full n crc_init ≡ total =
      crcsum-set low n (n + 1) (total / 256 % 256) crc_init (omega arith)
      ∙ crcsum-set message n n (total % 256) crc_init (omega arith) in
    let first : get_or full n 0 ≡ total % 256 =
      get_or-set_ne low (n + 1) n (total / 256 % 256) 0 (omega arith)
      ∙ get_or-set_self message n (total % 256) 0 (omega arith) in
    let second : get_or full (n + 1) 0 ≡ total / 256 % 256 =
      get_or-set_self low (n + 1) (total / 256 % 256) 0
        (omega (arith, length-set message n (total % 256))) in
    let shorter : n + 2 - 2 ≡ n = omega arith in
    let last : n + 2 - 1 ≡ n + 1 = omega arith in
    rw (shorter, last, summed, first, second) (rw (==_refl (total % 256)) (==_refl _))
