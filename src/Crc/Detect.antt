-- ===== src/Crc/Detect.antt =====
-- The checksum notices every change of one byte.
use jtag_js.Base.{
  ℕ, zero, suc, ◌+◌, ◌*◌, ◌/◌, ◌%◌, ◌<◌, bit_xor, ◌-◌, ◌≤◌, ◌≡◌, ◌≢◌, ltb, ltb→lt, set,
  get_or-set_ne, ◌&&◌, refl, sym, ap, ◌∙◌, arith, List, [], ◌∷◌, true, false, length, get_or, ◌==◌,
  ==_iff, if◌then◌else◌, Bytes, IsBytes,
}
use jtag_js.Base.Bits.{
  holds_under, holds_under-true, xor_bytes, xor_comm, xor_injective, xor_low_byte, zero-bit_xor,
}
use jtag_js.Crc.{crc_table, crc_init, crc_step, crcsum, crcverify}

-- The place of the entry whose high byte is `h`.
high_index : List ℕ → ℕ → ℕ → ℕ
high_index [] i h = i
high_index (t ∷ ts) i h = if t / 256 == h then i else high_index ts (i + 1) h

index_table : holds_under (λ i. high_index crc_table 0 (get_or crc_table i 0 / 256) == i) 256 ≡ true
unfolding holds_under high_index crc_table
index_table = refl

-- The high bytes of the table are all different.
table_injective :
    (i j : ℕ) → i < 256 → j < 256 → get_or crc_table i 0 / 256 ≡ get_or crc_table j 0 / 256 → i ≡ j
table_injective i j p q h =
    sym ((==_iff _ _).0 (holds_under-true _ 256 index_table i p))
    ∙ ap (high_index crc_table 0) h
    ∙ (==_iff _ _).0 (holds_under-true _ 256 index_table j q)

table_bounded : holds_under (λ i. ltb (get_or crc_table i 0) 65536) 256 ≡ true
unfolding holds_under crc_table
table_bounded = refl

xor_parts :
    (h e : ℕ) → h < 256 → (bit_xor h e / 256 ≡ e / 256) × (bit_xor h e % 256 ≡ bit_xor h (e % 256))
xor_parts h e p = ground (
  arith,
  xor_bytes 0 h (e / 256) (e % 256),
  zero-bit_xor (e / 256),
  ap (λ (t : ℕ). bit_xor h t) (high-low e),
)
  where
    high-low : (n : ℕ) → n / 256 * 256 + n % 256 ≡ n
    high-low n = omega arith

abbrev entry : ℕ → ℕ → ℕ
entry crc c = get_or crc_table (bit_xor crc c % 256) 0

pub crc_step-lt : (crc c : ℕ) → crc < 65536 → crc_step crc c < 65536
unfolding crc_step
crc_step-lt crc c p = omega (
  arith,
  xor_parts (crc / 256) (entry crc c) (omega arith),
  ltb→lt _ _ (holds_under-true _ 256 table_bounded (bit_xor crc c % 256) (omega arith)),
)

-- What a step mixes can be told from its result.
crc_step_inversion :
    (crc crc' c c' : ℕ)
    → crc < 65536
    → crc' < 65536
    → crc_step crc c ≡ crc_step crc' c'
    → (crc / 256 ≡ crc' / 256) × (bit_xor crc c % 256 ≡ bit_xor crc' c' % 256)
unfolding crc_step
crc_step_inversion crc crc' c c' p p' e =
    let parts = xor_parts (crc / 256) (entry crc c) (omega arith) in
    let parts' = xor_parts (crc' / 256) (entry crc' c') (omega arith) in
    let same : bit_xor crc c % 256 ≡ bit_xor crc' c' % 256 =
      table_injective _ _ (omega arith) (omega arith)
        (sym parts.0 ∙ ap (λ (t : ℕ). t / 256) e ∙ parts'.0) in
    let low = ap (λ (t : ℕ). get_or crc_table t 0 % 256) same in
    let mixed : bit_xor (entry crc c % 256) (crc / 256) ≡ bit_xor (entry crc c % 256) (crc' / 256) =
      xor_comm (entry crc c % 256) (crc / 256)
      ∙ sym parts.1
      ∙ ap (λ (t : ℕ). t % 256) e
      ∙ parts'.1
      ∙ ap (λ (t : ℕ). bit_xor (crc' / 256) t) (sym low)
      ∙ xor_comm (crc' / 256) (entry crc c % 256) in
    (xor_injective _ _ _ mixed, same)

crc_step_injective :
    (crc crc' c : ℕ)
    → crc < 65536
    → crc' < 65536
    → c < 256
    → crc_step crc c ≡ crc_step crc' c
    → crc ≡ crc'
crc_step_injective crc crc' c p p' q e =
    let (high, low) = crc_step_inversion crc crc' c c p p' e in
    let (l, s) = xor_low_byte crc c q in
    let (l', s') = xor_low_byte crc' c q in
    let same : bit_xor (crc % 256) c ≡ bit_xor (crc' % 256) c = omega arith in
    let bytes =
      xor_injective c (crc % 256) (crc' % 256)
        (xor_comm c (crc % 256) ∙ same ∙ xor_comm (crc' % 256) c) in
    omega arith

crc_step_byte_injective :
    (crc c c' : ℕ) → crc < 65536 → c < 256 → c' < 256 → crc_step crc c ≡ crc_step crc c' → c ≡ c'
crc_step_byte_injective crc c c' p q q' e =
    let (_, low) = crc_step_inversion crc crc c c' p p e in
    let (l, s) = xor_low_byte crc c q in
    let (l', s') = xor_low_byte crc c' q' in xor_injective (crc % 256) c c' (omega arith)

pub crcsum-lt : (message : Bytes) (n crc : ℕ) → crc < 65536 → crcsum message n crc < 65536
unfolding crcsum
crcsum-lt message zero crc p = p
crcsum-lt [] (suc n) crc p = p
crcsum-lt (b ∷ message) (suc n) crc p = crcsum-lt message n (crc_step crc b) (crc_step-lt crc b p)

-- The bytes behind a difference cannot undo it.
crcsum_injective :
    (message : Bytes) (n crc crc' : ℕ)
    → IsBytes message
    → crc < 65536
    → crc' < 65536
    → crcsum message n crc ≡ crcsum message n crc'
    → crc ≡ crc'
unfolding crcsum
crcsum_injective message zero crc crc' h p p' e = e
crcsum_injective [] (suc n) crc crc' h p p' e = e
crcsum_injective (b ∷ message) (suc n) crc crc' (q, h) p p' e =
    crc_step_injective crc crc' b p p' q (
      crcsum_injective message n (crc_step crc b) (crc_step crc' b) h (crc_step-lt crc b p)
        (crc_step-lt crc' b p') e)

crcsum-set_injective :
    (message : Bytes) (n i b crc : ℕ)
    → IsBytes message
    → b < 256
    → crc < 65536
    → i < n
    → i < length message
    → crcsum (set message i b) n crc ≡ crcsum message n crc
    → b ≡ get_or message i 0
unfolding crcsum
crcsum-set_injective message zero i b crc h q p lt room e = elim lt [ ]
crcsum-set_injective [] (suc n) i b crc h q p lt room e = elim room [ ]
crcsum-set_injective (c ∷ message) (suc n) zero b crc (r, h) q p lt room e =
    crc_step_byte_injective crc b c p q r (
      crcsum_injective message n (crc_step crc b) (crc_step crc c) h (crc_step-lt crc b p)
        (crc_step-lt crc c p) e)
crcsum-set_injective (c ∷ message) (suc n) (suc i) b crc (r, h) q p lt room e =
    crcsum-set_injective message n i b (crc_step crc c) h q (crc_step-lt crc c p) (omega arith)
      (omega arith) e

-- `crcverify` at a message of n bytes and their sum.
crcverify_lem :
    (message : Bytes) (n : ℕ)
    → crcverify message (n + 2) ≡ (
        crcsum message n crc_init % 256 == get_or message n 0
        && crcsum message n crc_init / 256 % 256 == get_or message (n + 1) 0)
unfolding crcverify
crcverify_lem message n =
    let shorter : n + 2 - 2 ≡ n = omega arith in
    let last : n + 2 - 1 ≡ n + 1 = omega arith in rw (shorter, last)

both_sums :
    (s s' lo hi : ℕ)
    → s < 65536
    → s' < 65536
    → s' ≢ s
    → (s % 256 == lo && s / 256 % 256 == hi) ≡ true
    → (s' % 256 == lo && s' / 256 % 256 == hi) ≡ false
both_sums s s' lo hi p p' ne h = ground arith

-- A message of n bytes whose two trailing bytes are its checksum is refused as soon as any one of
-- the n bytes is replaced by another byte.
pub crcverify_detects :
    (message : Bytes) (n i b : ℕ)
    → IsBytes message
    → b < 256
    → i < n
    → n + 2 ≤ length message
    → b ≢ get_or message i 0
    → crcverify message (n + 2) ≡ true
    → crcverify (set message i b) (n + 2) ≡ false
crcverify_detects message n i b h q lt room ne accepted =
    let bound = crcsum-lt message n crc_init (omega arith) in
    let bound' = crcsum-lt (set message i b) n crc_init (omega arith) in
    let differs : crcsum (set message i b) n crc_init ≢ crcsum message n crc_init =
      λ e. ne (crcsum-set_injective message n i b crc_init h q (omega arith) lt (omega arith) e) in
    rw crcverify_lem (
      rw
        (
          get_or-set_ne message i n b 0 (omega arith),
          get_or-set_ne message i (n + 1) b 0 (omega arith),
        )
        (both_sums _ _ _ _ bound bound' differs (rw crcverify_lem at accepted)))
