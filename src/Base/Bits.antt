-- ===== src/Base/Bits.antt =====
-- The exclusive or of numbers of any size, digit by digit and byte by byte.
use Prim.Native.Nat.{
  ℕ, zero, suc, ◌+◌, ◌*◌, ◌/◌, ◌%◌, ◌^◌, ◌≤◌, ◌<◌, bit_xor, digits, bit_xor-bitwise,
}
use mathlib.Core.Bool.{Bool, true, ◌&&◌}
use mathlib.Core.Path.{◌≡◌, refl, ap, ◌∙◌}
use native.Mathlib.Nat.{pow-suc}
use native.Mathlib.Omega.{arith}

-- Whether a test holds of the numbers under a bound.
unfoldable pub holds_under : (ℕ → Bool) → ℕ → Bool
holds_under test zero = true
holds_under test (suc bound) = holds_under test bound && test bound

pub holds_under-true :
    (test : ℕ → Bool) (bound : ℕ)
    → holds_under test bound ≡ true
    → (value : ℕ) → value < bound
    → test value ≡ true
unfolding holds_under
holds_under-true test (suc bound) holds value below =
    ground (arith, holds_under-true test bound _ value)
holds_under-true test zero holds value below = absurd (omega arith)

module _ (op : ℕ → ℕ → ℕ) where
  -- The digits of `x` and `y`, where all the digits of `x` fit into `size`.
  abbrev joined : ℕ → ℕ → ℕ → ℕ
  joined size x y = digits (λ rest. rest) op size x y

  -- One round more than enough changes nothing.
  joined-suc : (x y size : ℕ) → x ≤ size → joined (suc size) x y ≡ joined size x y
  joined-suc zero y zero fits = refl
  joined-suc zero y (suc size) fits = refl
  joined-suc (suc x) y zero fits = absurd (omega arith)
  joined-suc (suc x) y (suc size) fits =
      omega (arith, joined-suc (suc x / 2) (y / 2) size (omega arith))

  joined_spare : (spare x y : ℕ) → joined (spare + x) x y ≡ joined x x y
  joined_spare zero x y =
      let none_left : 0 + x ≡ x = omega arith in ap (λ size. joined size x y) none_left
  joined_spare (suc spare) x y =
      let one_more : suc spare + x ≡ suc (spare + x) = omega arith in
      ap (λ size. joined size x y) one_more
      ∙ (joined-suc x y (spare + x) (omega arith) ∙ joined_spare spare x y)

  -- The rounds that are left after the lowest digit are enough for the rest.
  joined_half : (x y : ℕ) → joined x (suc x / 2) y ≡ joined (suc x / 2) (suc x / 2) y
  joined_half x y =
      let halves : x ≡ x / 2 + suc x / 2 = omega arith in
      ap (λ size. joined size (suc x / 2) y) halves ∙ joined_spare (x / 2) (suc x / 2) y

pub zero-bit_xor : (y : ℕ) → bit_xor 0 y ≡ y
zero-bit_xor y = bit_xor-bitwise 0 y

-- The exclusive or of two digits is their sum modulo two.
differ_lem : (x y : ℕ) → x < 2 → y < 2 → Prim.Native.Nat.differ x y ≡ (x + y) % 2
differ_lem zero y p q = omega arith
differ_lem (suc zero) zero p q = refl
differ_lem (suc zero) (suc zero) p q = refl
differ_lem (suc zero) (suc (suc y)) p q = absurd (omega arith)
differ_lem (suc (suc x)) y p q = absurd (omega arith)

pub bit_xor_step : (a b : ℕ) → bit_xor a b ≡ bit_xor (a / 2) (b / 2) * 2 + (a % 2 + b % 2) % 2
bit_xor_step (suc x) y =
    let lowest = differ_lem (suc x % 2) (y % 2) (omega arith) (omega arith) in
    let whole = bit_xor-bitwise (suc x) y in
    let rest = bit_xor-bitwise (suc x / 2) (y / 2) in
    omega (arith, joined_half Prim.Native.Nat.differ x (y / 2), lowest, whole, rest)
bit_xor_step zero y = omega (arith, zero-bit_xor (y / 2), zero-bit_xor y)

xor_assoc_fuel :
    (n a b c : ℕ) → a ≤ n → b ≤ n → c ≤ n → bit_xor (bit_xor a b) c ≡ bit_xor a (bit_xor b c)
xor_assoc_fuel zero zero zero zero p q r = refl
xor_assoc_fuel zero (suc a) b c p q r = absurd (omega arith)
xor_assoc_fuel zero zero (suc b) c p q r = absurd (omega arith)
xor_assoc_fuel zero zero zero (suc c) p q r = absurd (omega arith)
xor_assoc_fuel (suc n) a b c p q r =
    let ih = xor_assoc_fuel n (a / 2) (b / 2) (c / 2) (omega arith) (omega arith) (omega arith) in
    let left : bit_xor a b / 2 ≡ bit_xor (a / 2) (b / 2) = omega (arith, bit_xor_step a b) in
    let right : bit_xor b c / 2 ≡ bit_xor (b / 2) (c / 2) = omega (arith, bit_xor_step b c) in
    omega (
      arith,
      bit_xor_step a b,
      bit_xor_step b c,
      bit_xor_step (bit_xor a b) c,
      bit_xor_step a (bit_xor b c),
      ap (λ (t : ℕ). bit_xor t (c / 2)) left,
      ap (λ (t : ℕ). bit_xor (a / 2) t) right,
      ih,
    )

pub xor_assoc : (a b c : ℕ) → bit_xor (bit_xor a b) c ≡ bit_xor a (bit_xor b c)
xor_assoc a b c = xor_assoc_fuel (a + b + c) a b c (omega arith) (omega arith) (omega arith)

xor_comm_fuel : (n a b : ℕ) → a ≤ n → b ≤ n → bit_xor a b ≡ bit_xor b a
xor_comm_fuel zero zero zero p q = refl
xor_comm_fuel zero (suc a) b p q = absurd (omega arith)
xor_comm_fuel zero zero (suc b) p q = absurd (omega arith)
xor_comm_fuel (suc n) a b p q = omega (
  arith,
  bit_xor_step a b,
  bit_xor_step b a,
  xor_comm_fuel n (a / 2) (b / 2) (omega arith) (omega arith),
)

pub xor_comm : (a b : ℕ) → bit_xor a b ≡ bit_xor b a
xor_comm a b = xor_comm_fuel (a + b) a b (omega arith) (omega arith)

xor_self_fuel : (n a : ℕ) → a ≤ n → bit_xor a a ≡ 0
xor_self_fuel n zero h = refl
xor_self_fuel zero (suc a) h = absurd (omega arith)
xor_self_fuel (suc n) (suc a) h =
    omega (arith, bit_xor_step (suc a) (suc a), xor_self_fuel n (suc a / 2) (omega arith))

-- An exclusive or with `a` is undone by another one.
pub xor_cancel : (a b : ℕ) → bit_xor a (bit_xor a b) ≡ b
xor_cancel a b = omega (
  arith,
  xor_assoc a a b,
  ap (λ (t : ℕ). bit_xor t b) (xor_self_fuel a a (omega arith)),
  zero-bit_xor b,
)

pub xor_injective : (a b c : ℕ) → bit_xor a b ≡ bit_xor a c → b ≡ c
xor_injective a b c h = omega (arith, xor_cancel a b, xor_cancel a c, ap (λ (t : ℕ). bit_xor a t) h)

mul-pow-suc : (q k : ℕ) → q * 2 ^ suc k ≡ 2 * (q * 2 ^ k)
mul-pow-suc q k = omega (arith, ap (λ (t : ℕ). q * t) (pow-suc 2 k))

-- The digits above and below a position are combined on their own.
xor_fields :
    (k h l h' l' : ℕ)
    → l < 2 ^ k
    → l' < 2 ^ k
    → (bit_xor (h * 2 ^ k + l) (h' * 2 ^ k + l') ≡ bit_xor h h' * 2 ^ k + bit_xor l l')
      × (bit_xor l l' < 2 ^ k)
xor_fields zero h zero h' zero p q = ground arith
xor_fields zero h (suc l) h' l' p q = absurd (omega arith)
xor_fields zero h zero h' (suc l') p q = absurd (omega arith)
xor_fields (suc k) h l h' l' p q =
    let (split, below) =
      xor_fields k h (l / 2) h' (l' / 2) (omega (arith, pow-suc 2 k))
        (omega (arith, pow-suc 2 k)) in
    ground (
      arith,
      bit_xor_step (h * 2 ^ suc k + l) (h' * 2 ^ suc k + l'),
      bit_xor_step l l',
      mul-pow-suc h k,
      mul-pow-suc h' k,
      mul-pow-suc (bit_xor h h') k,
      pow-suc 2 k,
      split,
      below,
    )

pub xor_bytes :
    (h l h' l' : ℕ)
    → l < 256
    → l' < 256
    → (bit_xor (h * 256 + l) (h' * 256 + l') ≡ bit_xor h h' * 256 + bit_xor l l')
      × (bit_xor l l' < 256)
xor_bytes h l h' l' p q = xor_fields 8 h l h' l' p q

pub xor-zero : (a : ℕ) → bit_xor a 0 ≡ a
xor-zero a = omega (arith, xor_comm a 0, zero-bit_xor a)

-- A byte changes the low byte only.
pub xor_low_byte :
    (x c : ℕ)
    → c < 256
    → (bit_xor x c ≡ x / 256 * 256 + bit_xor (x % 256) c) × (bit_xor (x % 256) c < 256)
xor_low_byte x c p = ground (
  arith,
  xor_bytes (x / 256) (x % 256) 0 c,
  ap (λ (t : ℕ). bit_xor t c) (high-low x),
  xor-zero (x / 256),
)
  where
    high-low : (n : ℕ) → n / 256 * 256 + n % 256 ≡ n
    high-low n = omega arith

-- A byte and the multiples of 256 do not overlap.
pub xor_high_byte : (h l : ℕ) → l < 256 → bit_xor (h * 256) l ≡ h * 256 + l
xor_high_byte h l p = ground (
  arith,
  xor_bytes h 0 0 l,
  xor-zero h,
  zero-bit_xor l,
  ap (λ (t : ℕ). bit_xor t l) (zero-right h),
)
  where
    zero-right : (n : ℕ) → n * 256 + 0 ≡ n * 256
    zero-right n = omega arith
