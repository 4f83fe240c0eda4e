-- ===== src/Port/Reads.antt =====
-- What a read brings.
use jtag_js.Base.{ℕ, zero, suc, ◌≤◌, ◌≡◌, refl, ap, arith, List, [], ◌∷◌, ◌++◌, map, length, Bytes}
use jtag_js.Port.{
  Event, byte, quiet, fault, hangup, Reading, got, broken, spinning, read_bytes, new_buffer,
}

pub read_bytes-map :
    (bs : Bytes) (es : List Event) → read_bytes (length bs) (map byte bs ++ es) ≡ got bs es
unfolding read_bytes
read_bytes-map [] es = refl
read_bytes-map (b ∷ bs) es = rw (read_bytes-map bs es)

-- A read of at least one byte uses up an event, if there is one, and none that it leaves is new.
abbrev pub rest_of : Reading → List Event
rest_of (got bs es) = es
rest_of (broken es) = es
rest_of spinning = []

pub length-rest_of : (n : ℕ) (es : List Event) → length (rest_of (read_bytes n es)) ≤ length es
unfolding read_bytes
length-rest_of zero es = omega arith
length-rest_of (suc n) [] = omega arith
length-rest_of (suc n) (byte b ∷ es) = ground (arith, length-rest_of n es)
length-rest_of (suc n) (quiet ∷ es) = omega arith
length-rest_of (suc n) (fault ∷ es) = omega arith
length-rest_of (suc n) (hangup ∷ es) = omega arith

pub length-new_buffer : (junk : ℕ → ℕ) (n : ℕ) → length (new_buffer junk n) ≡ n
length-new_buffer junk zero = refl
length-new_buffer junk (suc n) = ap suc (length-new_buffer junk n)
