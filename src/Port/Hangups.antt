-- ===== src/Port/Hangups.antt =====
-- src/jtaggeneric.cc, `timeout_read` on a line that is hung up.
use jtag_js.Base.{ℕ, zero, suc, List, [], ◌∷◌}
use jtag_js.Port.{
  Event, byte, quiet, fault, hangup, Reading, got, broken, spinning, then_got, read_bytes,
}
use jtag_js.Port.Reads.{rest_of}

-- Somewhere the line is hung up.
abbrev pub HangsUp : List Event → Type 0
HangsUp [] = ⊥
HangsUp (hangup ∷ es) = Unit
HangsUp (byte b ∷ es) = HangsUp es
HangsUp (quiet ∷ es) = HangsUp es
HangsUp (fault ∷ es) = HangsUp es

pub rest-HangsUp : (n : ℕ) (es : List Event) → HangsUp (rest_of (read_bytes n es)) → HangsUp es
unfolding read_bytes
rest-HangsUp zero es h = h
rest-HangsUp (suc n) [] h = h
rest-HangsUp (suc n) (byte b ∷ es) h = further (read_bytes n es) (rest-HangsUp n es) h
  where
    further :
        (rd : Reading)
        → (HangsUp (rest_of rd) → HangsUp es)
        → HangsUp (rest_of (then_got b rd))
        → HangsUp es
    further (got bs es') k h = k h
    further (broken es') k h = k h
    further spinning k h = absurd h
rest-HangsUp (suc n) (quiet ∷ es) h = h
rest-HangsUp (suc n) (fault ∷ es) h = h
rest-HangsUp (suc n) (hangup ∷ es) h = tt

abbrev pub IsUp : Reading → List Event → Type 0
IsUp spinning es = HangsUp es
IsUp _ es = Unit

pub read_bytes-HangsUp : (n : ℕ) (es : List Event) → IsUp (read_bytes n es) es
unfolding read_bytes
read_bytes-HangsUp zero es = tt
read_bytes-HangsUp (suc n) [] = tt
read_bytes-HangsUp (suc n) (byte b ∷ es) = further (read_bytes n es) (read_bytes-HangsUp n es)
  where
    further : (rd : Reading) → IsUp rd es → IsUp (then_got b rd) (byte b ∷ es)
    further (got bs es') k = tt
    further (broken es') k = tt
    further spinning k = k
read_bytes-HangsUp (suc n) (quiet ∷ es) = tt
read_bytes-HangsUp (suc n) (fault ∷ es) = tt
read_bytes-HangsUp (suc n) (hangup ∷ es) = tt
