-- ===== src/Tests/Codes.antt =====
-- src/crc16.c and src/utils.cc on concrete inputs.
use jtag_js.Base.{◌+◌, ◌≡◌, arith, true, false, [], ◌∷◌, length, set, Bytes, IsBytes}
use jtag_js.Crc.{crc_init, crcsum, crcappend, crcverify}
use jtag_js.Crc.Serial.{crc_serial, crcsum-crc_serial}
use jtag_js.Crc.Detect.{crcverify_detects}
use jtag_js.Crc.RoundTrip.{crcverify-crcappend}

abbrev two_bytes : Bytes
two_bytes = 0xab ∷ 7 ∷ []

two_bytes-IsBytes : IsBytes two_bytes
two_bytes-IsBytes = (omega arith, (omega arith, tt))

abbrev closed : Bytes
unfolding crcappend
closed = crcappend (0xab ∷ 7 ∷ 0 ∷ 0 ∷ []) 2

crcsum-crc_serial_example :
    crcsum two_bytes (length two_bytes) crc_init ≡ crc_serial two_bytes crc_init
crcsum-crc_serial_example = crcsum-crc_serial two_bytes crc_init two_bytes-IsBytes

closed-IsBytes : IsBytes closed
unfolding crcappend
closed-IsBytes = (omega arith, (omega arith, (omega arith, (omega arith, tt))))

closed_verifies : crcverify closed (2 + 2) ≡ true
unfolding crcappend
closed_verifies = crcverify-crcappend (0xab ∷ 7 ∷ 0 ∷ 0 ∷ []) 2 (omega arith)

crcverify_detects_example : crcverify (set closed 1 9) (2 + 2) ≡ false
unfolding crcappend
crcverify_detects_example =
    crcverify_detects closed 2 1 9 closed-IsBytes (omega arith) (omega arith) (omega arith)
      (omega arith) closed_verifies
