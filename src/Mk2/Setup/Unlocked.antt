-- ===== src/Mk2/Setup/Unlocked.antt =====
-- src/jtag2io.cc, `initJtagOnChipDebugging`: what is said about lock bits and fuses, under JTAG.
use jtag_js.Base.{ℕ, ◌-◌, bit_and, List, [], ◌∷◌, ◌++◌, ◌==◌, if◌then◌else◌, get_or, drop, Bytes}
use jtag_js.Mk2.Command.Replies.{Message}
use jtag_js.Mk2.Command.Dialogue.{Exchange}
use jtag_js.Mk2.Setup.{clock_divisor}
use jtag_js.Mk2.Setup.SignOn.{parameter}
use jtag_js.Mk2.Setup.Programming.{simple, read, write}

-- What is written to unlock: nothing if the lock bits are all set.
abbrev pub unlocks : Bytes → Message → List Exchange
unlocks lock_bits m = if get_or lock_bits 0 0 == 0xff then [] else write 0xb3 0 (0xff ∷ []) m ∷ []

-- What is written to enable debugging: the high fuse byte without its topmost bit, if that is set.
abbrev pub enables_ocd : Bytes → Message → List Exchange
enables_ocd fuse_bits m =
    let high = get_or fuse_bits 1 0 in
    if bit_and high 0x80 == 0x80 then write 0xb2 1 ((high - 0x80) ∷ []) m ∷ [] else []

-- The answers of the box, in their order.
pub record FuseAnswers : Type 0 where
  pub sets_clock : Message
  pub enters : ℕ
  pub tells_lock : Message
  pub writes_lock : Message
  pub tells_fuses : Message
  pub writes_fuses : Message
  pub leaves : ℕ

abbrev pub preparation : ℕ → FuseAnswers → List Exchange
preparation bitrate a =
    parameter 0x07 (clock_divisor bitrate ∷ []) a.sets_clock
      ∷ simple 0x14 a.enters
      ∷ read 0xb3 1 a.tells_lock
      ∷ unlocks (drop 1 a.tells_lock.payload) a.writes_lock
    ++ (read 0xb2 3 a.tells_fuses ∷ enables_ocd (drop 1 a.tells_fuses.payload) a.writes_fuses
        ++ (simple 0x15 a.leaves ∷ []))
