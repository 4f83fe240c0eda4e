-- ===== src/Mk2/Programmer/Writes.antt =====
-- The mkII as the box that the fuses are written through: src/jtaggeneric.cc over src/jtag2rw.cc.
pub mod Steps
use jtag_js.Base.{ℕ, Option, none, List, [], ◌∷◌, Bytes}
use jtag_js.Port.{thrown, hung, M, ◌>>=◌, pure}
use jtag_js.Mk2.Command.Replies.{Message}
use jtag_js.Mk2.Command.Dialogue.{Exchange}
use jtag_js.Mk2.Memory.{Device, Target, jtag_read, jtag_write}
use jtag_js.Mk2.Setup.{fuse_space}
use jtag_js.Mk2.Setup.Programming.{simple, read, write}
use jtag_js.Mk2.Programmer.{State, answered, entering, leaving, with_bytes}
use jtag_js.Image.{Flow, F}
use jtag_js.Mk2.Programmer.Writes.Steps.{accepted}

abbrev pub three : ℕ → ℕ → ℕ → Bytes
three low high extended = low ∷ high ∷ extended ∷ []

module _ (device : Device) (low high extended : ℕ) where
  abbrev read_again : Target → M (Bytes × Target)
  read_again t =
      jtag_read device fuse_space 3 t >>= λ r. leaving device r.1 >>= λ left. pure (r.0, left.1)

  -- What `jtagWriteFuses` does on the line, up to the comparison.
  abbrev writing : Target → M (Bytes × Target)
  writing t = entering device t >>= λ entered.
      jtag_write device fuse_space (three low high extended) entered.1 >>= λ w.
      accepted w >>= λ a. read_again a.1

  -- The commands that write the fuses and read them again, with the answers.
  abbrev pub fuse_writing : ℕ → Message → Message → ℕ → List Exchange
  fuse_writing enters w m leaves =
      simple 0x14 enters
      ∷ write 0xb2 0 (three low high extended) w
      ∷ read 0xb2 3 m
      ∷ simple 0x15 leaves
      ∷ []
