-- ===== src/Mk1/Breakpoints/Units.antt =====
-- src/jtagbp.cc, `updateBreakpoints`: every breakpoint gets a unit of the box.
use jtag_js.Base.{ℕ, ◌+◌, ◌*◌, ◌/◌, ◌%◌, ◌<◌, List, [], ◌∷◌, ◌==◌, if◌then◌else◌}
use jtag_js.Mk1.Breakpoints.{Breakpoint, Order, write_unit, parameter, mode_number}

-- The units X and Y of the box as doc/avrIceProtocol.txt has them: their addresses in two bytes each,
-- and the mode, whose bits 5 and 4 turn X and Y on, and whose low four bits are what they stop at.
pub record Units : Type 0 where
  pub x_high : ℕ
  pub x_low : ℕ
  pub y_high : ℕ
  pub y_low : ℕ
  pub mode : ℕ

-- The parameters 0xa2 to 0xa6; a write to the breakpoint space is not for X and Y.
abbrev pub obey : Order → Units → Units
obey (write_unit address value) u = u
obey (parameter item value) u =
    if item == 0xa2
    then record u { x_high = value }
    else if item == 0xa3
    then record u { x_low = value }
    else if item == 0xa4
    then record u { y_high = value }
    else if item == 0xa5
    then record u { y_low = value }
    else if item == 0xa6
    then record u { mode = value }
    else u

abbrev pub obey_all : List Order → Units → Units
obey_all [] u = u
obey_all (o ∷ os) u = obey_all os (obey o u)

-- What the orders write to the breakpoint space: addresses and values.
abbrev pub space_writes : List Order → List (ℕ × ℕ)
space_writes [] = []
space_writes (write_unit address value ∷ os) = (address, value) ∷ space_writes os
space_writes (parameter item value ∷ os) = space_writes os

-- Addresses with the numbers from n on.
abbrev pub numbered : ℕ → List ℕ → List (ℕ × ℕ)
numbered n [] = []
numbered n (a ∷ rest) = (a, n) ∷ numbered (n + 1) rest

-- With nothing to watch, X and Y are left as they were.
abbrev pub instead_of : List (ℕ × ℕ) → List (ℕ × ℕ) → List (ℕ × ℕ)
instead_of old [] = old
instead_of old (w ∷ ws) = w ∷ ws

-- What X and Y watch when they are not masked: an address, and the kind of access.
abbrev pub watches : Units → List (ℕ × ℕ)
watches u =
    if u.mode / 0x20 % 2 == 1
    then (u.x_high * 256 + u.x_low, u.mode / 4 % 4)
      ∷ (if u.mode / 0x10 % 2 == 1 then (u.y_high * 256 + u.y_low, u.mode % 4) ∷ [] else [])
    else []

abbrev pub watch : Breakpoint → ℕ × ℕ
watch b = (b.address, mode_number b.bp_type)

abbrev pub FitsWord : Breakpoint → Type 0
FitsWord b = b.address < 65536
