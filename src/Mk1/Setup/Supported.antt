-- ===== src/Mk1/Setup/Supported.antt =====
-- src/jtagio.cc: the device that setting up the mkI comes to is one that the mkI supports.
use jtag_js.Base.{ℕ, ◌≡◌, true, Option, some, List, Bytes}
use jtag_js.Port.Post.{Post}
use jtag_js.Devices.{DeviceDef}
use jtag_js.Mk1.Breakpoints.{Breakpoints}
use jtag_js.Mk1.Setup.{Box, is_supported, wanted_device}

module _ (definitions : List DeviceDef) (name : Option Bytes) where
  -- The device of the box is one that the lookup finds, by the name that was given, or by an id, and
  -- that the mkI supports.
  pub record IsDetected (box : Box) : Type 0 where
    pub device : DeviceDef
    pub id : ℕ
    pub found : wanted_device definitions name id ≡ some device
    pub supported : is_supported device ≡ true
    pub described : box.device ≡ some device
    pub named : box.device_name ≡ device.name

  abbrev IsWanted : ℕ → DeviceDef → Type 0
  IsWanted id d = (wanted_device definitions name id ≡ some d) × (is_supported d ≡ true)
