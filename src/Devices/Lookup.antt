-- ===== src/Devices/Lookup.antt =====
-- How `deviceAutoConfig` and `initJtagBox` look a device up: src/jtagio.cc and jtag2io.cc.
use jtag_js.Base.{
  ℕ, ◌+◌, Bool, true, false, ◌&&◌, Option, none, some, List, [], ◌∷◌, leb, ◌==◌, if◌then◌else◌,
  Bytes,
}
use jtag_js.Devices.{DeviceDef}

abbrev pub to_lower : ℕ → ℕ
to_lower c = if leb b'A' c && leb c b'Z' then c + 32 else c

-- `strcasecmp(a, b) == 0`
abbrev pub same_name : Bytes → Bytes → Bool
same_name [] [] = true
same_name (c ∷ a) (d ∷ b) = to_lower c == to_lower d && same_name a b
same_name _ _ = false

-- A loop over the table up to the entry without a name, which is `none`.
module _ (wanted : Bytes → DeviceDef → Bool) where
  unfoldable pub find_device : List DeviceDef → Option DeviceDef
  find_device [] = none
  find_device (d ∷ table) =
      let rest = find_device table in
      elim d.name [ none ↦ none | some name ↦ if wanted name d then some d else rest ]

unfoldable pub device_by_id : List DeviceDef → ℕ → Option DeviceDef
unfolding find_device
device_by_id table id = find_device (λ name d. d.device_id == id) table

unfoldable pub device_by_name : List DeviceDef → Bytes → Option DeviceDef
unfolding find_device
device_by_name table wanted = find_device (λ name d. same_name name wanted) table
