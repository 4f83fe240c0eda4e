-- ===== src/Devices/Twins.antt =====
-- The detection of a device by the id that the box reports, against the devices of the table.
use jtag_js.Base.{
  ◌≡◌, refl, arith, Bool, true, false, not, ◌||◌, Option, none, some, List, [], ◌∷◌, codes,
  if◌then◌else◌, Bytes,
}
use jtag_js.Devices.{DeviceDef}
use jtag_js.Devices.Lookup.{find_device, device_by_id, same_name}
use jtag_js.Devices.Parts.{device_definitions}
use jtag_js.Devices.Consistent.{all_devices, find_device-all_devices}

-- The devices that share their id with one further up in the table.
abbrev pub later_twins : List Bytes
later_twins =
    codes "at90pwm3"
    ∷ codes "at90pwm3b"
    ∷ codes "at90pwm316"
    ∷ codes "at90usb647"
    ∷ codes "atmega165p"
    ∷ codes "atmega329p"
    ∷ []

abbrev pub is_one_of : Option Bytes → List Bytes → Bool
is_one_of name [] = false
is_one_of none (n ∷ names) = false
is_one_of (some name) (n ∷ names) = same_name name n || is_one_of (some name) names

abbrev pub have_same_name : Option DeviceDef → DeviceDef → Bool
have_same_name none d = false
have_same_name (some e) d = elim e.name [ none ↦ false | some name ↦ is_one_of d.name (name ∷ []) ]

abbrev as_expected : DeviceDef → Bool
as_expected d =
    if have_same_name (device_by_id device_definitions d.device_id) d
    then not (is_one_of d.name later_twins)
    else is_one_of d.name later_twins

all_expected : all_devices as_expected device_definitions ≡ true
unfolding all_devices device_by_id
all_expected = refl

-- The device with the id of a device of the table is this very device, unless it is one of the six
-- that have a twin further up; for these six the detection finds another device.
pub device_by_id-find_device :
    (wanted : Bytes → DeviceDef → Bool) (d : DeviceDef)
    → find_device wanted device_definitions ≡ some d
    → have_same_name (device_by_id device_definitions d.device_id) d
      ≡ not (is_one_of d.name later_twins)
device_by_id-find_device wanted d found =
    let passed =
      find_device-all_devices wanted as_expected device_definitions d all_expected found in
    ground (arith, passed)
