-- ===== src/Tests/Devices.antt =====
-- The table of src/devdescr.cc on a concrete device.
use jtag_js.Base.{◌*◌, ◌≡◌, ◌≢◌, ◌↔◌, refl, Bool, not, some, Bytes, IsBytes, codes, length}
use jtag_js.Encoding.{b4_to_u32}
use jtag_js.Devices.{DeviceDef, desc1_bytes, desc2_bytes}
use jtag_js.Devices.Lookup.{find_device, same_name, device_by_id}
use jtag_js.Devices.Consistent.{
  IsDescribed, atmega640_id, find_device-IsDescribed, find_device-flash_size,
}
use jtag_js.Devices.Sizes.{sizeof_jtag1_device_desc, sizeof_jtag2_device_desc, find_device-IsBytes}
use jtag_js.Devices.Twins.{have_same_name, is_one_of, later_twins, device_by_id-find_device}
use jtag_js.Devices.Parts.{device_definitions}
use jtag_js.Devices.Parts.Atmega16.{atmega16}

abbrev named_atmega16 : Bytes → DeviceDef → Bool
named_atmega16 name d = same_name name (codes "ATmega16")

atmega16-found : find_device named_atmega16 device_definitions ≡ some atmega16
unfolding find_device
atmega16-found = refl

find_device-IsDescribed_example : IsDescribed atmega16
find_device-IsDescribed_example = find_device-IsDescribed named_atmega16 atmega16 atmega16-found

find_device-flash_size_example :
    (b4_to_u32 atmega16.dev_desc2.ul_flash_size
      ≡ atmega16.flash_page_size * atmega16.flash_page_count)
    ↔ (atmega16.device_id ≢ atmega640_id)
find_device-flash_size_example = find_device-flash_size named_atmega16 atmega16 atmega16-found

find_device-IsBytes_example :
    ((length (desc1_bytes atmega16.dev_desc1) ≡ sizeof_jtag1_device_desc)
      × IsBytes (desc1_bytes atmega16.dev_desc1))
    × ((length (desc2_bytes atmega16.dev_desc2) ≡ sizeof_jtag2_device_desc)
        × IsBytes (desc2_bytes atmega16.dev_desc2))
find_device-IsBytes_example = find_device-IsBytes named_atmega16 atmega16 atmega16-found

device_by_id-find_device_example :
    have_same_name (device_by_id device_definitions atmega16.device_id) atmega16
    ≡ not (is_one_of atmega16.name later_twins)
device_by_id-find_device_example = device_by_id-find_device named_atmega16 atmega16 atmega16-found
