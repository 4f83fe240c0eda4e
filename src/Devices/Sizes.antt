-- ===== src/Devices/Sizes.antt =====
-- The structures of src/jtag_device_desc.h as the bytes of a command: their sizes, and that every
-- entry of the table fits into them.
use jtag_js.Base.{
  ℕ, ◌≡◌, refl, arith, Bool, true, ◌&&◌, some, [], ◌∷◌, ltb, ◌==◌, length, Bytes, IsBytes,
}
use jtag_js.Devices.{DeviceDef, desc1_bytes, desc2_bytes, fill_b2, fill_b4}
use jtag_js.Devices.Lookup.{find_device}
use jtag_js.Devices.Parts.{device_definitions}
use jtag_js.Devices.Consistent.{all_devices, find_device-all_devices}

abbrev pub sizeof_jtag1_device_desc : ℕ
sizeof_jtag1_device_desc = 126

abbrev pub sizeof_jtag2_device_desc : ℕ
sizeof_jtag2_device_desc = 299

abbrev are_bytes : Bytes → Bool
are_bytes [] = true
are_bytes (b ∷ bs) = ltb b 256 && are_bytes bs

are_bytes-IsBytes : (bs : Bytes) → are_bytes bs ≡ true → IsBytes bs
are_bytes-IsBytes [] h = tt
are_bytes-IsBytes (b ∷ bs) h = ground (arith, are_bytes-IsBytes bs)

abbrev fits : ℕ → Bytes → Bool
fits n bs = length bs == n && are_bytes bs

fits_lem : (n : ℕ) (bs : Bytes) → fits n bs ≡ true → (length bs ≡ n) × IsBytes bs
fits_lem n bs h = (ground arith, are_bytes-IsBytes bs (ground arith))

all_fit :
    all_devices
      (λ d.
        fits sizeof_jtag1_device_desc (desc1_bytes d.dev_desc1)
        && fits sizeof_jtag2_device_desc (desc2_bytes d.dev_desc2))
      device_definitions
    ≡ true
unfolding all_devices fill_b2 fill_b4
all_fit = refl

-- The descriptions of a device that is found in the table fill the two structures exactly, and
-- hold bytes only: no value is cut off on its way to the box.
pub find_device-IsBytes :
    (wanted : Bytes → DeviceDef → Bool) (d : DeviceDef)
    → find_device wanted device_definitions ≡ some d
    → ((length (desc1_bytes d.dev_desc1) ≡ sizeof_jtag1_device_desc)
        × IsBytes (desc1_bytes d.dev_desc1))
      × ((length (desc2_bytes d.dev_desc2) ≡ sizeof_jtag2_device_desc)
          × IsBytes (desc2_bytes d.dev_desc2))
find_device-IsBytes wanted d found =
    let passed = find_device-all_devices wanted _ device_definitions d all_fit found in
    (
      fits_lem _ (desc1_bytes d.dev_desc1) (ground (arith, passed)),
      fits_lem _ (desc2_bytes d.dev_desc2) (ground (arith, passed)),
    )
