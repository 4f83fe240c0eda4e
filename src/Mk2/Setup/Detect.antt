-- ===== src/Mk2/Setup/Detect.antt =====
-- src/jtag2io.cc, `deviceAutoConfig`: the device that the box reports is looked up and described to
-- the box.
use jtag_js.Base.{ℕ, ◌+◌, ◌*◌, ◌/◌, ◌%◌, ◌^◌, ◌≡◌, refl, false, none, some, List, [], ◌∷◌, take}
use jtag_js.Port.{◌>>=◌, pure}
use jtag_js.Mk2.Command.{rsp_parameter, get_jtag_parameter, checked_command}
use jtag_js.Mk2.Command.Replies.{Message}
use jtag_js.Mk2.Command.Dialogue.{Exchange, Talks, pure-Talks, checked_command-Talks, >>=-Talks}
use jtag_js.Devices.{DeviceDef, desc2_bytes}
use jtag_js.Devices.Lookup.{device_by_id}
use jtag_js.Mk2.Setup.{
  Box, demand_device, wanted_device, config_daisy_chain, read_device_id, set_device_descriptor,
  device_auto_config,
}

-- The id of the device, little-endian, as the answer to the query for it.
abbrev pub id_message : ℕ → ℕ → ℕ → ℕ → ℕ → Message
id_message seqno b1 b2 b3 b4 = record {
  seqno = seqno;
  payload = rsp_parameter ∷ b1 ∷ b2 ∷ b3 ∷ b4 ∷ [];
}

-- Bits 12 to 27 of the id.
abbrev pub part_number : ℕ → ℕ → ℕ → ℕ → ℕ
part_number b1 b2 b3 b4 = (b1 + b2 * 2 ^ 8 + b3 * 2 ^ 16 + b4 * 2 ^ 24) / 2 ^ 12 % 2 ^ 16

-- A device alone on its JTAG chain, whose name has not been given.
pub record IsAlone (box : Box) : Type 0 where
  pub jtag : box.use_debug_wire ≡ false
  pub unnamed : box.device_name ≡ none
  pub chain :
      box.dchain ≡ record { units_before = 0; units_after = 0; bits_before = 0; bits_after = 0 }

abbrev pub configured : DeviceDef → Box → Box
configured d box = record box { device_name = d.name; device = some d }

-- The query for the id, and the description of a device.
abbrev pub id_exchange : ℕ → ℕ → ℕ → ℕ → ℕ → Exchange
id_exchange seqno b1 b2 b3 b4 = record {
  command = 0x03 ∷ 0x0e ∷ [];
  answer = id_message seqno b1 b2 b3 b4;
}

abbrev pub descriptor_exchange : ℕ → DeviceDef → Message → Exchange
descriptor_exchange n d m = record { command = take n (desc2_bytes d.dev_desc2); answer = m }

read_device_id-Talks :
    (box : Box) (seqno b1 b2 b3 b4 : ℕ)
    → box.use_debug_wire ≡ false
    → Talks (read_device_id box) (part_number b1 b2 b3 b4) (id_exchange seqno b1 b2 b3 b4 ∷ [])
unfolding read_device_id get_jtag_parameter
read_device_id-Talks box seqno b1 b2 b3 b4 jtag l rest e w h =
    let (l', run, said) =
      checked_command-Talks (0x03 ∷ 0x0e ∷ []) (id_message seqno b1 b2 b3 b4) l rest e w h in
    (l', simp jtag (rw (run, ◌>>=◌) refl), said)

set_device_descriptor-Talks :
    (d : DeviceDef) (box : Box) (m : Message)
    → Talks (set_device_descriptor d box) tt (descriptor_exchange box.devdescrlen d m ∷ [])
unfolding set_device_descriptor
set_device_descriptor-Talks d box m =
    >>=-Talks (checked_command (take box.devdescrlen (desc2_bytes d.dev_desc2))) (λ _. pure tt) _ tt
      (descriptor_exchange box.devdescrlen d m ∷ []) []
      (checked_command-Talks (take box.devdescrlen (desc2_bytes d.dev_desc2)) m) (pure-Talks tt)

config_daisy_chain-Talks : (box : Box) → IsAlone box → Talks (config_daisy_chain box.dchain) tt []
unfolding config_daisy_chain
config_daisy_chain-Talks box alone = simp alone.chain (pure-Talks tt)

demand_device-Talks :
    (definitions : List DeviceDef) (box : Box) (d : DeviceDef) (id : ℕ)
    → IsAlone box
    → device_by_id definitions id ≡ some d
    → Talks (demand_device (wanted_device definitions box.device_name id)) d []
demand_device-Talks definitions box d id alone found =
    simp alone.unnamed (simp found (pure-Talks d))

-- When the box reports an id whose part number the table has, and accepts a description,
-- `deviceAutoConfig` takes the first device with this number, and says exactly two commands: the query
-- for the id, and as much of this device's description as the firmware knows.
pub device_auto_config-Talks :
    (definitions : List DeviceDef) (box : Box) (d : DeviceDef) (seqno b1 b2 b3 b4 : ℕ) (m : Message)
    → IsAlone box
    → device_by_id definitions (part_number b1 b2 b3 b4) ≡ some d
    → Talks
        (device_auto_config definitions box)
        (configured d box)
        (id_exchange seqno b1 b2 b3 b4 ∷ descriptor_exchange box.devdescrlen d m ∷ [])
unfolding device_auto_config
device_auto_config-Talks definitions box d seqno b1 b2 b3 b4 m alone found =
    >>=-Talks (config_daisy_chain box.dchain) _ tt (configured d box) [] _
      (config_daisy_chain-Talks box alone)
      (>>=-Talks (read_device_id box) _ (part_number b1 b2 b3 b4) (configured d box)
        (id_exchange seqno b1 b2 b3 b4 ∷ []) _
        (read_device_id-Talks box seqno b1 b2 b3 b4 alone.jtag)
        (>>=-Talks
          (demand_device (wanted_device definitions box.device_name (part_number b1 b2 b3 b4))) _ d
          (configured d box) [] _
          (demand_device-Talks definitions box d (part_number b1 b2 b3 b4) alone found)
          (>>=-Talks (set_device_descriptor d (configured d box)) _ tt (configured d box)
            (descriptor_exchange box.devdescrlen d m ∷ []) []
            (set_device_descriptor-Talks d (configured d box) m) (pure-Talks (configured d box)))))
