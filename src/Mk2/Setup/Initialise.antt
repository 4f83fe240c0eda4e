-- ===== src/Mk2/Setup/Initialise.antt =====
-- src/jtag2io.cc, `initJtagBox`: the whole dialogue that sets up the mkII.
use jtag_js.Base.{
  ℕ, ◌-◌, ◌*◌, ◌^◌, not, ◌&&◌, ltb, ◌≡◌, refl, Bool, true, false, Option, none, some, List, [], ◌∷◌,
  ◌++◌, Bytes, arith, Bool-cases, inl, inr, if◌then◌else◌,
}
use jtag_js.Port.{Link, Event, returned, ◌>>◌, pure}
use jtag_js.Mk2.Command.{Response, do_jtag_command, set_jtag_parameter}
use jtag_js.Mk2.Command.Replies.{Message}
use jtag_js.Mk2.Command.Dialogue.{
  Exchange, answers, Answered, Said, Talks, pure-Talks, do_jtag_command-Talks, >>=-Talks,
}
use jtag_js.Mk2.Breakpoints.{delete_all_breakpoints}
use jtag_js.Mk2.Breakpoints.Table.{Breakpoint}
use jtag_js.Mk2.Run.{interrupt_program}
use jtag_js.Devices.{DeviceDef}
use jtag_js.Devices.Lookup.{device_by_id, device_by_name}
use jtag_js.Mk2.Setup.{
  Box, signed_on, firmware, or_junk, par_baud, change_bit_rate, change_local_bit_rate,
  start_jtag_link, name_overrides, device_auto_config, init_jtag_box,
}
use jtag_js.Mk2.Setup.SignOn.{
  IsSignOn, response_of, sign_on, parameter, set_up, at_rate, signed_in_box,
  set_jtag_parameter-Talks, change_local_bit_rate-Talks, start_jtag_link-Talks,
}
use jtag_js.Mk2.Setup.Detect.{
  IsAlone, part_number, configured, id_exchange, descriptor_exchange, device_auto_config-Talks,
}

-- The bit rate of a serial line is raised; that of USB is left alone.
abbrev pub raise : Bool → Message → List Exchange
raise usb m = if usb then [] else parameter 0x05 (0x07 ∷ []) m ∷ []

change_bit_rate-Talks :
    (box : Box) (m : Message)
    → Talks (change_bit_rate 115200 box) (at_rate 115200 box) (raise box.is_usb m)
unfolding change_bit_rate
change_bit_rate-Talks box m = elim (Bool-cases box.is_usb) [
  | inl usb ↦ simp usb (pure-Talks box)
  | inr serial ↦ simp serial (
      >>=-Talks (or_junk (par_baud 115200))
        (λ jtagrate. set_jtag_parameter 0x05 (jtagrate ∷ []) >> change_local_bit_rate 115200 box)
        0x07 (record box { is_usb = false; bit_rate = 115200 }) []
        (parameter 0x05 (0x07 ∷ []) m ∷ []) (pure-Talks 0x07)
        (>>=-Talks (set_jtag_parameter 0x05 (0x07 ∷ [])) (λ _. change_local_bit_rate 115200 box) tt
          (record box { is_usb = false; bit_rate = 115200 }) (parameter 0x05 (0x07 ∷ []) m ∷ []) []
          (set_jtag_parameter-Talks 0x05 (0x07 ∷ []) m (omega arith))
          (simp serial at (change_local_bit_rate-Talks 115200 box refl))))
]

abbrev pub stop : Message → Exchange
stop m = record { command = 0x0a ∷ 0x01 ∷ []; answer = m }

interrupt_program-Talks : (m : Message) → Talks interrupt_program true (stop m ∷ [])
unfolding interrupt_program
interrupt_program-Talks m =
    >>=-Talks (do_jtag_command (0x0a ∷ 0x01 ∷ []) true) (λ r. pure r.0) (true, response_of m) true
      (stop m ∷ []) [] (do_jtag_command-Talks (0x0a ∷ 0x01 ∷ []) m) (pure-Talks true)

if-IsAlone : (b : Bool) (x y : Box) → IsAlone x → IsAlone y → IsAlone (if b then x else y)
if-IsAlone true x y p q = p
if-IsAlone false x y p q = q

at_rate-IsAlone : (rate : ℕ) (box : Box) → IsAlone box → IsAlone (at_rate rate box)
at_rate-IsAlone rate box alone =
    if-IsAlone box.is_usb box (record box { bit_rate = rate }) alone
      (record { jtag = alone.jtag; unnamed = alone.unnamed; chain = alone.chain })

signed_on-IsAlone : (r : Response) (box : Box) → IsAlone box → IsAlone (signed_on r box)
signed_on-IsAlone r box alone =
    if-IsAlone (not box.is_dragon && ltb (firmware r) (4 * 2 ^ 8))
      (record box { devdescrlen = box.devdescrlen - 2 }) box
      (record { jtag = alone.jtag; unnamed = alone.unnamed; chain = alone.chain }) alone

signed_in_box-IsAlone : (m : Message) (box : Box) → IsAlone box → IsAlone (signed_in_box m box)
signed_in_box-IsAlone m box alone =
    let on =
      signed_on-IsAlone (response_of m) (at_rate 19200 box) (at_rate-IsAlone 19200 box alone) in
    record { jtag = on.jtag; unnamed = on.unnamed; chain = on.chain }

-- The box when all is set up but for its device.
abbrev pub linked : Message → Box → Box
linked m box = at_rate 115200 (signed_in_box m box)

-- The answers of the box, in their order: to the requests to sign on, to use the reset line, to set
-- the mode, to raise the bit rate and to stop; the id, and the answer to the description.
pub record Answers : Type 0 where
  pub signs_on : Message
  pub resets_line : Message
  pub sets_mode : Message
  pub raises : Message
  pub stops : Message
  pub id_seqno : ℕ
  pub id_bytes : ℕ × ℕ × ℕ × ℕ
  pub describes : Message

abbrev pub id_of : Answers → ℕ
id_of a = part_number a.id_bytes.0 a.id_bytes.1 a.id_bytes.2 a.id_bytes.3

-- What is said to set up a box, with the answers.
abbrev pub dialogue : Box → DeviceDef → Answers → List Exchange
dialogue box d a =
    (sign_on a.signs_on
      ∷ set_up (signed_on (response_of a.signs_on) (at_rate 19200 box)) a.resets_line a.sets_mode)
    ++ (raise (signed_in_box a.signs_on box).is_usb a.raises
        ++ (stop a.stops
            ∷ id_exchange a.id_seqno a.id_bytes.0 a.id_bytes.1 a.id_bytes.2 a.id_bytes.3
            ∷ descriptor_exchange (linked a.signs_on box).devdescrlen d a.describes
            ∷ []))

name_overrides_lem :
    (definitions : List DeviceDef) (box : Box) → IsAlone box → name_overrides definitions box ≡ box
name_overrides_lem definitions box alone = at_name box.device_name alone.unnamed
  where
    at_name :
        (name : Option Bytes)
        → name ≡ none
        → elim name [
          | none ↦ box
          | some n ↦ elim (device_by_name definitions n) [
            | none ↦ box
            | some d ↦ record box { is_xmega = d.is_xmega }
          ]
        ]
          ≡ box
    at_name none e = refl
    at_name (some n) e = cc

init_jtag_box-Talks :
    (definitions : List DeviceDef) (box : Box) (bp : List Breakpoint) (d : DeviceDef) (a : Answers)
    → IsAlone box
    → IsSignOn a.signs_on
    → device_by_id definitions (id_of a) ≡ some d
    → Talks
        (init_jtag_box definitions box bp)
        (configured d (linked a.signs_on box), delete_all_breakpoints bp)
        (dialogue box d a)
unfolding init_jtag_box
init_jtag_box-Talks definitions box bp d a alone s found =
    let result : Box × List Breakpoint =
      (configured d (linked a.signs_on box), delete_all_breakpoints bp) in
    let on = signed_in_box-IsAlone a.signs_on box alone in
    rw (name_overrides_lem definitions box alone) (
      >>=-Talks (start_jtag_link box) _ (signed_in_box a.signs_on box) result
        (sign_on a.signs_on
          ∷ set_up (signed_on (response_of a.signs_on) (at_rate 19200 box)) a.resets_line
              a.sets_mode)
        _ (start_jtag_link-Talks box a.signs_on a.resets_line a.sets_mode s)
        (>>=-Talks (change_bit_rate 115200 (signed_in_box a.signs_on box)) _ (linked a.signs_on box)
          result (raise (signed_in_box a.signs_on box).is_usb a.raises) _
          (change_bit_rate-Talks (signed_in_box a.signs_on box) a.raises)
          (>>=-Talks interrupt_program _ true result (stop a.stops ∷ []) _
            (interrupt_program-Talks a.stops)
            (>>=-Talks (device_auto_config definitions (linked a.signs_on box)) _
              (configured d (linked a.signs_on box)) result
              (id_exchange a.id_seqno a.id_bytes.0 a.id_bytes.1 a.id_bytes.2 a.id_bytes.3
                ∷ descriptor_exchange (linked a.signs_on box).devdescrlen d a.describes
                ∷ [])
              []
              (device_auto_config-Talks definitions (linked a.signs_on box) d a.id_seqno
                a.id_bytes.0 a.id_bytes.1 a.id_bytes.2 a.id_bytes.3 a.describes
                (at_rate-IsAlone 115200 (signed_in_box a.signs_on box) on) found)
              (pure-Talks result)))))

-- When the line holds positive answers to all commands and takes all writes, the first answer signs
-- on, and the table has a device for the id that is told, the mkII is set up by exactly this
-- dialogue, in this order: it signs on, is given its mode and, unless it is on USB, the bit rate, is
-- stopped, and tells its id; then the first device of the table with this id is described to it.
-- That device is the one that the program works with, and all breakpoints are deleted.
-- The device must be alone on its chain, use JTAG, and not have been named.
pub init_jtag_box-dialogue :
    (definitions : List DeviceDef) (box : Box) (bp : List Breakpoint) (d : DeviceDef) (a : Answers)
    (l : Link) (rest : List Event)
    → IsAlone box
    → IsSignOn a.signs_on
    → device_by_id definitions (id_of a) ≡ some d
    → l.input ≡ answers (dialogue box d a) ++ rest
    → l.writes ≡ []
    → Answered l (dialogue box d a)
    → (l' : Link) × (init_jtag_box definitions box bp l
        ≡ returned (configured d (linked a.signs_on box), delete_all_breakpoints bp) l')
      × Said l l' (dialogue box d a) rest
init_jtag_box-dialogue definitions box bp d a l rest alone s found =
    init_jtag_box-Talks definitions box bp d a alone s found l rest
