-- ===== src/Mk2/Setup/SignOn.antt =====
-- src/jtag2io.cc, `synchroniseAt` and `startJtagLink`, against a box that signs on.
use jtag_js.Base.{
  ℕ, ◌≡◌, ◌<◌, ◌≤◌, refl, sym, ap, subst, ◌∙◌, arith, Bool, true, false, some, List, [], ◌∷◌, ◌++◌,
  append_assoc, append-nil, length, get_or, lt→ltb, le→leb, ==_iff, if◌then◌else◌, Bool-cases, inl,
  inr, Bytes,
}
use jtag_js.Port.{Link, returned, ◌>>=◌, pure, set_port_rate}
use jtag_js.Mk2.Frame.{frame_bytes}
use jtag_js.Mk2.Command.{
  Response, rsp_ok, rsp_failed, classify, send_jtag_command, set_jtag_parameter, checked_command,
}
use jtag_js.Mk2.Command.Replies.{Message, events_of, recv_finds, is_positive_size}
use jtag_js.Mk2.Command.Attempts.{send_lem}
use jtag_js.Mk2.Command.Answers.{IsPositive}
use jtag_js.Mk2.Command.Dialogue.{Exchange, Talks, pure-Talks, checked_command-Talks, >>=-Talks}
use jtag_js.Mk2.Setup.{
  Box, rsp_sign_on, signed_on, sync_rounds, synchronise_at, change_local_bit_rate, is_bit_rate,
  after_sign_on, emulator_mode, start_jtag_link, try_rates, max_jtag_sync_attemps,
}

abbrev pub response_of : Message → Response
response_of m = record { size = length m.payload; msg = some m.payload }

-- The message with which the box signs on: its code, and more than 17 bytes.
pub record IsSignOn (m : Message) : Type 0 where
  pub code : get_or m.payload 0 0 ≡ rsp_sign_on
  pub long : 17 < length m.payload

abbrev pub sign_on : Message → Exchange
sign_on m = record { command = 0x01 ∷ []; answer = m }

positive_lem :
    (m : Message) (l : Link)
    → IsPositive m l
    → classify 1 (response_of m) ≡ record { positive = true; tries = 1; response = response_of m }
unfolding classify
positive_lem m l p =
    rw
      (
        is_positive_size m p.valid,
        le→leb rsp_ok (get_or m.payload 0 0) p.from_ok,
        lt→ltb (get_or m.payload 0 0) rsp_failed p.below_failed,
      )
      refl

pub send-Talks :
    (command : Bytes) (m : Message)
    → Talks
        (send_jtag_command command 0 false)
        (record { positive = true; tries = 1; response = response_of m })
        (record { command = command; answer = m } ∷ [])
send-Talks command m l rest e w (p, _) =
    let sent = record l {
      output = l.output ++ frame_bytes l.command_sequence command;
      writes = [];
    } in
    let (l', found, input, sequence, output, writes) =
      recv_finds [] m sent rest tt p.valid p.current in
    (
      l',
      subst
          (λ x.
            send_jtag_command command 0 false x
            ≡ returned (record { positive = true; tries = 1; response = response_of m }) l')
          (sym (λ i. record l { input = (e ∙ append_assoc (events_of m) [] rest) i; writes = w i }))
          (send_lem command 0 (record l { input = events_of m ++ rest }) (omega arith)
            ∙ rw (found, ◌>>=◌) (ap (λ s. returned s l') (positive_lem m l p))),
      record {
        input = input;
        output =
            output
            ∙ ap (λ t. l.output ++ t) (sym (append-nil (frame_bytes l.command_sequence command)));
        sequence = sequence;
        writes = writes;
      },
    )

sync_rounds-Talks :
    (m : Message) (box : Box)
    → IsSignOn m
    → Talks
        (sync_rounds max_jtag_sync_attemps box)
        (true, signed_on (response_of m) box)
        (sign_on m ∷ [])
unfolding sync_rounds
sync_rounds-Talks m box s =
    >>=-Talks (send_jtag_command (0x01 ∷ []) 0 false) _ _ (true, signed_on (response_of m) box)
      (sign_on m ∷ []) [] (send-Talks (0x01 ∷ []) m)
      (rw
        ((==_iff (get_or m.payload 0 0) rsp_sign_on).1 s.code, lt→ltb 17 (length m.payload) s.long)
        (pure-Talks (true, signed_on (response_of m) box)))

abbrev pub parameter : ℕ → Bytes → Message → Exchange
parameter item value m = record { command = 0x02 ∷ item ∷ value; answer = m }

pub set_jtag_parameter-Talks :
    (item : ℕ) (value : Bytes) (m : Message)
    → length value ≤ 4
    → Talks (set_jtag_parameter item value) tt (parameter item value m ∷ [])
unfolding set_jtag_parameter
set_jtag_parameter-Talks item value m small = rw (le→leb (length value) 4 small) (
    >>=-Talks (checked_command (0x02 ∷ item ∷ value)) _ (response_of m) tt
      (parameter item value m ∷ []) [] (checked_command-Talks (0x02 ∷ item ∷ value) m)
      (pure-Talks tt))

set_port_rate-Talks : (rate : ℕ) → Talks (set_port_rate rate) tt []
set_port_rate-Talks rate l rest e w h = (
  record l { port_rates = l.port_rates ++ (length l.output, rate) ∷ [] },
  refl,
  record { input = e; output = sym (append-nil l.output); sequence = refl; writes = w },
)

abbrev pub at_rate : ℕ → Box → Box
at_rate rate box = if box.is_usb then box else record box { bit_rate = rate }

pub change_local_bit_rate-Talks :
    (rate : ℕ) (box : Box)
    → is_bit_rate rate ≡ true
    → Talks (change_local_bit_rate rate box) (at_rate rate box) []
unfolding change_local_bit_rate
change_local_bit_rate-Talks rate box known = elim (Bool-cases box.is_usb) [
  | inl usb ↦ simp usb (pure-Talks box)
  | inr serial ↦ simp serial (
      rw known (
        >>=-Talks (set_port_rate rate) (λ _. pure (record box { is_usb = false; bit_rate = rate }))
          tt (record box { is_usb = false; bit_rate = rate }) [] [] (set_port_rate-Talks rate)
          (pure-Talks (record box { is_usb = false; bit_rate = rate }))))
]

-- With the option, the reset line is enabled first.
abbrev pub resets : Bool → Message → List Exchange
resets nsrst m = if nsrst then parameter 0x13 (0x01 ∷ []) m ∷ [] else []

abbrev pub set_up : Box → Message → Message → List Exchange
set_up box m m' = resets box.apply_nsrst m ++ (parameter 0x03 (emulator_mode box ∷ []) m' ∷ [])

enable_reset-Talks :
    (nsrst : Bool) (m : Message)
    → Talks (if nsrst then set_jtag_parameter 0x13 (0x01 ∷ []) else pure tt) tt (resets nsrst m)
enable_reset-Talks true m = set_jtag_parameter-Talks 0x13 (0x01 ∷ []) m (omega arith)
enable_reset-Talks false m = pure-Talks tt

after_sign_on-Talks :
    (box : Box) (m m' : Message)
    → Talks (after_sign_on box) (record box { signed_in = true }) (set_up box m m')
after_sign_on-Talks box m m' =
    >>=-Talks (if box.apply_nsrst then set_jtag_parameter 0x13 (0x01 ∷ []) else pure tt) _ tt
      (record box { signed_in = true }) (resets box.apply_nsrst m) _
      (enable_reset-Talks box.apply_nsrst m)
      (>>=-Talks (set_jtag_parameter 0x03 (emulator_mode box ∷ [])) _ tt
        (record box { signed_in = true }) (parameter 0x03 (emulator_mode box ∷ []) m' ∷ []) []
        (set_jtag_parameter-Talks 0x03 (emulator_mode box ∷ []) m' (omega arith))
        (pure-Talks (record box { signed_in = true })))

-- The box behind a sign-on at the first bit rate.
abbrev pub signed_in_box : Message → Box → Box
signed_in_box m box = record (signed_on (response_of m) (at_rate 19200 box)) { signed_in = true }

-- When the box answers the first request to sign on, `startJtagLink` stays at 19200 baud, asks once,
-- sets the parameters for the reset line, if it is used, and for the mode of the emulator, and
-- shortens the device description by two bytes for a mkII whose firmware is older than 4.0.
pub start_jtag_link-Talks :
    (box : Box) (m m' m'' : Message)
    → IsSignOn m
    → Talks
        (start_jtag_link box)
        (signed_in_box m box)
        (sign_on m ∷ set_up (signed_on (response_of m) (at_rate 19200 box)) m' m'')
unfolding start_jtag_link try_rates synchronise_at
start_jtag_link-Talks box m m' m'' s =
    let on = signed_on (response_of m) (at_rate 19200 box) in
    >>=-Talks (synchronise_at 19200 box) _ (true, on) (record on { signed_in = true })
      (sign_on m ∷ []) (set_up on m' m'')
      (>>=-Talks (change_local_bit_rate 19200 box) _ (at_rate 19200 box) (true, on) []
        (sign_on m ∷ []) (change_local_bit_rate-Talks 19200 box refl)
        (sync_rounds-Talks m (at_rate 19200 box) s))
      (after_sign_on-Talks on m' m'')
