-- ===== src/Mk1/Setup/Silent.antt =====
-- src/jtagio.cc, `startJtagLink` of the mkI against a box that does not answer.
use jtag_js.Base.{
  ℕ, zero, suc, ◌-◌, ◌*◌, ◌≤◌, ◌<◌, ◌≡◌, refl, ap, ap₂, ◌∙◌, arith, true, false, List, [], ◌∷◌,
  ◌++◌, append_assoc, append-nil, All, length, lt→ltb, codes, Bytes,
}
use jtag_js.Port.{Link, returned, thrown, ◌>>=◌, ◌>>◌, safewrite, timeout_read}
use jtag_js.Port.Writes.{write_all-nil}
use jtag_js.Mk2.Command.Silence.{copies}
use jtag_js.Mk2.Setup.{is_bit_rate}
use jtag_js.Mk2.Setup.Silent.{at_port_rate, schedule, copies_further, schedule_further}
use jtag_js.Mk1.Io.{max_attempts, eom, send_failed, send_jtag_command}
use jtag_js.Mk1.Setup.{
  Box, max_jtag_sync_attemps, change_local_bit_rate, check_for_emulator, sync_rounds,
  synchronise_at, try_rates, bitrates, start_jtag_link,
}

-- A line on which nothing comes, and what has been written.
abbrev silent : Bytes → Link → Link
silent out l = record l { input = []; writes = []; output = out }

send_silent :
    (command : Bytes) (tries : ℕ) (out : Bytes) (l : Link)
    → tries < max_attempts
    → send_jtag_command command tries (silent out l)
      ≡ returned send_failed (silent (out ++ command) l)
unfolding send_jtag_command safewrite timeout_read jtag_js.Port.read_bytes
send_silent command tries out l h =
    rw (lt→ltb tries max_attempts h, ◌>>=◌) (rw (safewrite, write_all-nil command) refl)

-- What one round of the synchronisation says.
abbrev pub signing : Bytes
signing = codes "SE  S  "

round_silent :
    (k : ℕ) (out : Bytes) (l : Link)
    → suc k ≤ max_jtag_sync_attemps
    → sync_rounds (suc k) (silent out l) ≡ sync_rounds k (silent (out ++ signing) l)
unfolding sync_rounds check_for_emulator
round_silent k out l h =
    rw (send_silent (codes "SE  ") (max_jtag_sync_attemps - suc k) out l (omega arith), ◌>>=◌)
      (rw (send_silent (b'S' ∷ eom) 0 (out ++ codes "SE  ") l (omega arith), ◌>>=◌)
        (ap (λ o. sync_rounds k (silent o l)) (append_assoc out (codes "SE  ") (b'S' ∷ eom))))

sync_rounds-silent :
    (k : ℕ) (out : Bytes) (l : Link)
    → k ≤ max_jtag_sync_attemps
    → sync_rounds k (silent out l) ≡ returned false (silent (out ++ copies k signing) l)
unfolding sync_rounds
sync_rounds-silent zero out l h = rw append-nil refl
sync_rounds-silent (suc k) out l h =
    round_silent k out l h
    ∙ sync_rounds-silent k (out ++ signing) l (omega arith)
    ∙ ap (λ o. returned false (silent o l)) (append_assoc out signing (copies k signing))

change_local_bit_rate_lem :
    (rate : ℕ) (box : Box) (l : Link)
    → box.is_usb ≡ false
    → is_bit_rate rate ≡ true
    → change_local_bit_rate rate box l
      ≡ returned (record box { bit_rate = rate }) (at_port_rate rate l)
unfolding change_local_bit_rate
change_local_bit_rate_lem rate box l serial known = rw (serial, known) refl

try_rates-silent :
    (rates : List ℕ) (box : Box) (l : Link)
    → box.is_usb ≡ false
    → All (λ rate. is_bit_rate rate ≡ true) rates
    → try_rates rates box (silent l.output l)
      ≡ thrown (record l {
        input = [];
        writes = [];
        output = l.output ++ copies (max_jtag_sync_attemps * length rates) signing;
        port_rates =
            l.port_rates
            ++ schedule (max_jtag_sync_attemps * length signing) (length l.output) rates;
      })
unfolding try_rates synchronise_at
try_rates-silent [] box l serial h = rw (append-nil, append-nil) refl
try_rates-silent (rate ∷ rates) box l serial (known, h) =
    let l' = at_port_rate rate l in
    rw (change_local_bit_rate_lem rate box (silent l.output l) serial known, ◌>>=◌)
      (rw (sync_rounds-silent max_jtag_sync_attemps l.output l' (omega arith), ◌>>=◌)
        (try_rates-silent rates (record box { bit_rate = rate })
            (silent (l.output ++ copies max_jtag_sync_attemps signing) l') serial h
          ∙ ap₂ (λ t r. thrown (record l { input = []; writes = []; output = t; port_rates = r }))
              (copies_further max_jtag_sync_attemps (length rates) l.output signing)
              (schedule_further max_jtag_sync_attemps l.port_rates rate l.output signing rates)))

-- On a serial line, when the box stays silent and takes all writes, `startJtagLink` of the mkI sets the
-- port to the bit rates 115200, 19200, 57600, 38400 and 9600 one after the other, tries three times at
-- each of them to leave its internal mode and to sign on, by seven bytes, and then throws.
pub start_jtag_link-signing :
    (box : Box) (l : Link)
    → box.is_usb ≡ false
    → start_jtag_link box (record l { input = []; writes = [] })
      ≡ thrown (record l {
        input = [];
        writes = [];
        output = l.output ++ copies 15 signing;
        port_rates =
            l.port_rates
            ++ schedule (3 * 7) (length l.output) (115200 ∷ 19200 ∷ 57600 ∷ 38400 ∷ 9600 ∷ []);
      })
unfolding start_jtag_link
start_jtag_link-signing box l serial =
    try_rates-silent bitrates box l serial (refl, (refl, (refl, (refl, (refl, tt)))))
