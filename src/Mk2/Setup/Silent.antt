-- ===== src/Mk2/Setup/Silent.antt =====
-- src/jtag2io.cc, `startJtagLink` against a box that does not answer.
use jtag_js.Base.{
  ℕ, zero, suc, ◌+◌, ◌-◌, ◌*◌, ◌≤◌, ◌≡◌, refl, ap, ap₂, ◌∙◌, arith, true, false, List, [], ◌∷◌,
  ◌++◌, append_assoc, append-nil, All, length, length-append, Bytes,
}
use jtag_js.Port.{Link, returned, thrown, ◌>>=◌}
use jtag_js.Mk2.Frame.{frame_bytes}
use jtag_js.Mk2.Command.{classify}
use jtag_js.Mk2.Command.Silence.{told, send_silent, copies}
use jtag_js.Mk2.Setup.{
  Box, max_jtag_sync_attemps, change_local_bit_rate, is_bit_rate, sync_rounds, synchronise_at,
  try_rates, bitrates, start_jtag_link,
}

-- A line on which nothing comes, behind k sign-on frames.
abbrev signing : ℕ → Link → Bytes → Link
signing k l told_daemon = record l {
  input = [];
  writes = [];
  output = l.output ++ copies k (frame_bytes l.command_sequence (0x01 ∷ []));
  ctrl_output = told_daemon;
}

sync_rounds_silent :
    (k : ℕ) (box : Box) (l : Link)
    → k ≤ max_jtag_sync_attemps
    → (c : Bytes) × (sync_rounds k box (record l { input = []; writes = [] })
        ≡ returned (false, box) (signing k l c))
unfolding sync_rounds classify
sync_rounds_silent zero box l h = (l.ctrl_output, rw append-nil refl)
sync_rounds_silent (suc k) box l h =
    let sent = record l {
      output = l.output ++ frame_bytes l.command_sequence (0x01 ∷ []);
      ctrl_output = told b'r' l;
    } in
    let (c, ended) = sync_rounds_silent k box sent (omega arith) in
    (
      c,
      rw (send_silent (0x01 ∷ []) (max_jtag_sync_attemps - suc k) l (omega arith), ◌>>=◌)
          (ended
            ∙ ap
                (λ t.
                  returned (false, box)
                    (record l { input = []; writes = []; output = t; ctrl_output = c }))
                (append_assoc l.output (frame_bytes l.command_sequence (0x01 ∷ []))
                  (copies k (frame_bytes l.command_sequence (0x01 ∷ []))))),
    )

-- The port is set to a bit rate.
abbrev pub at_port_rate : ℕ → Link → Link
at_port_rate rate l = record l { port_rates = l.port_rates ++ (length l.output, rate) ∷ [] }

-- A local port that is a serial line takes each of the bit rates.
change_local_bit_rate_lem :
    (rate : ℕ) (box : Box) (l : Link)
    → box.is_usb ≡ false
    → is_bit_rate rate ≡ true
    → change_local_bit_rate rate box l
      ≡ returned (record box { bit_rate = rate }) (at_port_rate rate l)
unfolding change_local_bit_rate
change_local_bit_rate_lem rate box l serial known = rw (serial, known) refl

-- The bit rates, the first behind some bytes, and the others each behind a step more.
abbrev pub schedule : ℕ → ℕ → List ℕ → List (ℕ × ℕ)
schedule step from [] = []
schedule step from (rate ∷ rates) = (from, rate) ∷ schedule step (from + step) rates

pub copies-append : (j k : ℕ) (f : Bytes) → copies j f ++ copies k f ≡ copies (j + k) f
copies-append zero k f = ap (λ n. copies n f) (omega arith)
copies-append (suc j) k f =
    append_assoc f (copies j f) (copies k f)
    ∙ ap (λ t. f ++ t) (copies-append j k f)
    ∙ ap (λ n. copies n f) (plus-suc j k)
  where
    plus-suc : (m n : ℕ) → suc (m + n) ≡ suc m + n
    plus-suc m n = omega arith

pub length-copies : (k : ℕ) (out f : Bytes) → length (out ++ copies k f) ≡ length out + k * length f
length-copies k out f = length-append out (copies k f) ∙ ap (λ n. length out + n) (all k)
  where
    all : (k : ℕ) → length (copies k f) ≡ k * length f
    all zero = omega arith
    all (suc k) =
        length-append f (copies k f) ∙ ap (λ n. length f + n) (all k) ∙ once_more k (length f)
      where
        once_more : (k n : ℕ) → n + k * n ≡ suc k * n
        once_more k n = omega arith

-- What is written and what the port was set to, one bit rate after the other.
pub schedule_further :
    (k : ℕ) (old : List (ℕ × ℕ)) (rate : ℕ) (out f : Bytes) (rates : List ℕ)
    → (old ++ (length out, rate) ∷ []) ++ schedule (k * length f) (length (out ++ copies k f)) rates
      ≡ old ++ schedule (k * length f) (length out) (rate ∷ rates)
schedule_further k old rate out f rates =
    append_assoc old ((length out, rate) ∷ []) _
    ∙ ap (λ n. old ++ (length out, rate) ∷ schedule (k * length f) n rates) (length-copies k out f)

pub copies_further :
    (k n : ℕ) (out f : Bytes)
    → (out ++ copies k f) ++ copies (k * n) f ≡ out ++ copies (k * suc n) f
copies_further k n out f =
    append_assoc out (copies k f) (copies (k * n) f)
    ∙ ap (λ t. out ++ t) (copies-append k (k * n) f)
    ∙ ap (λ m. out ++ copies m f) (more k n)
  where
    more : (k n : ℕ) → k + k * n ≡ k * suc n
    more k n = omega arith

try_rates_silent :
    (rates : List ℕ) (box : Box) (l : Link)
    → box.is_usb ≡ false
    → All (λ rate. is_bit_rate rate ≡ true) rates
    → (c : Bytes) × (try_rates rates box (record l { input = []; writes = [] })
        ≡ thrown (record (signing (max_jtag_sync_attemps * length rates) l c) {
          port_rates =
              l.port_rates
              ++ schedule
                  (max_jtag_sync_attemps * length (frame_bytes l.command_sequence (0x01 ∷ [])))
                  (length l.output)
                  rates;
        }))
unfolding try_rates synchronise_at
try_rates_silent [] box l serial h = (l.ctrl_output, rw (append-nil, append-nil) refl)
try_rates_silent (rate ∷ rates) box l serial (known, h) =
    let f = frame_bytes l.command_sequence (0x01 ∷ []) in
    let (c, tried) =
      sync_rounds_silent max_jtag_sync_attemps (record box { bit_rate = rate })
        (at_port_rate rate l) (omega arith) in
    let (c', ended) =
      try_rates_silent rates (record box { bit_rate = rate })
        (signing max_jtag_sync_attemps (at_port_rate rate l) c) serial h in
    (
      c',
      rw
          (
            change_local_bit_rate_lem rate box (record l { input = []; writes = [] }) serial known,
            ◌>>=◌,
          )
          (rw (tried, ◌>>=◌)
            (ended
              ∙ ap₂
                  (λ t r. thrown (record l {
                    input = [];
                    writes = [];
                    output = t;
                    ctrl_output = c';
                    port_rates = r;
                  }))
                  (copies_further max_jtag_sync_attemps (length rates) l.output f)
                  (schedule_further max_jtag_sync_attemps l.port_rates rate l.output f rates))),
    )

-- On a serial line, when the box stays silent and takes all writes, `startJtagLink` sets the port to the
-- bit rates 19200, 115200, 57600, 38400 and 9600 one after the other, asks the box to sign on three times
-- at each of them, with one and the same frame, and then throws.
pub start_jtag_link_silent :
    (box : Box) (l : Link)
    → box.is_usb ≡ false
    → (c : Bytes) × (start_jtag_link box (record l { input = []; writes = [] })
        ≡ thrown (record l {
          input = [];
          writes = [];
          output = l.output ++ copies 15 (frame_bytes l.command_sequence (0x01 ∷ []));
          ctrl_output = c;
          port_rates =
              l.port_rates
              ++ schedule
                  (3 * length (frame_bytes l.command_sequence (0x01 ∷ [])))
                  (length l.output)
                  (19200 ∷ 115200 ∷ 57600 ∷ 38400 ∷ 9600 ∷ []);
        }))
unfolding start_jtag_link
start_jtag_link_silent box l serial =
    try_rates_silent bitrates box l serial (refl, (refl, (refl, (refl, (refl, tt)))))
