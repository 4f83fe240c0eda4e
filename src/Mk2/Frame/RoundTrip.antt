-- ===== src/Mk2/Frame/RoundTrip.antt =====
-- What `sendFrame` puts on the line, `recvFrame` takes off it, behind any noise.
mod Stages
use jtag_js.Base.{
  ℕ, suc, ◌+◌, ◌-◌, ◌*◌, ◌/◌, ◌%◌, ◌^◌, ◌≤◌, ◌<◌, ◌≡◌, ◌≢◌, refl, ap, subst, ◌∙◌, arith, true,
  false, some, List, [], ◌∷◌, ◌++◌, map, append_assoc, length, length-append, length-drop,
  length-map, set, take, drop, replicate, ==_false, le→ltb, ap₂, inl, inr, Bool-cases, All, Bytes,
}
use mathlib.Core.List.{map-append}
use jtag_js.Crc.{crcsum, crc_init, crcappend, crcverify}
use jtag_js.Crc.RoundTrip.{crcverify-crcappend}
use jtag_js.Encoding.{u16_to_b2, u32_to_b4}
use jtag_js.Port.{
  Link, Event, byte, returned, new_buffer, read_bytes, timeout_read, signal_daemon, ◌>>=◌,
}
use jtag_js.Port.Reads.{read_bytes-map, length-new_buffer}
use jtag_js.Mk2.Frame.Progress.{signalled}
use jtag_js.Mk2.Frame.{
  s_data, s_csum1, Receiver, token, message_start, max_message, frame_bytes, receive, on_byte,
  on_payload, take_payload, next_in, frame, recv_loop, recv_frame, fresh_receiver,
}
use jtag_js.Mk2.Frame.RoundTrip.Stages.{
  waiting, size_of, sized, on_line, skip_noise, read_header, filled, read_payload, read_checksum,
  set_two, header_of, set_behind,
}

-- The bytes of a frame: its header, its payload and two bytes of checksum.
abbrev pub header_bytes : ℕ → ℕ → Bytes
header_bytes seqno n =
    header_of (seqno % 256) (seqno / 2 ^ 8 % 256) (n % 256) (n / 2 ^ 8 % 256) (n / 2 ^ 16 % 256)
      (n / 2 ^ 24 % 256)

pub frame_form :
    (seqno : ℕ) (command : Bytes)
    → (lo : ℕ) × (hi : ℕ) × (frame_bytes seqno command
        ≡ (header_bytes seqno (length command) ++ command) ++ lo ∷ hi ∷ [])
unfolding frame_bytes crcappend u16_to_b2 u32_to_b4
frame_form seqno command = (
  total % 256,
  total / 256 % 256,
  set_two pre 0 0 (total % 256) (total / 256 % 256) (length command + 8) (omega arith),
)
  where
    pre : Bytes
    pre = header_bytes seqno (length command) ++ command

    total : ℕ
    total = crcsum (pre ++ 0 ∷ 0 ∷ []) (length command + 8) crc_init

-- The frame before its checksum is filled in.
abbrev blank_frame : ℕ → Bytes → Bytes
blank_frame seqno command = header_bytes seqno (length command) ++ (command ++ 0 ∷ 0 ∷ [])

frame_accepted :
    (seqno : ℕ) (command : Bytes)
    → crcverify (frame_bytes seqno command) (length command + 10) ≡ true
unfolding frame_bytes u16_to_b2 u32_to_b4
frame_accepted seqno command =
    ap (crcverify (frame_bytes seqno command)) (two_more (length command))
    ∙ crcverify-crcappend (blank_frame seqno command) (length command + 8)
        (omega (arith, length-append command (0 ∷ 0 ∷ [])))
  where
    two_more : (n : ℕ) → n + 10 ≡ n + 8 + 2
    two_more n = omega arith

skip-All :
    (noise : Bytes) (fuel x : ℕ) (l : Link) (es : List Event)
    → All (λ c. c ≢ message_start) noise
    → (x' : ℕ) × (recv_loop (length noise + fuel) (waiting x) (on_line l (map byte noise ++ es))
        ≡ recv_loop fuel (waiting x') (on_line l es))
skip-All [] fuel x l es h =
    (x, ap (λ (f : ℕ). recv_loop f (waiting x) (on_line l es)) (omega arith))
skip-All (c ∷ noise) fuel x l es (q, h) =
    let (x', later) = skip-All noise fuel c l es h in
    (
      x',
      ap (λ (f : ℕ). recv_loop f (waiting x) (on_line l (map byte (c ∷ noise) ++ es)))
            (further (length noise) fuel)
          ∙ skip_noise (length noise + fuel) x c l (map byte noise ++ es) q
          ∙ later,
    )
  where
    further : (m n : ℕ) → suc m + n ≡ suc (m + n)
    further m n = omega arith

-- A frame at the front of the line, with rounds to spare.
read_frame :
    (fuel x seqno : ℕ) (command : Bytes) (l : Link) (es : List Event)
    → 0 < length command
    → length command ≤ max_message
    → seqno < 65536
    → recv_loop
        (suc (suc (suc (suc (suc (suc (suc (suc (suc (suc (suc fuel)))))))))))
        (waiting x)
        (on_line l (map byte (frame_bytes seqno command) ++ es))
      ≡ returned (frame (some (frame_bytes seqno command)) (length command) seqno) (on_line l es)
read_frame fuel x seqno command l es some_payload fits seq =
    let n = length command in
    let (lo, hi, form) = frame_form seqno command in
    let accepted =
      subst (λ (t : Bytes). crcverify t (n + 10) ≡ true) form (frame_accepted seqno command) in
    let trailer = byte lo ∷ byte hi ∷ es in
    let sizes : size_of (n % 256) (n / 2 ^ 8 % 256) (n / 2 ^ 16 % 256) (n / 2 ^ 24 % 256) ≡ n =
      omega arith in
    let seqs : seqno % 256 + seqno / 2 ^ 8 % 256 * 2 ^ 8 ≡ seqno = omega arith in
    let header = header_bytes seqno n in
    let (x', y', filled_up) =
      read_payload (suc (suc fuel)) (seqno % 256) (seqno / 2 ^ 8 % 256) (n % 256) (n / 2 ^ 8 % 256)
        (n / 2 ^ 16 % 256) (n / 2 ^ 24 % 256) seqno l.junk l trailer command some_payload in
    rw form (
      ap
        (λ (t : List Event).
          recv_loop (suc (suc (suc (suc (suc (suc (suc (suc (suc (suc (suc fuel)))))))))))
            (waiting x) (on_line l (map byte header ++ t)))
        (line command lo hi)
      ∙ read_header (suc (suc (suc fuel))) x (seqno % 256) (seqno / 2 ^ 8 % 256) (n % 256)
          (n / 2 ^ 8 % 256) (n / 2 ^ 16 % 256) (n / 2 ^ 24 % 256) l (map byte command ++ trailer)
          (omega arith)
      ∙ ap₂
          (λ (m q : ℕ).
            recv_loop (suc (suc (suc fuel))) (sized l.junk header m q)
              (on_line l (map byte command ++ trailer)))
          sizes seqs
      ∙ filled_up
      ∙ read_checksum fuel x' y' lo hi (header ++ command) (sized l.junk header n seqno) l es
          (omega arith) accepted)
  where
    line :
        (payload : Bytes) (lo hi : ℕ)
        → map byte (payload ++ lo ∷ hi ∷ []) ++ es ≡ map byte payload ++ (byte lo ∷ byte hi ∷ es)
    line payload lo hi = simp (map-append, append_assoc)

read_line :
    (command noise : Bytes) (seqno : ℕ) (l : Link) (rest : List Event)
    → 0 < length command
    → length command ≤ max_message
    → seqno < 65536
    → All (λ c. c ≢ message_start) noise
    → let line = map byte noise ++ (map byte (frame_bytes seqno command) ++ rest) in
      recv_loop (length line + 1) fresh_receiver (on_line l line)
      ≡ returned (frame (some (frame_bytes seqno command)) (length command) seqno) (on_line l rest)
read_line command noise seqno l rest h fits seq quiet_noise =
    let sent = map byte (frame_bytes seqno command) ++ rest in
    let (lo, hi, form) = frame_form seqno command in
    let fuel = length sent - 10 in
    let (x, skipped) =
      skip-All noise (suc (suc (suc (suc (suc (suc (suc (suc (suc (suc (suc fuel))))))))))) 0 l sent
        quiet_noise in
    ap (λ (f : ℕ). recv_loop f fresh_receiver (on_line l (map byte noise ++ sent)))
      (omega (
        arith,
        length-append (map byte noise) sent,
        length-map byte noise,
        length-append (map byte (frame_bytes seqno command)) rest,
        length-map byte (frame_bytes seqno command),
        ap (λ (t : Bytes). length t) form,
        length-append command (lo ∷ hi ∷ []),
      ))
    ∙ skipped
    ∙ read_frame fuel x seqno command l rest h fits seq

-- Behind noise without a start byte, a frame that was sent with a payload of 1 to `max_message` bytes
-- is received whole: `recvFrame` returns the very bytes that `sendFrame` wrote, the length of the
-- payload and the sequence number, and leaves what follows on the line.
pub recv_frame-frame_bytes :
    (command noise : Bytes) (seqno : ℕ) (l : Link) (rest : List Event)
    → 0 < length command
    → length command ≤ max_message
    → seqno < 65536
    → All (λ c. c ≢ message_start) noise
    → recv_frame
        (record l { input = map byte noise ++ (map byte (frame_bytes seqno command) ++ rest) })
      ≡ returned
          (frame (some (frame_bytes seqno command)) (length command) seqno)
          (record (signalled l) { input = rest })
unfolding recv_frame signal_daemon
recv_frame-frame_bytes command noise seqno l rest h fits seq quiet_noise =
    elim (Bool-cases l.ctrl_pipe) [
      | inl e ↦ rw e (
          read_line command noise seqno
            (record l { ctrl_pipe = true; ctrl_output = l.ctrl_output ++ b'r' ∷ [] }) rest h fits
            seq quiet_noise)
      | inr e ↦ rw e (
          read_line command noise seqno (record l { ctrl_pipe = false }) rest h fits seq
            quiet_noise)
    ]
