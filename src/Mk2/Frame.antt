-- ===== src/Mk2/Frame.antt =====
-- src/jtag2io.cc, `sendFrame` and `recvFrame`: one frame of the mkII protocol,
--   MESSAGE_START, sequence number (2), size (4), TOKEN, payload, CRC (2).
-- `ignorpkt` is never set and `checksum` never read in the source; both are left out.
pub mod RoundTrip
pub mod Keeps
pub mod Progress
pub mod Total
pub mod CutShort
use jtag_js.Base.{
  ℕ, zero, suc, ◌+◌, ◌*◌, ◌/◌, ◌^◌, Bool, true, false, Option, none, some, [], ◌∷◌, ◌++◌, ltb, ◌==◌,
  if◌then◌else◌, length, set, take, drop, replicate, Bytes,
}
use jtag_js.Crc.{crcappend, crcverify}
use jtag_js.Encoding.{u16_to_b2, u32_to_b4}
use jtag_js.Port.{
  Link, Outcome, returned, thrown, crashed, stuck, hung, M, ◌>>=◌, ◌>>◌, pure, check, timeout_read,
  safewrite, signal_daemon, new_buffer,
}

abbrev pub message_start : ℕ
message_start = 0x1b

abbrev pub token : ℕ
token = 0x0e

abbrev pub max_message : ℕ
max_message = 100000

-- The buffer that `sendFrame` fills. Its last two bytes, whatever they were, are overwritten.
unfoldable pub frame_bytes : ℕ → Bytes → Bytes
frame_bytes seqno command =
    crcappend
      (message_start
        ∷ (u16_to_b2 seqno ++ (u32_to_b4 (length command) ++ (token ∷ (command ++ 0 ∷ 0 ∷ [])))))
      (length command + 8)

unfoldable pub send_frame : Bytes → M (Unit {0})
send_frame command l = (do fine ← safewrite (frame_bytes l.command_sequence command); check fine) l

pub data State : Type 0 where
  s_start s_seqnum1 s_seqnum2 s_size1 s_size2 s_size3 s_size4 : State
  s_token s_data s_csum1 s_csum2 : State

-- The local variables of `recvFrame`.
pub record Receiver : Type 0 where
  pub state : State
  pub msglen : ℕ
  pub l : ℕ
  pub header : Bytes
  pub header_idx : ℕ
  pub buf : Option Bytes
  pub r_seqno : ℕ

-- What a round of the loop comes to: another round, the end of the loop, `return -1`, or a write
-- through a null pointer.
pub data Next : Type 0 where
  going done : Receiver → Next
  refused null_write : Next

-- The label `domsglen`. The top byte of `msglen >> 8` is clear, so `|` is `+`.
abbrev pub domsglen : Receiver → ℕ → State → Receiver
domsglen r c s = record r { state = s; msglen = r.msglen / 2 ^ 8 + c * 2 ^ 24 }

abbrev pub restart : Receiver → Receiver
restart r = record r { state = s_start; header_idx = 0 }

abbrev pub keep_header : Receiver → ℕ → Receiver
keep_header r c = record r { header = set r.header r.header_idx c; header_idx = r.header_idx + 1 }

abbrev pub take_token : (ℕ → ℕ) → Receiver → ℕ → Receiver
take_token junk r c =
    if c == token
    then if ltb max_message r.msglen then restart r else record r {
      state = s_data;
      buf = some (take 8 r.header ++ drop 8 (new_buffer junk (r.msglen + 10)));
    }
    else restart r

-- `buf[l++] = c`
abbrev pub append_to : Receiver → State → ℕ → Option Bytes → Next
append_to r s c none = null_write
append_to r s c (some buf) = going (record r { state = s; buf = some (set buf r.l c); l = r.l + 1 })

abbrev pub close_frame : Receiver → ℕ → Option Bytes → Next
close_frame r c none = null_write
close_frame r c (some buf) =
    let full = set buf r.l c in
    if crcverify full (r.msglen + 10)
    then done (record r { buf = some full; l = r.l + 1 })
    else refused

-- The switch, on one byte, behind the copy into the header.
unfoldable pub receive : (ℕ → ℕ) → State → Receiver → ℕ → Next
receive junk s_start r c =
    let h = keep_header r c in
    going
      (if c == message_start then record h { state = s_seqnum1 } else record h { header_idx = 0 })
receive junk s_seqnum1 r c =
    let h = keep_header r c in going (record h { r_seqno = c; state = s_seqnum2 })
receive junk s_seqnum2 r c =
    let h = keep_header r c in going (record h { r_seqno = h.r_seqno + c * 2 ^ 8; state = s_size1 })
receive junk s_size1 r c = going (domsglen (keep_header r c) c s_size2)
receive junk s_size2 r c = going (domsglen (keep_header r c) c s_size3)
receive junk s_size3 r c = going (domsglen (keep_header r c) c s_size4)
receive junk s_size4 r c = going (domsglen (keep_header r c) c s_token)
receive junk s_token r c = going (take_token junk (keep_header r c) c)
receive junk s_data r c = null_write
receive junk s_csum1 r c = append_to r s_csum2 c r.buf
receive junk s_csum2 r c = close_frame r c r.buf

-- The payload that was read, `buf + 8` on; fewer bytes than `msglen` leave the rest as it was.
unfoldable pub take_payload : Receiver → Bytes → Option Bytes → Next
take_payload r bs none = null_write
take_payload r bs (some buf) = going (record r {
  state = s_csum1;
  buf = some (take 8 buf ++ (bs ++ drop (8 + length bs) buf));
  l = r.msglen + 8;
})

-- Nothing read is a timeout, and ends the loop.
unfoldable pub on_byte : (ℕ → ℕ) → Receiver → Bytes → Next
on_byte junk r [] = done r
on_byte junk r (c ∷ _) = receive junk r.state r c

unfoldable pub on_payload : Receiver → Bytes → Next
unfolding take_payload
on_payload r [] = done r
on_payload r (b ∷ bs) = take_payload r (b ∷ bs) r.buf

-- One round of the loop.
unfoldable pub next_in : State → Receiver → M Next
next_in s_data r l = (do bs ← timeout_read r.msglen; pure (on_payload r bs)) l
next_in _ r l = (do bs ← timeout_read 1; pure (on_byte l.junk r bs)) l

-- What `recvFrame` returns: the buffer or null, the length as the 32-bit pattern of an int, and the
-- sequence number; or -1.
pub data Received : Type 0 where
  frame : Option Bytes → ℕ → ℕ → Received
  bad_frame : Received

unfoldable pub recv_loop : ℕ → Receiver → M Received
recv_loop zero r l = stuck
recv_loop (suc fuel) r l = elim (next_in r.state r l) [
  | returned n l' ↦ elim n [
    | going r' ↦ recv_loop fuel r' l'
    | done r' ↦ returned (frame r'.buf r'.msglen r'.r_seqno) l'
    | refused ↦ returned bad_frame l'
    | null_write ↦ crashed
  ]
  | thrown l' ↦ thrown l'
  | crashed ↦ crashed
  | stuck ↦ stuck
  | hung ↦ hung
]

abbrev pub fresh_receiver : Receiver
fresh_receiver = record {
  state = s_start;
  msglen = 0;
  l = 0;
  header = replicate 8 0;
  header_idx = 0;
  buf = none;
  r_seqno = 0;
}

-- Every round but the last uses up an event, so one round more than there are events is enough.
unfoldable pub recv_frame : M Received
recv_frame = do signal_daemon b'r'; (λ l. recv_loop (length l.input + 1) fresh_receiver l)
