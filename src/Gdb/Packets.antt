-- ===== src/Gdb/Packets.antt =====
-- src/remote.cc, `putDebugChar`, `getDebugChar`, `vgdbOut`, `getpacket` and `putpacket`. Writes to
-- gdb succeed, and reads wait until a character comes or gdb has closed the line.
pub mod Reading
pub mod Ends
pub mod Writing
use jtag_js.Base.{
  ℕ, zero, suc, ◌+◌, ◌-◌, ◌/◌, ◌%◌, Bool, Option, none, some, List, [], ◌∷◌, ◌++◌, ◌==◌,
  if◌then◌else◌, length, set, get_or, take, drop, Bytes,
}
use jtag_js.Encoding.{hexchar, hex_pair, mem2hex}
use jtag_js.Gdb.{JtagIce, Gdb, Run, got, exited, failed, stuck, G, ◌>>=◌, ◌>>◌, pure, ask}

abbrev pub bufmax : ℕ
bufmax = 400

abbrev pub put_debug_char : {B : Type 0} → ℕ → G B (Unit {0})
put_debug_char c g = got tt (record g { output = g.output ++ c ∷ [] })

-- gdb has closed the line: the program is resumed, the box is deleted, and avarice exits.
abbrev pub gdb_exited : {B A : Type 0} → JtagIce B → G B A
gdb_exited ice = ask ice.resume_program >> ask ice.destroy >> exited 0

abbrev pub checksum_of : ℕ → Bytes → ℕ
checksum_of checksum [] = checksum
checksum_of checksum (c ∷ cs) = checksum_of ((checksum + c) % 256) cs

-- "$<packet info>#<checksum>", for a buffer that holds the characters before its NUL.
unfoldable pub packet : Bytes → Bytes
packet buffer =
    let checksum = checksum_of 0 buffer in
    b'$' ∷ (buffer ++ b'#' ∷ hexchar (checksum / 16) ∷ hexchar (checksum % 16) ∷ [])

-- The loop of `putpacket`: what is sent until gdb acknowledges, and what is then still to come from
-- gdb, or `none` when gdb closes the line.
unfoldable pub put_attempts : Bytes → Bytes → Bytes × Option Bytes
put_attempts buffer [] = (packet buffer, none)
put_attempts buffer (c ∷ input) =
    let (sent, rest) = put_attempts buffer input in
    if c == b'+' then (packet buffer, some input) else (packet buffer ++ sent, rest)

unfoldable pub putpacket : {B : Type 0} → JtagIce B → Bytes → G B (Unit {0})
putpacket ice buffer g =
    let (sent, rest) = put_attempts buffer g.input in
    elim rest [
      | none ↦ gdb_exited ice (record g { input = []; output = g.output ++ sent })
      | some input ↦ got tt (record g { input = input; output = g.output ++ sent })
    ]

-- `gdbOut`, on the formatted text, of which `vsnprintf` keeps what fits its buffer with the NUL.
unfoldable pub gdb_out : {B : Type 0} → JtagIce B → Bytes → G B (Unit {0})
gdb_out ice text =
    let textbuf = take (bufmax - 1) text in putpacket ice (b'O' ∷ mem2hex textbuf (length textbuf))

-- Behind the first '$' of the input.
unfoldable pub skip_to_start : Bytes → Option Bytes
skip_to_start [] = none
skip_to_start (c ∷ input) = let rest = skip_to_start input in if c == b'$' then some input else rest

-- What reading up to the '#' comes to: the line closes; the buffer is full; or the buffer, the count,
-- the checksum and the rest of the input.
pub data Scanned : Type 0 where
  closed : Scanned
  overlong : Bytes → Bytes → Scanned
  complete : Bytes → ℕ → ℕ → Bytes → Scanned

-- The inner loop of `getpacket`, from the label `retry` on: the room that is left, the checksum, the
-- count, the buffer and the input.
unfoldable pub read_packet : ℕ → ℕ → ℕ → Bytes → Bytes → Scanned
read_packet zero checksum count buffer input = overlong (set buffer count 0) input
read_packet (suc room) checksum count buffer [] = closed
read_packet (suc room) checksum count buffer (ch ∷ input) =
    let retry = read_packet (bufmax - 1) 0 0 buffer input in
    let next = read_packet room ((checksum + ch) % 256) (count + 1) (set buffer count ch) input in
    if ch == b'$'
    then retry
    else if ch == b'#'
    then complete (set buffer count 0) count checksum input
    else next

-- "Bad checksum: my count = "
abbrev bad_checksum : Bytes
bad_checksum =
    b'B' ∷ b'a' ∷ b'd' ∷ b' ' ∷ b'c' ∷ b'h' ∷ b'e' ∷ b'c' ∷ b'k' ∷ b's' ∷ b'u' ∷ b'm' ∷ b':' ∷ b' '
    ∷ b'm' ∷ b'y' ∷ b' ' ∷ b'c' ∷ b'o' ∷ b'u' ∷ b'n' ∷ b't' ∷ b' ' ∷ b'=' ∷ b' ' ∷ []

-- "sent count = "
abbrev sent_count : Bytes
sent_count =
    b's' ∷ b'e' ∷ b'n' ∷ b't' ∷ b' ' ∷ b'c' ∷ b'o' ∷ b'u' ∷ b'n' ∷ b't' ∷ b' ' ∷ b'=' ∷ b' ' ∷ []

-- " -- Bad buffer: \""
abbrev bad_buffer : Bytes
bad_buffer =
    b' ' ∷ b'-' ∷ b'-' ∷ b' ' ∷ b'B' ∷ b'a' ∷ b'd' ∷ b' ' ∷ b'b' ∷ b'u' ∷ b'f' ∷ b'f' ∷ b'e' ∷ b'r'
    ∷ b':' ∷ b' ' ∷ 0x22 ∷ []

-- `mem2hex(&checksum, buf, 4)` prints the three bytes behind the variable too; they are `heap` here.
abbrev four_bytes : ℕ → ℕ → Bytes
four_bytes heap checksum = mem2hex (checksum ∷ heap ∷ heap ∷ heap ∷ []) 4

unfoldable pub complain : {B : Type 0} → JtagIce B → ℕ → ℕ → Bytes → G B (Unit {0})
complain ice checksum xmitcsum buffer g =
    (do
      gdb_out ice (bad_checksum ++ (four_bytes g.heap checksum ++ b',' ∷ b' ' ∷ []))
      gdb_out ice (sent_count ++ (four_bytes g.heap xmitcsum ++ 0x0a ∷ []))
      gdb_out ice (bad_buffer ++ (buffer ++ 0x22 ∷ 0x0a ∷ []))
      put_debug_char b'-')
      g

-- A good packet is acknowledged, and a sequence id echoed. The result is the buffer from the first
-- character of the packet on.
unfoldable pub accept : {B : Type 0} → Bytes → G B Bytes
accept buffer = do
  put_debug_char b'+'
  (if get_or buffer 2 0 == b':'
      then (do
        put_debug_char (get_or buffer 0 0)
        put_debug_char (get_or buffer 1 0)
        pure (drop 3 buffer))
      else pure buffer)

-- A buffer and the rest of the input.
abbrev pub after_scan : {B : Type 0} → Bytes → Bytes → Gdb B → Gdb B
after_scan buffer rest g = record g { input = rest; remcom_in_buffer = buffer }

abbrev pub c_string : Bytes → Bytes
c_string [] = []
c_string (c ∷ cs) = if c == 0 then [] else c ∷ c_string cs

unfoldable pub getpacket_in : {B : Type 0} → ℕ → JtagIce B → G B Bytes
getpacket_in zero ice g = stuck
getpacket_in (suc fuel) ice g = elim (skip_to_start g.input) [
  | none ↦ gdb_exited ice (record g { input = [] })
  | some input ↦ elim (read_packet (bufmax - 1) 0 0 g.remcom_in_buffer input) [
    | closed ↦ gdb_exited ice (record g { input = [] })
    | overlong buffer rest ↦ getpacket_in fuel ice (after_scan buffer rest g)
    | complete buffer count checksum [] ↦ gdb_exited ice (after_scan buffer [] g)
    | complete buffer count checksum (a ∷ []) ↦ gdb_exited ice (after_scan buffer [] g)
    | complete buffer count checksum (a ∷ b ∷ rest) ↦
        let again =
          complain ice checksum (hex_pair a b) (c_string buffer) >> getpacket_in fuel ice in
        if checksum == hex_pair a b
        then accept buffer (after_scan buffer rest g)
        else again (after_scan buffer rest g)
  ]
]

-- Every round but the last uses up input, so one more round than there is input is enough.
unfoldable pub getpacket : {B : Type 0} → JtagIce B → G B Bytes
getpacket ice g = getpacket_in (length g.input + 1) ice g
