-- ===== src/Gdb/Packets/Reading.antt =====
-- src/remote.cc, `getpacket`: a packet is read back from the line, and reading always ends.
use jtag_js.Base.{
  ℕ, zero, suc, ◌+◌, ◌-◌, ◌/◌, ◌%◌, ◌<◌, ◌≡◌, ◌≢◌, refl, sym, ap, ◌∙◌, subst, arith, some, [], ◌∷◌,
  ◌++◌, append_assoc, All, length, length-append, set, get_or, drop, ==_iff, ==_false, Bytes,
}
use jtag_js.Encoding.{hexchar, hex_pair}
use jtag_js.Encoding.HexText.{hex_pair-hexchar}
use jtag_js.Gdb.{JtagIce, Gdb, got}
use jtag_js.Gdb.Packets.{
  bufmax, packet, checksum_of, skip_to_start, complete, read_packet, accept, after_scan,
  getpacket_in, getpacket,
}

-- What may stand in a packet.
abbrev pub IsPlain : Bytes → Type 0
IsPlain = All (λ c. (c ≢ b'$') × (c ≢ b'#'))

skip_noise :
    (noise rest : Bytes)
    → All (λ c. c ≢ b'$') noise
    → skip_to_start (noise ++ b'$' ∷ rest) ≡ some rest
unfolding skip_to_start
skip_noise [] rest h = refl
skip_noise (c ∷ noise) rest (ne, h) = rw (==_false c b'$' ne) (skip_noise noise rest h)

set-append :
    (pre : Bytes) (x v : ℕ) (buf : Bytes) → set (pre ++ x ∷ buf) (length pre) v ≡ pre ++ v ∷ buf
set-append [] x v buf = refl
set-append (p ∷ pre) x v buf = ap (◌∷◌ p) (set-append pre x v buf)

read_data :
    (data_ pre buf : Bytes) (room checksum : ℕ) (rest : Bytes)
    → IsPlain data_
    → length data_ < length buf
    → length data_ < room
    → read_packet room checksum (length pre) (pre ++ buf) (data_ ++ b'#' ∷ rest)
      ≡ complete
          (pre ++ (data_ ++ 0 ∷ drop (suc (length data_)) buf))
          (length pre + length data_)
          (checksum_of checksum data_)
          rest
unfolding read_packet
read_data _ pre [] room checksum rest h lt enough = elim lt [ ]
read_data _ pre (x ∷ buf) zero checksum rest h lt enough = elim enough [ ]
read_data [] pre (x ∷ buf) (suc room) checksum rest h lt enough =
    rw (set-append pre x 0 buf) (ap (λ n. complete (pre ++ 0 ∷ buf) n checksum rest) (omega arith))
read_data (c ∷ data_) pre (x ∷ buf) (suc room) checksum rest ((dollar, hash), h) lt enough =
    rw (==_false c b'$' dollar, ==_false c b'#' hash, set-append pre x c buf)
      (let longer = append_assoc pre (c ∷ []) buf in
        let next =
          read_data data_ (pre ++ c ∷ []) buf room ((checksum + c) % 256) rest h (omega arith)
            (omega arith) in
        let counted =
          subst
            (λ n.
              read_packet room ((checksum + c) % 256) n ((pre ++ c ∷ []) ++ buf)
                (data_ ++ b'#' ∷ rest)
              ≡ complete ((pre ++ c ∷ []) ++ (data_ ++ 0 ∷ drop (suc (length data_)) buf))
                  (n + length data_) (checksum_of ((checksum + c) % 256) data_) rest)
            (length-append pre (c ∷ [])) next in
        ap
          (λ (t : Bytes).
            read_packet room ((checksum + c) % 256) (length pre + 1) t (data_ ++ b'#' ∷ rest))
          (sym longer)
        ∙ counted
        ∙ ap
            (λ (t : Bytes).
              complete t (length pre + 1 + length data_) (checksum_of ((checksum + c) % 256) data_)
                rest)
            (append_assoc pre (c ∷ []) _)
        ∙ ap
            (λ n.
              complete (pre ++ c ∷ (data_ ++ 0 ∷ drop (suc (length data_)) buf)) n
                (checksum_of ((checksum + c) % 256) data_) rest)
            (omega arith))

checksum_of-lt : (checksum : ℕ) (data_ : Bytes) → checksum < 256 → checksum_of checksum data_ < 256
checksum_of-lt checksum [] h = h
checksum_of-lt checksum (c ∷ data_) h = checksum_of-lt ((checksum + c) % 256) data_ (omega arith)

-- The buffer that a packet leaves: its characters, a NUL, and what was there before.
abbrev pub buffer_with : Bytes → Bytes → Bytes
buffer_with data_ before = data_ ++ 0 ∷ drop (suc (length data_)) before

one_round :
    {B : Type 0} (ice : JtagIce B) (fuel : ℕ) (data_ noise rest : Bytes) (a b : ℕ) (g : Gdb B)
    → All (λ c. c ≢ b'$') noise
    → IsPlain data_
    → suc (length data_) < bufmax
    → length g.remcom_in_buffer ≡ bufmax
    → hex_pair a b ≡ checksum_of 0 data_
    → getpacket_in
        (suc fuel)
        ice
        (record g { input = noise ++ b'$' ∷ (data_ ++ b'#' ∷ a ∷ b ∷ rest) })
      ≡ accept
          (buffer_with data_ g.remcom_in_buffer)
          (after_scan (buffer_with data_ g.remcom_in_buffer) rest g)
unfolding getpacket_in
one_round ice fuel data_ noise rest a b g quiet plain fits size sum =
    rw (getpacket_in, skip_noise noise (data_ ++ b'#' ∷ a ∷ b ∷ rest) quiet)
      (rw
        (
          read_data data_ [] g.remcom_in_buffer (bufmax - 1) 0 (a ∷ b ∷ rest) plain (omega arith)
              (omega arith),
          sum,
          (==_iff (checksum_of 0 data_) (checksum_of 0 data_)).1 refl,
        )
        refl)

accept_plain :
    {B : Type 0} (buffer : Bytes) (g : Gdb B)
    → get_or buffer 2 0 ≢ b':'
    → accept buffer g ≡ got buffer (record g { output = g.output ++ b'+' ∷ [] })
unfolding accept
accept_plain buffer g id = rw (==_false (get_or buffer 2 0) b':' id) refl

packet-form :
    (data_ rest : Bytes)
    → packet data_ ++ rest
      ≡ b'$'
        ∷ (data_
            ++ b'#'
              ∷ hexchar (checksum_of 0 data_ / 16)
              ∷ hexchar (checksum_of 0 data_ % 16)
              ∷ rest)
unfolding packet
packet-form data_ rest = ap (◌∷◌ b'$') (append_assoc data_ _ rest)

-- A packet as `putpacket` sends it, behind noise without a '$', is read back whole and acknowledged
-- with '+', and what follows it is left to read, if it has at most 398 characters, none of them '$' or
-- '#', and no ':' at index 2 of the buffer, which would mark a sequence id.
pub getpacket-packet :
    {B : Type 0} (ice : JtagIce B) (data_ noise rest : Bytes) (g : Gdb B)
    → All (λ c. c ≢ b'$') noise
    → IsPlain data_
    → suc (length data_) < bufmax
    → length g.remcom_in_buffer ≡ bufmax
    → get_or (buffer_with data_ g.remcom_in_buffer) 2 0 ≢ b':'
    → getpacket ice (record g { input = noise ++ (packet data_ ++ rest) })
      ≡ got (buffer_with data_ g.remcom_in_buffer) (record g {
        input = rest;
        output = g.output ++ b'+' ∷ [];
        remcom_in_buffer = buffer_with data_ g.remcom_in_buffer;
      })
unfolding getpacket
getpacket-packet ice data_ noise rest g quiet plain fits size id =
    let sum = checksum_of 0 data_ in
    let line = noise ++ (packet data_ ++ rest) in
    let form = ap (λ (t : Bytes). noise ++ t) (packet-form data_ rest) in
    ap (λ n. getpacket_in n ice (record g { input = line })) (omega arith)
    ∙ ap (λ (t : Bytes). getpacket_in (suc (length line)) ice (record g { input = t })) form
    ∙ one_round ice (length line) data_ noise rest (hexchar (sum / 16)) (hexchar (sum % 16)) g quiet
        plain fits size (hex_pair-hexchar sum (checksum_of-lt 0 data_ (omega arith)))
    ∙ accept_plain (buffer_with data_ g.remcom_in_buffer)
        (after_scan (buffer_with data_ g.remcom_in_buffer) rest g) id
