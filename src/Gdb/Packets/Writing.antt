-- ===== src/Gdb/Packets/Writing.antt =====
-- src/remote.cc, `putpacket`: a packet is sent until gdb acknowledges it.
use jtag_js.Base.{
  ℕ, zero, suc, ◌≡◌, ◌≢◌, refl, sym, ap, some, [], ◌∷◌, ◌++◌, append-nil, All, length, ==_false,
  Bytes,
}
use jtag_js.Gdb.{JtagIce, Gdb, got}
use jtag_js.Gdb.Packets.{packet, put_attempts, putpacket}

-- n packets, one behind the other.
abbrev pub copies : ℕ → Bytes → Bytes
copies zero text = []
copies (suc n) text = text ++ copies n text

put_attempts_nacks :
    (buffer nacks rest : Bytes)
    → All (λ c. c ≢ b'+') nacks
    → put_attempts buffer (nacks ++ b'+' ∷ rest)
      ≡ (copies (suc (length nacks)) (packet buffer), some rest)
unfolding put_attempts
put_attempts_nacks buffer [] rest h =
    ap (λ (t : Bytes). (t, some rest)) (sym (append-nil (packet buffer)))
put_attempts_nacks buffer (c ∷ nacks) rest (ne, h) =
    rw (==_false c b'+' ne, put_attempts_nacks buffer nacks rest h) refl

-- When gdb answers with any number of other characters before it acknowledges with '+', the packet is
-- sent once more for each of them, nothing else is sent, and what follows the '+' is left to read.
pub putpacket_resends :
    {B : Type 0} (ice : JtagIce B) (buffer nacks rest : Bytes) (g : Gdb B)
    → All (λ c. c ≢ b'+') nacks
    → putpacket ice buffer (record g { input = nacks ++ b'+' ∷ rest })
      ≡ got tt (record g {
        input = rest;
        output = g.output ++ copies (suc (length nacks)) (packet buffer);
      })
unfolding putpacket
putpacket_resends ice buffer nacks rest g h =
    rw (putpacket, put_attempts_nacks buffer nacks rest h, put_attempts_nacks buffer nacks rest h)
      refl
