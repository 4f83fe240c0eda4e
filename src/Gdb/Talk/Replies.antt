-- ===== src/Gdb/Talk/Replies.antt =====
-- src/remote.cc, `talkToGdb`: from the packet to the reply.
use jtag_js.Base.{
  ℕ, suc, ◌<◌, ◌≡◌, ◌≢◌, refl, ap, ◌∙◌, true, [], ◌∷◌, ◌++◌, append-nil, length, get_or, drop,
  Bytes,
}
use jtag_js.Gdb.{JtagIce, Setting, Gdb, got, ◌>>◌, set_reply}
use jtag_js.Gdb.Packets.{bufmax, packet, getpacket, c_string}
use jtag_js.Gdb.Packets.Reading.{IsPlain, buffer_with, getpacket-packet}
use jtag_js.Gdb.Packets.Writing.{putpacket_resends}
use jtag_js.Gdb.Steps.{>>=-got}
use jtag_js.Gdb.Talk.{is_replied, run_command, finish_command, talk_to_gdb}

-- The state behind the packet "cmd args": it is acknowledged, and the reply is empty.
abbrev pub received : {B : Type 0} → ℕ → Bytes → Bytes → Gdb B → Gdb B
received cmd args rest g = record g {
  input = rest;
  output = g.output ++ b'+' ∷ [];
  remcom_in_buffer = buffer_with (cmd ∷ args) g.remcom_in_buffer;
  remcom_out_buffer = [];
}

finished :
    {B : Type 0} (ice : JtagIce B) (cmd : ℕ) (rest : Bytes) (g : Gdb B)
    → is_replied cmd ≡ true
    → finish_command ice cmd (record g { input = b'+' ∷ rest })
      ≡ got tt (record g {
        input = rest;
        output = g.output ++ packet (c_string g.remcom_out_buffer);
        last_cmd = cmd;
      })
unfolding finish_command
finished ice cmd rest g replied = rw replied (
    putpacket_resends ice (c_string g.remcom_out_buffer) [] rest (record g { last_cmd = cmd }) tt
    ∙ ap (λ (t : Bytes). got tt (record g { input = rest; output = g.output ++ t; last_cmd = cmd }))
        (append-nil (packet (c_string g.remcom_out_buffer))))

-- A well-formed packet "cmd args" is acknowledged, handed to the switch with what the buffer holds
-- behind the command, and, unless the command is 'k' or 'R', answered: if the switch ends and gdb
-- acknowledges at once, the output grows by one packet that holds the reply.
pub talk_to_gdb_replies :
    {B : Type 0} (setting : Setting) (ice : JtagIce B) (cmd : ℕ) (args rest rest' : Bytes)
    (g g' : Gdb B)
    → IsPlain (cmd ∷ args)
    → suc (length (cmd ∷ args)) < bufmax
    → length g.remcom_in_buffer ≡ bufmax
    → get_or (buffer_with (cmd ∷ args) g.remcom_in_buffer) 2 0 ≢ b':'
    → is_replied cmd ≡ true
    → run_command setting ice cmd
        (drop 1 (buffer_with (cmd ∷ args) g.remcom_in_buffer))
        (received cmd args rest g)
      ≡ got tt (record g' { input = b'+' ∷ rest' })
    → talk_to_gdb setting ice (record g { input = packet (cmd ∷ args) ++ rest })
      ≡ got tt (record g' {
        input = rest';
        output = g'.output ++ packet (c_string g'.remcom_out_buffer);
        last_cmd = cmd;
      })
unfolding talk_to_gdb
talk_to_gdb_replies setting ice cmd args rest rest' g g' plain fits size id replied run =
    let before = record (received cmd args rest g) { remcom_out_buffer = g.remcom_out_buffer } in
    let ptr = drop 1 (buffer_with (cmd ∷ args) g.remcom_in_buffer) in
    let switch = run_command setting ice cmd ptr in
    >>=-got (getpacket ice)
      (λ p.
        set_reply []
        >> (run_command setting ice (get_or p 0 0) (drop 1 p) >> finish_command ice (get_or p 0 0)))
      _ before _ _ (getpacket-packet ice (cmd ∷ args) [] rest g tt plain fits size id)
      (>>=-got (set_reply []) (λ _. switch >> finish_command ice cmd) before _ _ _ refl
        (>>=-got switch (λ _. finish_command ice cmd) _ _ _ _ run
          (finished ice cmd rest' g' replied)))
