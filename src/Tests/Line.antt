-- ===== src/Tests/Line.antt =====
-- The line to the box, frames and commands on concrete inputs.
use jtag_js.Base.{
  ◌<◌, ◌≡◌, ◌≢◌, refl, arith, ◌&&◌, true, false, some, [], ◌∷◌, ◌++◌, map, length, get_or, leb, ltb,
  if◌then◌else◌, Bytes,
}
use jtag_js.Port.{
  Link, Event, byte, quiet, hangup, Outcome, returned, thrown, stuck, WriteResult, wrote,
  interrupted, write_all,
}
use jtag_js.Encoding.{u32_to_b4}
use jtag_js.Mk2.Frame.{message_start, max_message, frame, frame_bytes, recv_frame}
use jtag_js.Mk2.Frame.Progress.{signalled}
use jtag_js.Mk2.Frame.RoundTrip.{recv_frame-frame_bytes}
use jtag_js.Mk2.Frame.Total.{Ends, recv_frame-Ends}
use jtag_js.Mk2.Command.{
  Response, is_positive, next_sequence, recv, do_jtag_command, do_simple_jtag_command, rsp_ok,
  rsp_failed, max_jtag_comm_attemps,
}
use jtag_js.Mk2.Command.Sequence.{recv-sequence}
use jtag_js.Mk2.Command.Replies.{Message, IsValid, events_of, wire, Replied, recv_finds}
use jtag_js.Mk2.Command.Attempts.{commands_end, do_jtag_command_answered}
use jtag_js.Mk2.Command.Silence.{copies, do_jtag_command_silent}

abbrev idle : Link
idle = record {
  input = [];
  writes = [];
  output = [];
  ctrl_pipe = false;
  ctrl_output = [];
  command_sequence = 5;
  port_rates = [];
  junk = λ n. n;
}

recv_frame-frame_bytes_example :
    recv_frame (record idle {
      input = map byte (0 ∷ 9 ∷ []) ++ (map byte (frame_bytes 5 (rsp_ok ∷ [])) ++ byte 3 ∷ []);
    })
    ≡ returned
        (frame (some (frame_bytes 5 (rsp_ok ∷ []))) (length (rsp_ok ∷ [])) 5)
        (record (signalled idle) { input = byte 3 ∷ [] })
recv_frame-frame_bytes_example =
    recv_frame-frame_bytes (rsp_ok ∷ []) (0 ∷ 9 ∷ []) 5 idle (byte 3 ∷ []) (omega arith)
      (omega arith) (omega arith) (omega arith, (omega arith, tt))

recv_frame-Ends_example :
    Ends
      (byte 27 ∷ byte 5 ∷ quiet ∷ hangup ∷ [])
      (recv_frame (record idle { input = byte 27 ∷ byte 5 ∷ quiet ∷ hangup ∷ [] }))
recv_frame-Ends_example =
    recv_frame-Ends (record idle { input = byte 27 ∷ byte 5 ∷ quiet ∷ hangup ∷ [] })

abbrev event : Message
event = record { seqno = 0xffff; payload = 0xe0 ∷ 0 ∷ [] }

abbrev reply : Message
reply = record { seqno = 5; payload = rsp_ok ∷ [] }

-- The line behind the answer to command 5.
abbrev answered : Link
answered = record idle { command_sequence = 6 }

recv-reply :
    recv (record idle { input = events_of reply })
    ≡ returned (record { size = 1; msg = some (rsp_ok ∷ []) }) answered
unfolding recv jtag_js.Mk2.Command.recv_in recv_frame frame_bytes jtag_js.Crc.crcappend
    jtag_js.Encoding.u16_to_b2 u32_to_b4 jtag_js.Port.signal_daemon jtag_js.Mk2.Frame.recv_loop
    jtag_js.Mk2.Frame.next_in jtag_js.Port.timeout_read jtag_js.Port.read_bytes
    jtag_js.Mk2.Frame.on_byte jtag_js.Mk2.Frame.receive jtag_js.Mk2.Frame.on_payload
    jtag_js.Crc.crcverify jtag_js.Crc.crcsum jtag_js.Crc.crc_step jtag_js.Crc.crc_table
    jtag_js.Mk2.Command.judge jtag_js.Mk2.Frame.take_payload
recv-reply = refl

recv-sequence_example :
    (answered.command_sequence
      ≡ (if is_positive 1 then next_sequence idle.command_sequence else idle.command_sequence))
    × (answered.command_sequence < 0xffff)
    × (answered.output ≡ idle.output)
recv-sequence_example =
    recv-sequence (record idle { input = events_of reply }) answered
      (record { size = 1; msg = some (rsp_ok ∷ []) }) (omega arith) recv-reply

event-IsValid : IsValid event
event-IsValid = record { non_empty = omega arith; fits = omega arith; word = omega arith }

reply-IsValid : IsValid reply
reply-IsValid = record { non_empty = omega arith; fits = omega arith; word = omega arith }

recv_finds_example :
    Replied reply idle
      (quiet ∷ [])
      (recv (record idle { input = wire (event ∷ []) ++ (events_of reply ++ quiet ∷ []) }))
recv_finds_example =
    recv_finds (event ∷ []) reply idle (quiet ∷ []) ((event-IsValid, omega arith), tt) reply-IsValid
      refl

do_jtag_command_answered_example :
    (l' : Link) × (do_jtag_command
        (1 ∷ [])
        true
        (record idle { input = wire (event ∷ []) ++ (events_of reply ++ quiet ∷ []); writes = [] })
      ≡ returned
          (
            leb rsp_ok (get_or reply.payload 0 0) && ltb (get_or reply.payload 0 0) rsp_failed,
            record { size = length reply.payload; msg = some reply.payload },
          )
          l')
    × (l'.input ≡ quiet ∷ [])
    × (l'.output ≡ idle.output ++ frame_bytes idle.command_sequence (1 ∷ []))
    × (l'.command_sequence ≡ next_sequence idle.command_sequence)
    × (l'.writes ≡ [])
do_jtag_command_answered_example =
    do_jtag_command_answered (1 ∷ []) true (event ∷ []) reply idle (quiet ∷ [])
      ((event-IsValid, omega arith), tt) reply-IsValid refl

commands_end_example :
    (do_jtag_command (1 ∷ []) true (record idle { input = quiet ∷ byte 0 ∷ [] }) ≢ stuck)
    × (do_simple_jtag_command 1 (record idle { input = quiet ∷ byte 0 ∷ [] }) ≢ stuck)
commands_end_example = commands_end (1 ∷ []) true 1 (record idle { input = quiet ∷ byte 0 ∷ [] })

do_jtag_command_silent_example :
    (c : Bytes) × (do_jtag_command (1 ∷ []) true (record idle { input = []; writes = [] })
      ≡ thrown (record idle {
        input = [];
        writes = [];
        output =
            idle.output
            ++ copies max_jtag_comm_attemps (frame_bytes idle.command_sequence (1 ∷ []));
        ctrl_output = c;
      }))
do_jtag_command_silent_example = do_jtag_command_silent (1 ∷ []) idle
