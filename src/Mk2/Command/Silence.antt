-- ===== src/Mk2/Command/Silence.antt =====
-- A box that never answers.
use jtag_js.Base.{
  ℕ, zero, suc, ◌+◌, ◌≤◌, ◌<◌, ◌≡◌, refl, ap, ◌∙◌, arith, true, false, Bool-cases, inl, inr, none,
  [], ◌∷◌, ◌++◌, append_assoc, append-nil, if◌then◌else◌, ltb, le→ltb, Bytes,
}
use jtag_js.Port.{Link, returned, thrown, ◌>>=◌, signal_daemon}
use jtag_js.Mk2.Frame.{frame_bytes}
use jtag_js.Mk2.Frame.Progress.{signalled, recv_frame_lem, recv_loop_silent}
use jtag_js.Mk2.Command.{
  Response, max_jtag_comm_attemps, judge, recv_in, recv, classify, send_jtag_command,
  reset_endpoints, do_command_loop, do_jtag_command,
}
use jtag_js.Mk2.Command.Attempts.{send_lem}

abbrev pub no_response : Response
no_response = record { size = 0; msg = none }

-- What the USB daemon has been told, behind one more signal.
abbrev pub told : ℕ → Link → Bytes
told cmd l = if l.ctrl_pipe then l.ctrl_output ++ cmd ∷ [] else l.ctrl_output

signalled_lem : (l : Link) → signalled l ≡ record l { ctrl_output = told b'r' l }
signalled_lem l = elim (Bool-cases l.ctrl_pipe) [ inl e ↦ rw e refl | inr e ↦ rw e refl ]

abbrev told_reset : ℕ → Link → Bytes
told_reset tries l = if ltb 3 tries then told b'c' l else l.ctrl_output

reset_endpoints_lem :
    (tries : ℕ) (l : Link)
    → reset_endpoints tries l ≡ returned tt (record l { ctrl_output = told_reset tries l })
unfolding signal_daemon
reset_endpoints_lem tries l = elim (Bool-cases (ltb 3 tries)) [
  | inl e ↦ rw e (elim (Bool-cases l.ctrl_pipe) [ inl p ↦ rw p refl | inr p ↦ rw p refl ])
  | inr e ↦ rw e refl
]

recv_silent :
    (l : Link)
    → recv (record l { input = [] })
      ≡ returned no_response (record l { input = []; ctrl_output = told b'r' l })
unfolding recv recv_in judge
recv_silent l =
    rw
      (
        recv_frame_lem (record l { input = [] }),
        signalled_lem (record l { input = [] }),
        recv_loop_silent 0 (record l { ctrl_output = told b'r' l }),
        recv_in,
      )
      refl

pub send_silent :
    (command : Bytes) (tries : ℕ) (l : Link)
    → tries < max_jtag_comm_attemps
    → send_jtag_command command tries false (record l { input = []; writes = [] })
      ≡ returned (classify (tries + 1) no_response) (record l {
        input = [];
        writes = [];
        output = l.output ++ frame_bytes l.command_sequence command;
        ctrl_output = told b'r' l;
      })
send_silent command tries l h =
    send_lem command tries (record l { input = [] }) h
    ∙ rw (
      recv_silent
          (record l { output = l.output ++ frame_bytes l.command_sequence command; writes = [] }),
      ◌>>=◌,
    )

abbrev pub copies : ℕ → Bytes → Bytes
copies zero f = []
copies (suc k) f = f ++ copies k f

send_exhausted :
    (command : Bytes) (tries : ℕ) (l : Link)
    → max_jtag_comm_attemps ≤ tries
    → send_jtag_command command tries false l ≡ thrown l
unfolding send_jtag_command
send_exhausted command tries l h = rw (le→ltb tries max_jtag_comm_attemps h, ◌>>=◌)

-- The line behind a try that nothing answered.
abbrev tried : Bytes → ℕ → Link → Link
tried command tries l =
    let waited = record l { ctrl_output = told b'r' l } in
    record l {
      output = l.output ++ frame_bytes l.command_sequence command;
      ctrl_output = told_reset (tries + 1) waited;
    }

silent_round :
    (fuel : ℕ) (command : Bytes) (tries : ℕ) (l : Link)
    → tries < max_jtag_comm_attemps
    → do_command_loop (suc fuel) command true tries (record l { input = []; writes = [] })
      ≡ do_command_loop fuel command true
          (tries + 1)
          (record (tried command tries l) { input = []; writes = [] })
unfolding do_command_loop classify
silent_round fuel command tries l h =
    rw (send_silent command tries l h, do_command_loop)
      (rw (
        reset_endpoints_lem (tries + 1) (record l {
          input = [];
          writes = [];
          output = l.output ++ frame_bytes l.command_sequence command;
          ctrl_output = told b'r' l;
        }),
        ◌>>=◌,
      ))

last_round :
    (fuel : ℕ) (command : Bytes) (tries : ℕ) (l : Link)
    → max_jtag_comm_attemps ≤ tries
    → do_command_loop (suc fuel) command true tries l ≡ thrown l
unfolding do_command_loop
last_round fuel command tries l h = rw (send_exhausted command tries l h, do_command_loop)

do_command_loop_silent :
    (k tries : ℕ) (command : Bytes) (l : Link)
    → tries + k ≡ max_jtag_comm_attemps
    → (c : Bytes) × (do_command_loop
          (suc k)
          command
          true
          tries
          (record l { input = []; writes = [] })
        ≡ thrown (record l {
          input = [];
          writes = [];
          output = l.output ++ copies k (frame_bytes l.command_sequence command);
          ctrl_output = c;
        }))
do_command_loop_silent zero tries command l h = (
  l.ctrl_output,
  last_round 0 command tries (record l { input = []; writes = [] }) (omega arith)
      ∙ rw append-nil refl,
)
do_command_loop_silent (suc k) tries command l h =
    let (c, ended) =
      do_command_loop_silent k (tries + 1) command (tried command tries l) (omega arith) in
    (
      c,
      silent_round (suc k) command tries l (omega arith)
          ∙ ended
          ∙ ap (λ t. thrown (record l { input = []; writes = []; output = t; ctrl_output = c }))
              (append_assoc l.output (frame_bytes l.command_sequence command)
                (copies k (frame_bytes l.command_sequence command))),
    )

-- When the box stays silent and takes all writes, `doJtagCommand` writes the command's frame exactly
-- ten times, MAX_JTAG_COMM_ATTEMPS, under one sequence number, and then throws.
pub do_jtag_command_silent :
    (command : Bytes) (l : Link)
    → (c : Bytes) × (do_jtag_command command true (record l { input = []; writes = [] })
        ≡ thrown (record l {
          input = [];
          writes = [];
          output =
              l.output ++ copies max_jtag_comm_attemps (frame_bytes l.command_sequence command);
          ctrl_output = c;
        }))
unfolding do_jtag_command
do_jtag_command_silent command l = do_command_loop_silent max_jtag_comm_attemps 0 command l refl
