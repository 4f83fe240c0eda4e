-- ===== src/Mk2/Command/Answers.antt =====
-- src/jtag2io.cc: a command that the box answers positively.
use jtag_js.Base.{
  ◌≡◌, ◌<◌, ◌≤◌, refl, true, some, List, [], ◌++◌, length, get_or, lt→ltb, le→leb, Bytes,
}
use jtag_js.Port.{Link, Event, returned, M, ◌>>=◌, pure}
use jtag_js.Mk2.Frame.{frame_bytes}
use jtag_js.Mk2.Command.{Response, next_sequence, rsp_ok, rsp_failed, checked_command}
use jtag_js.Mk2.Command.Replies.{Message, IsValid, events_of}
use jtag_js.Mk2.Command.Attempts.{do_jtag_command_answered}

-- An answer to the current command, between RSP_OK and RSP_FAILED.
pub record IsPositive (m : Message) (l : Link) : Type 0 where
  pub valid : IsValid m
  pub current : m.seqno ≡ l.command_sequence
  pub from_ok : rsp_ok ≤ get_or m.payload 0 0
  pub below_failed : get_or m.payload 0 0 < rsp_failed

-- The line that holds the answer, and takes all writes.
abbrev pub answering : Message → List Event → Link → Link
answering m rest l = record l { input = events_of m ++ rest; writes = [] }

-- The command gives the value, has sent its frame once, and leaves the rest on the line, which is
-- ready for the next command.
abbrev pub Gives : {A : Type 0} → M A → Bytes → A → Message → List Event → Link → Type 0
Gives run command a m rest l =
    (l' : Link) × (run (answering m rest l) ≡ returned a l')
    × (l'.input ≡ rest)
    × (l'.output ≡ l.output ++ frame_bytes l.command_sequence command)
    × (l'.command_sequence ≡ next_sequence l.command_sequence)
    × (l'.writes ≡ [])

pub checked_command-Gives :
    (command : Bytes) (m : Message) (rest : List Event) (l : Link)
    → IsPositive m l
    → Gives
        (checked_command command)
        command
        (record { size = length m.payload; msg = some m.payload })
        m
        rest
        l
unfolding checked_command
checked_command-Gives command m rest l p =
    let (l', run, input, output, sequence, ready) =
      do_jtag_command_answered command true [] m l rest tt p.valid p.current in
    (
      l',
      rw (◌>>=◌, run)
          (rw
            (
              le→leb rsp_ok (get_or m.payload 0 0) p.from_ok,
              lt→ltb (get_or m.payload 0 0) rsp_failed p.below_failed,
            )
            refl),
      input,
      output,
      sequence,
      ready,
    )

-- What is made of a positive response is what the command gives.
pub then-Gives :
    {A : Type 0} (command : Bytes) (f : Response → A) (m : Message) (rest : List Event) (l : Link)
    → IsPositive m l
    → Gives
        (checked_command command >>= λ r. pure (f r))
        command
        (f (record { size = length m.payload; msg = some m.payload }))
        m
        rest
        l
then-Gives command f m rest l p =
    let (l', run, input, output, sequence, ready) = checked_command-Gives command m rest l p in
    (l', rw (◌>>=◌, run) refl, input, output, sequence, ready)
