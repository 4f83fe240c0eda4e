-- ===== src/Mk2/Run/Counter.antt =====
-- src/jtag2run.cc: the program counter, in bytes for gdb and in words for the box.
use jtag_js.Base.{
  ℕ, ◌*◌, ◌/◌, ◌^◌, ◌≡◌, ◌<◌, sym, ap, ◌∙◌, subst, true, some, List, [], ◌∷◌, ◌++◌, append-nil,
  length,
}
use jtag_js.Encoding.{b4_to_u32, u32_to_b4}
use jtag_js.Encoding.Words.{b4_to_u32-u32_to_b4}
use jtag_js.Port.{Link, Event, returned, pure, ◌>>=◌}
use jtag_js.Mk2.Command.{checked_command}
use jtag_js.Mk2.Command.Replies.{Message}
use jtag_js.Mk2.Command.Dialogue.{
  Exchange, Talks, answers, Answered, Said, pure-Talks, checked_command-Talks, >>=-Talks,
}
use jtag_js.Mk2.Run.{get_program_counter, set_program_counter}

-- RSP_PC or another code, and the word address.
abbrev pub counter_message : ℕ → ℕ → ℕ → Message
counter_message seqno rsp word = record { seqno = seqno; payload = rsp ∷ u32_to_b4 word }

-- The command that writes a word address to the program counter, and the one that reads it.
abbrev pub writes_counter : ℕ → Message → Exchange
writes_counter word m = record { command = 0x06 ∷ u32_to_b4 word; answer = m }

abbrev pub reads_counter : Message → Exchange
reads_counter m = record { command = 0x07 ∷ []; answer = m }

set_program_counter-Talks :
    (pc : ℕ) (m : Message) → Talks (set_program_counter pc) true (writes_counter (pc / 2) m ∷ [])
unfolding set_program_counter
set_program_counter-Talks pc m =
    >>=-Talks (checked_command (0x06 ∷ u32_to_b4 (pc / 2))) (λ _. pure true)
      (record { size = length m.payload; msg = some m.payload }) true
      (writes_counter (pc / 2) m ∷ []) [] (checked_command-Talks (0x06 ∷ u32_to_b4 (pc / 2)) m)
      (pure-Talks true)

get_program_counter-Talks :
    (word seqno rsp : ℕ)
    → word < 2 ^ 32
    → Talks get_program_counter (word * 2) (reads_counter (counter_message seqno rsp word) ∷ [])
unfolding get_program_counter
get_program_counter-Talks word seqno rsp fits =
    let m = counter_message seqno rsp word in
    let same : b4_to_u32 (u32_to_b4 word) ≡ word =
      ap b4_to_u32 (sym (append-nil (u32_to_b4 word))) ∙ b4_to_u32-u32_to_b4 word [] fits in
    subst (λ n. Talks get_program_counter (n * 2) (reads_counter m ∷ [])) same
      (>>=-Talks (checked_command (0x07 ∷ [])) _
        (record { size = length m.payload; msg = some m.payload }) (b4_to_u32 (u32_to_b4 word) * 2)
        (reads_counter m ∷ []) [] (checked_command-Talks (0x07 ∷ []) m)
        (pure-Talks (b4_to_u32 (u32_to_b4 word) * 2)))

-- When the line holds a positive answer to each of the two commands, the second with the word address
-- that the first has written, and takes all writes, setting the program counter and then getting it
-- says these two commands, the first with the address halved, and gives the address back, rounded down
-- to a word.
pub get_program_counter-set :
    (pc rsp seqno : ℕ) (set_answer : Message) (l : Link) (rest : List Event)
    → pc / 2 < 2 ^ 32
    → l.input
      ≡ answers (
          writes_counter (pc / 2) set_answer
          ∷ reads_counter (counter_message seqno rsp (pc / 2))
          ∷ [])
        ++ rest
    → l.writes ≡ []
    → Answered l (
        writes_counter (pc / 2) set_answer
        ∷ reads_counter (counter_message seqno rsp (pc / 2))
        ∷ [])
    → (l' : Link) × ((set_program_counter pc >>= λ _. get_program_counter) l
        ≡ returned (pc / 2 * 2) l')
      × Said l l'
          (writes_counter (pc / 2) set_answer
            ∷ reads_counter (counter_message seqno rsp (pc / 2))
            ∷ [])
          rest
get_program_counter-set pc rsp seqno set_answer l rest fits input writes answered =
    >>=-Talks (set_program_counter pc) (λ _. get_program_counter) true (pc / 2 * 2)
      (writes_counter (pc / 2) set_answer ∷ [])
      (reads_counter (counter_message seqno rsp (pc / 2)) ∷ [])
      (set_program_counter-Talks pc set_answer) (get_program_counter-Talks (pc / 2) seqno rsp fits)
      l rest input writes answered
