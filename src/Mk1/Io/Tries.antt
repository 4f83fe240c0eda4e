-- ===== src/Mk1/Io/Tries.antt =====
-- src/jtagio.cc: a command ends, and its answer is found.
use jtag_js.Base.{
  ℕ, zero, suc, ◌+◌, ◌<◌, ◌≤◌, ◌≡◌, refl, arith, Bool, true, false, Bool-cases, inl, inr, Option,
  none, some, List, [], ◌∷◌, ◌++◌, map, length, ltb, ltb→lt, ◌==◌, if◌then◌else◌, Bytes,
}
use jtag_js.Port.{
  Link, Event, byte, Reading, got, broken, spinning, read_bytes, Outcome, returned, thrown, crashed,
  stuck, hung, M, ◌>>=◌, ◌>>◌, pure, check, timeout_read, safewrite,
}
use jtag_js.Port.Post.{Post, >>=-Post}
use jtag_js.Port.Reads.{read_bytes-map}
use jtag_js.Port.Writes.{write_all-nil}
use jtag_js.Mk1.Io.{
  max_attempts, r_ok, r_info, SendResult, send_failed, send_ok, mcu_data, info_result, read_answer,
  send_jtag_command, get_jtag_response, sync_command, stop_command, demand, after_sync, after_stop,
  after_command, command_rounds, do_jtag_command,
}

abbrev pub Anything : {A : Type 0} → A → Link → Type 0
Anything a l = Unit

timeout_read-Post : (n : ℕ) (l : Link) → Post Anything (timeout_read n l)
unfolding timeout_read
timeout_read-Post n l = go (read_bytes n l.input)
  where
    go :
        (r : Reading)
        → Post {A = Bytes} Anything (elim r [
          | got bs es ↦ returned bs (record l { input = es })
          | broken es ↦ thrown (record l { input = es })
          | spinning ↦ hung
        ])
    go (got bs es) = tt
    go (broken es) = tt
    go spinning = tt

check-Post : (ok : Bool) (l : Link) → Post (λ _ _. ok ≡ true) (check ok l)
check-Post true l = refl
check-Post false l = tt

read_answer-Post : (answer : Bytes) (l : Link) → Post Anything (read_answer answer l)
read_answer-Post [] l = tt
read_answer-Post (ok ∷ rest) l = elim (Bool-cases (ok == r_ok)) [
  | inl e ↦ rw e tt
  | inr e ↦ elim (Bool-cases (ok == r_info)) [
    | inl e' ↦
        rw (e, e')
          (>>=-Post Anything Anything (timeout_read 2) (λ info. pure (info_result info)) l
            (timeout_read-Post 2 l) (λ _ _ _. tt))
    | inr e' ↦ rw (e, e') tt
  ]
]

-- A command that is sent at all was within the limit on tries.
pub send-Post :
    (command : Bytes) (tries : ℕ) (l : Link)
    → Post (λ _ _. tries < max_attempts) (send_jtag_command command tries l)
unfolding send_jtag_command safewrite
send-Post command tries l =
    >>=-Post (λ _ _. ltb tries max_attempts ≡ true) Q (check (ltb tries max_attempts))
      (λ _. writing) l (check-Post _ l)
      (λ _ l₁ within. >>=-Post Anything Q (safewrite command) checking l₁ tt (λ fine l₂ _.
        >>=-Post Anything Q (check fine) (λ _. reading) l₂ (weak fine l₂)
          (λ _ l₃ _.
            >>=-Post Anything Q (timeout_read 1) read_answer l₃ (timeout_read-Post 1 l₃)
              (λ answer l₄ _.
                lower _ (ltb→lt tries max_attempts within) (read_answer-Post answer l₄)))))
  where
    Q : SendResult → Link → Type 0
    Q r l = tries < max_attempts

    reading : M SendResult
    reading = timeout_read 1 >>= read_answer

    checking : Bool → M SendResult
    checking fine = check fine >> (timeout_read 1 >>= read_answer)

    writing : M SendResult
    writing = safewrite command >>= λ fine. check fine >> (timeout_read 1 >>= read_answer)

    weak : (ok : Bool) (l : Link) → Post Anything (check ok l)
    weak true l = tt
    weak false l = tt

    lower :
        (o : Outcome SendResult)
        → tries < max_attempts
        → Post Anything o
        → Post (λ _ _. tries < max_attempts) o
    lower (returned r l) h p = h
    lower (thrown l) h p = tt
    lower crashed h p = tt
    lower stuck h p = p
    lower hung h p = tt

pub response-Post : (size : ℕ) (l : Link) → Post Anything (get_jtag_response size l)
unfolding get_jtag_response
response-Post size l =
    >>=-Post Anything Anything (timeout_read size)
      (λ bytes. pure (if ltb (length bytes) size then none else some bytes)) l
      (timeout_read-Post size l) (λ _ _ _. tt)

demand-Post : (o : Option Bytes) (l : Link) → Post Anything (demand o l)
demand-Post none l = tt
demand-Post (some bytes) l = tt

abbrev Ending : M Bytes → Type 0
Ending run = (l : Link) → Post Anything (run l)

sync-Post :
    (resync resend : M Bytes) (r : SendResult)
    → Ending resync
    → Ending resend
    → Ending (after_sync resync resend r)
sync-Post resync resend send_ok h k = k
sync-Post resync resend send_failed h k = h
sync-Post resync resend mcu_data h k = h

stop-Post : (resend : M Bytes) (r : SendResult) → Ending resend → Ending (after_stop resend r)
stop-Post resend send_ok h l =
    >>=-Post Anything Anything (get_jtag_response 8) (λ _. resend) l (response-Post 8 l)
      (λ _ l' _. h l')
stop-Post resend send_failed h l = h l
stop-Post resend mcu_data h l = h l

command-Post :
    (size : ℕ) (resync stop : M Bytes) (r : SendResult)
    → Ending resync
    → Ending stop
    → Ending (after_command size resync stop r)
command-Post size resync stop send_ok h k l =
    >>=-Post Anything Anything (get_jtag_response size) demand l (response-Post size l)
      (λ o l' _. demand-Post o l')
command-Post size resync stop send_failed h k l = h l
command-Post size resync stop mcu_data h k l = k l

command_rounds-Post :
    (rounds : ℕ) (syncing : Bool) (command : Bytes) (size tries : ℕ)
    → tries ≤ max_attempts
    → max_attempts < rounds + tries
    → Ending (command_rounds rounds syncing command size tries)
unfolding command_rounds
command_rounds-Post zero syncing command size tries h k l = absurd (omega arith)
command_rounds-Post (suc rounds) true command size tries h k l =
    let resync = command_rounds rounds true command size (tries + 1) in
    let resend = command_rounds rounds false command size (tries + 1) in
    >>=-Post (λ _ _. tries < max_attempts) Anything (send_jtag_command sync_command tries)
      (after_sync resync resend) l (send-Post sync_command tries l)
      (λ r l' within.
        sync-Post resync resend r
          (command_rounds-Post rounds true command size (tries + 1) (omega arith) (omega arith))
          (command_rounds-Post rounds false command size (tries + 1) (omega arith) (omega arith))
          l')
command_rounds-Post (suc rounds) false command size tries h k l =
    let resync = command_rounds rounds true command size (tries + 1) in
    let resend = command_rounds rounds false command size (tries + 2) in
    let stop = send_jtag_command stop_command (tries + 1) >>= after_stop resend in
    >>=-Post (λ _ _. tries < max_attempts) Anything (send_jtag_command command tries)
      (after_command size resync stop) l (send-Post command tries l)
      (λ r l' within.
        command-Post size resync stop r
          (command_rounds-Post rounds true command size (tries + 1) (omega arith) (omega arith))
          (λ l₁.
            >>=-Post (λ _ _. tries + 1 < max_attempts) Anything
              (send_jtag_command stop_command (tries + 1)) (after_stop resend) l₁
              (send-Post stop_command (tries + 1) l₁)
              (λ r' l₂ within'.
                stop-Post resend r'
                  (command_rounds-Post rounds false command size (tries + 2) (omega arith)
                    (omega arith))
                  l₂))
          l')

-- Whatever the mkI answers or leaves unanswered, and whatever writes come to, `doJtagCommand` ends
-- within the rounds that the limit on tries allows, unless the line is hung up.
pub do_jtag_command-Ends :
    (command : Bytes) (size : ℕ) (l : Link) → Post Anything (do_jtag_command command size l)
unfolding do_jtag_command
do_jtag_command-Ends command size l =
    command_rounds-Post (max_attempts + 1) false command size 0 (omega arith) (omega arith) l

sent :
    (command : Bytes) (es : List Event) (l : Link)
    → send_jtag_command command 0 (record l { input = byte r_ok ∷ es; writes = [] })
      ≡ returned send_ok (record l { input = es; writes = []; output = l.output ++ command })
unfolding send_jtag_command safewrite timeout_read read_bytes
sent command es l = rw (send_jtag_command, safewrite, write_all-nil command) refl

ltb_self : (n : ℕ) → ltb n n ≡ false
ltb_self n = ground arith

answered :
    (response : Bytes) (rest : List Event) (l : Link)
    → get_jtag_response (length response) (record l { input = map byte response ++ rest })
      ≡ returned (some response) (record l { input = rest })
unfolding get_jtag_response timeout_read
answered response rest l =
    rw (read_bytes-map response rest, get_jtag_response, timeout_read, ◌>>=◌)
      (rw (ltb_self (length response)) refl)

-- When the mkI answers OK and as many bytes as the response has, and takes all writes, the command is
-- sent once, these bytes are returned, and what follows is left on the line.
pub do_jtag_command-answer :
    (command response : Bytes) (rest : List Event) (l : Link)
    → do_jtag_command command
        (length response)
        (record l { input = byte r_ok ∷ (map byte response ++ rest); writes = [] })
      ≡ returned response (record l { input = rest; writes = []; output = l.output ++ command })
unfolding do_jtag_command command_rounds
do_jtag_command-answer command response rest l =
    let es = map byte response ++ rest in
    let after = record l { writes = []; output = l.output ++ command } in
    rw (do_jtag_command, command_rounds, ◌>>=◌, sent command es l)
      (rw (◌>>=◌, answered response rest after) refl)
