-- ===== src/Mk2/Command/Attempts.antt =====
-- How often a command goes out: once if it is answered, and never more than ten times.
use jtag_js.Base.{
  ℕ, zero, suc, ◌+◌, ◌≤◌, ◌<◌, ◌≡◌, ◌≢◌, refl, subst, ◌∙◌, arith, Bool, true, false, not, ◌&&◌,
  ◌||◌, Bool-cases, inl, inr, some, List, [], ◌∷◌, ◌++◌, All, length, if◌then◌else◌, ltb, leb,
  lt→ltb, ltb→lt, ◌==◌, get_or, Bytes,
}
use jtag_js.Port.{
  Link, Event, Outcome, returned, thrown, crashed, stuck, hung, M, ◌>>=◌, ◌>>◌, pure, check,
  write_all, safewrite, signal_daemon,
}
use jtag_js.Port.Post.{Post, >>=-Post}
use jtag_js.Port.Writes.{write_all-nil}
use jtag_js.Mk2.Frame.{frame_bytes, send_frame}
use jtag_js.Mk2.Command.{
  Response, is_positive, rsp_ok, rsp_failed, first_byte, next_sequence, max_jtag_comm_attemps, recv,
  Sent, classify, send_jtag_command, reset_endpoints, do_command_loop, do_jtag_command,
  do_simple_loop, do_simple_jtag_command,
}
use jtag_js.Mk2.Command.Sequence.{IsDecided, recv-IsDecided}
use jtag_js.Mk2.Command.Replies.{Message, IsValid, events_of, wire, is_positive_size, recv_finds}

abbrev pub Always : {A : Type 0} → A → Link → Type 0
Always a l = Unit

decided : {A : Type 0} (o : Outcome A) → IsDecided o → Post Always o
decided (returned a l) d = tt
decided (thrown l) d = tt
decided crashed d = tt
decided stuck d = d
decided hung d = tt

check-Post : (ok : Bool) (l : Link) → Post (λ _ _. ok ≡ true) (check ok l)
check-Post true l = refl
check-Post false l = tt

send_frame-Post : (command : Bytes) (l : Link) → Post Always (send_frame command l)
unfolding send_frame safewrite
send_frame-Post command l =
    check-Post' (write_all (frame_bytes l.command_sequence command) l.writes).1 _
  where
    check-Post' : (ok : Bool) (l' : Link) → Post Always (check ok l')
    check-Post' true l' = tt
    check-Post' false l' = tt

-- A command that comes back has counted its try, and was within the limit.
send_jtag_command-Post :
    (command : Bytes) (tries : ℕ) (verify : Bool) (l : Link)
    → Post
        (λ s _. (s.tries ≡ tries + 1) × (tries < max_jtag_comm_attemps))
        (send_jtag_command command tries verify l)
unfolding send_jtag_command classify
send_jtag_command-Post command tries verify l =
    >>=-Post (λ _ _. ltb tries max_jtag_comm_attemps ≡ true) Q
      (check (ltb tries max_jtag_comm_attemps)) (λ _. send_frame command >> receiving) l
      (check-Post (ltb tries max_jtag_comm_attemps) l)
      λ _ l₁ within.
        >>=-Post Always Q (send_frame command) (λ _. receiving) l₁ (send_frame-Post command l₁)
          λ _ l₂ _.
            >>=-Post Always Q recv checking l₂ (decided (recv l₂) (recv-IsDecided l₂)) λ r l₃ _.
              >>=-Post (λ _ _. (not verify || is_positive r.size) ≡ true) Q
                (check (not verify || is_positive r.size)) (λ _. pure (classify (tries + 1) r)) l₃
                (check-Post (not verify || is_positive r.size) l₃)
                λ _ _ _. (refl, ltb→lt tries max_jtag_comm_attemps within)
  where
    Q : Sent → Link → Type 0
    Q s _ = (s.tries ≡ tries + 1) × (tries < max_jtag_comm_attemps)

    checking : Response → M Sent
    checking r = check (not verify || is_positive r.size) >> pure (classify (tries + 1) r)

    receiving : M Sent
    receiving = recv >>= checking

reset_endpoints-Post : (tries : ℕ) (l : Link) → Post Always (reset_endpoints tries l)
unfolding signal_daemon
reset_endpoints-Post tries l = ground arith

if-Post :
    {A : Type 0} (P : A → Link → Type 0) (b : Bool) (x y : Outcome A)
    → Post P x
    → Post P y
    → Post P (if b then x else y)
if-Post P true x y p q = p
if-Post P false x y p q = q

abbrev Counted : ℕ → Outcome Sent → Type 0
Counted tries = Post (λ s _. (s.tries ≡ tries + 1) × (tries < max_jtag_comm_attemps))

pub do_command_loop-Post :
    (fuel : ℕ) (command : Bytes) (retry : Bool) (tries : ℕ) (l : Link)
    → tries ≤ max_jtag_comm_attemps
    → max_jtag_comm_attemps < fuel + tries
    → Post Always (do_command_loop fuel command retry tries l)
unfolding do_command_loop
do_command_loop-Post zero command retry tries l h k = absurd (omega arith)
do_command_loop-Post (suc fuel) command retry tries l h k =
    go (λ t l' below more. do_command_loop-Post fuel command retry t l' below more)
      (send_jtag_command command tries false l) refl (send_jtag_command-Post command tries false l)
  where
    go :
        ((t : ℕ) (l' : Link)
          → t ≤ max_jtag_comm_attemps
          → max_jtag_comm_attemps < fuel + t
          → Post Always (do_command_loop fuel command retry t l'))
        → (o : Outcome Sent) → send_jtag_command command tries false l ≡ o
        → Counted tries o
        → Post Always (do_command_loop (suc fuel) command retry tries l)
    go ih (returned s l') e (count, within) =
        rw (e, do_command_loop)
          (if-Post Always s.positive _ _ tt (
            if-Post Always (is_positive s.response.size || not retry) _ _ tt (
              >>=-Post Always Always (reset_endpoints s.tries)
                (λ _. do_command_loop fuel command retry s.tries) l'
                (reset_endpoints-Post s.tries l')
                λ _ l'' _. ih s.tries l'' (omega arith) (omega arith))))
    go ih (thrown l') e c = rw (e, do_command_loop) tt
    go ih crashed e c = rw (e, do_command_loop) tt
    go ih stuck e c = absurd c
    go ih hung e c = rw (e, do_command_loop) tt

do_simple_loop-Post :
    (fuel command tries : ℕ) (l : Link)
    → tries ≤ max_jtag_comm_attemps
    → max_jtag_comm_attemps < fuel + tries
    → Post Always (do_simple_loop fuel command tries l)
unfolding do_simple_loop
do_simple_loop-Post zero command tries l h k = absurd (omega arith)
do_simple_loop-Post (suc fuel) command tries l h k =
    go (λ t l' below more. do_simple_loop-Post fuel command t l' below more)
      (send_jtag_command (command ∷ []) tries false l) refl
      (send_jtag_command-Post (command ∷ []) tries false l)
  where
    accepted : (b : Bool) (l' : Link) → Post Always (check b l')
    accepted true l' = tt
    accepted false l' = tt

    go :
        ((t : ℕ) (l' : Link)
          → t ≤ max_jtag_comm_attemps
          → max_jtag_comm_attemps < fuel + t
          → Post Always (do_simple_loop fuel command t l'))
        → (o : Outcome Sent) → send_jtag_command (command ∷ []) tries false l ≡ o
        → Counted tries o
        → Post Always (do_simple_loop (suc fuel) command tries l)
    go ih (returned s l') e (count, within) =
        rw (e, do_simple_loop)
          (if-Post Always s.positive _ _
            (accepted (s.response.size == 1 && first_byte s.response == rsp_ok) l')
            (ih s.tries l' (omega arith) (omega arith)))
    go ih (thrown l') e c = rw (e, do_simple_loop) tt
    go ih crashed e c = rw (e, do_simple_loop) tt
    go ih stuck e c = absurd c
    go ih hung e c = rw (e, do_simple_loop) tt

-- On every input, and whatever writes come to, the loops of `doJtagCommand` and of
-- `doSimpleJtagCommand` end within the eleven rounds that the limit on tries allows, unless the line is
-- hung up: neither is cut off by the model.
pub commands_end :
    (command : Bytes) (retry : Bool) (simple : ℕ) (l : Link)
    → (do_jtag_command command retry l ≢ stuck) × (do_simple_jtag_command simple l ≢ stuck)
unfolding do_jtag_command do_simple_jtag_command
commands_end command retry simple l = (
  λ e. subst (Post Always) e (
      do_command_loop-Post (max_jtag_comm_attemps + 1) command retry 0 l (omega arith)
        (omega arith)),
  λ e.
      subst (Post Always) e
        (do_simple_loop-Post (max_jtag_comm_attemps + 1) simple 0 l (omega arith) (omega arith)),
)

send_frame_lem :
    (command : Bytes) (l : Link)
    → send_frame command (record l { writes = [] })
      ≡ returned tt
          (record l { output = l.output ++ frame_bytes l.command_sequence command; writes = [] })
unfolding send_frame safewrite
send_frame_lem command l = rw (write_all-nil (frame_bytes l.command_sequence command), ◌>>=◌)

-- A line that takes all writes, and a try within the limit: the frame goes out, and a response is
-- awaited.
pub send_lem :
    (command : Bytes) (tries : ℕ) (l : Link)
    → tries < max_jtag_comm_attemps
    → send_jtag_command command tries false (record l { writes = [] })
      ≡ (recv >>= λ r. pure (classify (tries + 1) r))
          (record l { output = l.output ++ frame_bytes l.command_sequence command; writes = [] })
unfolding send_jtag_command
send_lem command tries l h =
    rw (lt→ltb tries max_jtag_comm_attemps h, ◌>>=◌) (rw (send_frame_lem command l, ◌>>=◌))

answered_round :
    (fuel : ℕ) (command : Bytes) (retry : Bool) (tries : ℕ) (l l' : Link) (s : Sent)
    → send_jtag_command command tries false l ≡ returned s l'
    → is_positive s.response.size ≡ true
    → do_command_loop (suc fuel) command retry tries l ≡ returned (s.positive, s.response) l'
unfolding do_command_loop
answered_round fuel command retry tries l l' s e p = elim (Bool-cases s.positive) [
  | inl good ↦ rw (e, do_command_loop) (rw good refl)
  | inr bad ↦ rw (e, do_command_loop) (rw (bad, p) refl)
]

-- When the line holds, behind any other well-formed frames, the frame that answers the command, and
-- takes all writes, `doJtagCommand` writes the command's frame once and returns the payload of the
-- answer, with true if its first byte lies from RSP_OK up to below RSP_FAILED, and with false if not;
-- what follows is left on the line, which is ready for the next command.
pub do_jtag_command_answered :
    (command : Bytes) (retry : Bool) (others : List Message) (m : Message) (l : Link)
    (rest : List Event)
    → All (λ o. IsValid o × (o.seqno ≢ l.command_sequence)) others
    → IsValid m
    → m.seqno ≡ l.command_sequence
    → (l' : Link) × (do_jtag_command command retry
          (record l { input = wire others ++ (events_of m ++ rest); writes = [] })
        ≡ returned
            (
              leb rsp_ok (get_or m.payload 0 0) && ltb (get_or m.payload 0 0) rsp_failed,
              record { size = length m.payload; msg = some m.payload },
            )
            l')
      × (l'.input ≡ rest)
      × (l'.output ≡ l.output ++ frame_bytes l.command_sequence command)
      × (l'.command_sequence ≡ next_sequence l.command_sequence)
      × (l'.writes ≡ [])
unfolding do_jtag_command classify
do_jtag_command_answered command retry others m l rest h v e =
    let l₀ = record l { input = wire others ++ (events_of m ++ rest) } in
    let sent = record l {
      output = l.output ++ frame_bytes l.command_sequence command;
      writes = [];
    } in
    let (l', found, input, sequence, output, no_writes) = recv_finds others m sent rest h v e in
    let answer : send_jtag_command command 0 false (record l₀ { writes = [] })
        ≡ returned (classify 1 (record { size = length m.payload; msg = some m.payload })) l' =
      send_lem command 0 l₀ (omega arith) ∙ rw (found, ◌>>=◌) refl in
    (
      l',
      answered_round max_jtag_comm_attemps command retry 0 (record l₀ { writes = [] }) l' _ answer
            (is_positive_size m v)
          ∙ rw (is_positive_size m v) refl,
      input,
      output,
      sequence,
      no_writes,
    )
