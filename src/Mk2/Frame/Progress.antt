-- ===== src/Mk2/Frame/Progress.antt =====
-- A frame uses up an event, unless there is none.
use jtag_js.Base.{
  ℕ, zero, suc, ◌+◌, ◌≤◌, ◌<◌, ◌≡◌, refl, subst, arith, inl, inr, Bool-cases, none, List, [], ◌∷◌,
  ◌++◌, length, if◌then◌else◌,
}
use jtag_js.Port.{
  Link, Event, byte, quiet, fault, hangup, Outcome, returned, thrown, crashed, stuck, hung,
  read_bytes, timeout_read, signal_daemon,
}
use jtag_js.Mk2.Frame.{
  on_byte, receive, next_in, Received, frame, recv_loop, recv_frame, fresh_receiver,
}
use jtag_js.Mk2.Frame.Keeps.{OutcomeKeeps, recv_loop-Keeps}

-- The input got shorter, if there is a result.
abbrev pub Shorter : List Event → Outcome Received → Type 0
Shorter es (returned x l') = length l'.input < length es
Shorter es (thrown l') = Unit
Shorter es crashed = Unit
Shorter es stuck = Unit
Shorter es hung = Unit

Shorter-of :
    (e : Event) (es : List Event) (l : Link) (o : Outcome Received)
    → l.input ≡ es
    → OutcomeKeeps l o
    → Shorter (e ∷ es) o
Shorter-of e es l (returned x l') i k =
    omega (arith, k.shorter, subst (λ t. length l.input ≤ length t) i (omega arith))
Shorter-of e es l (thrown l') i k = tt
Shorter-of e es l crashed i k = tt
Shorter-of e es l stuck i k = tt
Shorter-of e es l hung i k = tt

recv_loop-Shorter :
    (fuel : ℕ) (l : Link) (e : Event) (es : List Event)
    → Shorter (e ∷ es) (recv_loop fuel fresh_receiver (record l { input = e ∷ es }))
unfolding recv_loop next_in on_byte receive timeout_read read_bytes
recv_loop-Shorter zero l e es = tt
recv_loop-Shorter (suc fuel) l (byte c) es =
    Shorter-of (byte c) es (record l { input = es }) _ refl
      (recv_loop-Keeps fuel _ (record l { input = es }))
recv_loop-Shorter (suc fuel) l quiet es = omega arith
recv_loop-Shorter (suc fuel) l fault es = tt
recv_loop-Shorter (suc fuel) l hangup es = tt

-- The silence is a message of length 0.
pub recv_loop_silent :
    (fuel : ℕ) (l : Link)
    → recv_loop (suc fuel) fresh_receiver (record l { input = [] })
      ≡ returned (frame none 0 0) (record l { input = [] })
unfolding recv_loop next_in on_byte timeout_read read_bytes
recv_loop_silent fuel l = refl

-- Either the line is silent, or an event is used up.
abbrev pub Progress : List Event → Outcome Received → Type 0
Progress [] o = (l : Link) × (o ≡ returned (frame none 0 0) l)
Progress (e ∷ es) o = Shorter (e ∷ es) o

loop-Progress :
    (l : Link) (es : List Event)
    → Progress es (recv_loop (length es + 1) fresh_receiver (record l { input = es }))
loop-Progress l [] = (record l { input = [] }, recv_loop_silent 0 l)
loop-Progress l (e ∷ es) = recv_loop-Shorter (length (e ∷ es) + 1) l e es

-- The line behind the signal to the USB daemon.
abbrev pub signalled : Link → Link
signalled l = if l.ctrl_pipe then record l { ctrl_output = l.ctrl_output ++ b'r' ∷ [] } else l

pub recv_frame_lem :
    (l : Link) → recv_frame l ≡ recv_loop (length l.input + 1) fresh_receiver (signalled l)
unfolding recv_frame signal_daemon
recv_frame_lem l = elim (Bool-cases l.ctrl_pipe) [ inl e ↦ rw e refl | inr e ↦ rw e refl ]

signalled-input :
    (l : Link) (es : List Event)
    → record (signalled l) { input = es } ≡ signalled (record l { input = es })
signalled-input l es = elim (Bool-cases l.ctrl_pipe) [ inl e ↦ rw e refl | inr e ↦ rw e refl ]

pub recv_frame-Progress : (l : Link) → Progress l.input (recv_frame l)
recv_frame-Progress l = rw recv_frame_lem (
    subst (λ t. Progress l.input (recv_loop (length l.input + 1) fresh_receiver t))
      (signalled-input l l.input) (loop-Progress (signalled l) l.input))
