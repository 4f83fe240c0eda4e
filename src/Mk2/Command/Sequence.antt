-- ===== src/Mk2/Command/Sequence.antt =====
-- The sequence numbers of commands: `recv` takes one step with each response, and never reaches the
-- number 0xffff of events. It also ends on every input.
use jtag_js.Base.{
  ℕ, zero, suc, ◌+◌, ◌<◌, ◌≡◌, ◌≢◌, refl, subst, ap, ◌∙◌, arith, Bool, true, false, none, some,
  List, [], ◌∷◌, length, if◌then◌else◌,
}
use jtag_js.Port.{Link, Event, Outcome, returned, thrown, crashed, stuck, hung}
use jtag_js.Mk2.Frame.{Received, frame, bad_frame, recv_frame}
use jtag_js.Mk2.Frame.Keeps.{Keeps, OutcomeKeeps, recv_frame-Keeps}
use jtag_js.Mk2.Frame.Progress.{Progress, recv_frame-Progress}
use jtag_js.Mk2.Frame.Total.{Ends, recv_frame-Ends}
use jtag_js.Mk2.Command.{
  Response, is_positive, next_sequence, Verdict, answer, awaited, skip, null_read, judge, recv_in,
  recv,
}

-- Only an awaited response has a positive size.
abbrev Sized : Verdict → Type 0
Sized (answer r) = is_positive r.size ≡ false
Sized (awaited r) = is_positive r.size ≡ true
Sized skip = Unit
Sized null_read = Unit

judge-Sized : (sequence : ℕ) (x : Received) → Sized (judge sequence x)
unfolding judge
judge-Sized sequence bad_frame = refl
judge-Sized sequence (frame none len seqno) = ground arith
judge-Sized sequence (frame (some buf) len seqno) = ground arith

-- A response with a positive size is the one to the current command, and moves to the next number;
-- without one the number stays. Nothing is sent.
abbrev pub Numbered : Link → Outcome Response → Type 0
Numbered l (returned r l') =
    (l'.command_sequence
      ≡ (if is_positive r.size then next_sequence l.command_sequence else l.command_sequence))
    × (l'.output ≡ l.output)
Numbered l (thrown l') = (l'.command_sequence ≡ l.command_sequence) × (l'.output ≡ l.output)
Numbered l crashed = Unit
Numbered l stuck = Unit
Numbered l hung = Unit

Numbered-Keeps : {l l' : Link} (o : Outcome Response) → Keeps l l' → Numbered l' o → Numbered l o
Numbered-Keeps (returned r l'') k n = (
  n.0 ∙ ap (λ (t : ℕ). if is_positive r.size then next_sequence t else t) k.sequence,
  n.1 ∙ k.sent,
)
Numbered-Keeps (thrown l'') k n = (n.0 ∙ k.sequence, n.1 ∙ k.sent)
Numbered-Keeps crashed k n = tt
Numbered-Keeps stuck k n = tt
Numbered-Keeps hung k n = tt

recv_in-Numbered : (fuel : ℕ) (l : Link) → Numbered l (recv_in fuel l)
unfolding recv_in
recv_in-Numbered zero l = tt
recv_in-Numbered (suc fuel) l =
    received (λ l'. recv_in-Numbered fuel l') (recv_frame l) refl (recv_frame-Keeps l)
  where
    judged :
        ((l' : Link) → Numbered l' (recv_in fuel l'))
        → (x : Received) (l' : Link) (v : Verdict) → recv_frame l ≡ returned x l'
        → judge l'.command_sequence x ≡ v
        → Sized v
        → Keeps l l'
        → Numbered l (recv_in (suc fuel) l)
    judged ih x l' (answer r) e j s k = rw (e, recv_in) (rw (j, s) (k.sequence, k.sent))
    judged ih x l' (awaited r) e j s k =
        rw (e, recv_in) (rw (j, s) (ap next_sequence k.sequence, k.sent))
    judged ih x l' skip e j s k =
        rw (e, recv_in) (rw j (Numbered-Keeps (recv_in fuel l') k (ih l')))
    judged ih x l' null_read e j s k = rw (e, recv_in) (rw j tt)

    received :
        ((l' : Link) → Numbered l' (recv_in fuel l'))
        → (o : Outcome Received) → recv_frame l ≡ o
        → OutcomeKeeps l o
        → Numbered l (recv_in (suc fuel) l)
    received ih (returned x l') e k =
        judged ih x l' (judge l'.command_sequence x) e refl (judge-Sized l'.command_sequence x) k
    received ih (thrown l') e k = rw (e, recv_in) (k.sequence, k.sent)
    received ih crashed e k = rw (e, recv_in) tt
    received ih stuck e k = rw (e, recv_in) tt
    received ih hung e k = rw (e, recv_in) tt

-- From a number below 0xffff, `recv` stays below it: with a response of positive size it goes to the
-- next number, 0 behind 0xfffe, and without one it keeps the number. It sends nothing.
pub recv-sequence :
    (l l' : Link) (r : Response)
    → l.command_sequence < 0xffff
    → recv l ≡ returned r l'
    → (l'.command_sequence
        ≡ (if is_positive r.size then next_sequence l.command_sequence else l.command_sequence))
      × (l'.command_sequence < 0xffff)
      × (l'.output ≡ l.output)
unfolding recv
recv-sequence l l' r below e =
    let n = subst (Numbered l) e (recv_in-Numbered (length l.input + 1) l) in
    (n.0, omega (arith, n.0, next-below l.command_sequence (is_positive r.size) below), n.1)
  where
    next-below : (s : ℕ) (b : Bool) → s < 0xffff → (if b then next_sequence s else s) < 0xffff
    next-below s true h = ground arith
    next-below s false h = h

-- Not out of rounds.
abbrev pub IsDecided {ℓ} : {A : Type ℓ} → Outcome A → Type 0
IsDecided stuck = ⊥
IsDecided _ = Unit

judge_silence : (sequence : ℕ) → judge sequence (frame none 0 0) ≢ skip
unfolding judge
judge_silence sequence h = cc

recv_in-IsDecided : (fuel : ℕ) (l : Link) → length l.input < fuel → IsDecided (recv_in fuel l)
unfolding recv_in
recv_in-IsDecided zero l h = elim h [ ]
recv_in-IsDecided (suc fuel) l h =
    go (λ l' less. recv_in-IsDecided fuel l' less) (recv_frame l) refl (recv_frame-Progress l)
      (recv_frame-Ends l)
  where
    dropped :
        (es : List Event) (x : Received) (l' : Link)
        → Progress es (returned x l')
        → judge l'.command_sequence x ≡ skip
        → length l'.input < length es
    dropped [] x l' (l'', same) j = absurd (silence x l' l'' same j)
      where
        silence :
            (x : Received) (l' l'' : Link)
            → returned x l' ≡ returned (frame none 0 0) l''
            → judge l'.command_sequence x ≡ skip
            → ⊥
        silence x l' l'' same j = ground (arith, judge_silence l'.command_sequence)
    dropped (e ∷ es) x l' less j = less

    judged :
        ((l' : Link) → length l'.input < fuel → IsDecided (recv_in fuel l'))
        → (x : Received) (l' : Link) (v : Verdict) → recv_frame l ≡ returned x l'
        → judge l'.command_sequence x ≡ v
        → Progress l.input (returned x l')
        → IsDecided (recv_in (suc fuel) l)
    judged ih x l' (answer r) e j p = rw (e, recv_in) (rw j tt)
    judged ih x l' (awaited r) e j p = rw (e, recv_in) (rw j tt)
    judged ih x l' skip e j p =
        rw (e, recv_in) (rw j (ih l' (omega (arith, dropped l.input x l' p j))))
    judged ih x l' null_read e j p = rw (e, recv_in) (rw j tt)

    go :
        ((l' : Link) → length l'.input < fuel → IsDecided (recv_in fuel l'))
        → (o : Outcome Received) → recv_frame l ≡ o
        → Progress l.input o
        → Ends l.input o
        → IsDecided (recv_in (suc fuel) l)
    go ih (returned x l') e p d = judged ih x l' (judge l'.command_sequence x) e refl p
    go ih (thrown l') e p d = rw (e, recv_in) tt
    go ih crashed e p d = absurd d
    go ih stuck e p d = absurd d
    go ih hung e p d = rw (e, recv_in) tt

pub recv-IsDecided : (l : Link) → IsDecided (recv l)
unfolding recv
recv-IsDecided l = recv_in-IsDecided (length l.input + 1) l (omega arith)
