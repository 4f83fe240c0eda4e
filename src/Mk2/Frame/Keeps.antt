-- ===== src/Mk2/Frame/Keeps.antt =====
-- Receiving a frame only reads: what else the link holds stays, and the input gets no longer.
use jtag_js.Base.{ℕ, zero, suc, ◌+◌, ◌≤◌, ◌≡◌, refl, subst, ◌∙◌, arith, length, Bytes}
use jtag_js.Port.{
  Link, Outcome, returned, thrown, crashed, stuck, hung, M, ◌>>=◌, pure, Reading, got, broken,
  spinning, read_bytes, timeout_read, signal_daemon,
}
use jtag_js.Port.Reads.{rest_of, length-rest_of}
use jtag_js.Mk2.Frame.{
  State, s_data, Receiver, Next, going, done, refused, null_write, on_byte, on_payload, next_in,
  recv_loop, recv_frame, fresh_receiver,
}

pub record Keeps (l l' : Link) : Type 0 where
  pub sequence : l'.command_sequence ≡ l.command_sequence
  pub sent : l'.output ≡ l.output
  pub later_writes : l'.writes ≡ l.writes
  pub pipe : l'.ctrl_pipe ≡ l.ctrl_pipe
  pub shorter : length l'.input ≤ length l.input

pub Keeps-trans : {a b c : Link} → Keeps a b → Keeps b c → Keeps a c
Keeps-trans p q = record {
  sequence = q.sequence ∙ p.sequence;
  sent = q.sent ∙ p.sent;
  later_writes = q.later_writes ∙ p.later_writes;
  pipe = q.pipe ∙ p.pipe;
  shorter = omega arith;
}

abbrev pub OutcomeKeeps {ℓ} : {A : Type ℓ} → Link → Outcome A → Type 0
OutcomeKeeps l (returned a l') = Keeps l l'
OutcomeKeeps l (thrown l') = Keeps l l'
OutcomeKeeps l crashed = Unit
OutcomeKeeps l stuck = Unit
OutcomeKeeps l hung = Unit

pub onward {ℓ} :
    {A : Type ℓ} {l l' : Link} (o : Outcome A) → Keeps l l' → OutcomeKeeps l' o → OutcomeKeeps l o
onward (returned x l'') p q = Keeps-trans p q
onward (thrown l'') p q = Keeps-trans p q
onward crashed p q = tt
onward stuck p q = tt
onward hung p q = tt

pub >>=-Keeps :
    {A B : Type 0} (m : M A) (f : A → M B) (l : Link)
    → OutcomeKeeps l (m l)
    → ((a : A) (l' : Link) → OutcomeKeeps l' (f a l'))
    → OutcomeKeeps l ((m >>= f) l)
>>=-Keeps {A} {B} m f l k h = go (m l) k
  where
    go :
        (o : Outcome A)
        → OutcomeKeeps l o
        → OutcomeKeeps l (elim o [
          | returned a l' ↦ f a l'
          | thrown l' ↦ thrown l'
          | crashed ↦ crashed
          | stuck ↦ stuck
          | hung ↦ hung
        ])
    go (returned a l') p = onward (f a l') p (h a l')
    go (thrown l') p = p
    go crashed p = tt
    go stuck p = tt
    go hung p = tt

read_round :
    (l : Link) (f : Bytes → Next) (count : ℕ) (rd : Reading)
    → read_bytes count l.input ≡ rd
    → OutcomeKeeps l ((timeout_read count >>= λ bs. pure (f bs)) l)
unfolding timeout_read
read_round l f count (got bs es) e =
    rw (e, ◌>>=◌, timeout_read)
      (record {
        sequence = refl;
        sent = refl;
        later_writes = refl;
        pipe = refl;
        shorter = subst (λ r. length (rest_of r) ≤ length l.input) e (length-rest_of count l.input);
      })
read_round l f count (broken es) e =
    rw (e, ◌>>=◌, timeout_read)
      (record {
        sequence = refl;
        sent = refl;
        later_writes = refl;
        pipe = refl;
        shorter = subst (λ r. length (rest_of r) ≤ length l.input) e (length-rest_of count l.input);
      })
read_round l f count spinning e = rw (e, ◌>>=◌, timeout_read) tt

next_in-Keeps : (s : State) (r : Receiver) (l : Link) → OutcomeKeeps l (next_in s r l)
unfolding next_in
next_in-Keeps s_data r l = read_round l (on_payload r) r.msglen (read_bytes r.msglen l.input) refl
next_in-Keeps _ r l = read_round l (on_byte l.junk r) 1 (read_bytes 1 l.input) refl

pub recv_loop-Keeps : (fuel : ℕ) (r : Receiver) (l : Link) → OutcomeKeeps l (recv_loop fuel r l)
unfolding recv_loop
recv_loop-Keeps zero r l = tt
recv_loop-Keeps (suc fuel) r l =
    go (λ r' l'. recv_loop-Keeps fuel r' l') (next_in r.state r l) refl (next_in-Keeps r.state r l)
  where
    go :
        ((r' : Receiver) (l' : Link) → OutcomeKeeps l' (recv_loop fuel r' l'))
        → (o : Outcome Next) → next_in r.state r l ≡ o
        → OutcomeKeeps l o
        → OutcomeKeeps l (recv_loop (suc fuel) r l)
    go ih (returned (going r') l') e k =
        rw (e, recv_loop) (onward (recv_loop fuel r' l') k (ih r' l'))
    go ih (returned (done r') l') e k = rw (e, recv_loop) k
    go ih (returned refused l') e k = rw (e, recv_loop) k
    go ih (returned null_write l') e k = rw (e, recv_loop) tt
    go ih (thrown l') e k = rw (e, recv_loop) k
    go ih crashed e k = rw (e, recv_loop) tt
    go ih stuck e k = rw (e, recv_loop) tt
    go ih hung e k = rw (e, recv_loop) tt

pub signal_daemon-Keeps : (cmd : ℕ) (l : Link) → OutcomeKeeps l (signal_daemon cmd l)
unfolding signal_daemon
signal_daemon-Keeps cmd l = ground arith

pub recv_frame-Keeps : (l : Link) → OutcomeKeeps l (recv_frame l)
unfolding recv_frame
recv_frame-Keeps l =
    >>=-Keeps (signal_daemon b'r') (λ _ l'. recv_loop (length l'.input + 1) fresh_receiver l') l
      (signal_daemon-Keeps b'r' l) (λ _ l'. recv_loop-Keeps (length l'.input + 1) fresh_receiver l')
