-- ===== src/Mk2/Frame/Total.antt =====
-- `recvFrame` ends on every input that is not hung up, and writes neither past its header nor past its buffer.
mod Sound
use jtag_js.Base.{
  ℕ, zero, suc, ◌+◌, ◌≤◌, ◌<◌, ◌≡◌, ◌≢◌, refl, ap, subst, ◌∙◌, arith, inl, inr, Bool-cases, Option,
  none, some, List, [], ◌∷◌, ◌++◌, length, length-set, length-append, length-take, length-drop, set,
  take, drop, Bytes,
}
use jtag_js.Port.{
  Link, ◌>>=◌, pure, Event, byte, quiet, fault, hangup, Outcome, returned, thrown, crashed, stuck,
  hung, new_buffer, then_got, read_bytes, signal_daemon, timeout_read, got, broken, spinning,
  Reading,
}
use jtag_js.Port.Hangups.{HangsUp, rest-HangsUp, IsUp, read_bytes-HangsUp}
use jtag_js.Port.Reads.{rest_of, length-rest_of, length-new_buffer}
use jtag_js.Mk2.Frame.{
  State, s_start, s_seqnum1, s_seqnum2, s_size1, s_size2, s_size3, s_size4, s_token, s_data,
  s_csum1, s_csum2, Receiver, Next, going, done, refused, null_write, max_message, append_to,
  close_frame, receive, on_byte, on_payload, take_payload, next_in, Received, recv_loop, recv_frame,
  fresh_receiver,
}
use jtag_js.Mk2.Frame.Total.Sound.{
  IsSound, SoundNext, index_of, Holds, BufferInv, receive-IsSound, take_payload-IsSound,
  new_frame_size, append_to-IsSound, close_frame-IsSound,
}

abbrev bytes_of : Reading → Bytes
bytes_of (got bs es) = bs
bytes_of (broken es) = []
bytes_of spinning = []

length-bytes_of : (n : ℕ) (es : List Event) → length (bytes_of (read_bytes n es)) ≤ n
unfolding read_bytes
length-bytes_of zero es = omega arith
length-bytes_of (suc n) [] = omega arith
length-bytes_of (suc n) (byte b ∷ es) = ground (arith, length-bytes_of n es)
length-bytes_of (suc n) (quiet ∷ es) = omega arith
length-bytes_of (suc n) (fault ∷ es) = omega arith
length-bytes_of (suc n) (hangup ∷ es) = omega arith

-- A round keeps the state sound, unless it throws; it neither crashes nor gets stuck, and it goes on
-- only after it has used up an event.
abbrev pub SoundRound : Link → Outcome Next → Type 0
SoundRound l (returned (going r) l') =
    IsSound r × (length l'.input < length l.input) × (HangsUp l'.input → HangsUp l.input)
SoundRound l (returned n l') = SoundNext n
SoundRound l (thrown l') = Unit
SoundRound l crashed = ⊥
SoundRound l stuck = ⊥
SoundRound l hung = HangsUp l.input

abbrev Uses : List Event → Reading → Type 0
Uses es (got (b ∷ bs) es') = (length es' < length es) × (HangsUp es' → HangsUp es)
Uses es spinning = HangsUp es
Uses es _ = Unit

read_bytes-Uses : (n : ℕ) (es : List Event) → Uses es (read_bytes n es)
unfolding read_bytes
read_bytes-Uses zero es = tt
read_bytes-Uses (suc n) [] = tt
read_bytes-Uses (suc n) (byte b ∷ es) =
    one_more (read_bytes n es) (length-rest_of n es) (rest-HangsUp n es) (read_bytes-HangsUp n es)
  where
    one_more :
        (rd : Reading)
        → length (rest_of rd) ≤ length es
        → (HangsUp (rest_of rd) → HangsUp es)
        → IsUp rd es
        → Uses (byte b ∷ es) (then_got b rd)
    one_more (got bs es') h k s = (omega arith, k)
    one_more (broken es') h k s = tt
    one_more spinning h k s = s
read_bytes-Uses (suc n) (quiet ∷ es) = tt
read_bytes-Uses (suc n) (fault ∷ es) = tt
read_bytes-Uses (suc n) (hangup ∷ es) = tt

-- The common part of both kinds of rounds: a read, and a function of what it brings.
abbrev SoundStep : Receiver → Bytes → Next → Type 0
SoundStep r [] n = n ≡ done r
SoundStep r (b ∷ bs) n = SoundNext n

on_reading :
    (l : Link) (r : Receiver) (f : Bytes → Next) (count : ℕ) (rd : Reading)
    → read_bytes count l.input ≡ rd
    → Uses l.input rd
    → SoundStep r (bytes_of rd) (f (bytes_of rd))
    → SoundRound l ((timeout_read count >>= λ bs. pure (f bs)) l)
unfolding timeout_read
on_reading l r f count (got [] es) e u h = rw (e, ◌>>=◌, timeout_read) (rw h tt)
on_reading l r f count (got (b ∷ bs) es) e u h = rw (e, ◌>>=◌, timeout_read) (sound (f (b ∷ bs)) h)
  where
    sound : (n : Next) → SoundNext n → SoundRound l (returned n (record l { input = es }))
    sound (going r') v = (v, u.0, u.1)
    sound (done r') v = v
    sound refused v = v
    sound null_write v = v
on_reading l r f count (broken es) e u h = rw (e, ◌>>=◌, timeout_read) tt
on_reading l r f count spinning e u h = rw (e, ◌>>=◌, timeout_read) u

on_byte-SoundStep :
    (junk : ℕ → ℕ) (r : Receiver) (bs : Bytes)
    → r.state ≢ s_data
    → IsSound r
    → SoundStep r bs (on_byte junk r bs)
unfolding on_byte
on_byte-SoundStep junk r [] ne v = refl
on_byte-SoundStep junk r (c ∷ bs) ne v = receive-IsSound junk r.state r c refl ne v

on_payload-SoundStep :
    (r : Receiver) (bs : Bytes)
    → r.state ≡ s_data
    → length bs ≤ r.msglen
    → IsSound r
    → SoundStep r bs (on_payload r bs)
unfolding on_payload
on_payload-SoundStep r [] e fits v = refl
on_payload-SoundStep r (b ∷ bs) e fits v =
    take_payload-IsSound r (b ∷ bs) r.buf (subst (λ t. BufferInv t r) e v.buffer).0 fits
      v.header_size (v.index ∙ ap index_of e)

byte_round :
    (l : Link) (r : Receiver)
    → r.state ≢ s_data
    → IsSound r
    → SoundRound l ((timeout_read 1 >>= λ bs. pure (on_byte l.junk r bs)) l)
byte_round l r ne v =
    on_reading l r (on_byte l.junk r) 1 (read_bytes 1 l.input) refl (read_bytes-Uses 1 l.input)
      (on_byte-SoundStep l.junk r (bytes_of (read_bytes 1 l.input)) ne v)

pub next_in-SoundRound :
    (s : State) (l : Link) (r : Receiver) → r.state ≡ s → IsSound r → SoundRound l (next_in s r l)
unfolding next_in
next_in-SoundRound s_data l r e v =
    on_reading l r (on_payload r) r.msglen (read_bytes r.msglen l.input) refl
      (read_bytes-Uses r.msglen l.input)
      (on_payload-SoundStep r (bytes_of (read_bytes r.msglen l.input)) e
        (length-bytes_of r.msglen l.input) v)
next_in-SoundRound _ l r e v = byte_round l r (λ d. cc) v

-- The loop is left, unless the line hangs up.
abbrev pub Ends : List Event → Outcome Received → Type 0
Ends es (returned x l) = Unit
Ends es (thrown l) = Unit
Ends es crashed = ⊥
Ends es stuck = ⊥
Ends es hung = HangsUp es

Ends-more :
    (es es' : List Event) (o : Outcome Received)
    → (HangsUp es' → HangsUp es)
    → Ends es' o
    → Ends es o
Ends-more es es' (returned x l) k d = tt
Ends-more es es' (thrown l) k d = tt
Ends-more es es' crashed k d = d
Ends-more es es' stuck k d = d
Ends-more es es' hung k d = k d

recv_loop-Ends :
    (fuel : ℕ) (r : Receiver) (l : Link)
    → IsSound r
    → length l.input < fuel
    → Ends l.input (recv_loop fuel r l)
unfolding recv_loop
recv_loop-Ends zero r l v h = elim h [ ]
recv_loop-Ends (suc fuel) r l v h =
    go (λ r' l' v' less. recv_loop-Ends fuel r' l' v' (omega arith)) (next_in r.state r l) refl
      (next_in-SoundRound r.state l r refl v)
  where
    go :
        ((r' : Receiver) (l' : Link)
          → IsSound r'
          → length l'.input < length l.input
          → Ends l'.input (recv_loop fuel r' l'))
        → (o : Outcome Next) → next_in r.state r l ≡ o
        → SoundRound l o
        → Ends l.input (recv_loop (suc fuel) r l)
    go ih (returned (going r') l') e (v', less, up) =
        rw (e, recv_loop) (Ends-more l.input l'.input (recv_loop fuel r' l') up (ih r' l' v' less))
    go ih (returned (done r') l') e s = rw (e, recv_loop) tt
    go ih (returned refused l') e s = rw (e, recv_loop) tt
    go ih (returned null_write l') e s = absurd s
    go ih (thrown l') e s = rw (e, recv_loop) tt
    go ih crashed e s = absurd s
    go ih stuck e s = absurd s
    go ih hung e s = rw (e, recv_loop) s

fresh_receiver-IsSound : IsSound fresh_receiver
fresh_receiver-IsSound = record { header_size = refl; index = refl; buffer = tt }

-- Whatever finitely many events the line brings, with gaps, failures and noise among them, `recvFrame`
-- comes to an end by returning or by throwing, and uses no buffer that it has not made. The one
-- exception is a line that is hung up, whose reads bring 0 bytes for ever.
pub recv_frame-Ends : (l : Link) → Ends l.input (recv_frame l)
unfolding recv_frame signal_daemon
recv_frame-Ends l = elim (Bool-cases l.ctrl_pipe) [
  | inl e ↦ rw e (recv_loop-Ends _ fresh_receiver _ fresh_receiver-IsSound (omega arith))
  | inr e ↦ rw e (recv_loop-Ends _ fresh_receiver _ fresh_receiver-IsSound (omega arith))
]
