-- ===== src/Mk2/Frame/Total/Sound.antt =====
-- The receiver of `recvFrame` keeps its index and its buffer in step with its state.
use jtag_js.Base.{
  ℕ, ◌+◌, ◌≤◌, ◌≡◌, ◌≢◌, refl, ap, subst, ◌∙◌, arith, Option, none, some, ◌++◌, length, length-set,
  length-append, length-take, length-drop, set, take, drop, Bytes,
}
use jtag_js.Port.{new_buffer}
use jtag_js.Port.Reads.{length-new_buffer}
use jtag_js.Mk2.Frame.{
  State, s_start, s_seqnum1, s_seqnum2, s_size1, s_size2, s_size3, s_size4, s_token, s_data,
  s_csum1, s_csum2, Receiver, Next, going, done, refused, null_write, max_message, append_to,
  close_frame, receive, take_payload,
}

-- How many header bytes have been read in a state.
abbrev pub index_of : State → ℕ
index_of s_start = 0
index_of s_seqnum1 = 1
index_of s_seqnum2 = 2
index_of s_size1 = 3
index_of s_size2 = 4
index_of s_size3 = 5
index_of s_size4 = 6
index_of s_token = 7
index_of _ = 8

abbrev pub Holds : Option Bytes → ℕ → Type 0
Holds none n = ⊥
Holds (some buf) n = length buf ≡ n

-- From the payload on there is a buffer of `msglen + 10` bytes, and `l` points where it should.
abbrev pub BufferInv : State → Receiver → Type 0
BufferInv s_data r = Holds r.buf (r.msglen + 10) × (r.msglen ≤ max_message)
BufferInv s_csum1 r = Holds r.buf (r.msglen + 10) × (r.l ≡ r.msglen + 8)
BufferInv s_csum2 r = Holds r.buf (r.msglen + 10) × (r.l ≡ r.msglen + 9)
BufferInv _ r = Unit

pub record IsSound (r : Receiver) : Type 0 where
  pub header_size : length r.header ≡ 8
  pub index : r.header_idx ≡ index_of r.state
  pub buffer : BufferInv r.state r

abbrev pub SoundNext : Next → Type 0
SoundNext (going r) = IsSound r
SoundNext (done r) = Unit
SoundNext refused = Unit
SoundNext null_write = ⊥

pub new_frame_size :
    (junk : ℕ → ℕ) (header : Bytes) (n : ℕ)
    → length header ≡ 8
    → length (take 8 header ++ drop 8 (new_buffer junk (n + 10))) ≡ n + 10
new_frame_size junk header n h = omega (
  arith,
  length-append (take 8 header) (drop 8 (new_buffer junk (n + 10))),
  length-take 8 header (omega arith),
  length-drop 8 (new_buffer junk (n + 10)),
  length-new_buffer junk (n + 10),
)

pub append_to-IsSound :
    (r : Receiver) (c : ℕ) (o : Option Bytes)
    → Holds o (r.msglen + 10)
    → r.l ≡ r.msglen + 8
    → length r.header ≡ 8
    → r.header_idx ≡ 8
    → SoundNext (append_to r s_csum2 c o)
append_to-IsSound r c none h l hs hi = h
append_to-IsSound r c (some buf) h l hs hi = record {
  header_size = hs;
  index = hi;
  buffer = (length-set buf r.l c ∙ h, omega arith);
}

pub close_frame-IsSound :
    (r : Receiver) (c : ℕ) (o : Option Bytes)
    → Holds o (r.msglen + 10)
    → SoundNext (close_frame r c o)
close_frame-IsSound r c none h = h
close_frame-IsSound r c (some buf) h = ground arith

pub receive-IsSound :
    (junk : ℕ → ℕ) (s : State) (r : Receiver) (c : ℕ)
    → r.state ≡ s
    → s ≢ s_data
    → IsSound r
    → SoundNext (receive junk s r c)
unfolding receive
receive-IsSound junk s_data r c e ne v = absurd (ne refl)
receive-IsSound junk s_token r c e ne v = ground (
  arith,
  length-set r.header r.header_idx c,
  new_frame_size junk (set r.header r.header_idx c) r.msglen,
)
receive-IsSound junk s_csum1 r c e ne v =
    let (holds, at_l) = subst (λ t. BufferInv t r) e v.buffer in
    append_to-IsSound r c r.buf holds at_l v.header_size (v.index ∙ ap index_of e)
receive-IsSound junk s_csum2 r c e ne v =
    close_frame-IsSound r c r.buf (subst (λ t. BufferInv t r) e v.buffer).0
receive-IsSound junk _ r c e ne v = ground (arith, length-set r.header r.header_idx c)

pub take_payload-IsSound :
    (r : Receiver) (bs : Bytes) (o : Option Bytes)
    → Holds o (r.msglen + 10)
    → length bs ≤ r.msglen
    → length r.header ≡ 8
    → r.header_idx ≡ 8
    → SoundNext (take_payload r bs o)
unfolding take_payload
take_payload-IsSound r bs none h fits hs hi = h
take_payload-IsSound r bs (some buf) h fits hs hi = record {
  header_size = hs;
  index = hi;
  buffer = (
    omega (
      arith,
      length-append (take 8 buf) (bs ++ drop (8 + length bs) buf),
      length-append bs (drop (8 + length bs) buf),
      length-take 8 buf (omega arith),
      length-drop (8 + length bs) buf,
    ),
    refl,
  );
}
