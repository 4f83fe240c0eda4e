-- ===== src/Mk2/Command/Replies.antt =====
-- `recv` finds the response to the current command behind events and stray responses.
use jtag_js.Base.{
  ℕ, zero, suc, ◌≤◌, ◌<◌, ◌≡◌, ◌≢◌, refl, sym, subst, ap, ◌∙◌, arith, true, Bool-cases, inl, inr,
  some, List, [], ◌∷◌, ◌++◌, map, append_assoc, All, length, length-append, length-map, take-append,
  ==_iff, ==_false, Bytes,
}
use jtag_js.Port.{Link, Event, byte, Outcome, returned}
use jtag_js.Mk2.Frame.{max_message, frame_bytes, frame}
use jtag_js.Mk2.Frame.Progress.{signalled}
use jtag_js.Mk2.Frame.RoundTrip.{frame_form, recv_frame-frame_bytes}
use jtag_js.Mk2.Command.{
  Response, is_positive, next_sequence, payload_of, awaited, skip, judge, recv_in, recv,
}

-- A frame on the line: its sequence number and its payload.
pub record Message : Type 0 where
  pub seqno : ℕ
  pub payload : Bytes

pub record IsValid (m : Message) : Type 0 where
  pub non_empty : 0 < length m.payload
  pub fits : length m.payload ≤ max_message
  pub word : m.seqno < 65536

abbrev pub events_of : Message → List Event
events_of m = map byte (frame_bytes m.seqno m.payload)

abbrev pub wire : List Message → List Event
wire [] = []
wire (m ∷ ms) = events_of m ++ wire ms

payload_of-frame_bytes :
    (seqno : ℕ) (payload : Bytes)
    → payload_of (length payload) (frame_bytes seqno payload) ≡ payload
payload_of-frame_bytes seqno payload =
    let (lo, hi, form) = frame_form seqno payload in
    ap (payload_of (length payload)) form ∙ take-append payload (lo ∷ hi ∷ [])

pub is_positive_size : (m : Message) → IsValid m → is_positive (length m.payload) ≡ true
is_positive_size m v = ground arith

signalled_sequence : (l : Link) → (signalled l).command_sequence ≡ l.command_sequence
signalled_sequence l = elim (Bool-cases l.ctrl_pipe) [ inl e ↦ rw e refl | inr e ↦ rw e refl ]

signalled_output : (l : Link) → (signalled l).output ≡ l.output
signalled_output l = elim (Bool-cases l.ctrl_pipe) [ inl e ↦ rw e refl | inr e ↦ rw e refl ]

signalled_writes : (l : Link) → (signalled l).writes ≡ l.writes
signalled_writes l = elim (Bool-cases l.ctrl_pipe) [ inl e ↦ rw e refl | inr e ↦ rw e refl ]

judge_awaited :
    (sequence : ℕ) (m : Message)
    → IsValid m
    → m.seqno ≡ sequence
    → judge sequence (frame (some (frame_bytes m.seqno m.payload)) (length m.payload) m.seqno)
      ≡ awaited (record { size = length m.payload; msg = some m.payload })
unfolding judge
judge_awaited sequence m v e =
    rw (
      is_positive_size m v,
      (==_iff m.seqno sequence).1 e,
      payload_of-frame_bytes m.seqno m.payload,
    )

judge_other :
    (sequence : ℕ) (m : Message)
    → IsValid m
    → m.seqno ≢ sequence
    → judge sequence (frame (some (frame_bytes m.seqno m.payload)) (length m.payload) m.seqno)
      ≡ skip
unfolding judge
judge_other sequence m v ne = rw (is_positive_size m v, ==_false m.seqno sequence ne)

module _ (fuel : ℕ) (m : Message) (v : IsValid m) (l : Link) (es : List Event) where
  recv_in_awaited :
      m.seqno ≡ l.command_sequence
      → recv_in (suc fuel) (record l { input = events_of m ++ es })
        ≡ returned
            (record { size = length m.payload; msg = some m.payload })
            (record (signalled l) {
              input = es;
              command_sequence = next_sequence l.command_sequence;
            })
  unfolding recv_in
  recv_in_awaited e =
      rw (recv_frame-frame_bytes m.payload [] m.seqno l es v.non_empty v.fits v.word tt, recv_in)
        (rw (judge_awaited (signalled l).command_sequence m v (e ∙ sym (signalled_sequence l))) (
          ap
            (λ (s : ℕ).
              returned (record { size = length m.payload; msg = some m.payload })
                (record (signalled l) { input = es; command_sequence = next_sequence s }))
            (signalled_sequence l)))

  recv_in_other :
      m.seqno ≢ l.command_sequence
      → recv_in (suc fuel) (record l { input = events_of m ++ es })
        ≡ recv_in fuel (record (signalled l) { input = es })
  unfolding recv_in
  recv_in_other ne =
      rw (recv_frame-frame_bytes m.payload [] m.seqno l es v.non_empty v.fits v.word tt, recv_in)
        (rw (judge_other (signalled l).command_sequence m v (λ e. ne (e ∙ signalled_sequence l))))

abbrev pub Replied : Message → Link → List Event → Outcome Response → Type 0
Replied m l rest o =
    (l' : Link) × (o ≡ returned (record { size = length m.payload; msg = some m.payload }) l')
    × (l'.input ≡ rest)
    × (l'.command_sequence ≡ next_sequence l.command_sequence)
    × (l'.output ≡ l.output)
    × (l'.writes ≡ l.writes)

recv_in_finds :
    (others : List Message) (fuel : ℕ) (m : Message) (l : Link) (rest : List Event)
    → All (λ o. IsValid o × (o.seqno ≢ l.command_sequence)) others
    → IsValid m
    → m.seqno ≡ l.command_sequence
    → length others < fuel
    → Replied m l rest (recv_in fuel (record l { input = wire others ++ (events_of m ++ rest) }))
recv_in_finds others zero m l rest h v e enough = elim enough [ ]
recv_in_finds [] (suc fuel) m l rest h v e enough =
    (_, recv_in_awaited fuel m v l rest e, refl, refl, signalled_output l, signalled_writes l)
recv_in_finds (o ∷ others) (suc fuel) m l rest ((w, ne), h) v e enough =
    let same = signalled_sequence l in
    let (l', found, input, sequence, output, writes) =
      recv_in_finds others fuel m (signalled l) rest
        (subst (λ s. All (λ x. IsValid x × (x.seqno ≢ s)) others) (sym same) h) v (e ∙ sym same)
        (omega arith) in
    (
      l',
      ap (λ t. recv_in (suc fuel) (record l { input = t }))
            (append_assoc (events_of o) (wire others) (events_of m ++ rest))
          ∙ recv_in_other fuel o w l (wire others ++ (events_of m ++ rest)) ne
          ∙ found,
      input,
      sequence ∙ ap next_sequence same,
      output ∙ signalled_output l,
      writes ∙ signalled_writes l,
    )

length-wire : (ms : List Message) → All IsValid ms → length ms ≤ length (wire ms)
length-wire [] h = omega arith
length-wire (m ∷ ms) (v, h) =
    let (lo, hi, form) = frame_form m.seqno m.payload in
    omega (
      arith,
      length-wire ms h,
      length-append (events_of m) (wire ms),
      length-map byte (frame_bytes m.seqno m.payload),
      ap (λ (t : Bytes). length t) form,
    )

IsValid-of : (ms : List Message) (s : ℕ) → All (λ o. IsValid o × (o.seqno ≢ s)) ms → All IsValid ms
IsValid-of [] s h = tt
IsValid-of (m ∷ ms) s h = (h.0.0, IsValid-of ms s h.1)

-- Behind any number of well-formed frames with other sequence numbers, events among them, `recv`
-- returns the payload of the frame that has the current number, leaves what follows on the line, moves
-- to the next sequence number, and writes nothing to the line.
pub recv_finds :
    (others : List Message) (m : Message) (l : Link) (rest : List Event)
    → All (λ o. IsValid o × (o.seqno ≢ l.command_sequence)) others
    → IsValid m
    → m.seqno ≡ l.command_sequence
    → Replied m l rest (recv (record l { input = wire others ++ (events_of m ++ rest) }))
unfolding recv
recv_finds others m l rest h v e = recv_in_finds others _ m l rest h v e (
    omega (
      arith,
      length-wire others (IsValid-of others l.command_sequence h),
      length-append (wire others) (events_of m ++ rest),
    ))
