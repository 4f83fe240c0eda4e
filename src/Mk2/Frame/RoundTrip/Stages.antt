-- ===== src/Mk2/Frame/RoundTrip/Stages.antt =====
-- The stages of `recvFrame` on a whole frame: noise, header, payload and checksum.
use jtag_js.Base.{
  ℕ, suc, ◌+◌, ◌*◌, ◌/◌, ◌^◌, ◌≤◌, ◌<◌, ◌≡◌, ◌≢◌, refl, ap, ◌∙◌, arith, true, some, List, [], ◌∷◌,
  ◌++◌, map, length, length-drop, set, take, drop, replicate, ==_false, le→ltb, Bytes,
}
use jtag_js.Crc.{crcverify}
use jtag_js.Port.{Link, Event, byte, returned, new_buffer, read_bytes, timeout_read, ◌>>=◌}
use jtag_js.Port.Reads.{read_bytes-map, length-new_buffer}
use jtag_js.Mk2.Frame.{
  s_data, s_csum1, Receiver, token, message_start, max_message, receive, on_byte, on_payload,
  take_payload, next_in, frame, recv_loop, fresh_receiver,
}

-- The receiver before a frame: noise only touches the first byte of the header.
abbrev pub waiting : ℕ → Receiver
waiting x = record fresh_receiver { header = x ∷ replicate 7 0 }

abbrev pub header_of : ℕ → ℕ → ℕ → ℕ → ℕ → ℕ → Bytes
header_of a b s t u v = message_start ∷ a ∷ b ∷ s ∷ t ∷ u ∷ v ∷ token ∷ []

-- The size as `domsglen` shifts it in.
abbrev pub size_of : ℕ → ℕ → ℕ → ℕ → ℕ
size_of s t u v =
    (((0 / 2 ^ 8 + s * 2 ^ 24) / 2 ^ 8 + t * 2 ^ 24) / 2 ^ 8 + u * 2 ^ 24) / 2 ^ 8 + v * 2 ^ 24

-- The receiver behind a header.
abbrev pub sized : (ℕ → ℕ) → Bytes → ℕ → ℕ → Receiver
sized junk header n seqno = record {
  state = s_data;
  msglen = n;
  l = 0;
  header = header;
  header_idx = 8;
  buf = some (take 8 header ++ drop 8 (new_buffer junk (n + 10)));
  r_seqno = seqno;
}

abbrev pub on_line : Link → List Event → Link
on_line l es = record l { input = es }

pub skip_noise :
    (fuel x c : ℕ) (l : Link) (es : List Event)
    → c ≢ message_start
    → recv_loop (suc fuel) (waiting x) (on_line l (byte c ∷ es))
      ≡ recv_loop fuel (waiting c) (on_line l es)
unfolding recv_loop next_in on_byte receive timeout_read read_bytes
skip_noise fuel x c l es h = rw (==_false c message_start h)

pub read_header :
    (fuel x a b s t u v : ℕ) (l : Link) (es : List Event)
    → size_of s t u v ≤ max_message
    → recv_loop
        (suc (suc (suc (suc (suc (suc (suc (suc fuel))))))))
        (waiting x)
        (on_line l (map byte (header_of a b s t u v) ++ es))
      ≡ recv_loop fuel
          (sized l.junk (header_of a b s t u v) (size_of s t u v) (a + b * 2 ^ 8))
          (on_line l es)
unfolding recv_loop next_in on_byte receive timeout_read read_bytes
read_header fuel x a b s t u v l es fits = rw (le→ltb max_message (size_of s t u v) fits)

-- A payload fills the middle of the buffer; two bytes stay for the checksum.
abbrev pub filled : Receiver → Bytes → ℕ → ℕ → Receiver
filled r payload x y = record r {
  state = s_csum1;
  buf = some ((r.header ++ payload) ++ x ∷ y ∷ []);
  l = r.msglen + 8;
}

pair_of : (xs : Bytes) → length xs ≡ 2 → (x : ℕ) × (y : ℕ) × (xs ≡ x ∷ y ∷ [])
pair_of [] h = absurd (omega arith)
pair_of (x ∷ []) h = absurd (omega arith)
pair_of (x ∷ y ∷ []) h = (x, y, refl)
pair_of (x ∷ y ∷ z ∷ xs) h = absurd (omega arith)

drop_behind :
    (n a b s t u v : ℕ) (xs : Bytes) → drop (8 + n) (header_of a b s t u v ++ xs) ≡ drop n xs
drop_behind n a b s t u v xs = ap (λ (k : ℕ). drop k (header_of a b s t u v ++ xs)) (eight n)
  where
    eight : (k : ℕ) → 8 + k ≡ suc (suc (suc (suc (suc (suc (suc (suc k)))))))
    eight k = omega arith

module _ (fuel a b s t u v seqno : ℕ) (junk : ℕ → ℕ) (l : Link) (es : List Event) where
  read_payload_at :
      (payload : Bytes) (x y : ℕ)
      → 0 < length payload
      → drop (length payload) (drop 8 (new_buffer junk (length payload + 10))) ≡ x ∷ y ∷ []
      → recv_loop
          (suc fuel)
          (sized junk (header_of a b s t u v) (length payload) seqno)
          (on_line l (map byte payload ++ es))
        ≡ recv_loop fuel
            (filled (sized junk (header_of a b s t u v) (length payload) seqno) payload x y)
            (on_line l es)
  unfolding recv_loop next_in timeout_read on_payload take_payload
  read_payload_at [] x y h left = elim h [ ]
  read_payload_at (c ∷ cs) x y h left =
      rw (read_bytes-map (c ∷ cs) es, recv_loop, next_in, timeout_read, ◌>>=◌)
        (rw (
          drop_behind (length (c ∷ cs)) a b s t u v
              (drop 8 (new_buffer junk (length (c ∷ cs) + 10))),
          left,
        ))

  pub read_payload :
      (payload : Bytes)
      → 0 < length payload
      → (x : ℕ) × (y : ℕ) × (recv_loop
            (suc fuel)
            (sized junk (header_of a b s t u v) (length payload) seqno)
            (on_line l (map byte payload ++ es))
          ≡ recv_loop fuel
              (filled (sized junk (header_of a b s t u v) (length payload) seqno) payload x y)
              (on_line l es))
  read_payload payload h =
      let (x, y, left) = pair_of (drop (length payload) fresh) (
        omega (
          arith,
          length-drop (length payload) fresh,
          length-drop 8 (new_buffer junk (length payload + 10)),
          length-new_buffer junk (length payload + 10),
        )) in
      (x, y, read_payload_at payload x y h left)
    where
      fresh : Bytes
      fresh = drop 8 (new_buffer junk (length payload + 10))

pub set_behind : (pre xs : Bytes) (k v : ℕ) → set (pre ++ xs) (length pre + k) v ≡ pre ++ set xs k v
set_behind [] xs k v = ap (λ (i : ℕ). set xs i v) (omega arith)
set_behind (p ∷ pre) xs k v =
    ap (λ (i : ℕ). set (p ∷ (pre ++ xs)) i v) (further (length pre) k)
    ∙ ap (◌∷◌ p) (set_behind pre xs k v)
  where
    further : (m n : ℕ) → suc m + n ≡ suc (m + n)
    further m n = omega arith

-- The two bytes behind n others.
pub set_two :
    (pre : Bytes) (x y lo hi n : ℕ)
    → length pre ≡ n
    → set (set (pre ++ x ∷ y ∷ []) n lo) (n + 1) hi ≡ pre ++ lo ∷ hi ∷ []
set_two pre x y lo hi n e =
    ap (λ (i : ℕ). set (set (pre ++ x ∷ y ∷ []) i lo) (n + 1) hi) first
    ∙ ap (λ (t : Bytes). set t (n + 1) hi) (set_behind pre (x ∷ y ∷ []) 0 lo)
    ∙ ap (λ (i : ℕ). set (pre ++ lo ∷ y ∷ []) i hi) second
    ∙ set_behind pre (lo ∷ y ∷ []) 1 hi
  where
    first : n ≡ length pre + 0
    first = omega arith

    second : n + 1 ≡ length pre + 1
    second = omega arith

pub read_checksum :
    (fuel x y lo hi : ℕ) (pre : Bytes) (r : Receiver) (l : Link) (es : List Event)
    → length pre ≡ r.msglen + 8
    → crcverify (pre ++ lo ∷ hi ∷ []) (r.msglen + 10) ≡ true
    → recv_loop
        (suc (suc fuel))
        (record r { state = s_csum1; buf = some (pre ++ x ∷ y ∷ []); l = r.msglen + 8 })
        (on_line l (byte lo ∷ byte hi ∷ es))
      ≡ returned (frame (some (pre ++ lo ∷ hi ∷ [])) r.msglen r.r_seqno) (on_line l es)
unfolding recv_loop next_in on_byte receive timeout_read read_bytes
read_checksum fuel x y lo hi pre r l es e accepted =
    rw (set_two pre x y lo hi (r.msglen + 8) e, recv_loop, next_in, ◌>>=◌, timeout_read, receive)
      (rw (accepted, recv_loop))
