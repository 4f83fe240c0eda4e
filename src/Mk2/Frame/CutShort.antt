-- ===== src/Mk2/Frame/CutShort.antt =====
-- A frame that is cut short behind its size field.
use jtag_js.Base.{
  ℕ, suc, ◌+◌, ◌*◌, ◌/◌, ◌%◌, ◌^◌, ◌<◌, ◌≡◌, ap, ◌∙◌, arith, true, false, inl, inr, Bool-cases,
  none, List, [], ◌∷◌, ◌++◌, map, length,
}
use jtag_js.Encoding.{u32_to_b4}
use jtag_js.Port.{Link, Event, byte, quiet, returned, timeout_read, read_bytes, signal_daemon}
use jtag_js.Mk2.Frame.{
  message_start, receive, on_byte, next_in, frame, recv_loop, recv_frame, fresh_receiver,
}
use jtag_js.Mk2.Frame.Progress.{signalled}

cut_loop :
    (fuel a b n : ℕ) (l : Link) (rest : List Event)
    → n < 2 ^ 32
    → recv_loop (suc (suc (suc (suc (suc (suc (suc (suc fuel)))))))) fresh_receiver (record l {
      input = byte message_start ∷ byte a ∷ byte b ∷ (map byte (u32_to_b4 n) ++ quiet ∷ rest);
    })
      ≡ returned (frame none n (a + b * 2 ^ 8)) (record l { input = rest })
unfolding recv_loop next_in on_byte receive timeout_read read_bytes u32_to_b4
cut_loop fuel a b n l rest h =
    ap (λ (m : ℕ). returned (frame none m (a + b * 2 ^ 8)) (record l { input = rest }))
      (shifted n h)
  where
    shifted :
        (m : ℕ)
        → m < 2 ^ 32
        → (((0 + m % 256 * 16777216) / 256 + m / 256 % 256 * 16777216) / 256
                + m / 65536 % 256 * 16777216)
              / 256
            + m / 16777216 % 256 * 16777216
          ≡ m
    shifted m h' = omega arith

cut_line :
    (a b n : ℕ) (l : Link) (rest : List Event)
    → n < 2 ^ 32
    → let line = byte message_start ∷ byte a ∷ byte b ∷ (map byte (u32_to_b4 n) ++ quiet ∷ rest) in
      recv_loop (length line + 1) fresh_receiver (record l { input = line })
      ≡ returned (frame none n (a + b * 2 ^ 8)) (record l { input = rest })
unfolding u32_to_b4
cut_line a b n l rest h =
    ap
      (λ (f : ℕ). recv_loop f fresh_receiver (record l {
        input = byte message_start ∷ byte a ∷ byte b ∷ (map byte (u32_to_b4 n) ++ quiet ∷ rest);
      }))
      (enough (length rest))
    ∙ cut_loop (suc (length rest)) a b n l rest h
  where
    enough :
        (m : ℕ)
        → suc (suc (suc (suc (suc (suc (suc (suc m))))))) + 1
          ≡ suc (suc (suc (suc (suc (suc (suc (suc (suc m))))))))
    enough m = omega arith

-- When the line goes quiet between the size and the token of a frame, `recvFrame` returns the size
-- as the length of a message, with a null pointer for the message, instead of 0 as for other timeouts.
pub recv_frame_cut_short :
    (a b n : ℕ) (l : Link) (rest : List Event)
    → n < 2 ^ 32
    → recv_frame (record l {
      input = byte message_start ∷ byte a ∷ byte b ∷ (map byte (u32_to_b4 n) ++ quiet ∷ rest);
    })
      ≡ returned (frame none n (a + b * 2 ^ 8)) (record (signalled l) { input = rest })
unfolding recv_frame signal_daemon u32_to_b4
recv_frame_cut_short a b n l rest h = elim (Bool-cases l.ctrl_pipe) [
  | inl e ↦ rw e (
      cut_line a b n (record l { ctrl_pipe = true; ctrl_output = l.ctrl_output ++ b'r' ∷ [] }) rest
        h)
  | inr e ↦ rw e (cut_line a b n (record l { ctrl_pipe = false }) rest h)
]
