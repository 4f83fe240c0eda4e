-- ===== src/Mk2/Setup/Programming.antt =====
-- src/jtag2prog.cc and jtag2rw.cc: the programming mode, and what is said to read and write lock bits
-- and fuses in it.
use jtag_js.Base.{ℕ, ◌+◌, ◌≡◌, refl, Bool, true, false, [], ◌∷◌, ◌==◌, drop, Bytes}
use jtag_js.Port.{M, ◌>>=◌, pure}
use jtag_js.Mk2.Command.{rsp_ok, do_simple_jtag_command, do_simple_loop, checked_command}
use jtag_js.Mk2.Command.Replies.{Message}
use jtag_js.Mk2.Command.Dialogue.{Exchange, Talks, pure-Talks, checked_command-Talks, >>=-Talks}
use jtag_js.Mk2.Memory.{
  Device, Target, enable_programming, disable_programming, jtag_read, jtag_write, read_command,
  memory_space, read_plain, write_command,
}
use jtag_js.Mk2.Setup.{lock_space, fuse_space}
use jtag_js.Mk2.Setup.SignOn.{send-Talks, response_of}

abbrev pub ok : ℕ → Message
ok seqno = record { seqno = seqno; payload = rsp_ok ∷ [] }

abbrev pub simple : ℕ → ℕ → Exchange
simple command seqno = record { command = command ∷ []; answer = ok seqno }

do_simple_jtag_command-Talks :
    (command seqno : ℕ) → Talks (do_simple_jtag_command command) tt (simple command seqno ∷ [])
unfolding do_simple_jtag_command do_simple_loop
do_simple_jtag_command-Talks command seqno l rest e w h =
    let (l', run, said) = send-Talks (command ∷ []) (ok seqno) l rest e w h in
    (l', rw (run, do_simple_loop) refl, said)

abbrev pub programming : Bool → Target → Target
programming on t = record t { programming_enabled = on }

pub enable_programming-Talks :
    (device : Device) (t : Target) (seqno : ℕ)
    → device.use_debug_wire ≡ false
    → Talks (enable_programming device t) (programming true t) (simple 0x14 seqno ∷ [])
unfolding enable_programming
enable_programming-Talks device t seqno jtag = simp jtag (
    >>=-Talks (do_simple_jtag_command 0x14) _ tt (programming true t) (simple 0x14 seqno ∷ []) []
      (do_simple_jtag_command-Talks 0x14 seqno) (pure-Talks (programming true t)))

pub disable_programming-Talks :
    (device : Device) (t : Target) (seqno : ℕ)
    → device.use_debug_wire ≡ false
    → Talks (disable_programming device t) (programming false t) (simple 0x15 seqno ∷ [])
unfolding disable_programming
disable_programming-Talks device t seqno jtag = simp jtag (
    >>=-Talks (do_simple_jtag_command 0x15) _ tt (programming false t) (simple 0x15 seqno ∷ []) []
      (do_simple_jtag_command-Talks 0x15 seqno) (pure-Talks (programming false t)))

abbrev pub read : ℕ → ℕ → Message → Exchange
read space n m = record { command = read_command space n 0; answer = m }

abbrev pub write : ℕ → ℕ → Bytes → Message → Exchange
write space addr bits m = record { command = write_command space addr bits; answer = m }

read_plain-Talks :
    (space n : ℕ) (m : Message)
    → (space == 0xa0) ≡ false
    → Talks (read_plain space 0 n) (drop 1 m.payload) (read space n m ∷ [])
unfolding read_plain
read_plain-Talks space n m e = rw e (
    >>=-Talks (checked_command (read_command space n 0)) _ (response_of m) (drop 1 m.payload)
      (read space n m ∷ []) [] (checked_command-Talks (read_command space n 0) m)
      (pure-Talks (drop 1 m.payload)))

read_at-Talks :
    (space n : ℕ) (t : Target) (m : Message)
    → (space == 0xa0) ≡ false
    → Talks {A = Bytes × Target}
        (read_plain space 0 n >>= λ bytes. pure (bytes, t))
        (drop 1 m.payload, t)
        (read space n m ∷ [])
read_at-Talks space n t m e =
    >>=-Talks (read_plain space 0 n) (λ bytes. pure (bytes, t)) (drop 1 m.payload)
      (drop 1 m.payload, t) (read space n m ∷ []) [] (read_plain-Talks space n m e)
      (pure-Talks (drop 1 m.payload, t))

-- Lock bits and fuses are read and written as they are, in programming mode.
pub read_lock-Talks :
    (device : Device) (t : Target) (m : Message)
    → Talks
        (jtag_read device lock_space 1 (programming true t))
        (drop 1 m.payload, programming true t)
        (read 0xb3 1 m ∷ [])
unfolding jtag_read memory_space
read_lock-Talks device t m =
    let result : Bytes × Target = (drop 1 m.payload, programming true t) in
    >>=-Talks (read_plain 0xb3 0 1 >>= λ bytes. pure (bytes, programming true t)) _ result result
      (read 0xb3 1 m ∷ []) [] (read_at-Talks 0xb3 1 (programming true t) m refl) (pure-Talks result)

pub read_fuses-Talks :
    (device : Device) (t : Target) (m : Message)
    → Talks
        (jtag_read device fuse_space 3 (programming true t))
        (drop 1 m.payload, programming true t)
        (read 0xb2 3 m ∷ [])
unfolding jtag_read memory_space
read_fuses-Talks device t m =
    let result : Bytes × Target = (drop 1 m.payload, programming true t) in
    >>=-Talks (read_plain 0xb2 0 3 >>= λ bytes. pure (bytes, programming true t)) _ result result
      (read 0xb2 3 m ∷ []) [] (read_at-Talks 0xb2 3 (programming true t) m refl) (pure-Talks result)

pub write_lock-Talks :
    (device : Device) (bits : ℕ) (t : Target) (m : Message)
    → Talks
        (jtag_write device lock_space (bits ∷ []) (programming true t))
        (true, programming true t)
        (write 0xb3 0 (bits ∷ []) m ∷ [])
unfolding jtag_write memory_space
write_lock-Talks device bits t m =
    let result : Bool × Target = (true, programming true t) in
    >>=-Talks (checked_command (write_command 0xb3 0 (bits ∷ []))) (λ r. pure result)
      (response_of m) result (write 0xb3 0 (bits ∷ []) m ∷ []) []
      (checked_command-Talks (write_command 0xb3 0 (bits ∷ [])) m) (pure-Talks result)

pub write_high-Talks :
    (device : Device) (bits : ℕ) (t : Target) (m : Message)
    → Talks
        (jtag_write device (fuse_space + 1) (bits ∷ []) (programming true t))
        (true, programming true t)
        (write 0xb2 1 (bits ∷ []) m ∷ [])
unfolding jtag_write memory_space
write_high-Talks device bits t m =
    let result : Bool × Target = (true, programming true t) in
    >>=-Talks (checked_command (write_command 0xb2 1 (bits ∷ []))) (λ r. pure result)
      (response_of m) result (write 0xb2 1 (bits ∷ []) m ∷ []) []
      (checked_command-Talks (write_command 0xb2 1 (bits ∷ [])) m) (pure-Talks result)

-- A write of which only the target is kept.
pub kept-Talks :
    (run : M (Bool × Target)) (t : Target) (x : Exchange)
    → Talks run (true, t) (x ∷ [])
    → Talks (run >>= λ r. pure r.1) t (x ∷ [])
kept-Talks run t x h = >>=-Talks run (λ r. pure r.1) (true, t) t (x ∷ []) [] h (pure-Talks t)
