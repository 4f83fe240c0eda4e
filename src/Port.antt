-- ===== src/Port.antt =====
-- The line to the JTAG box: src/jtaggeneric.cc `timeout_read`, `safewrite` and `jtagCheck`. What the
-- box and the operating system do is data: the events that reads meet, and the results of writes.
pub mod Reads
pub mod Hangups
pub mod Writes
pub mod Post
use jtag_js.Base.{
  ℕ, zero, suc, ◌-◌, Bool, List, [], ◌∷◌, ◌++◌, map, Bytes, take, drop, length, leb, if◌then◌else◌,
}

-- A byte arrives; nothing arrives for as long as a read waits; a read fails; the line is hung up, and
-- each read from then on brings 0 bytes.
pub data Event : Type 0 where
  byte : ℕ → Event
  quiet fault hangup : Event

-- A write takes some bytes, is interrupted (EINTR), or fails.
pub data WriteResult : Type 0 where
  wrote : ℕ → WriteResult
  interrupted failed : WriteResult

pub record Link : Type 0 where
  pub input : List Event
  pub writes : List WriteResult
  pub output : Bytes
  pub ctrl_pipe : Bool
  pub ctrl_output : Bytes
  pub command_sequence : ℕ
  -- the bit rates that the local port was set to, each behind the number of bytes written before
  pub port_rates : List (ℕ × ℕ)
  -- what the bytes of a new buffer happen to hold
  pub junk : ℕ → ℕ

-- `thrown` is a failed check; `crashed` is a use of a null pointer; `stuck` is a loop of the model
-- that has run out of rounds; `hung` is the loop of `timeout_read` on a line that is hung up, which
-- never ends.
pub data Outcome {ℓ} (A : Type ℓ) : Type ℓ where
  returned : A → Link → Outcome A
  thrown : Link → Outcome A
  crashed stuck hung : Outcome A

abbrev pub M : Type 0 → Type 0
M A = Link → Outcome A

infixl 5 ◌>>=◌ ◌>>◌
abbrev pub ◌>>=◌ : {A B : Type 0} → M A → (A → M B) → M B
◌>>=◌ m f l = elim (m l) [
  | returned a l' ↦ f a l'
  | thrown l' ↦ thrown l'
  | crashed ↦ crashed
  | stuck ↦ stuck
  | hung ↦ hung
]

abbrev pub ◌>>◌ : {A B : Type 0} → M A → M B → M B
m >> k = m >>= λ _. k

abbrev pub pure : {A : Type 0} → A → M A
pure a l = returned a l

abbrev pub throw : {A : Type 0} → M A
throw l = thrown l

-- `check(ok, …)`
abbrev pub check : Bool → M (Unit {0})
check ok l = if ok then returned tt l else thrown l

-- The speed of the local port is set by `tcsetattr`.
abbrev pub set_port_rate : ℕ → M (Unit {0})
set_port_rate rate l =
    returned tt (record l { port_rates = l.port_rates ++ (length l.output, rate) ∷ [] })

-- What a read of some bytes brings: the bytes until the line goes quiet, or an error.
pub data Reading : Type 0 where
  got : Bytes → List Event → Reading
  broken : List Event → Reading
  spinning : Reading

abbrev pub then_got : ℕ → Reading → Reading
then_got b (got bs es) = got (b ∷ bs) es
then_got b (broken es) = broken es
then_got b spinning = spinning

-- The loop of `timeout_read`. The line stays quiet behind the last event.
unfoldable pub read_bytes : ℕ → List Event → Reading
read_bytes zero es = got [] es
read_bytes (suc count) [] = got [] []
read_bytes (suc count) (byte b ∷ es) = then_got b (read_bytes count es)
read_bytes (suc count) (quiet ∷ es) = got [] es
read_bytes (suc count) (fault ∷ es) = broken es
read_bytes (suc count) (hangup ∷ es) = spinning

unfoldable pub timeout_read : ℕ → M Bytes
timeout_read count l = elim (read_bytes count l.input) [
  | got bs es ↦ returned bs (record l { input = es })
  | broken es ↦ thrown (record l { input = es })
  | spinning ↦ hung
]

-- The loop of `safewrite`: what the box got, and whether all of it went out. Behind the last result
-- a write takes all it is given.
pub write_all : Bytes → List WriteResult → Bytes × Bool × List WriteResult
write_all [] rs = ([], Bool.true, rs)
write_all (b ∷ bs) [] = (b ∷ bs, Bool.true, [])
write_all (b ∷ bs) (wrote n ∷ rs) =
    let (sent, fine, rest) = write_all (drop n (b ∷ bs)) rs in (take n (b ∷ bs) ++ sent, fine, rest)
write_all (b ∷ bs) (interrupted ∷ rs) = write_all (b ∷ bs) rs
write_all (b ∷ bs) (failed ∷ rs) = ([], Bool.false, rs)

-- The -1 of a failed write is `false`; the count of a success is the length of the buffer.
unfoldable pub safewrite : Bytes → M Bool
safewrite buffer l =
    let (sent, fine, rest) = write_all buffer l.writes in
    returned fine (record l { output = l.output ++ sent; writes = rest })

-- One byte to the USB daemon, if there is one; its result is not looked at.
unfoldable pub signal_daemon : ℕ → M (Unit {0})
signal_daemon cmd l =
    if l.ctrl_pipe
    then returned tt (record l { ctrl_output = l.ctrl_output ++ cmd ∷ [] })
    else returned tt l

-- A new buffer of n bytes.
abbrev pub new_buffer : (ℕ → ℕ) → ℕ → Bytes
new_buffer junk zero = []
new_buffer junk (suc n) = junk n ∷ new_buffer junk n
