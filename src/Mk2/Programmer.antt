-- ===== src/Mk2/Programmer.antt =====
-- The mkII as the box that images and fuses are written and read through: src/jtag2rw.cc and
-- jtag2prog.cc behind the interface of src/jtaggeneric.cc.
pub mod Writes
use jtag_js.Base.{
  ℕ, ◌≡◌, refl, ap, ◌∙◌, true, false, Option, none, some, List, [], ◌∷◌, ◌++◌, drop, Bytes,
}
use jtag_js.Port.{Link, Event, Outcome, returned, thrown, crashed, stuck, hung, M, ◌>>=◌, pure}
use jtag_js.Mk2.Command.Replies.{Message}
use jtag_js.Mk2.Command.Dialogue.{Exchange, answers, Answered, Said, Talks, pure-Talks, >>=-Talks}
use jtag_js.Mk2.Memory.{
  Device, Target, enable_programming, disable_programming, jtag_read, jtag_write,
}
use jtag_js.Mk2.Setup.{fuse_space}
use jtag_js.Mk2.Setup.Programming.{
  programming, simple, read, enable_programming-Talks, disable_programming-Talks, read_fuses-Talks,
}
use jtag_js.Image.{Programmer, Flow, done, failed, crashed, stuck, F}
use jtag_js.Fuses.{demand, jtag_read_fuses}

abbrev pub State : Type 0
State = Link × Target

-- The state behind an exception, or a use of a null pointer, is not kept.
abbrev pub answered : {A : Type 0} → Outcome (A × Target) → Option (A × State)
answered (returned r l) = some (r.0, (l, r.1))
answered (thrown l) = none
answered Outcome.crashed = none
answered Outcome.stuck = none
answered hung = none

abbrev pub with_unit : Target → M (Unit {0} × Target)
with_unit t = pure (tt, t)

abbrev pub entering : Device → Target → M (Unit {0} × Target)
entering device t = enable_programming device t >>= with_unit

abbrev pub leaving : Device → Target → M (Unit {0} × Target)
leaving device t = disable_programming device t >>= with_unit

abbrev pub with_bytes : Bytes × Target → M (Option Bytes × Target)
with_bytes r = pure (some r.0, r.1)

abbrev pub taking : Device → ℕ → ℕ → Target → M (Option Bytes × Target)
taking device addr n t = jtag_read device addr n t >>= with_bytes

abbrev given : Option Bytes → Target → M (Bytes × Target)
given none t l = thrown l
given (some bits) t l = returned (bits, t) l

abbrev pub programmer : Device → Programmer State
programmer device = record {
  jtag_read = λ addr n s. answered (taking device addr n s.1 s.0);
  jtag_write = λ addr bytes s. answered (jtag_write device addr bytes s.1 s.0);
  enable_programming = λ s. answered (entering device s.1 s.0);
  disable_programming = λ s. answered (leaving device s.1 s.0);
}

-- An outcome on the line, as the result of a command for images and fuses.
abbrev flow_of : {A : Type 0} → Outcome (A × Target) → Flow State A
flow_of (returned r l) = done r.0 (l, r.1)
flow_of (thrown l) = failed
flow_of Outcome.crashed = failed
flow_of Outcome.stuck = failed
flow_of hung = failed

-- A call of the box, and what follows it, is a computation on the line.
step :
    {A C : Type 0} (o : Outcome (A × Target)) (g : A → F State C) (k : A × Target → M (C × Target))
    → ((r : A × Target) (l : Link) → g r.0 (l, r.1) ≡ flow_of (k r l))
    → elim (elim (answered o) as (λ _. Flow State A) [ none ↦ failed | some p ↦ done p.0 p.1 ]) [
      | done a s ↦ g a s
      | failed ↦ failed
      | crashed ↦ crashed
      | stuck ↦ stuck
    ]
      ≡ flow_of (elim o [
        | returned r l ↦ k r l
        | thrown l ↦ thrown l
        | Outcome.crashed ↦ Outcome.crashed
        | Outcome.stuck ↦ Outcome.stuck
        | hung ↦ hung
      ])
step (returned r l) g k h = h r l
step (thrown l) g k h = refl
step Outcome.crashed g k h = refl
step Outcome.stuck g k h = refl
step hung g k h = refl

-- What `jtagReadFuses` does on the line.
abbrev reading : Device → Target → M (Bytes × Target)
reading device t = entering device t >>= λ entered.
    taking device fuse_space 3 entered.1 >>= λ r. leaving device r.1 >>= λ left. given r.0 left.1

given_lem :
    (box : Programmer State) (bits : Option Bytes) (t : Target) (l : Link)
    → demand box bits (l, t) ≡ flow_of (given bits t l)
given_lem box none t l = refl
given_lem box (some bits) t l = refl

reading_lem :
    (device : Device) (t : Target) (l : Link)
    → jtag_read_fuses (programmer device) (l, t) ≡ flow_of (reading device t l)
unfolding jtag_read_fuses
reading_lem device t l =
    step (entering device t l) _
      (λ entered. taking device fuse_space 3 entered.1 >>= λ r.
        leaving device r.1 >>= λ left. given r.0 left.1)
      (λ entered l₁.
        step (taking device fuse_space 3 entered.1 l₁) _
          (λ r. leaving device r.1 >>= λ left. given r.0 left.1)
          (λ r l₂.
            step (leaving device r.1 l₂) _ (λ left. given r.0 left.1)
              (λ left l₃. given_lem (programmer device) r.0 left.1 l₃)))

-- The commands that read the fuses, with the answers.
abbrev pub fuse_reading : ℕ → Message → ℕ → List Exchange
fuse_reading enters m leaves = simple 0x14 enters ∷ read 0xb2 3 m ∷ simple 0x15 leaves ∷ []

reading-Talks :
    (device : Device) (t : Target) (enters leaves : ℕ) (m : Message)
    → device.use_debug_wire ≡ false
    → Talks {A = Bytes × Target}
        (reading device t)
        (drop 1 m.payload, programming false t)
        (fuse_reading enters m leaves)
reading-Talks device t enters leaves m jtag =
    let on = programming true t in
    let off = programming false t in
    let bits = drop 1 m.payload in
    let result : Bytes × Target = (bits, off) in
    let entered : Unit {0} × Target = (tt, on) in
    let left : Unit {0} × Target = (tt, off) in
    let taken : Option Bytes × Target = (some bits, on) in
    >>=-Talks (entering device t) _ entered result (simple 0x14 enters ∷ []) _
      (>>=-Talks (enable_programming device t) with_unit on entered (simple 0x14 enters ∷ []) []
        (enable_programming-Talks device t enters jtag) (pure-Talks entered))
      (>>=-Talks (taking device fuse_space 3 on) _ taken result (read 0xb2 3 m ∷ []) _
        (>>=-Talks (jtag_read device fuse_space 3 on) with_bytes (bits, on) taken
          (read 0xb2 3 m ∷ []) [] (read_fuses-Talks device t m) (pure-Talks taken))
        (>>=-Talks (leaving device on) _ left result (simple 0x15 leaves ∷ []) []
          (>>=-Talks (disable_programming device on) with_unit off left (simple 0x15 leaves ∷ []) []
            (disable_programming-Talks device on leaves jtag) (pure-Talks left))
          (pure-Talks result)))

-- With the mkII under JTAG for its box, when the line holds positive answers and takes all writes,
-- `jtagReadFuses` enters programming mode, asks for three bytes of fuses, leaves the mode, says
-- nothing else, and returns what the box has answered.
pub jtag_read_fuses-programmer :
    (device : Device) (t : Target) (enters leaves : ℕ) (m : Message) (l : Link) (rest : List Event)
    → device.use_debug_wire ≡ false
    → l.input ≡ answers (fuse_reading enters m leaves) ++ rest
    → l.writes ≡ []
    → Answered l (fuse_reading enters m leaves)
    → (l' : Link) × (jtag_read_fuses (programmer device) (l, t)
        ≡ done (drop 1 m.payload) (l', record t { programming_enabled = false }))
      × Said l l' (fuse_reading enters m leaves) rest
jtag_read_fuses-programmer device t enters leaves m l rest jtag e w h =
    let (l', run, said) = reading-Talks device t enters leaves m jtag l rest e w h in
    (l', reading_lem device t l ∙ ap flow_of run, said)
