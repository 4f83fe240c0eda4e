-- ===== src/Mk2/Programmer/Writes/Steps.antt =====
-- Calls of the mkII as the box, as computations on the line.
use jtag_js.Base.{◌≡◌, refl, true, false, Bool, Option, none, some, Bytes}
use jtag_js.Port.{Link, Outcome, returned, thrown, hung, M, pure}
use jtag_js.Mk2.Memory.{Target}
use jtag_js.Mk2.Programmer.{State, answered, with_bytes}
use jtag_js.Image.{Flow, done, failed, crashed, stuck, F, check}
use jtag_js.Fuses.{is_read_back}

-- A write that is not refused.
abbrev pub accepted : Bool × Target → M (Unit {0} × Target)
accepted (true, t) = pure (tt, t)
accepted (false, t) = λ l. thrown l

-- What a response comes to, once programming mode is left.
abbrev pub finished : Bytes → Outcome (Bytes × Target) → Flow State (Unit {0})
finished bits (returned r l) = check (is_read_back bits r.0) (l, r.1)
finished bits (thrown l) = failed
finished bits Outcome.crashed = failed
finished bits Outcome.stuck = failed
finished bits hung = failed

-- A call of the box, and what follows it, is a computation on the line.
pub step :
    {A : Type 0} (bits : Bytes) (o : Outcome (A × Target)) (g : A → F State (Unit {0}))
    (k : A × Target → M (Bytes × Target))
    → ((r : A × Target) (l : Link) → g r.0 (l, r.1) ≡ finished bits (k r l))
    → elim (elim (answered o) as (λ _. Flow State A) [ none ↦ failed | some p ↦ done p.0 p.1 ]) [
      | done a s ↦ g a s
      | failed ↦ failed
      | crashed ↦ crashed
      | stuck ↦ stuck
    ]
      ≡ finished bits (elim o [
        | returned r l ↦ k r l
        | thrown l ↦ thrown l
        | Outcome.crashed ↦ Outcome.crashed
        | Outcome.stuck ↦ Outcome.stuck
        | hung ↦ hung
      ])
step bits (returned r l) g k h = h r l
step bits (thrown l) g k h = refl
step bits Outcome.crashed g k h = refl
step bits Outcome.stuck g k h = refl
step bits hung g k h = refl

-- The response of the mkII is no null pointer.
pub step_read :
    (bits : Bytes) (o : Outcome (Bytes × Target)) (g : Option Bytes → F State (Unit {0}))
    (k : Bytes × Target → M (Bytes × Target))
    → ((r : Bytes × Target) (l : Link) → g (some r.0) (l, r.1) ≡ finished bits (k r l))
    → elim (elim (answered (elim o as (λ _. Outcome (Option Bytes × Target)) [
      | returned r l ↦ with_bytes r l
      | thrown l ↦ thrown l
      | Outcome.crashed ↦ Outcome.crashed
      | Outcome.stuck ↦ Outcome.stuck
      | hung ↦ hung
    ]))
        as (λ _. Flow State (Option Bytes)) [ none ↦ failed | some p ↦ done p.0 p.1 ]) [
          | done a s ↦ g a s
          | failed ↦ failed
          | crashed ↦ crashed
          | stuck ↦ stuck
        ]
      ≡ finished bits (elim o [
        | returned r l ↦ k r l
        | thrown l ↦ thrown l
        | Outcome.crashed ↦ Outcome.crashed
        | Outcome.stuck ↦ Outcome.stuck
        | hung ↦ hung
      ])
step_read bits (returned r l) g k h = h r l
step_read bits (thrown l) g k h = refl
step_read bits Outcome.crashed g k h = refl
step_read bits Outcome.stuck g k h = refl
step_read bits hung g k h = refl
