-- ===== src/Gdb/Steps.antt =====
-- How a run of `GdbRemote` goes on behind a step that has a result.
use jtag_js.Base.{◌≡◌, refl, some}
use jtag_js.Gdb.{Gdb, Run, got, G, ◌>>=◌, Ask, ask}

pub >>=-got :
    {B A C : Type 0} (run : G B A) (f : A → G B C) (g g' : Gdb B) (a : A) (r : Run B C)
    → run g ≡ got a g'
    → f a g' ≡ r
    → (run >>= f) g ≡ r
>>=-got run f g g' a r e k = rw (◌>>=◌, e) k

pub ask-some :
    {B A : Type 0} (f : Ask B A) (g : Gdb B) (a : A) (box : B)
    → f g.the_jtag_ice ≡ some (a, box)
    → ask f g ≡ got a (record g { the_jtag_ice = box })
ask-some f g a box e = rw (ask, e) refl
