-- ===== src/Port/Post.antt =====
-- Postconditions of computations on the link, with their rule for bind.
use jtag_js.Port.{Link, Outcome, returned, thrown, crashed, stuck, hung, M, ◌>>=◌}

-- What is returned meets P; the computation does not run out of rounds. Nothing is said of a line
-- that is hung up.
abbrev pub Post : {A : Type 0} → (A → Link → Type 0) → Outcome A → Type 0
Post P (returned a l) = P a l
Post P (thrown l) = Unit
Post P crashed = Unit
Post P stuck = ⊥
Post P hung = Unit

pub >>=-Post :
    {A B : Type 0} (P : A → Link → Type 0) (Q : B → Link → Type 0) (m : M A) (f : A → M B)
    (l : Link)
    → Post P (m l)
    → ((a : A) (l' : Link) → P a l' → Post Q (f a l'))
    → Post Q ((m >>= f) l)
>>=-Post {A} P Q m f l p h = go (m l) p
  where
    go :
        (o : Outcome A)
        → Post P o
        → Post Q (elim o [
          | returned a l' ↦ f a l'
          | thrown l' ↦ thrown l'
          | crashed ↦ crashed
          | stuck ↦ stuck
          | hung ↦ hung
        ])
    go (returned a l') q = h a l' q
    go (thrown l') q = tt
    go crashed q = tt
    go stuck q = q
    go hung q = tt
