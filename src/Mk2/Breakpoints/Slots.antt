-- ===== src/Mk2/Breakpoints/Slots.antt =====
-- src/jtag2bp.cc, `layoutBreakpoints`: the slots that code breakpoints get are free and all different.
use jtag_js.Base.{
  ℕ, zero, suc, ◌+◌, ◌<◌, ◌≡◌, ◌≢◌, refl, sym, ◌∙◌, subst, arith, Bool, true, false, Bool-cases,
  inl, inr, ◌&&◌, List, [], ◌∷◌, ltb, leb, ◌==◌, ==_iff, ==_false, if◌then◌else◌, set, ◌⊎◌, lt→ltb,
  get_or-set_ne,
}
use jtag_js.Mk2.Breakpoints.Table.{Breakpoint}
use jtag_js.Mk2.Breakpoints.Layout.{
  max_breakpoints2, is_free, next_slot, code_slot, wants_code, code_pass,
}

-- The number of code breakpoints, before the end of the table, that are to be downloaded to slot k.
abbrev pub assigned : ℕ → List Breakpoint → ℕ
assigned k [] = 0
assigned k (b ∷ bp) =
    if b.last then 0 else if wants_code b && b.bpnum == k then assigned k bp + 1 else assigned k bp

abbrev pub free_count : List Bool → ℕ → ℕ
free_count slots k = if is_free slots k then 1 else 0

true_is_not : true ≢ false
true_is_not e = cc

leb-false : (a b : ℕ) → leb a b ≡ false → b < a
leb-false a b e = ground arith

-- A slot that the search returns is free, or lies behind the last one.
next_slot-free :
    (rounds : ℕ) (slots : List Bool) (n : ℕ)
    → max_breakpoints2 < rounds + n
    → (max_breakpoints2 < next_slot rounds slots n)
      ⊎ (is_free slots (next_slot rounds slots n) ≡ true)
unfolding next_slot
next_slot-free zero slots n enough = inl (omega arith)
next_slot-free (suc rounds) slots n enough = elim (Bool-cases (is_free slots n)) [
  | inl e ↦ rw e (inr e)
  | inr e ↦ elim (Bool-cases (leb n max_breakpoints2)) [
    | inl e' ↦ rw (e, e') (next_slot-free rounds slots (n + 1) (omega arith))
    | inr e' ↦ rw (e, e') (inl (omega (arith, leb-false, e')))
  ]
]

-- The slot for a code breakpoint is 0, the mark for no slot, or free.
code_slot-cases :
    (softwarebps : Bool) (slots : List Bool)
    → (code_slot softwarebps slots ≡ 0)
      ⊎ ((code_slot softwarebps slots ≡ 0xff)
          ⊎ (is_free slots (code_slot softwarebps slots) ≡ true))
code_slot-cases softwarebps slots = elim (Bool-cases (ltb max_breakpoints2 (next_slot 6 slots 0))) [
  | inl e ↦ elim (Bool-cases softwarebps) [
    | inl e' ↦ rw (e, e') (inl refl)
    | inr e' ↦ rw (e, e') (inr (inl refl))
  ]
  | inr e ↦ elim (next_slot-free 6 slots 0 (omega arith)) [
    | inl h ↦ absurd (true_is_not (sym (lt→ltb _ _ h) ∙ e))
    | inr h ↦ rw e (inr (inr h))
  ]
]

taken : (slots : List Bool) (n : ℕ) → is_free (set slots n false) n ≡ false
taken [] n = refl
taken (x ∷ slots) zero = refl
taken (x ∷ slots) (suc n) = taken slots n

free_count-set_self :
    (slots : List Bool) (n : ℕ)
    → is_free slots n ≡ true
    → 1 + free_count (set slots n false) n ≡ free_count slots n
free_count-set_self slots n h = rw (h, taken slots n) refl

free_count-set_ne :
    (slots : List Bool) (n k : ℕ) → n ≢ k → free_count (set slots n false) k ≡ free_count slots k
free_count-set_ne slots n k h = rw (get_or-set_ne slots n k false false h) refl

code_pass-end :
    (sw : Bool) (b : Breakpoint) (bp : List Breakpoint) (slots : List Bool)
    → b.last ≡ true
    → code_pass sw (b ∷ bp) slots ≡ (true, b ∷ bp, slots)
unfolding code_pass
code_pass-end sw b bp slots e = rw e refl

code_pass-kept :
    (sw : Bool) (b : Breakpoint) (bp : List Breakpoint) (slots : List Bool)
    → b.last ≡ false
    → wants_code b ≡ false
    → code_pass sw (b ∷ bp) slots
      ≡ ((code_pass sw bp slots).0, b ∷ (code_pass sw bp slots).1, (code_pass sw bp slots).2)
unfolding code_pass
code_pass-kept sw b bp slots e w = rw (e, w) refl

code_pass-full :
    (sw : Bool) (b : Breakpoint) (bp : List Breakpoint) (slots : List Bool)
    → b.last ≡ false
    → wants_code b ≡ true
    → code_slot sw slots ≡ 0xff
    → code_pass sw (b ∷ bp) slots ≡ (false, b ∷ bp, slots)
unfolding code_pass
code_pass-full sw b bp slots e w n = rw (e, w, n) refl

abbrev with_slot : Breakpoint → ℕ → Breakpoint
with_slot b n = record b { bpnum = n }

code_pass-placed :
    (sw : Bool) (b : Breakpoint) (bp : List Breakpoint) (slots : List Bool)
    → b.last ≡ false
    → wants_code b ≡ true
    → code_slot sw slots ≢ 0xff
    → code_pass sw (b ∷ bp) slots ≡ (
        let n = code_slot sw slots in
        let r = code_pass sw bp (set slots n false) in (r.0, with_slot b n ∷ r.1, r.2))
unfolding code_pass
code_pass-placed sw b bp slots e w n = rw (e, w, ==_false (code_slot sw slots) 0xff n) refl

abbrev pub Accounts : ℕ → List Bool → Bool × List Breakpoint × List Bool → Type 0
Accounts k slots (room, bp, left) =
    room ≡ true → assigned k bp + free_count left k ≡ free_count slots k

placed :
    (b : Breakpoint) (n k : ℕ) (slots : List Bool) (r : Bool × List Breakpoint × List Bool)
    → b.last ≡ false
    → wants_code b ≡ true
    → 0 < k
    → (n ≡ 0) ⊎ (is_free slots n ≡ true)
    → Accounts k (set slots n false) r
    → Accounts k slots (r.0, with_slot b n ∷ r.1, r.2)
placed b n k slots r e w pos free ih room = elim (Bool-cases (n == k)) [
  | inl same ↦ elim free [
    | inl zero_slot ↦ absurd (omega (arith, zero_slot, pos, (==_iff n k).0 same))
    | inr h ↦
        let nk = (==_iff n k).0 same in
        let freed =
          subst (λ j. 1 + free_count (set slots n false) j ≡ free_count slots j) nk
            (free_count-set_self slots n h) in
        rw (e, w, same) (omega (arith, ih room, freed))
  ]
  | inr other ↦
      let kept = free_count-set_ne slots n k (λ q. true_is_not (sym ((==_iff n k).1 q) ∙ other)) in
      rw (e, w, other) (ih room ∙ kept)
]

code_pass-going :
    (sw : Bool) (b : Breakpoint) (bp : List Breakpoint) (slots : List Bool) (k : ℕ)
    → 0 < k
    → b.last ≡ false
    → wants_code b ≡ true
    → code_slot sw slots ≢ 0xff
    → (code_slot sw slots ≡ 0) ⊎ (is_free slots (code_slot sw slots) ≡ true)
    → Accounts k
        (set slots (code_slot sw slots) false)
        (code_pass sw bp (set slots (code_slot sw slots) false))
    → Accounts k slots (code_pass sw (b ∷ bp) slots)
code_pass-going sw b bp slots k pos e w n free ih =
    subst (Accounts k slots) (sym (code_pass-placed sw b bp slots e w n)) (
      placed b (code_slot sw slots) k slots (code_pass sw bp (set slots (code_slot sw slots) false))
        e w pos free ih)

ended :
    (b : Breakpoint) (bp : List Breakpoint) (slots : List Bool) (k : ℕ)
    → b.last ≡ true
    → assigned k (b ∷ bp) + free_count slots k ≡ free_count slots k
ended b bp slots k e = rw e (omega arith)

-- When a pass has room for all code breakpoints, those that it gives the hardware slot k, and what is
-- then left of k, are together what was free of k before: slot k goes to one breakpoint at most, and
-- to none if it was taken.
pub code_pass-Accounts :
    (softwarebps : Bool) (bp : List Breakpoint) (slots : List Bool) (k : ℕ)
    → 0 < k
    → Accounts k slots (code_pass softwarebps bp slots)
unfolding code_pass
code_pass-Accounts sw [] slots k pos = λ room. omega arith
code_pass-Accounts sw (b ∷ bp) slots k pos = elim (Bool-cases b.last) [
  | inl e ↦
      subst (Accounts k slots) (sym (code_pass-end sw b bp slots e)) (λ _. ended b bp slots k e)
  | inr e ↦ elim (Bool-cases (wants_code b)) [
    | inl w ↦ elim (code_slot-cases sw slots) [
      | inl n ↦
          code_pass-going sw b bp slots k pos e w (λ q. omega (arith, n, q)) (inl n)
            (code_pass-Accounts sw bp (set slots (code_slot sw slots) false) k pos)
      | inr (inl n) ↦ subst (Accounts k slots) (sym (code_pass-full sw b bp slots e w n)) (λ h. cc)
      | inr (inr n) ↦ elim (Bool-cases (code_slot sw slots == 0xff)) [
        | inl full ↦
            subst (Accounts k slots) (sym (code_pass-full sw b bp slots e w ((==_iff _ _).0 full)))
              (λ h. cc)
        | inr some_slot ↦
            code_pass-going sw b bp slots k pos e w
              (λ q. true_is_not (sym ((==_iff _ _).1 q) ∙ some_slot)) (inr n)
              (code_pass-Accounts sw bp (set slots (code_slot sw slots) false) k pos)
      ]
    ]
    | inr w ↦
        subst (Accounts k slots) (sym (code_pass-kept sw b bp slots e w))
          (λ room. rw (e, w) (code_pass-Accounts sw bp slots k pos room))
  ]
]
