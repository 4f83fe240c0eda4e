-- ===== src/Mk1/Breakpoints/Limits.antt =====
-- src/jtagbp.cc: the limits on breakpoints, and adding and deleting.
use jtag_js.Base.{
  ℕ, ◌+◌, ◌/◌, ◌≤◌, ◌<◌, ◌≡◌, ◌≢◌, refl, sym, ◌∙◌, arith, Bool, true, false, Bool-cases, inl, inr,
  ◌&&◌, ◌||◌, List, [], ◌∷◌, ◌++◌, length, length-append, ◌==◌, ==_iff, ==_false,
}
use jtag_js.Gdb.{BpType, code}
use jtag_js.Mk2.Breakpoints.Table.{eq_type, is_code}
use jtag_js.Mk1.Breakpoints.{
  Breakpoint, Breakpoints, max_breakpoints, max_breakpoints_code, max_breakpoints_data, entry,
  any_address, add_breakpoint, remove_entry, delete_breakpoint, delete_all_breakpoints,
  code_breakpoint_at,
}

-- What the arrays can hold, and what the units of the box can.
pub record IsWithin (s : Breakpoints) : Type 0 where
  pub data_fits : length s.bp_data ≤ max_breakpoints_data
  pub total_fits : length s.bp_code + length s.bp_data ≤ max_breakpoints

one_more : (bps : List Breakpoint) (b : Breakpoint) → length (bps ++ b ∷ []) ≡ length bps + 1
one_more bps b = length-append bps (b ∷ [])

not_equal : (a b : ℕ) → (a == b) ≡ false → a ≢ b
not_equal a b e h = true_false (sym ((==_iff a b).1 h) ∙ e)
  where
    true_false : true ≢ false
    true_false e = cc

add_breakpoint-IsWithin :
    (s : Breakpoints) (address : ℕ) (type : BpType)
    → IsWithin s
    → IsWithin (add_breakpoint s address type).1
unfolding add_breakpoint
add_breakpoint-IsWithin s address type v =
    elim (Bool-cases (length s.bp_code + length s.bp_data == max_breakpoints)) [
      | inl e ↦ rw e v
      | inr e ↦ elim (Bool-cases (is_code type)) [
        | inl c ↦ elim (Bool-cases (length s.bp_code == max_breakpoints_code)) [
          | inl e' ↦ rw (e, c, e') v
          | inr e' ↦
              rw (e, c, e')
                record {
                  data_fits = v.data_fits;
                  total_fits = omega (arith, one_more, v.total_fits, not_equal _ _ e);
                }
        ]
        | inr c ↦ elim (Bool-cases (length s.bp_data == max_breakpoints_data)) [
          | inl e' ↦ rw (e, c, e') v
          | inr e' ↦
              rw (e, c, e')
                record {
                  data_fits = omega (arith, one_more, v.data_fits, not_equal _ _ e');
                  total_fits = omega (arith, one_more, v.total_fits, not_equal _ _ e);
                }
        ]
      ]
    ]

length-remove :
    (bps : List Breakpoint) (x : Breakpoint) → length (remove_entry bps x).1 ≤ length bps
unfolding remove_entry
length-remove [] x = omega arith
length-remove (b ∷ bps) x =
    elim (Bool-cases (eq_type b.bp_type x.bp_type && b.address == x.address)) [
      | inl e ↦ rw e (omega arith)
      | inr e ↦ rw e (omega (arith, length-remove bps x))
    ]

delete_breakpoint-IsWithin :
    (s : Breakpoints) (address : ℕ) (type : BpType)
    → IsWithin s
    → IsWithin (delete_breakpoint s address type).1
unfolding delete_breakpoint
delete_breakpoint-IsWithin s address type v = elim (Bool-cases (is_code type)) [
  | inl c ↦
      rw c
        record { data_fits = v.data_fits; total_fits = omega (arith, length-remove, v.total_fits) }
  | inr c ↦ rw c record {
    data_fits = omega (arith, length-remove, v.data_fits);
    total_fits = omega (arith, length-remove, v.total_fits);
  }
]

-- Adding, deleting and deleting all, successful or not, keep the breakpoints within the limits: at
-- most two data breakpoints, and four in all.
pub breakpoints-IsWithin :
    (s : Breakpoints) (address : ℕ) (type : BpType)
    → IsWithin s
    → IsWithin (add_breakpoint s address type).1
      × IsWithin (delete_breakpoint s address type).1
      × IsWithin (delete_all_breakpoints s)
unfolding delete_all_breakpoints
breakpoints-IsWithin s address type v = (
  add_breakpoint-IsWithin s address type v,
  delete_breakpoint-IsWithin s address type v,
  record { data_fits = omega arith; total_fits = omega arith },
)

any-append :
    (test : ℕ → Bool) (bps : List Breakpoint) (b : Breakpoint)
    → test b.address ≡ true
    → any_address test (bps ++ b ∷ []) ≡ true
any-append test [] b h = rw h refl
any-append test (a ∷ bps) b h = rw (any-append test bps b h) (or_true (test a.address))
  where
    or_true : (x : Bool) → (x || true) ≡ true
    or_true true = refl
    or_true false = refl

or_false : (x y : Bool) → (x || y) ≡ false → (x ≡ false) × (y ≡ false)
or_false true y h = (h, absurd (true_false h))
  where
    true_false : true ≢ false
    true_false e = cc
or_false false y h = (refl, h)

and_false : (x : Bool) → (x && false) ≡ false
and_false true = refl
and_false false = refl

remove-append :
    (bps : List Breakpoint) (x : Breakpoint)
    → eq_type x.bp_type x.bp_type ≡ true
    → any_address (λ a. a == x.address) bps ≡ false
    → remove_entry (bps ++ x ∷ []) x ≡ (true, bps)
unfolding remove_entry
remove-append [] x same h = rw (same, (==_iff x.address x.address).1 refl) refl
remove-append (b ∷ bps) x same h =
    let (other, rest) =
      or_false (b.address == x.address) (any_address (λ a. a == x.address) bps) h in
    rw (other, and_false (eq_type b.bp_type x.bp_type), remove-append bps x same rest) refl

-- While there is room, a code breakpoint can be added anywhere and is then found there; deleting it
-- again succeeds, and gives back the breakpoints as they were if it was not among them before.
pub add-delete :
    (s : Breakpoints) (address : ℕ)
    → length s.bp_code + length s.bp_data < max_breakpoints
    → code_breakpoint_at s address ≡ false
    → ((add_breakpoint s address code).0 ≡ true)
      × (code_breakpoint_at (add_breakpoint s address code).1 address ≡ true)
      × (delete_breakpoint (add_breakpoint s address code).1 address code ≡ (true, s))
unfolding add_breakpoint delete_breakpoint code_breakpoint_at
add-delete s address room absent =
    let total =
      ==_false (length s.bp_code + length s.bp_data) max_breakpoints
        (λ e. omega (arith, e, room)) in
    let codes = ==_false (length s.bp_code) max_breakpoints_code (λ e. omega (arith, e, room)) in
    let x = entry address code in
    (
      rw (total, codes) refl,
      rw (total, codes)
          (any-append (λ a. a == address / 2) s.bp_code x
            ((==_iff (address / 2) (address / 2)).1 refl)),
      rw (total, codes) (rw (remove-append s.bp_code x refl absent) refl),
    )
