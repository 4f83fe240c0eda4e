-- ===== src/Mk2/Breakpoints/Ranges.antt =====
-- src/jtag2bp.cc: what becomes of range breakpoints, and of all breakpoints when they are deleted.
use jtag_js.Base.{
  ℕ, zero, suc, ◌≡◌, ◌≢◌, refl, sym, ◌∙◌, Bool, true, false, Bool-cases, inl, inr, ◌&&◌, ◌||◌, List,
  [], ◌∷◌, All, ◌==◌, ==_iff, ==_false, leb, ltb,
}
use jtag_js.Gdb.{BpType, none_type, code, data_mask}
use jtag_js.Mk2.Breakpoints.Table.{
  Breakpoint, default_bp, eq_type, same_type, bp_at, search, Device,
}
use jtag_js.Mk2.Breakpoints.{
  matches, mask_index, any_code, delete_at, delete_breakpoint, delete_all_breakpoints,
  code_breakpoint_at, code_breakpoint_between,
}

-- A search for what no entry passes ends at the end of the table.
search-last :
    (test : Breakpoint → Bool) (bp : List Breakpoint)
    → All (λ b. test b ≡ false) bp
    → (bp_at bp (search test bp)).last ≡ true
unfolding search
search-last test [] h = refl
search-last test (b ∷ bp) (fails, h) = elim (Bool-cases b.last) [
  | inl e ↦ simp e refl
  | inr e ↦ simp (e, fails) (search-last test bp h)
]

at-All :
    (P : Breakpoint → Type 0) (bp : List Breakpoint) (i : ℕ)
    → P default_bp
    → All P bp
    → P (bp_at bp i)
at-All P [] i d h = d
at-All P (b ∷ bp) zero d (p, h) = p
at-All P (b ∷ bp) (suc i) d (p, h) = at-All P bp i d h

-- Entries that `deleteBreakpoint` could mean, but for their mask.
abbrev pub OnlyRanges : ℕ → BpType → List Breakpoint → Type 0
OnlyRanges address type =
    All (λ b. b.address ≡ address → eq_type b.bp_type type ≡ true → b.has_mask ≡ true)

no_match :
    (address : ℕ) (type : BpType) (b : Breakpoint)
    → (b.address ≡ address → eq_type b.bp_type type ≡ true → b.has_mask ≡ true)
    → matches address type b ≡ false
no_match address type b h = elim (Bool-cases (b.address == address)) [
  | inl e ↦ elim (Bool-cases (eq_type b.bp_type type)) [
    | inl e' ↦ rw (e, e', h ((==_iff b.address address).0 e) e') refl
    | inr e' ↦ rw (e, e') refl
  ]
  | inr e ↦ rw e refl
]

no_matches :
    (address : ℕ) (type : BpType) (bp : List Breakpoint)
    → OnlyRanges address type bp
    → All (λ b. matches address type b ≡ false) bp
no_matches address type [] h = tt
no_matches address type (b ∷ bp) (p, h) = (no_match address type b p, no_matches address type bp h)

and_false : (b : Bool) → (b && false) ≡ false
and_false true = refl
and_false false = refl

or_true : (b : Bool) → (b || true) ≡ true
or_true true = refl
or_true false = refl

delete_at-end :
    (device : Device) (bp : List Breakpoint) (address : ℕ) (type : BpType) (i : ℕ)
    → (bp_at bp i).last ≡ true
    → matches address type (bp_at bp i) ≡ false
    → delete_at device bp address type i ≡ (false, bp)
unfolding delete_at
delete_at-end device bp address type i e none_matches =
    rw (delete_at, e, none_matches, or_true (bp_at bp i).enabled) refl

-- When every entry with the given address and type is a range breakpoint, `deleteBreakpoint` fails and
-- leaves the table as it is, so a range that was added is never deleted.
pub delete_breakpoint-OnlyRanges :
    (device : Device) (bp : List Breakpoint) (address : ℕ) (type : BpType)
    → eq_type none_type type ≡ false
    → OnlyRanges address type bp
    → delete_breakpoint device bp address type ≡ (false, bp)
unfolding delete_breakpoint
delete_breakpoint-OnlyRanges device bp address type some_type h =
    let all = no_matches address type bp h in
    delete_at-end device bp address type (search (matches address type) bp)
      (search-last (matches address type) bp all)
      (at-All (λ b. matches address type b ≡ false) bp (search (matches address type) bp)
        (no_match address type default_bp (λ _ e. absurd (true_false (sym e ∙ some_type)))) all)
  where
    true_false : true ≢ false
    true_false e = cc

-- Unless a range begins at the very number that is its mask, the entry to which it points as its mask
-- is the end of the table, not the mask that was added for it.
pub mask_index-last :
    (bp : List Breakpoint) (i mask : ℕ)
    → (bp_at bp i).address ≢ mask
    → (bp_at bp (mask_index bp i mask)).last ≡ true
mask_index-last bp i mask h =
    search-last (λ b. same_type b data_mask && (bp_at bp i).address == mask) bp (never bp)
  where
    never :
        (entries : List Breakpoint)
        → All (λ b. (same_type b data_mask && (bp_at bp i).address == mask) ≡ false) entries
    never [] = tt
    never (b ∷ entries) = (
      rw (==_false (bp_at bp i).address mask h) (and_false (same_type b data_mask)),
      never entries,
    )

none_left :
    (test : ℕ → Bool) (bp : List Breakpoint) → any_code test (delete_all_breakpoints bp) ≡ false
unfolding delete_all_breakpoints
none_left test [] = refl
none_left test (b ∷ bp) = elim (Bool-cases b.last) [
  | inl e ↦ rw e refl
  | inr e ↦ rw e (rw (and_false (same_type b code), and_false (test b.address)) (none_left test bp))
]

-- Once all breakpoints are deleted, there is a code breakpoint at no address and in no range.
pub delete_all_breakpoints-none :
    (bp : List Breakpoint) (address start end_ : ℕ)
    → (code_breakpoint_at (delete_all_breakpoints bp) address ≡ false)
      × (code_breakpoint_between (delete_all_breakpoints bp) start end_ ≡ false)
unfolding code_breakpoint_at code_breakpoint_between
delete_all_breakpoints-none bp address start end_ =
    (none_left (λ a. a == address) bp, none_left (λ a. leb start a && ltb a end_) bp)
