-- ===== src/Mk2/Run/Events.antt =====
-- src/jtag2run.cc: events, and the loop that waits for them.
use jtag_js.Base.{
  ℕ, zero, suc, ◌+◌, ◌-◌, ◌<◌, ◌≤◌, ◌≡◌, refl, arith, Bool, true, false, Bool-cases, inl, inr, ◌⊎◌,
  Option, none, some, List, [], ◌∷◌, ◌++◌, length, length-append, set, length-set, get_or,
  replicate, ◌==◌, Bytes,
}
use jtag_js.Mk2.Run.{evt_break}
use jtag_js.Mk2.Run.Names.{
  is_space, skip_blank, take_name, lookup_event, mark_event, parse_names, event_table, parse_events,
}

-- Text that ends in a comma.
abbrev pub with_comma : Bytes → Bytes
with_comma text = text ++ b',' ∷ []

-- What is left of it behind blanks and commas: nothing, or a name.
abbrev pub Skipped : Bytes → Bytes → Type 0
Skipped text left =
    (left ≡ [])
    ⊎ ((c : ℕ) × (cs : Bytes) × (left ≡ with_comma (c ∷ cs))
        × (length cs < length text)
        × ((c == b',') ≡ false))

longer : (c : ℕ) (text left : Bytes) → Skipped text left → Skipped (c ∷ text) left
longer c text left (inl e) = inl e
longer c text left (inr (d, cs, e, lt, ne)) = inr (d, cs, e, omega arith, ne)

skip_blank-Skipped : (text : Bytes) → Skipped text (skip_blank (with_comma text))
skip_blank-Skipped [] = inl refl
skip_blank-Skipped (c ∷ text) = elim (Bool-cases (is_space c)) [
  | inl e ↦ rw e (longer c text (skip_blank (with_comma text)) (skip_blank-Skipped text))
  | inr e ↦ elim (Bool-cases (c == b',')) [
    | inl e' ↦ rw (e, e') (longer c text (skip_blank (with_comma text)) (skip_blank-Skipped text))
    | inr e' ↦ rw (e, e') (inr (c, text, refl, omega arith, e'))
  ]
]

-- A name ends at the last comma at the latest.
take_name-comma :
    (text : Bytes)
    → (rest : Bytes) × ((take_name (with_comma text)).1 ≡ with_comma rest)
      × (length rest ≤ length text)
unfolding take_name
take_name-comma [] = ([], refl, omega arith)
take_name-comma (c ∷ text) = elim (Bool-cases (c == b',')) [
  | inl e ↦ (c ∷ text, rw e refl, omega arith)
  | inr e ↦ let (rest, ends, short) = take_name-comma text in (rest, rw e ends, omega arith)
]

marked : (o : Option ℕ) (flags : List Bool) → length (mark_event o flags) ≡ length flags
marked none flags = refl
marked (some n) flags = length-set flags (n - evt_break) true

parse_names-nil :
    (rounds : ℕ) (table : List (ℕ × Bytes)) (flags : List Bool)
    → parse_names rounds table [] flags ≡ flags
unfolding parse_names
parse_names-nil zero table flags = refl
parse_names-nil (suc rounds) table flags = refl

-- One round, by what is left behind the blanks.
round :
    (rounds : ℕ) (table : List (ℕ × Bytes)) (text : Bytes) (flags : List Bool)
    → parse_names (suc rounds) table (with_comma text) flags ≡ (
        let (name, rest) = take_name (skip_blank (with_comma text)) in
        parse_names rounds table rest (mark_event (lookup_event table name) flags))
unfolding parse_names
round rounds table [] flags = refl
round rounds table (c ∷ text) flags = refl

set_first : (flags : List Bool) → 0 < length flags → get_or (set flags 0 true) 0 false ≡ true
set_first [] h = elim h [ ]
set_first (b ∷ flags) h = refl

parse_names-comma :
    (rounds : ℕ) (table : List (ℕ × Bytes)) (text : Bytes) (flags : List Bool)
    → lookup_event table [] ≡ some evt_break
    → length text < rounds
    → 0 < length flags
    → get_or (parse_names rounds table (with_comma text) flags) 0 false ≡ true
unfolding take_name
parse_names-comma zero table text flags first enough room = elim enough [ ]
parse_names-comma (suc rounds) table text flags first enough room = elim (skip_blank-Skipped text) [
  | inl blank ↦
      rw (round rounds table text flags, blank, first, parse_names-nil) (set_first flags room)
  | inr (c, cs, left, lt, ne) ↦
      let (rest, ends, short) = take_name-comma cs in
      rw (round rounds table text flags, left, ne, ends)
        (parse_names-comma rounds table rest _ first (omega arith) (omega (arith, room, marked)))
]

-- An event list that ends in a comma marks EVT_BREAK as not breaking, whatever else it names: the
-- empty name behind the comma is taken for the first of the table, "break".
pub parse_events_comma : (text : Bytes) → get_or (parse_events (with_comma text)) 0 false ≡ true
unfolding parse_events lookup_event event_table
parse_events_comma text =
    parse_names-comma (length (with_comma text) + 1) event_table text (replicate 32 false) refl
      (omega (arith, length-append text (b',' ∷ []))) (omega arith)
