-- ===== src/Mk2/Run/Names.antt =====
-- `parseEvents` of src/jtag2run.cc: the names of events, in a text with commas between them.
use jtag_js.Mk2.Run.{evt_break}
use jtag_js.Base.{
  ℕ, zero, suc, ◌+◌, ◌-◌, Bool, true, false, ◌&&◌, ◌||◌, Option, none, some, List, [], ◌∷◌, leb,
  ◌==◌, if◌then◌else◌, length, set, replicate, Bytes,
}

abbrev pub is_space : ℕ → Bool
is_space c = c == 0x20 || (leb 9 c && leb c 13)

abbrev pub skip_blank : Bytes → Bytes
skip_blank [] = []
skip_blank (c ∷ cs) = if is_space c || c == b',' then skip_blank cs else c ∷ cs

-- The name up to the next comma, and the text from there on.
unfoldable pub take_name : Bytes → Bytes × Bytes
take_name [] = ([], [])
take_name (c ∷ cs) =
    let (name, rest) = take_name cs in if c == b',' then ([], c ∷ cs) else (c ∷ name, rest)

-- strncmp(known, name, length of name) == 0: the known name begins with the given one.
abbrev pub is_prefix : Bytes → Bytes → Bool
is_prefix [] known = true
is_prefix (c ∷ name) [] = false
is_prefix (c ∷ name) (k ∷ known) = k == c && is_prefix name known

-- The number of the first event of the table whose name begins with the given one.
unfoldable pub lookup_event : List (ℕ × Bytes) → Bytes → Option ℕ
lookup_event [] name = none
lookup_event ((number, known) ∷ table) name =
    let rest = lookup_event table name in if is_prefix name known then some number else rest

-- The flag of an event is set; the array has 32 entries.
abbrev pub mark_event : Option ℕ → List Bool → List Bool
mark_event none flags = flags
mark_event (some number) flags = set flags (number - evt_break) true

unfoldable pub parse_names : ℕ → List (ℕ × Bytes) → Bytes → List Bool → List Bool
parse_names zero table text flags = flags
parse_names (suc rounds) table [] flags = flags
parse_names (suc rounds) table (c ∷ text) flags =
    let (name, rest) = take_name (skip_blank (c ∷ text)) in
    parse_names rounds table rest (mark_event (lookup_event table name) flags)

unfoldable pub event_table : List (ℕ × Bytes)
event_table =
    (0xe0, b'b' ∷ b'r' ∷ b'e' ∷ b'a' ∷ b'k' ∷ [])
    ∷ (0xe6, b'd' ∷ b'e' ∷ b'b' ∷ b'u' ∷ b'g' ∷ [])
    ∷ (
      0xe2,
      b'e' ∷ b'r' ∷ b'r' ∷ b'o' ∷ b'r' ∷ b'_' ∷ b'p' ∷ b'h' ∷ b'y' ∷ b'_' ∷ b'f' ∷ b'o' ∷ b'r'
          ∷ b'c' ∷ b'e' ∷ b'_' ∷ b'b' ∷ b'r' ∷ b'e' ∷ b'a' ∷ b'k' ∷ b'_' ∷ b't' ∷ b'i' ∷ b'm' ∷ b'e'
          ∷ b'o' ∷ b'u' ∷ b't' ∷ [],
    )
    ∷ (
      0xed,
      b'e' ∷ b'r' ∷ b'r' ∷ b'o' ∷ b'r' ∷ b'_' ∷ b'p' ∷ b'h' ∷ b'y' ∷ b'_' ∷ b'm' ∷ b'a' ∷ b'x'
          ∷ b'_' ∷ b'b' ∷ b'i' ∷ b't' ∷ b'_' ∷ b'l' ∷ b'e' ∷ b'n' ∷ b'g' ∷ b't' ∷ b'h' ∷ b'_' ∷ b'd'
          ∷ b'i' ∷ b'f' ∷ b'f' ∷ [],
    )
    ∷ (
      0xf9,
      b'e' ∷ b'r' ∷ b'r' ∷ b'o' ∷ b'r' ∷ b'_' ∷ b'p' ∷ b'h' ∷ b'y' ∷ b'_' ∷ b'o' ∷ b'p' ∷ b't'
          ∷ b'_' ∷ b'r' ∷ b'e' ∷ b'c' ∷ b'e' ∷ b'i' ∷ b'v' ∷ b'e' ∷ b'_' ∷ b't' ∷ b'i' ∷ b'm' ∷ b'e'
          ∷ b'o' ∷ b'u' ∷ b't' ∷ [],
    )
    ∷ (
      0xfa,
      b'e' ∷ b'r' ∷ b'r' ∷ b'o' ∷ b'r' ∷ b'_' ∷ b'p' ∷ b'h' ∷ b'y' ∷ b'_' ∷ b'o' ∷ b'p' ∷ b't'
          ∷ b'_' ∷ b'r' ∷ b'e' ∷ b'c' ∷ b'e' ∷ b'i' ∷ b'v' ∷ b'e' ∷ b'd' ∷ b'_' ∷ b'b' ∷ b'r' ∷ b'e'
          ∷ b'a' ∷ b'k' ∷ [],
    )
    ∷ (
      0xf8,
      b'e' ∷ b'r' ∷ b'r' ∷ b'o' ∷ b'r' ∷ b'_' ∷ b'p' ∷ b'h' ∷ b'y' ∷ b'_' ∷ b'r' ∷ b'e' ∷ b'c'
          ∷ b'e' ∷ b'i' ∷ b'v' ∷ b'e' ∷ b'd' ∷ b'_' ∷ b'b' ∷ b'r' ∷ b'e' ∷ b'a' ∷ b'k' ∷ [],
    )
    ∷ (
      0xf7,
      b'e' ∷ b'r' ∷ b'r' ∷ b'o' ∷ b'r' ∷ b'_' ∷ b'p' ∷ b'h' ∷ b'y' ∷ b'_' ∷ b'r' ∷ b'e' ∷ b'c'
          ∷ b'e' ∷ b'i' ∷ b'v' ∷ b'e' ∷ b'_' ∷ b't' ∷ b'i' ∷ b'm' ∷ b'e' ∷ b'o' ∷ b'u' ∷ b't' ∷ [],
    )
    ∷ (
      0xe3,
      b'e' ∷ b'r' ∷ b'r' ∷ b'o' ∷ b'r' ∷ b'_' ∷ b'p' ∷ b'h' ∷ b'y' ∷ b'_' ∷ b'r' ∷ b'e' ∷ b'l'
          ∷ b'e' ∷ b'a' ∷ b's' ∷ b'e' ∷ b'_' ∷ b'b' ∷ b'r' ∷ b'e' ∷ b'a' ∷ b'k' ∷ b'_' ∷ b't' ∷ b'i'
          ∷ b'm' ∷ b'e' ∷ b'o' ∷ b'u' ∷ b't' ∷ [],
    )
    ∷ (
      0xf5,
      b'e' ∷ b'r' ∷ b'r' ∷ b'o' ∷ b'r' ∷ b'_' ∷ b'p' ∷ b'h' ∷ b'y' ∷ b'_' ∷ b's' ∷ b'y' ∷ b'n'
          ∷ b'c' ∷ b'_' ∷ b'o' ∷ b'u' ∷ b't' ∷ b'_' ∷ b'o' ∷ b'f' ∷ b'_' ∷ b'r' ∷ b'a' ∷ b'n' ∷ b'g'
          ∷ b'e' ∷ [],
    )
    ∷ (
      0xf0,
      b'e' ∷ b'r' ∷ b'r' ∷ b'o' ∷ b'r' ∷ b'_' ∷ b'p' ∷ b'h' ∷ b'y' ∷ b'_' ∷ b's' ∷ b'y' ∷ b'n'
          ∷ b'c' ∷ b'_' ∷ b't' ∷ b'i' ∷ b'm' ∷ b'e' ∷ b'o' ∷ b'u' ∷ b't' ∷ [],
    )
    ∷ (
      0xf4,
      b'e' ∷ b'r' ∷ b'r' ∷ b'o' ∷ b'r' ∷ b'_' ∷ b'p' ∷ b'h' ∷ b'y' ∷ b'_' ∷ b's' ∷ b'y' ∷ b'n'
          ∷ b'c' ∷ b'_' ∷ b't' ∷ b'i' ∷ b'm' ∷ b'e' ∷ b'o' ∷ b'u' ∷ b't' ∷ b'_' ∷ b'b' ∷ b'a' ∷ b'u'
          ∷ b'd' ∷ [],
    )
    ∷ (
      0xf6,
      b'e' ∷ b'r' ∷ b'r' ∷ b'o' ∷ b'r' ∷ b'_' ∷ b'p' ∷ b'h' ∷ b'y' ∷ b'_' ∷ b's' ∷ b'y' ∷ b'n'
          ∷ b'c' ∷ b'_' ∷ b'w' ∷ b'a' ∷ b'i' ∷ b't' ∷ b'_' ∷ b't' ∷ b'i' ∷ b'm' ∷ b'e' ∷ b'o' ∷ b'u'
          ∷ b't' ∷ [],
    )
    ∷ (
      0xfb,
      b'r' ∷ b'e' ∷ b's' ∷ b'u' ∷ b'l' ∷ b't' ∷ b'_' ∷ b'p' ∷ b'h' ∷ b'y' ∷ b'_' ∷ b'n' ∷ b'o'
          ∷ b'_' ∷ b'a' ∷ b'c' ∷ b't' ∷ b'i' ∷ b'v' ∷ b'i' ∷ b't' ∷ b'y' ∷ [],
    )
    ∷ (0xe7, b'e' ∷ b'x' ∷ b't' ∷ b'_' ∷ b'r' ∷ b'e' ∷ b's' ∷ b'e' ∷ b't' ∷ [])
    ∷ (
      0xea,
      b'i' ∷ b'c' ∷ b'e' ∷ b'_' ∷ b'p' ∷ b'o' ∷ b'w' ∷ b'e' ∷ b'r' ∷ b'_' ∷ b'e' ∷ b'r' ∷ b'r'
          ∷ b'o' ∷ b'r' ∷ b'_' ∷ b's' ∷ b't' ∷ b'a' ∷ b't' ∷ b'e' ∷ [],
    )
    ∷ (0xeb, b'i' ∷ b'c' ∷ b'e' ∷ b'_' ∷ b'p' ∷ b'o' ∷ b'w' ∷ b'e' ∷ b'r' ∷ b'_' ∷ b'o' ∷ b'k' ∷ [])
    ∷ (0xec, b'i' ∷ b'd' ∷ b'r' ∷ b'_' ∷ b'd' ∷ b'i' ∷ b'r' ∷ b't' ∷ b'y' ∷ [])
    ∷ (0xef, b'n' ∷ b'o' ∷ b'n' ∷ b'e' ∷ [])
    ∷ (0xf2, b'p' ∷ b'd' ∷ b's' ∷ b'b' ∷ b'_' ∷ b'b' ∷ b'r' ∷ b'e' ∷ b'a' ∷ b'k' ∷ [])
    ∷ (0xf3, b'p' ∷ b'd' ∷ b's' ∷ b'm' ∷ b'b' ∷ b'_' ∷ b'b' ∷ b'r' ∷ b'e' ∷ b'a' ∷ b'k' ∷ [])
    ∷ (
      0xf1,
      b'p' ∷ b'r' ∷ b'o' ∷ b'g' ∷ b'r' ∷ b'a' ∷ b'm' ∷ b'_' ∷ b'b' ∷ b'r' ∷ b'e' ∷ b'a' ∷ b'k' ∷ [],
    )
    ∷ (0xe1, b'r' ∷ b'u' ∷ b'n' ∷ [])
    ∷ (
      0xe5,
      b't' ∷ b'a' ∷ b'r' ∷ b'g' ∷ b'e' ∷ b't' ∷ b'_' ∷ b'p' ∷ b'o' ∷ b'w' ∷ b'e' ∷ b'r' ∷ b'_'
          ∷ b'o' ∷ b'f' ∷ b'f' ∷ [],
    )
    ∷ (
      0xe4,
      b't' ∷ b'a' ∷ b'r' ∷ b'g' ∷ b'e' ∷ b't' ∷ b'_' ∷ b'p' ∷ b'o' ∷ b'w' ∷ b'e' ∷ b'r' ∷ b'_'
          ∷ b'o' ∷ b'n' ∷ [],
    )
    ∷ (0xe8, b't' ∷ b'a' ∷ b'r' ∷ b'g' ∷ b'e' ∷ b't' ∷ b'_' ∷ b's' ∷ b'l' ∷ b'e' ∷ b'e' ∷ b'p' ∷ [])
    ∷ (
      0xe9,
      b't' ∷ b'a' ∷ b'r' ∷ b'g' ∷ b'e' ∷ b't' ∷ b'_' ∷ b'w' ∷ b'a' ∷ b'k' ∷ b'e' ∷ b'u' ∷ b'p' ∷ [],
    )
    ∷ []

-- Every round but the last uses up text, so one more round than there is text is enough.
unfoldable pub parse_events : Bytes → List Bool
parse_events evtlist = parse_names (length evtlist + 1) event_table evtlist (replicate 32 false)
