-- ===== src/Gdb/Parse.antt =====
-- src/remote.cc, `talkToGdb`: how the arguments of the commands are read.
use jtag_js.Base.{ℕ, ◌^◌, ◌&&◌, Option, none, some, ltb, ◌==◌, if◌then◌else◌, get_or, drop, Bytes}
use jtag_js.Encoding.{hex_to_int}

infixl 5 ◌>>=◌
abbrev ◌>>=◌ : {A B : Type 0} → Option A → (A → Option B) → Option B
◌>>=◌ none f = none
◌>>=◌ (some a) f = f a

-- `hexToInt(&ptr, &x)`: the number, if there is at least one digit, and what follows it.
abbrev pub parse_hex : Bytes → Option (ℕ × Bytes)
parse_hex ptr =
    let (rest, value, num_chars) = hex_to_int ptr in
    if num_chars == 0 then none else some (value, rest)

-- `*ptr++ == c`
abbrev pub expect : ℕ → Bytes → Option Bytes
expect c ptr = if get_or ptr 0 0 == c then some (drop 1 ptr) else none

-- "%x,%x" and what follows it.
unfoldable pub parse_span : Bytes → Option (ℕ × ℕ × Bytes)
parse_span ptr = do
  (addr, ptr) ← parse_hex ptr
  ptr ← expect b',' ptr
  (len, ptr) ← parse_hex ptr
  some (addr, len, ptr)

-- "%x,%x:" with a positive length.
unfoldable pub parse_write : Bytes → Option (ℕ × ℕ × Bytes)
parse_write ptr = do
  (addr, len, ptr) ← parse_span ptr
  ptr ← expect b':' ptr
  if ltb 0 len && ltb len (2 ^ 31) then some (addr, len, ptr) else none

-- "%x,%x,%x"
unfoldable pub parse_breakpoint : Bytes → Option (ℕ × ℕ × ℕ)
parse_breakpoint ptr = do
  (i, ptr) ← parse_hex ptr
  ptr ← expect b',' ptr
  (addr, len, _) ← parse_span ptr
  some (i, addr, len)
