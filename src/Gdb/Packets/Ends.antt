-- ===== src/Gdb/Packets/Ends.antt =====
-- src/remote.cc, `getpacket`: reading a packet ends, whatever gdb sends.
use jtag_js.Base.{
  ℕ, zero, suc, ◌+◌, ◌-◌, ◌≤◌, ◌<◌, ◌%◌, ◌≡◌, refl, arith, Bool-cases, inl, inr, Option, none, some,
  [], ◌∷◌, length, ◌==◌, get_or, set, if◌then◌else◌, Bytes,
}
use jtag_js.Encoding.{hex_pair}
use jtag_js.Gdb.{JtagIce, Gdb, Run, got, exited, failed, overrun, stuck, G, ◌>>=◌, ◌>>◌, ask, Ask}
use jtag_js.Gdb.Packets.{
  bufmax, put_attempts, putpacket, gdb_exited, skip_to_start, Scanned, closed, overlong, complete,
  put_debug_char, gdb_out, read_packet, complain, accept, after_scan, c_string, getpacket_in,
  getpacket,
}

-- The run ends, with at most n characters left to read if it has a result.
abbrev pub Ends : {B A : Type 0} → ℕ → Run B A → Type 0
Ends n (got a g) = length g.input ≤ n
Ends n (exited status g) = Unit
Ends n failed = Unit
Ends n overrun = Unit
Ends n stuck = ⊥

abbrev pub OptionEnds : ℕ → Option Bytes → Type 0
OptionEnds n none = Unit
OptionEnds n (some rest) = length rest < n

option_weaker : (n : ℕ) (o : Option Bytes) → OptionEnds n o → OptionEnds (suc n) o
option_weaker n none h = tt
option_weaker n (some rest) h = omega arith

skip-Ends : (input : Bytes) → OptionEnds (length input) (skip_to_start input)
unfolding skip_to_start
skip-Ends [] = tt
skip-Ends (c ∷ input) = elim (Bool-cases (c == b'$')) [
  | inl e ↦ rw e (omega arith)
  | inr e ↦ rw e (option_weaker _ (skip_to_start input) (skip-Ends input))
]

abbrev pub ScanEnds : ℕ → Scanned → Type 0
ScanEnds n closed = Unit
ScanEnds n (overlong buffer rest) = length rest ≤ n
ScanEnds n (complete buffer count checksum rest) = length rest ≤ n

scan_weaker : (n : ℕ) (s : Scanned) → ScanEnds n s → ScanEnds (suc n) s
scan_weaker n closed h = tt
scan_weaker n (overlong buffer rest) h = omega arith
scan_weaker n (complete buffer count checksum rest) h = omega arith

read_packet-Ends :
    (room checksum count : ℕ) (buffer input : Bytes)
    → ScanEnds (length input) (read_packet room checksum count buffer input)
unfolding read_packet
read_packet-Ends zero checksum count buffer input = omega arith
read_packet-Ends (suc room) checksum count buffer [] = tt
read_packet-Ends (suc room) checksum count buffer (ch ∷ input) = elim (Bool-cases (ch == b'$')) [
  | inl e ↦ rw e (scan_weaker _ _ (read_packet-Ends (bufmax - 1) 0 0 buffer input))
  | inr e ↦ elim (Bool-cases (ch == b'#')) [
    | inl e' ↦ rw (e, e') (omega arith)
    | inr e' ↦
        rw (e, e')
          (scan_weaker _ _
            (read_packet-Ends room ((checksum + ch) % 256) (count + 1) (set buffer count ch) input))
  ]
]

>>=-Ends :
    {B A C : Type 0} (m n : ℕ) (run : G B A) (f : A → G B C) (g : Gdb B)
    → Ends m (run g)
    → ((a : A) (g' : Gdb B) → length g'.input ≤ m → Ends n (f a g'))
    → Ends n ((run >>= f) g)
>>=-Ends {B} {A} {C} m n run f g h k = on (run g) h
  where
    on :
        (r : Run B A)
        → Ends m r
        → Ends {A = C} n (elim r [
          | got a g' ↦ f a g'
          | exited status g' ↦ exited status g'
          | failed ↦ failed
          | overrun ↦ overrun
          | stuck ↦ stuck
        ])
    on (got a g') h = k a g' h
    on (exited status g') h = tt
    on failed h = tt
    on overrun h = tt
    on stuck h = absurd h

ask-Ends : {B A : Type 0} (n : ℕ) (f : Ask B A) (g : Gdb B) → length g.input ≤ n → Ends n (ask f g)
ask-Ends {B} {A} n f g h = on (f g.the_jtag_ice)
  where
    on :
        (o : Option (A × B))
        → Ends {A = A} n
            (elim o [ none ↦ failed | some (a, ice) ↦ got a (record g { the_jtag_ice = ice }) ])
    on none = tt
    on (some (a, i)) = h

gdb_exited-Ends :
    {B : Type 0} (A : Type 0) (n : ℕ) (ice : JtagIce B) (g : Gdb B)
    → length g.input ≤ n
    → Ends {A = A} n (gdb_exited ice g)
gdb_exited-Ends A n ice g h =
    >>=-Ends n n (ask ice.resume_program >> ask ice.destroy) (λ _. exited 0) g
      (>>=-Ends n n (ask ice.resume_program) (λ _. ask ice.destroy) g
        (ask-Ends n ice.resume_program g h) (λ _. ask-Ends n ice.destroy))
      (λ _ _ _. tt)

attempts-Ends :
    (buffer input : Bytes) → OptionEnds (suc (length input)) (put_attempts buffer input).1
unfolding put_attempts
attempts-Ends buffer [] = tt
attempts-Ends buffer (c ∷ input) = elim (Bool-cases (c == b'+')) [
  | inl e ↦ rw e (omega arith)
  | inr e ↦ rw e (option_weaker _ (put_attempts buffer input).1 (attempts-Ends buffer input))
]

pub putpacket-Ends :
    {B : Type 0} (n : ℕ) (ice : JtagIce B) (buffer : Bytes) (g : Gdb B)
    → length g.input ≤ n
    → Ends n (putpacket ice buffer g)
unfolding putpacket
putpacket-Ends n ice buffer g h =
    on (put_attempts buffer g.input).1 refl (attempts-Ends buffer g.input)
  where
    on :
        (o : Option Bytes)
        → (put_attempts buffer g.input).1 ≡ o
        → OptionEnds (suc (length g.input)) o
        → Ends n (putpacket ice buffer g)
    on none e k = rw (putpacket, e) (gdb_exited-Ends _ n ice _ (omega arith))
    on (some input) e k = rw (putpacket, e) (omega arith)

gdb_out-Ends :
    {B : Type 0} (n : ℕ) (ice : JtagIce B) (text : Bytes) (f : G B (Unit {0})) (g : Gdb B)
    → length g.input ≤ n
    → ((g' : Gdb B) → length g'.input ≤ n → Ends n (f g'))
    → Ends n ((gdb_out ice text >>= λ _. f) g)
unfolding gdb_out
gdb_out-Ends n ice text f g h k =
    >>=-Ends n n (gdb_out ice text) (λ _. f) g (putpacket-Ends n ice _ g h) (λ _. k)

complain-Ends :
    {B : Type 0} (n : ℕ) (ice : JtagIce B) (checksum xmitcsum : ℕ) (buffer : Bytes) (g : Gdb B)
    → length g.input ≤ n
    → Ends n (complain ice checksum xmitcsum buffer g)
unfolding complain
complain-Ends n ice checksum xmitcsum buffer g h = gdb_out-Ends n ice _ _ g h (λ g₁ h₁.
    gdb_out-Ends n ice _ _ g₁ h₁
      (λ g₂ h₂. gdb_out-Ends n ice _ (put_debug_char b'-') g₂ h₂ (λ g₃ h₃. h₃)))

accept-Ends :
    {B : Type 0} (n : ℕ) (buffer : Bytes) (g : Gdb B)
    → length g.input ≤ n
    → Ends n (accept buffer g)
unfolding accept
accept-Ends n buffer g h = elim (Bool-cases (get_or buffer 2 0 == b':')) [
  | inl e ↦ rw e h
  | inr e ↦ rw e h
]

getpacket_in-Ends :
    {B : Type 0} (fuel : ℕ) (ice : JtagIce B) (g : Gdb B) (n : ℕ)
    → length g.input < fuel
    → length g.input ≤ n
    → Ends n (getpacket_in fuel ice g)
unfolding getpacket_in
getpacket_in-Ends zero ice g n h k = elim h [ ]
getpacket_in-Ends (suc fuel) ice g n h k =
    started (λ g' h' k'. getpacket_in-Ends fuel ice g' n h' k') (skip_to_start g.input) refl
      (skip-Ends g.input)
  where
    Next : Type 0
    Next =
        (g' : Gdb _)
        → length g'.input < fuel
        → length g'.input ≤ n
        → Ends n (getpacket_in fuel ice g')

    answered :
        Next
        → (buffer rest : Bytes) (a b count checksum : ℕ) → length rest + 2 < length g.input
        → Ends n (
            if checksum == hex_pair a b
            then accept buffer (after_scan buffer rest g)
            else (complain ice checksum (hex_pair a b) (c_string buffer) >>= λ _.
                  getpacket_in fuel ice)
                (after_scan buffer rest g))
    answered ih buffer rest a b count checksum lt = elim (Bool-cases (checksum == hex_pair a b)) [
      | inl e ↦ rw e (accept-Ends n buffer _ (omega arith))
      | inr e ↦ rw e (
          >>=-Ends (length rest) n (complain ice checksum (hex_pair a b) (c_string buffer))
            (λ _. getpacket_in fuel ice) (after_scan buffer rest g)
            (complain-Ends (length rest) ice checksum (hex_pair a b) (c_string buffer)
              (after_scan buffer rest g) (omega arith))
            (λ _ g' h'. ih g' (omega arith) (omega arith)))
    ]

    scanned :
        Next
        → (input : Bytes) (s : Scanned) → skip_to_start g.input ≡ some input
        → read_packet (bufmax - 1) 0 0 g.remcom_in_buffer input ≡ s
        → length input < length g.input
        → ScanEnds (length input) s
        → Ends n (getpacket_in (suc fuel) ice g)
    scanned ih input closed e e' lt q =
        rw (getpacket_in, e, e') (gdb_exited-Ends _ n ice _ (omega arith))
    scanned ih input (overlong buffer rest) e e' lt q =
        rw (getpacket_in, e, e') (ih _ (omega arith) (omega arith))
    scanned ih input (complete buffer count checksum []) e e' lt q =
        rw (getpacket_in, e, e') (gdb_exited-Ends _ n ice _ (omega arith))
    scanned ih input (complete buffer count checksum (a ∷ [])) e e' lt q =
        rw (getpacket_in, e, e') (gdb_exited-Ends _ n ice _ (omega arith))
    scanned ih input (complete buffer count checksum (a ∷ b ∷ rest)) e e' lt q =
        rw (getpacket_in, e, e') (answered ih buffer rest a b count checksum (omega arith))

    started :
        Next
        → (o : Option Bytes) → skip_to_start g.input ≡ o
        → OptionEnds (length g.input) o
        → Ends n (getpacket_in (suc fuel) ice g)
    started ih none e q = rw (getpacket_in, e) (gdb_exited-Ends _ n ice _ (omega arith))
    started ih (some input) e q =
        scanned ih input (read_packet (bufmax - 1) 0 0 g.remcom_in_buffer input) e refl q
          (read_packet-Ends (bufmax - 1) 0 0 g.remcom_in_buffer input)

-- Whatever characters gdb sends, and whatever the box does, `getpacket` comes to an end: by a packet,
-- by exiting when gdb closes the line, or by an exception. It leaves no more to read than there was.
pub getpacket-Ends :
    {B : Type 0} (ice : JtagIce B) (g : Gdb B) → Ends (length g.input) (getpacket ice g)
unfolding getpacket
getpacket-Ends ice g =
    getpacket_in-Ends (length g.input + 1) ice g (length g.input) (omega arith) (omega arith)
