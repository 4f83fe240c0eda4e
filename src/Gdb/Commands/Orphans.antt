-- ===== src/Gdb/Commands/Orphans.antt =====
-- src/remote.cc, `talkToGdb`, case 'M': what is written, and the odd byte of program memory.
use jtag_js.Base.{
  ℕ, ◌-◌, ◌%◌, ◌<◌, ◌≡◌, refl, sym, ap, ◌∙◌, Bool, true, false, ◌&&◌, none, some, [], ◌∷◌, ◌++◌,
  append-nil, length, get_or, take, take-append, lt→ltb, if◌then◌else◌, Bytes, IsBytes,
}
use jtag_js.Encoding.{hexchar, byte_to_hex, mem2hex}
use jtag_js.Encoding.HexText.{hex2mem-mem2hex}
use jtag_js.Gdb.{JtagIce, Gdb, got, ask}
use jtag_js.Gdb.Steps.{>>=-got, ask-some}
use jtag_js.Gdb.Parse.{parse_write}
use jtag_js.Gdb.Reports.{data_space_addr_offset, error, ok}
use jtag_js.Gdb.Commands.{Write, int_below, ok_if, plan_write, write_memory}

get_or_past : (m : Bytes) (d : ℕ) → get_or m (length m) d ≡ d
get_or_past [] d = refl
get_or_past (b ∷ m) d = get_or_past m d

take-all : (m : Bytes) → take (length m) m ≡ m
take-all m = ap (λ (t : Bytes). take (length m) t) (sym (append-nil m)) ∙ take-append m []

plan_whole :
    {B : Type 0} (g : Gdb B) (m rest : Bytes) (addr : ℕ)
    → IsBytes m
    → addr % 2 ≡ 0
    → length m % 2 ≡ 0
    → plan_write g addr (length m) (mem2hex m (length m) ++ rest)
      ≡ record { addr = addr; len = length m; memory = m; orphan = none }
unfolding plan_write
plan_whole g m rest addr bytes even whole =
    rw (hex2mem-mem2hex m rest bytes, even, whole) (below (int_below addr data_space_addr_offset))
  where
    below :
        (b : Bool)
        → ◌≡◌ {A = Write}
            (if b && false
              then record {
                addr = addr;
                len = length m - 1;
                memory = m;
                orphan = some (get_or m (length m) g.heap);
              }
              else record { addr = addr; len = length m; memory = m; orphan = none })
            (record { addr = addr; len = length m; memory = m; orphan = none })
    below true = refl
    below false = refl

-- A write of a whole number of words, at an even address, hands the decoded bytes to the box, and the
-- reply is "OK" if the box reports success and "E01" if not. No byte stays pending.
pub write_memory_whole :
    {B : Type 0} (ice : JtagIce B) (ptr m rest : Bytes) (addr : ℕ) (g : Gdb B) (fine : Bool)
    (box : B)
    → parse_write ptr ≡ some (addr, length m, mem2hex m (length m) ++ rest)
    → IsBytes m
    → addr % 2 ≡ 0
    → length m % 2 ≡ 0
    → ice.jtag_write addr m g.the_jtag_ice ≡ some (fine, box)
    → write_memory ice ptr g
      ≡ got tt (record g {
        remcom_out_buffer = if fine then b'O' ∷ b'K' ∷ [] else b'E' ∷ b'0' ∷ b'1' ∷ [];
        last_orphan_pending = false;
        the_jtag_ice = box;
      })
unfolding write_memory error ok byte_to_hex hexchar
write_memory_whole ice ptr m rest addr g fine box parsed bytes even whole written =
    rw (parsed, plan_whole g m rest addr bytes even whole, take-all m)
      (>>=-got (ask (ice.jtag_write addr m)) ok_if _ _ _ _
        (ask-some (ice.jtag_write addr m)
          (record g { remcom_out_buffer = b'E' ∷ b'0' ∷ b'1' ∷ []; last_orphan_pending = false })
          fine box written)
        (replied fine))
  where
    replied :
        (fine : Bool)
        → ok_if fine (record g {
          remcom_out_buffer = b'E' ∷ b'0' ∷ b'1' ∷ [];
          last_orphan_pending = false;
          the_jtag_ice = box;
        })
          ≡ got tt (record g {
            remcom_out_buffer = if fine then b'O' ∷ b'K' ∷ [] else b'E' ∷ b'0' ∷ b'1' ∷ [];
            last_orphan_pending = false;
            the_jtag_ice = box;
          })
    replied true = refl
    replied false = refl

-- When an odd number of bytes is to be written to an even address of program memory, the last byte is
-- neither written nor kept: all bytes but the last are to be written, and the byte that is kept for
-- the next packet is the one that happens to lie behind the buffer.
pub plan_write_loses :
    {B : Type 0} (g : Gdb B) (m rest : Bytes) (addr : ℕ)
    → IsBytes m
    → addr % 2 ≡ 0
    → addr < data_space_addr_offset
    → length m % 2 ≡ 1
    → plan_write g addr (length m) (mem2hex m (length m) ++ rest)
      ≡ record { addr = addr; len = length m - 1; memory = m; orphan = some g.heap }
unfolding plan_write
plan_write_loses g m rest addr bytes even prog odd =
    rw (hex2mem-mem2hex m rest bytes, even, lt→ltb addr data_space_addr_offset prog, odd)
      (ap (λ b. record { addr = addr; len = length m - 1; memory = m; orphan = some b })
        (get_or_past m g.heap))
