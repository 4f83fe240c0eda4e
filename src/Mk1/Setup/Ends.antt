-- ===== src/Mk1/Setup/Ends.antt =====
-- src/jtagio.cc: commands and signing on of the mkI come to an end, and keep the name of the device.
use jtag_js.Base.{
  ℕ, ◌-◌, ◌≡◌, refl, Bool, true, false, Option, List, [], ◌∷◌, ◌==◌, if◌then◌else◌, get_or, zero,
  suc, codes, Bytes,
}
use jtag_js.Port.{
  Link, Outcome, returned, thrown, crashed, stuck, hung, M, ◌>>=◌, ◌>>◌, pure, throw, check,
  set_port_rate,
}
use jtag_js.Port.Post.{Post, >>=-Post}
use jtag_js.Devices.{DeviceDef, desc1_bytes}
use jtag_js.Mk2.Setup.{is_bit_rate}
use jtag_js.Mk1.Io.{
  eom, r_ok, SendResult, send_ok, send_failed, mcu_data, send_jtag_command, get_jtag_response,
  do_jtag_command, do_simple_jtag_command, set_jtag_parameter, get_jtag_parameter,
  interrupt_program,
}
use jtag_js.Mk1.Io.Tries.{Anything, send-Post, response-Post, do_jtag_command-Ends}
use jtag_js.Mk1.Setup.{
  Box, set_device_descriptor, unless_failed, check_for_emulator, max_jtag_sync_attemps, sync_rounds,
  change_local_bit_rate, synchronise_at, try_rates,
}

-- Whatever the line does, the computation comes to an end, and what it returns meets P.
abbrev pub Always : {A : Type 0} → (A → Type 0) → M A → Type 0
Always P m = (l : Link) → Post (λ a _. P a) (m l)

abbrev pub Any : {A : Type 0} → A → Type 0
Any a = Unit

pub Always-bind :
    {A B : Type 0} (P : A → Type 0) (Q : B → Type 0) (m : M A) (f : A → M B)
    → Always P m
    → ((a : A) → P a → Always Q (f a))
    → Always Q (m >>= f)
Always-bind P Q m f p h l = >>=-Post (λ a _. P a) (λ b _. Q b) m f l (p l) (λ a l' pa. h a pa l')

Post-any : {A : Type 0} (P : A → Link → Type 0) (o : Outcome A) → Post P o → Post Anything o
Post-any P (returned a l) p = tt
Post-any P (thrown l) p = tt
Post-any P crashed p = tt
Post-any P stuck p = p
Post-any P hung p = tt

check-Always : (ok : Bool) → Always (λ _. ok ≡ true) (check ok)
check-Always true l = refl
check-Always false l = tt

pub check-Ends : (ok : Bool) → Always Any (check ok)
check-Ends ok l = Post-any _ (check ok l) (check-Always ok l)

simple-Ends : (cmd size : ℕ) → Always Any (do_simple_jtag_command cmd size)
unfolding do_simple_jtag_command
simple-Ends cmd size =
    Always-bind Any Any (do_jtag_command (cmd ∷ eom) size) _ (do_jtag_command-Ends (cmd ∷ eom) size)
      (λ response _ l. tt)

pub interrupt-Ends : Always Any interrupt_program
unfolding interrupt_program
interrupt-Ends = simple-Ends b'F' 4

pub set-Ends : (item value : ℕ) → Always Any (set_jtag_parameter item value)
unfolding set_jtag_parameter
set-Ends item value =
    Always-bind Any Any (do_jtag_command (b'B' ∷ item ∷ value ∷ eom) 1) _
      (do_jtag_command-Ends (b'B' ∷ item ∷ value ∷ eom) 1) (λ response _. check-Ends _)

pub get-Ends : (item : ℕ) → Always Any (get_jtag_parameter item)
unfolding get_jtag_parameter
get-Ends item =
    Always-bind Any Any (do_jtag_command (b'q' ∷ item ∷ eom) 2) _
      (do_jtag_command-Ends (b'q' ∷ item ∷ eom) 2)
      (λ response _.
        Always-bind Any Any (check (get_or response 1 0 == r_ok)) (λ _. pure (get_or response 0 0))
          (check-Ends _) (λ _ _ l. tt))

pub descriptor-Ends : (d : DeviceDef) → Always Any (set_device_descriptor d)
unfolding set_device_descriptor
descriptor-Ends d =
    Always-bind Any Any (do_jtag_command (desc1_bytes d.dev_desc1) 1) _
      (do_jtag_command-Ends (desc1_bytes d.dev_desc1) 1) (λ response _. check-Ends _)

-- Signing on.
send-Ends : (command : Bytes) (tries : ℕ) → Always Any (send_jtag_command command tries)
send-Ends command tries l = Post-any _ _ (send-Post command tries l)

unless_failed-Ends :
    (ask : M Bool) (r : SendResult) → Always Any ask → Always Any (unless_failed ask r)
unless_failed-Ends ask send_failed h l = tt
unless_failed-Ends ask send_ok h l = h l
unless_failed-Ends ask mcu_data h l = h l

check_for_emulator-Ends : Always Any check_for_emulator
unfolding check_for_emulator
check_for_emulator-Ends =
    Always-bind Any Any (send_jtag_command (b'S' ∷ eom) 0) _ (send-Ends (b'S' ∷ eom) 0) (λ r _.
      unless_failed-Ends _ r
        (Always-bind Any Any (get_jtag_response 8) _ (response-Post 8) (λ response _ l. tt)))

pub if-Always :
    {A : Type 0} (P : A → Type 0) (b : Bool) (m k : M A)
    → Always P m
    → Always P k
    → Always P (if b then m else k)
if-Always P true m k h h' = h
if-Always P false m k h h' = h'

sync_rounds-Ends : (rounds : ℕ) → Always Any (sync_rounds rounds)
unfolding sync_rounds
sync_rounds-Ends zero l = tt
sync_rounds-Ends (suc rounds) l =
    Always-bind Any Any (send_jtag_command (codes "SE  ") (max_jtag_sync_attemps - suc rounds)) _
      (send-Ends (codes "SE  ") (max_jtag_sync_attemps - suc rounds))
      (λ _ _. Always-bind Any Any check_for_emulator _ check_for_emulator-Ends (λ found _.
        if-Always Any found (pure true) (sync_rounds rounds) (λ l. tt) (sync_rounds-Ends rounds)))
      l

abbrev pub Named : Option Bytes → Box → Type 0
Named name box = box.device_name ≡ name

pub local-Always :
    (name : Option Bytes) (rate : ℕ) (box : Box)
    → Named name box
    → Always (Named name) (change_local_bit_rate rate box)
unfolding change_local_bit_rate
local-Always name rate box e =
    if-Always (Named name) box.is_usb (pure box) _ (λ l. e)
      (if-Always (Named name) (is_bit_rate rate)
        (set_port_rate rate >> pure (record box { bit_rate = rate })) throw (λ l. e) (λ l. tt))

synchronise_at-Always :
    (name : Option Bytes) (rate : ℕ) (box : Box)
    → Named name box
    → Always (λ r. Named name r.1) (synchronise_at rate box)
unfolding synchronise_at
synchronise_at-Always name rate box e =
    Always-bind (Named name) (λ r. Named name r.1) (change_local_bit_rate rate box) _
      (local-Always name rate box e)
      (λ box' e'.
        Always-bind Any (λ r. Named name r.1) (sync_rounds max_jtag_sync_attemps)
          (λ found. pure (found, box')) (sync_rounds-Ends max_jtag_sync_attemps) (λ found _ l. e'))

pub try_rates-Always :
    (name : Option Bytes) (rates : List ℕ) (box : Box)
    → Named name box
    → Always (Named name) (try_rates rates box)
unfolding try_rates
try_rates-Always name [] box e l = tt
try_rates-Always name (rate ∷ rates) box e l =
    Always-bind (λ r. Named name r.1) (Named name) (synchronise_at rate box) _
      (synchronise_at-Always name rate box e)
      (λ r e'.
        if-Always (Named name) r.0 (pure r.1) (try_rates rates r.1) (λ l. e')
          (try_rates-Always name rates r.1 e'))
      l
