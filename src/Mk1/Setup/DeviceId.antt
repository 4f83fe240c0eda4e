-- ===== src/Mk1/Setup/DeviceId.antt =====
-- src/jtagio.cc, `deviceAutoConfig`: the id of the device, as the mkI tells it.
use jtag_js.Base.{
  ℕ, ◌+◌, ◌*◌, ◌/◌, ◌%◌, ◌^◌, ◌≡◌, ◌<◌, refl, ap, ◌∙◌, arith, Bool, ◌==◌, List, [], ◌∷◌, ◌++◌,
  Bytes,
}
use jtag_js.Port.{Link, Event, byte, returned, ◌>>=◌}
use jtag_js.Mk1.Io.{r_ok, eom, do_simple_jtag_command, get_jtag_parameter, interrupt_program}
use jtag_js.Mk1.Io.Tries.{do_jtag_command-answer}
use jtag_js.Mk1.Setup.{read_device_id}

-- The answer to a request for a parameter, and what may be behind it.
abbrev pub tells : ℕ → List Event → List Event
tells value rest = byte r_ok ∷ byte value ∷ byte r_ok ∷ rest

-- The answer to a request to stop: four bytes.
abbrev pub stops : ℕ → ℕ → ℕ → ℕ → List Event → List Event
stops a b c d rest = byte r_ok ∷ byte a ∷ byte b ∷ byte c ∷ byte d ∷ rest

-- What is written, one command after the other.
abbrev pub said : Bytes → List Bytes → Bytes
said out [] = out
said out (c ∷ cs) = said (out ++ c) cs

abbrev pub ask_for : ℕ → Bytes
ask_for item = b'q' ∷ item ∷ eom

get_jtag_parameter-tells :
    (item value : ℕ) (rest : List Event) (l : Link)
    → get_jtag_parameter item (record l { input = tells value rest; writes = [] })
      ≡ returned value (record l { input = rest; writes = []; output = l.output ++ ask_for item })
unfolding get_jtag_parameter
get_jtag_parameter-tells item value rest l =
    rw (do_jtag_command-answer (ask_for item) (value ∷ r_ok ∷ []) rest l, ◌>>=◌) refl

interrupt_program-stops :
    (a b c d : ℕ) (rest : List Event) (l : Link)
    → (stopped : Bool) × (interrupt_program (record l { input = stops a b c d rest; writes = [] })
        ≡ returned stopped
            (record l { input = rest; writes = []; output = l.output ++ b'F' ∷ eom }))
unfolding interrupt_program do_simple_jtag_command
interrupt_program-stops a b c d rest l =
    (d == r_ok, rw (do_jtag_command-answer (b'F' ∷ eom) (a ∷ b ∷ c ∷ d ∷ []) rest l, ◌>>=◌) refl)

-- The word that the device tells: its version, its id, and the maker with the lowest bit.
abbrev pub jtag_word : ℕ → ℕ → ℕ → ℕ
jtag_word version id maker = version * 2 ^ 28 + id * 2 ^ 12 + maker

abbrev pub word_byte : ℕ → ℕ → ℕ
word_byte word i = word / 2 ^ (8 * i) % 256

-- The line behind the five commands.
abbrev pub after : List Event → Link → Link
after rest l = record l {
  input = rest;
  writes = [];
  output =
      said l.output (ask_for 0xa7 ∷ (b'F' ∷ eom) ∷ ask_for 0xa8 ∷ ask_for 0xa9 ∷ ask_for 0xaa ∷ []);
}

read_device_id-tells :
    (b0 b1 b2 b3 a b c d : ℕ) (rest : List Event) (l : Link)
    → read_device_id (record l {
      input = tells b0 (stops a b c d (tells b1 (tells b2 (tells b3 rest))));
      writes = [];
    })
      ≡ returned ((b0 + (b1 * 2 ^ 8 + b2 * 2 ^ 16 + b3 * 2 ^ 24)) / 2 ^ 12 % 2 ^ 16) (after rest l)
unfolding read_device_id
read_device_id-tells b0 b1 b2 b3 a b c d rest l =
    let l₁ = record l { output = said l.output (ask_for 0xa7 ∷ []) } in
    let l₂ = record l { output = said l.output (ask_for 0xa7 ∷ (b'F' ∷ eom) ∷ []) } in
    let l₃ = record l {
      output = said l.output (ask_for 0xa7 ∷ (b'F' ∷ eom) ∷ ask_for 0xa8 ∷ []);
    } in
    let l₄ = record l {
      output = said l.output (ask_for 0xa7 ∷ (b'F' ∷ eom) ∷ ask_for 0xa8 ∷ ask_for 0xa9 ∷ []);
    } in
    let (stopped, run) = interrupt_program-stops a b c d (tells b1 (tells b2 (tells b3 rest))) l₁ in
    rw
      (
        get_jtag_parameter-tells 0xa7 b0 (stops a b c d (tells b1 (tells b2 (tells b3 rest)))) l,
        ◌>>=◌,
      )
      (rw (run, ◌>>=◌)
        (rw (get_jtag_parameter-tells 0xa8 b1 (tells b2 (tells b3 rest)) l₂, ◌>>=◌)
          (rw (get_jtag_parameter-tells 0xa9 b2 (tells b3 rest) l₃, ◌>>=◌)
            (rw (get_jtag_parameter-tells 0xaa b3 rest l₄, ◌>>=◌) refl))))

id_of_word :
    (version id maker : ℕ)
    → version < 16
    → id < 2 ^ 16
    → maker < 2 ^ 12
    → (word_byte (jtag_word version id maker) 0
          + (word_byte (jtag_word version id maker) 1 * 2 ^ 8
              + word_byte (jtag_word version id maker) 2 * 2 ^ 16
              + word_byte (jtag_word version id maker) 3 * 2 ^ 24))
        / 2 ^ 12
        % 2 ^ 16
      ≡ id
id_of_word version id maker v i m = omega arith

-- When the mkI tells the word of the device byte by byte, the lowest first, stops the target behind the
-- first of them, and takes all writes, `deviceAutoConfig` reads the 16 bits of the id out of the word,
-- and has written the five commands for this and nothing else; what follows is left on the line.
pub read_device_id-jtag_word :
    (version id maker a b c d : ℕ) (rest : List Event) (l : Link)
    → version < 16
    → id < 2 ^ 16
    → maker < 2 ^ 12
    → l.writes ≡ []
    → l.input
      ≡ tells (word_byte (jtag_word version id maker) 0) (
          stops a b c d (
            tells (word_byte (jtag_word version id maker) 1) (
              tells
                (word_byte (jtag_word version id maker) 2)
                (tells (word_byte (jtag_word version id maker) 3) rest))))
    → read_device_id l ≡ returned id (after rest l)
read_device_id-jtag_word version id maker a b c d rest l v i m writes input =
    let w = jtag_word version id maker in
    (λ k. read_device_id (record l { input = input k; writes = writes k }))
    ∙ read_device_id-tells (word_byte w 0) (word_byte w 1) (word_byte w 2) (word_byte w 3) a b c d
        rest l
    ∙ ap (λ n. returned n (after rest l)) (id_of_word version id maker v i m)
