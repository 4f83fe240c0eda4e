-- ===== src/Mk2/Command/Dialogue.antt =====
-- src/jtag2io.cc: several commands one after the other, each with a positive answer on the line. What
-- a computation says to the box, and what it makes of the answers, is a list of exchanges, and these
-- lists are appended where computations follow one another.
use jtag_js.Base.{
  ℕ, ◌≡◌, refl, ap, ap₂, subst, sym, ◌∙◌, some, List, [], ◌∷◌, ◌++◌, append_assoc, append-nil,
  length, get_or, true, lt→ltb, le→leb, Bytes,
}
use jtag_js.Port.{Link, Event, returned, M, ◌>>=◌, pure}
use jtag_js.Mk2.Frame.{frame_bytes}
use jtag_js.Mk2.Command.{next_sequence, rsp_ok, rsp_failed, do_jtag_command, checked_command}
use jtag_js.Mk2.Command.Replies.{Message, events_of}
use jtag_js.Mk2.Command.Answers.{IsPositive, checked_command-Gives}
use jtag_js.Mk2.Command.Attempts.{do_jtag_command_answered}

pub record Exchange : Type 0 where
  pub command : Bytes
  pub answer : Message

-- The answers on the line; the frames of the commands; and the sequence number that follows.
abbrev pub answers : List Exchange → List Event
answers [] = []
answers (x ∷ xs) = events_of x.answer ++ answers xs

abbrev pub frames : ℕ → List Exchange → Bytes
frames s [] = []
frames s (x ∷ xs) = frame_bytes s x.command ++ frames (next_sequence s) xs

abbrev pub sequence_after : ℕ → List Exchange → ℕ
sequence_after s [] = s
sequence_after s (x ∷ xs) = sequence_after (next_sequence s) xs

-- Every answer is a positive one to its command.
abbrev pub Answered : Link → List Exchange → Type 0
Answered l [] = Unit
Answered l (x ∷ xs) =
    IsPositive x.answer l
    × Answered (record l { command_sequence = next_sequence l.command_sequence }) xs

pub record Said (l l' : Link) (xs : List Exchange) (rest : List Event) : Type 0 where
  pub input : l'.input ≡ rest
  pub output : l'.output ≡ l.output ++ frames l.command_sequence xs
  pub sequence : l'.command_sequence ≡ sequence_after l.command_sequence xs
  pub writes : l'.writes ≡ []

-- On a line with these answers and that takes all writes, the computation returns the value, and has
-- said exactly the commands.
abbrev pub Talks : {A : Type 0} → M A → A → List Exchange → Type 0
Talks run a xs =
    (l : Link) (rest : List Event)
    → l.input ≡ answers xs ++ rest
    → l.writes ≡ []
    → Answered l xs
    → (l' : Link) × (run l ≡ returned a l') × Said l l' xs rest

pub pure-Talks : {A : Type 0} (a : A) → Talks (pure a) a []
pure-Talks a l rest e w h =
    (l, refl, record { input = e; output = sym (append-nil l.output); sequence = refl; writes = w })

pub checked_command-Talks :
    (command : Bytes) (m : Message)
    → Talks
        (checked_command command)
        (record { size = length m.payload; msg = some m.payload })
        (record { command = command; answer = m } ∷ [])
checked_command-Talks command m l rest e w (p, _) =
    let (l', run, input, output, sequence, writes) = checked_command-Gives command m rest l p in
    (
      l',
      subst
          (λ x.
            checked_command command x
            ≡ returned (record { size = length m.payload; msg = some m.payload }) l')
          (sym (λ i. record l { input = (e ∙ append_assoc (events_of m) [] rest) i; writes = w i }))
          run,
      record {
        input = input;
        output =
            output
            ∙ ap (λ t. l.output ++ t) (sym (append-nil (frame_bytes l.command_sequence command)));
        sequence = sequence;
        writes = writes;
      },
    )

answers-append : (xs ys : List Exchange) → answers (xs ++ ys) ≡ answers xs ++ answers ys
answers-append [] ys = refl
answers-append (x ∷ xs) ys =
    ap (λ t. events_of x.answer ++ t) (answers-append xs ys)
    ∙ sym (append_assoc (events_of x.answer) (answers xs) (answers ys))

frames-append :
    (xs ys : List Exchange) (s : ℕ)
    → frames s (xs ++ ys) ≡ frames s xs ++ frames (sequence_after s xs) ys
frames-append [] ys s = refl
frames-append (x ∷ xs) ys s =
    ap (λ t. frame_bytes s x.command ++ t) (frames-append xs ys (next_sequence s))
    ∙ sym (append_assoc (frame_bytes s x.command) (frames (next_sequence s) xs) _)

sequence_after-append :
    (xs ys : List Exchange) (s : ℕ)
    → sequence_after s (xs ++ ys) ≡ sequence_after (sequence_after s xs) ys
sequence_after-append [] ys s = refl
sequence_after-append (x ∷ xs) ys s = sequence_after-append xs ys (next_sequence s)

-- Only the sequence number of the line matters to the answers.
Answered-same :
    (xs : List Exchange) (l l' : Link)
    → l.command_sequence ≡ l'.command_sequence
    → Answered l xs
    → Answered l' xs
Answered-same [] l l' e h = tt
Answered-same (x ∷ xs) l l' e (p, h) = (
  record {
    valid = p.valid;
    current = p.current ∙ e;
    from_ok = p.from_ok;
    below_failed = p.below_failed;
  },
  Answered-same xs _ _ (ap next_sequence e) h,
)

Answered-append :
    (xs ys : List Exchange) (l : Link)
    → Answered l (xs ++ ys)
    → Answered l xs
      × Answered (record l { command_sequence = sequence_after l.command_sequence xs }) ys
Answered-append [] ys l h = (tt, h)
Answered-append (x ∷ xs) ys l (p, h) =
    let (first, second) =
      Answered-append xs ys (record l { command_sequence = next_sequence l.command_sequence }) h in
    ((p, first), second)

-- One computation behind another.
pub >>=-Talks :
    {A B : Type 0} (m : M A) (f : A → M B) (a : A) (b : B) (xs ys : List Exchange)
    → Talks m a xs
    → Talks (f a) b ys
    → Talks (m >>= f) b (xs ++ ys)
>>=-Talks m f a b xs ys p q l rest e w h =
    let (h₁, h₂) = Answered-append xs ys l h in
    let (l₁, run₁, said₁) =
      p l (answers ys ++ rest)
        (e
          ∙ ap (λ t. t ++ rest) (answers-append xs ys)
          ∙ append_assoc (answers xs) (answers ys) rest)
        w h₁ in
    let (l₂, run₂, said₂) =
      q l₁ rest said₁.input said₁.writes (Answered-same ys _ l₁ (sym said₁.sequence) h₂) in
    (
      l₂,
      rw (run₁, ◌>>=◌) run₂,
      record {
        input = said₂.input;
        output =
            said₂.output
            ∙ ap₂ (λ o s. o ++ frames s ys) said₁.output said₁.sequence
            ∙ append_assoc l.output (frames l.command_sequence xs) _
            ∙ ap (λ t. l.output ++ t) (sym (frames-append xs ys l.command_sequence));
        sequence =
            said₂.sequence
            ∙ ap (λ s. sequence_after s ys) said₁.sequence
            ∙ sym (sequence_after-append xs ys l.command_sequence);
        writes = said₂.writes;
      },
    )

-- The command with a positive answer succeeds at the first try.
pub do_jtag_command-Talks :
    (command : Bytes) (m : Message)
    → Talks
        (do_jtag_command command true)
        (true, record { size = length m.payload; msg = some m.payload })
        (record { command = command; answer = m } ∷ [])
do_jtag_command-Talks command m l rest e w (p, _) =
    let (l', run, input, output, sequence, writes) =
      do_jtag_command_answered command true [] m l rest tt p.valid p.current in
    (
      l',
      subst
          (λ x.
            do_jtag_command command true x
            ≡ returned (true, record { size = length m.payload; msg = some m.payload }) l')
          (sym (λ i. record l { input = (e ∙ append_assoc (events_of m) [] rest) i; writes = w i }))
          (run
            ∙ rw
                (
                  le→leb rsp_ok (get_or m.payload 0 0) p.from_ok,
                  lt→ltb (get_or m.payload 0 0) rsp_failed p.below_failed,
                )
                refl),
      record {
        input = input;
        output =
            output
            ∙ ap (λ t. l.output ++ t) (sym (append-nil (frame_bytes l.command_sequence command)));
        sequence = sequence;
        writes = writes;
      },
    )
