-- ===== src/Chat/SerialLine.antt =====
-- What the handler of the serial port's bytes does to its line, and its echo.
use projeto_so.Base.{
  ==_false, ℕ, ◌-◌, ◌<◌, ◌≡◌, ◌≢◌, refl, arith, Bool, true, false, ◌||◌, List, [], ◌∷◌, ◌==◌, leb,
  ltb, if◌then◌else◌, length, u8, Bool-cases, inl, inr,
}
use projeto_so.Io.{◌>>◌}
use projeto_so.Io.Returns.{Returns, returns, Returns-eq, zoom-run}
use projeto_so.Deadlock.{say}
use projeto_so.Deadlock.Transcript.{Stage-start, say-Stage, ready_of}
use projeto_so.Chat.{line_max, Line, Kernel, on_world, on_chat, on_ser, terminate, drop_last, push}
use projeto_so.Chat.Poll.{ser_process_char}
use projeto_so.Chat.Editor.{Typed, edit, push-Typed, drop_last-Typed, terminate-Typed}
use projeto_so.Chat.Outcome.{Sent, Sent-nothing, unmoved}
use projeto_so.Chat.Message.{take_nothing}

-- Backspace, and the DEL of a terminal.
abbrev pub erase_key : ℕ → Bool
erase_key c = (c == 0x08) || (c == 127)

-- A byte that is added to the line is sent back.
abbrev pub echo : ℕ → List ℕ → List ℕ
echo c t =
    if erase_key c
    then []
    else if ltb c 32
    then []
    else if leb line_max (length t)
    then []
    else u8 c ∷ []

-- The line of the serial port holds `t`, `back` was sent, and `n` transfers were made.
pub record Echoed (n : ℕ) (t back : List ℕ) (k k' : Kernel) : Type 0 where
  pub typed : Typed t k'.chat.ser
  pub ring_same : k'.chat.ring ≡ k.chat.ring
  pub kbd_same : k'.chat.kbd ≡ k.chat.kbd
  pub sent : Sent n back k.world k'.world

Echoed-silent :
    {t : List ℕ} (k : Kernel) (l : Line)
    → Typed t l
    → Echoed 0 t [] k (record k { chat = record k.chat { ser = l } })
Echoed-silent k l typed = record {
  typed = typed;
  ring_same = refl;
  kbd_same = refl;
  sent = Sent-nothing k.world;
}

-- The byte goes into the line, and back to the terminal.
push_and_echo :
    {t : List ℕ} (c : ℕ) (k : Kernel)
    → c ≢ 0
    → 0 < ready_of k.world
    → Typed t (push c k.chat.ser)
    → Returns
        (do on_ser (push c); on_world (say (c ∷ 0 ∷ [])))
        k
        (λ _ k'. Echoed 0 t (u8 c ∷ []) k k')
unfolding on_chat
push_and_echo c k nonzero enough typed =
    elim (say-Stage (c ∷ 0 ∷ []) 1 (omega (arith, enough)) (rw (==_false nonzero) refl)
      (Stage-start k.world)) [
        | returns _ w' runs stage ↦
            returns tt (record { world = w'; chat = record k.chat { ser = push c k.chat.ser } })
              (zoom-run (λ (v : Kernel). v.world) (λ v w. record v { world = w }) (say (c ∷ 0 ∷ []))
                runs)
              (record {
                typed = typed;
                ring_same = refl;
                kbd_same = refl;
                sent = record {
                  moved = unmoved stage.files_are;
                  logged = rw (==_false nonzero) at (stage.logged);
                  spent = rw (==_false nonzero) at (stage.spent);
                  left_over = stage.left_over;
                };
              })
      ]

-- A byte other than CR and LF, with the port ready once more: `ser_process_char` returns, the line
-- holds the edited text, and the port has got the echo of a byte that was added, and else nothing.
-- The ring, the keyboard's line and the files are as before.
pub ser_process_char-edit :
    (stack buf : List ℕ) (rounds : ℕ) (c : ℕ) (k : Kernel) (t : List ℕ)
    → c ≢ b'\n'
    → c ≢ b'\r'
    → 0 < ready_of k.world
    → Typed t k.chat.ser
    → Returns
        (ser_process_char stack buf rounds c)
        k
        (λ _ k'. Echoed 0 (edit erase_key c t) (echo c t) k k')
unfolding ser_process_char on_chat
ser_process_char-edit stack buf rounds c k t no_lf no_cr enough typed =
    elim (Bool-cases (erase_key c)) [
      | inl erase ↦ rw erase (elim (Bool-cases (ltb 0 k.chat.ser.len)) [
        | inl some_left ↦
            returns tt (record k { chat = record k.chat { ser = drop_last k.chat.ser } })
              (rw (==_false no_lf, ==_false no_cr, erase, some_left) refl)
              (Echoed-silent k (drop_last k.chat.ser) (drop_last-Typed typed))
        | inr none_left ↦
            returns tt (record k { chat = record k.chat { ser = terminate k.chat.ser } })
              (rw (==_false no_lf, ==_false no_cr, erase, none_left) refl)
              (rw (take_nothing (length t - 1) t (empty none_left))
                (Echoed-silent k (terminate k.chat.ser) (terminate-Typed typed)))
      ])
      | inr keeps ↦ rw keeps (elim (Bool-cases (ltb c 32)) [
        | inl control ↦ rw control (
            returns tt k (rw (==_false no_lf, ==_false no_cr, keeps, control) refl)
              (Echoed-silent k k.chat.ser typed))
        | inr shown ↦ rw shown (elim (Bool-cases (leb line_max (length t))) [
          | inl full ↦ rw full (
              returns tt k (rw (==_false no_lf, ==_false no_cr, keeps, shown, full_line full) refl)
                (Echoed-silent k k.chat.ser typed))
          | inr room ↦ rw room (
              Returns-eq {n = do on_ser (push c); on_world (say (c ∷ 0 ∷ []))}
                (rw (==_false no_lf, ==_false no_cr, keeps, shown, open_line room) refl)
                (push_and_echo c k (nonzero shown) enough
                  (push-Typed c (nonzero shown) (ground (arith, room)) typed)))
        ])
      ])
    ]
  where
    empty : ltb 0 k.chat.ser.len ≡ false → length t ≡ 0
    empty e = ground (arith, e, typed.at_end)

    nonzero : ltb c 32 ≡ false → c ≢ 0
    nonzero e z = absurd (ground (arith, e, z))

    full_line : leb line_max (length t) ≡ true → leb line_max k.chat.ser.len ≡ true
    full_line e = ground (arith, e, typed.at_end)

    open_line : leb line_max (length t) ≡ false → leb line_max k.chat.ser.len ≡ false
    open_line e = ground (arith, e, typed.at_end)
