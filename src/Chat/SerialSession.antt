-- ===== src/Chat/SerialSession.antt =====
-- Bytes on the serial line, CR and LF among them: what is echoed and sent, and what they leave.
use projeto_so.Base.{
  ℕ, ◌+◌, ◌<◌, ◌≤◌, ◌≡◌, refl, ◌∙◌, arith, Bool, true, ◌||◌, List, [], ◌∷◌, ◌++◌, ◌==◌,
  if◌then◌else◌, length, length-append, codes, Bool-cases, inl, inr,
}
use projeto_so.Io.{Run, pure, ◌>>◌}
use projeto_so.Io.Returns.{Returns, Returns-eq, Returns-mono, >>=-Returns, pure-Returns}
use projeto_so.Deadlock.Transcript.{ready_of}
use projeto_so.Chat.{line_max, Kernel}
use projeto_so.Chat.Poll.{ser_enter, ser_process_char}
use projeto_so.Chat.Editor.{Typed, edit}
use projeto_so.Chat.SerialLine.{erase_key, echo, Echoed, ser_process_char-edit}
use projeto_so.Chat.Outcome.{
  reply, transfers_of, Freezes, CanTransfer, CanTransfer-Moved, Sent-nothing, Sent-trans,
}
use projeto_so.Chat.EnterKey.{ser_enter-SerEnded}

-- CR or LF.
abbrev pub ends_line : ℕ → Bool
ends_line c = (c == b'\n') || (c == b'\r')

-- For a byte on a line that holds `t`: what goes back and out, the text that it leaves in the line,
-- and how many transfers it makes.
abbrev pub back_for : (c : ℕ) (t : List ℕ) → List ℕ
back_for c t = if ends_line c then codes "\r\n" ++ reply (codes "serial") t else echo c t

abbrev pub text_after : (c : ℕ) (t : List ℕ) → List ℕ
text_after c t = if ends_line c then [] else edit erase_key c t

abbrev pub transfers_by : (c : ℕ) (t : List ℕ) → ℕ
transfers_by c t = if ends_line c then transfers_of t else 0

-- The same for all the bytes of `input`.
abbrev pub answers_to : (input t : List ℕ) → List ℕ
answers_to [] t = []
answers_to (c ∷ input) t = back_for c t ++ answers_to input (text_after c t)

abbrev pub left_in_line : (input t : List ℕ) → List ℕ
left_in_line [] t = t
left_in_line (c ∷ input) t = left_in_line input (text_after c t)

abbrev pub serial_transfers : (input t : List ℕ) → ℕ
serial_transfers [] t = 0
serial_transfers (c ∷ input) t = transfers_by c t + serial_transfers input (text_after c t)

-- The byte does not end a line that holds `/deadlock`.
abbrev pub Harmless : (c : ℕ) (t : List ℕ) → Type 0
Harmless c t = ends_line c ≡ true → ¬ Freezes t

-- No line that is ended is `/deadlock`.
abbrev pub NoSerialFreeze : (input t : List ℕ) → Type 0
NoSerialFreeze [] t = Unit
NoSerialFreeze (c ∷ input) t = Harmless c t × NoSerialFreeze input (text_after c t)

-- The handler on one byte after another.
abbrev pub handle_bytes : (stack buf : List ℕ) → ℕ → List ℕ → Run Kernel (Unit {0})
handle_bytes stack buf rounds [] = pure tt
handle_bytes stack buf rounds (c ∷ input) =
    ser_process_char stack buf rounds c >> handle_bytes stack buf rounds input

pub Echoed-trans :
    {m n : ℕ} {t t' r s : List ℕ} {k k₁ k₂ : Kernel}
    → Echoed m t r k k₁
    → Echoed n t' s k₁ k₂
    → Echoed (m + n) t' (r ++ s) k k₂
Echoed-trans p q = record {
  typed = q.typed;
  ring_same = q.ring_same ∙ p.ring_same;
  kbd_same = q.kbd_same ∙ p.kbd_same;
  sent = Sent-trans p.sent q.sent;
}

pub Echoed-start : {t : List ℕ} (k : Kernel) → Typed t k.chat.ser → Echoed 0 t [] k k
Echoed-start k typed = record {
  typed = typed;
  ring_same = refl;
  kbd_same = refl;
  sent = Sent-nothing k.world;
}

module _ (stack buf : List ℕ) (rounds : ℕ) (room : line_max + 16 ≤ length buf) where
  -- One byte.
  pub ser_process_char-Echoed :
      (c : ℕ) (k : Kernel) (t : List ℕ)
      → Typed t k.chat.ser
      → Harmless c t
      → (0 < transfers_by c t → CanTransfer stack rounds k.world.files)
      → length (back_for c t) < ready_of k.world
      → Returns
          (ser_process_char stack buf rounds c)
          k
          (λ _ k'. Echoed (transfers_by c t) (text_after c t) (back_for c t) k k')
  unfolding ser_process_char
  ser_process_char-Echoed c k t typed fine can enough = elim (Bool-cases (ends_line c)) [
    | inl ends ↦ rw ends (
        Returns-mono
          (Returns-eq {n = ser_enter stack buf rounds} (rw ends refl) (
            ser_enter-SerEnded stack buf rounds room k t (fine ends) (rw ends at can) typed
              (omega (arith, (rw ends at enough)))))
          (λ _ k' e. record {
            typed = e.typed;
            ring_same = e.ring_same;
            kbd_same = e.kbd_same;
            sent = e.sent;
          }))
    | inr plain ↦ rw plain (
        ser_process_char-edit stack buf rounds c k t (λ same. absurd (ground (arith, plain, same)))
          (λ same. absurd (ground (arith, plain, same))) (omega (arith, enough)) typed)
  ]

  -- Any bytes that come on the serial line, CR and LF among them, with an array of at least 136
  -- bytes and a port that gets ready once for each byte to be sent and once more: if no line that
  -- they end is `/deadlock`, and a transfer is possible where one is `/transferir`, the handler
  -- returns after each. What is added to the line has been echoed; for each line ended, CR and LF
  -- were sent, and then the transcript of the transfer, nothing for `/help` or an empty line, or
  -- else `[serial] text` and a newline; the files were exchanged once for each transfer; the line
  -- holds what was typed since, and the ring and the keyboard's line are as before.
  pub handle_bytes-Echoed :
      (input : List ℕ) (k : Kernel) (t : List ℕ)
      → Typed t k.chat.ser
      → NoSerialFreeze input t
      → (0 < serial_transfers input t → CanTransfer stack rounds k.world.files)
      → length (answers_to input t) < ready_of k.world
      → Returns (handle_bytes stack buf rounds input) k (λ _ k'.
        Echoed (serial_transfers input t) (left_in_line input t) (answers_to input t) k k')
  handle_bytes-Echoed [] k t typed fine can enough = pure-Returns (Echoed-start k typed)
  handle_bytes-Echoed (c ∷ input) k t typed (fine, later) can enough =
      >>=-Returns (λ _. handle_bytes stack buf rounds input)
        (ser_process_char-Echoed c k t typed fine (λ some. can (omega (arith, some)))
          (omega (arith, enough, length-append (back_for c t) (answers_to input (text_after c t)))))
        (λ _ k₁ e.
          Returns-mono
            (handle_bytes-Echoed input k₁ (text_after c t) e.typed later
              (λ some. CanTransfer-Moved e.sent.moved (can (omega (arith, some))))
              (omega (
                arith,
                enough,
                length-append (back_for c t) (answers_to input (text_after c t)),
                e.sent.spent,
              )))
            (λ _ k₂ e'. Echoed-trans e e'))
