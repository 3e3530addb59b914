-- ===== src/Chat/Entered.antt =====
-- A line typed at the keyboard, and the Enter key that sends it.
use projeto_so.Base.{
  ℕ, ◌+◌, ◌<◌, ◌≤◌, ◌≡◌, refl, ◌∙◌, ap, arith, true, List, [], ◌∷◌, ◌++◌, length, until_nul, bytes,
  codes,
}
use projeto_so.Serial.Ready.{ready_count}
use projeto_so.Io.{Run, pure, zoom, ◌>>=◌, ◌>>◌}
use projeto_so.Io.Returns.{Returns, returns, >>=-Returns, Returns-mono, Returns-eq, pure-Returns}
use projeto_so.Deadlock.{World}
use projeto_so.Deadlock.Transcript.{log_of, ready_of}
use projeto_so.Chat.{line_max, Kernel, on_chat, terminate, reset, submit_line}
use projeto_so.Chat.Poll.{kbd_process_char, kbd_enter}
use projeto_so.Chat.Editor.{Typed, edit, terminate-Typed, reset-Typed}
use projeto_so.Chat.Message.{
  backspace_key, edited, no_enter, no_enter-head, no_enter-tail, kbd_process_char-edit,
}
use projeto_so.Chat.Submit.{message, Command, submit_line-Submitted}

-- The keyboard's line was sent as `t`, and is empty now.
pub record Entered (user t : List ℕ) (k k' : Kernel) : Type 0 where
  pub typed : Typed [] k'.chat.kbd
  pub ring_same : k'.chat.ring ≡ k.chat.ring
  pub ser_same : k'.chat.ser ≡ k.chat.ser
  pub files_same : k'.world.files ≡ k.world.files
  pub logged : log_of k'.world ≡ log_of k.world ++ bytes (message user t)

-- The Enter key does what `submit_line` does, and empties the line.
pub kbd_enter-reset :
    (stack buf : List ℕ) (rounds : ℕ) (k : Kernel) {t : List ℕ} {P : World → Type 0}
    → Typed t k.chat.kbd
    → Returns
        (submit_line stack buf rounds (codes "vga") (terminate k.chat.kbd).line)
        k.world
        (λ _ w. P w)
    → Returns (kbd_enter stack buf rounds) k (λ _ k'.
      P k'.world × Typed [] k'.chat.kbd × (k'.chat.ring ≡ k.chat.ring) × (k'.chat.ser ≡ k.chat.ser))
unfolding kbd_enter on_chat
kbd_enter-reset stack buf rounds k typed (returns u w e holds) =
    returns u (record { world = w; chat = record k.chat { kbd = reset (terminate k.chat.kbd) } })
      (rw (e, ◌>>=◌, zoom) refl)
      (holds, reset-Typed (terminate k.chat.kbd) (terminate-Typed typed).size, refl, refl)

module _ (stack buf : List ℕ) (rounds : ℕ) (room : line_max + 16 ≤ length buf) where
  kbd_enter-Entered :
      (k : Kernel) (t : List ℕ)
      → Typed t k.chat.kbd
      → ¬ Command t
      → 0 < length t
      → length (message (codes "vga") t) ≤ ready_of k.world
      → Returns (kbd_enter stack buf rounds) k (λ _ k'. Entered (codes "vga") t k k')
  kbd_enter-Entered k t typed other some_text enough =
      Returns-mono
        (kbd_enter-reset stack buf rounds k typed (
          submit_line-Submitted stack buf rounds (codes "vga") (terminate k.chat.kbd).line k.world
            (rw ended other) (rw ended some_text) (rw ended typed.fits) (omega arith) room
            (rw ended enough)))
        (λ _ k' (stage, empty, ring, ser). record {
          typed = empty;
          ring_same = ring;
          ser_same = ser;
          files_same = stage.files_are;
          logged = stage.logged ∙ ap (λ l. log_of k.world ++ bytes (message (codes "vga") l)) ended;
        })
    where
      ended : until_nul (terminate k.chat.kbd).line ≡ t
      ended = (terminate-Typed typed).ended

  -- The handler on one key after another.
  abbrev pub press : List ℕ → Run Kernel (Unit {0})
  press [] = pure tt
  press (c ∷ cs) = kbd_process_char stack buf rounds c >> press cs

  enter_key :
      (k : Kernel) → kbd_process_char stack buf rounds b'\n' k ≡ kbd_enter stack buf rounds k
  unfolding kbd_process_char
  enter_key k = refl

  -- A line typed at the keyboard, with any corrections, onto the text that the line holds, and then
  -- Enter, the array for the message having at least 136 bytes: if the text is then not empty and
  -- no command, and the port gets ready once for each byte of the message, the handler returns
  -- after every key; on the serial port there is then just the message `[vga] text` and a newline,
  -- the line is empty again, and the ring, the serial line and the files are as before.
  pub enter_sends_line :
      (keys : List ℕ) (k : Kernel) (t : List ℕ)
      → no_enter keys ≡ true
      → Typed t k.chat.kbd
      → ¬ Command (edited keys t)
      → 0 < length (edited keys t)
      → length (message (codes "vga") (edited keys t)) ≤ ready_of k.world
      → Returns (press (keys ++ b'\n' ∷ [])) k (λ _ k'. Entered (codes "vga") (edited keys t) k k')
  enter_sends_line [] k t ok typed other some_text enough =
      >>=-Returns (λ _. pure tt)
        (Returns-eq (enter_key k) (kbd_enter-Entered k t typed other some_text enough))
        (λ _ k' done. pure-Returns done)
  enter_sends_line (c ∷ keys) k t ok typed other some_text enough =
      >>=-Returns (λ _. press (keys ++ b'\n' ∷ []))
        (kbd_process_char-edit stack buf rounds c k t (no_enter-head c keys ok) typed)
        (λ _ k₁ e.
          Returns-mono
            (enter_sends_line keys k₁ (edit backspace_key c t) (no_enter-tail c keys ok) e.typed
              other some_text (omega (arith, ap ready_count (e.inputs_same), enough)))
            (λ _ k' done. record {
              typed = done.typed;
              ring_same = done.ring_same ∙ e.ring_same;
              ser_same = done.ser_same ∙ e.ser_same;
              files_same = done.files_same ∙ e.files_same;
              logged =
                  done.logged
                  ∙ ap (λ l. l ++ bytes (message (codes "vga") (edited (c ∷ keys) t))) e.log_same;
            }))
