-- ===== src/Chat/Loop.antt =====
-- The keyboard's loop of `chat_poll`.
use projeto_so.Base.{ℕ, zero, suc, ◌+◌, ◌<◌, ◌≤◌, ◌≡◌, ◌∙◌, ap, arith, true, List, [], ◌∷◌, length}
use projeto_so.Io.Returns.{Returns, >>=-Returns, Returns-mono, pure-Returns}
use projeto_so.Io.Traffic.{sent_on}
use projeto_so.Serial.{uart_data}
use projeto_so.Deadlock.Transcript.{log_of}
use projeto_so.Chat.{line_max, Kernel}
use projeto_so.Chat.Poll.{kbd_loop}
use projeto_so.Chat.Queue.{Holds, kbd_pop-Holds}
use projeto_so.Chat.Editor.{Typed, edit}
use projeto_so.Chat.Message.{
  backspace_key, edited, no_enter, no_enter-head, no_enter-tail, kbd_process_char-edit,
}

-- The ring is empty, and the keyboard's line holds `t`.
pub record Settled (t : List ℕ) (k k' : Kernel) : Type 0 where
  pub typed : Typed t k'.chat.kbd
  pub ring : Holds k'.chat.ring []
  pub ser_same : k'.chat.ser ≡ k.chat.ser
  pub files_same : k'.world.files ≡ k.world.files
  pub log_same : log_of k'.world ≡ log_of k.world

module _ (stack buf : List ℕ) (rounds : ℕ) (room : line_max + 16 ≤ length buf) where
  -- If no Enter waits in the ring and no byte comes in, the keyboard's loop returns after one round
  -- more than bytes wait: the ring is then empty, the line holds the text edited by all these bytes
  -- in order, and the serial line, the files and the log are as before.
  pub kbd_loop-Settled :
      (n : ℕ) (k : Kernel) (q t : List ℕ)
      → Holds k.chat.ring q
      → no_enter q ≡ true
      → Typed t k.chat.kbd
      → length q < n
      → Returns (kbd_loop stack buf rounds n []) k (λ _ k'. Settled (edited q t) k k')
  unfolding kbd_loop
  kbd_loop-Settled zero k q t h ok typed enough = absurd (omega arith)
  kbd_loop-Settled (suc n) k [] t h ok typed enough =
      >>=-Returns _ (kbd_pop-Holds k [] h) (λ c k₁ (got, ring, trace, inputs, kbd, ser, files).
        rw got (
          pure-Returns (record {
            typed = rw kbd typed;
            ring = ring;
            ser_same = ser;
            files_same = files;
            log_same = ap (sent_on uart_data) trace;
          })))
  kbd_loop-Settled (suc n) k (b ∷ q) t h ok typed enough =
      >>=-Returns _ (kbd_pop-Holds k (b ∷ q) h) (λ c k₁ (got, ring, trace, inputs, kbd, ser, files).
        rw got (
          >>=-Returns (λ _. kbd_loop stack buf rounds n [])
            (kbd_process_char-edit stack buf rounds b k₁ t (no_enter-head b q ok) (rw kbd typed))
            (λ _ k₂ e.
              Returns-mono
                (kbd_loop-Settled n k₂ q (edit backspace_key b t) (rw (e.ring_same) ring)
                  (no_enter-tail b q ok) e.typed (omega arith))
                (λ _ k₃ done. record {
                  typed = done.typed;
                  ring = done.ring;
                  ser_same = done.ser_same ∙ e.ser_same ∙ ser;
                  files_same = done.files_same ∙ e.files_same ∙ files;
                  log_same = done.log_same ∙ e.log_same ∙ ap (sent_on uart_data) trace;
                }))))
