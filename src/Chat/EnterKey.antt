-- ===== src/Chat/EnterKey.antt =====
-- The end of a line of either user, with any text but `/deadlock`.
use projeto_so.Base.{
  ℕ, ◌+◌, ◌<◌, ◌≤◌, ◌≡◌, refl, ap, ◌∙◌, arith, List, [], ◌++◌, append_assoc, length, until_nul,
  codes,
}
use projeto_so.Io.{zoom, ◌>>=◌}
use projeto_so.Io.Traffic.{Tail-trans}
use projeto_so.Io.Returns.{Returns, returns, Returns-mono}
use projeto_so.Deadlock.Transcript.{Stage-start, say-Stage, log_of, ready_of}
use projeto_so.Chat.{line_max, Kernel, on_chat, reset, terminate}
use projeto_so.Chat.Poll.{kbd_enter, ser_enter}
use projeto_so.Chat.Editor.{Typed, terminate-Typed, reset-Typed}
use projeto_so.Chat.Entered.{kbd_enter-reset}
use projeto_so.Chat.Outcome.{reply, transfers_of, Freezes, CanTransfer, Sent}
use projeto_so.Chat.Command.{submit_line-Sent}

-- The keyboard's line was ended: `text` is sent, `n` transfers are made, and the line is empty.
pub record KbdEnded (n : ℕ) (text : List ℕ) (k k' : Kernel) : Type 0 where
  pub typed : Typed [] k'.chat.kbd
  pub ring_same : k'.chat.ring ≡ k.chat.ring
  pub ser_same : k'.chat.ser ≡ k.chat.ser
  pub sent : Sent n text k.world k'.world

-- The same for the line of the serial port.
pub record SerEnded (n : ℕ) (text : List ℕ) (k k' : Kernel) : Type 0 where
  pub typed : Typed [] k'.chat.ser
  pub ring_same : k'.chat.ring ≡ k.chat.ring
  pub kbd_same : k'.chat.kbd ≡ k.chat.kbd
  pub sent : Sent n text k.world k'.world

module _ (stack buf : List ℕ) (rounds : ℕ) (room : line_max + 16 ≤ length buf) (k : Kernel)
    (t : List ℕ) (other : ¬ Freezes t)
    (can : 0 < transfers_of t → CanTransfer stack rounds k.world.files) where
  pub kbd_enter-KbdEnded :
      Typed t k.chat.kbd
      → length (reply (codes "vga") t) ≤ ready_of k.world
      → Returns
          (kbd_enter stack buf rounds)
          k
          (λ _ k'. KbdEnded (transfers_of t) (reply (codes "vga") t) k k')
  kbd_enter-KbdEnded typed enough =
      Returns-mono
        (kbd_enter-reset stack buf rounds k typed (
          submit_line-Sent stack buf rounds (codes "vga") (terminate k.chat.kbd).line
            (terminate-Typed typed).ended k.world other can typed.fits (omega arith) room enough))
        (λ _ k' (sent, empty, ring, ser). record {
          typed = empty;
          ring_same = ring;
          ser_same = ser;
          sent = sent;
        })

  pub ser_enter-SerEnded :
      Typed t k.chat.ser
      → length (codes "\r\n" ++ reply (codes "serial") t) ≤ ready_of k.world
      → Returns
          (ser_enter stack buf rounds)
          k
          (λ _ k'. SerEnded (transfers_of t) (codes "\r\n" ++ reply (codes "serial") t) k k')
  unfolding ser_enter on_chat
  ser_enter-SerEnded typed enough =
      elim (say-Stage (codes "\r\n") 2 (omega (arith, enough)) refl (Stage-start k.world)) [
        | returns _ w₁ echoes s₁ ↦
            elim (submit_line-Sent stack buf rounds (codes "serial") line ended w₁ other
              (rw (s₁.files_are) can) typed.fits (omega arith) room
              (omega (arith, s₁.spent, enough))) [
                | returns _ w' runs sent ↦
                    returns tt
                      (record {
                        world = w';
                        chat = record k.chat { ser = reset (terminate k.chat.ser) };
                      })
                      (rw (echoes, runs, ◌>>=◌, zoom) refl)
                      (record {
                        typed = reset-Typed (terminate k.chat.ser) (terminate-Typed typed).size;
                        ring_same = refl;
                        kbd_same = refl;
                        sent = record {
                          moved = rw (s₁.files_are) at (sent.moved);
                          logged =
                              sent.logged
                              ∙ ap (λ l. l ++ reply (codes "serial") t) s₁.logged
                              ∙ append_assoc (log_of k.world) _ _;
                          spent = omega (arith, sent.spent, s₁.spent);
                          left_over = Tail-trans s₁.left_over sent.left_over;
                        };
                      })
              ]
      ]
    where
      line : List ℕ
      line = (terminate k.chat.ser).line

      ended : until_nul line ≡ t
      ended = (terminate-Typed typed).ended
