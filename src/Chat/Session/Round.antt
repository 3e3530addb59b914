-- ===== src/Chat/Session/Round.antt =====
-- A whole round of `chat_poll`, with no byte on the serial line.
use projeto_so.Base.{
  ℕ, suc, ◌+◌, ◌%◌, ◌^◌, ◌<◌, ◌≤◌, ◌≡◌, refl, arith, Bool, ◌&&◌, true, List, [], ◌∷◌, ◌++◌, ◌==◌,
  length, bit_and,
}
use projeto_so.Io.{received, zoom, ◌>>=◌, inb}
use projeto_so.Io.Traffic.{Tail, whole, past}
use projeto_so.Io.Returns.{Returns, returns, Returns-eq, >>=-Returns}
use projeto_so.Serial.{uart_line_stat, serial_rx_ready}
use projeto_so.Serial.Ready.{ready_count}
use projeto_so.Deadlock.Transcript.{log_of, ready_of}
use projeto_so.Chat.{line_max, Kernel}
use projeto_so.Chat.Poll.{ser_loop, chat_poll}
use projeto_so.Chat.Queue.{Holds}
use projeto_so.Chat.Editor.{Typed}
use projeto_so.Chat.Session.{sends, leaves, NoFreeze, transfers, taken, Typing}
use projeto_so.Chat.Outcome.{Moved, CanTransfer}
use projeto_so.Chat.Session.Keyboard.{kbd_loop-Handles}

-- No answer says that a byte came in on the serial line.
abbrev pub silent : List ℕ → Bool
silent [] = true
silent (v ∷ vs) = (bit_and (v % 2 ^ 8) 0x01 == 0) && silent vs

pub silent-Tail : {vs ws : List ℕ} → Tail vs ws → silent vs ≡ true → silent ws ≡ true
silent-Tail whole e = e
silent-Tail (past v p) e = silent-Tail p (ground (arith, e))

-- A round of `chat_poll` is over: the ring is empty, the keyboard's line holds `t`, `text` was
-- sent, and `n` transfers were made.
pub record Polled (n : ℕ) (t text : List ℕ) (k k' : Kernel) : Type 0 where
  pub typed : Typed t k'.chat.kbd
  pub ring : Holds k'.chat.ring []
  pub ser_same : k'.chat.ser ≡ k.chat.ser
  pub moved : Moved n k.world.files k'.world.files
  pub logged : log_of k'.world ≡ log_of k.world ++ text

module _ (stack buf : List ℕ) (rounds : ℕ) (room : line_max + 16 ≤ length buf) where
  -- The serial loop asks once.
  ser_loop-Polled :
      {m : ℕ} {t text : List ℕ} (k k₁ : Kernel) (n : ℕ) (vs : List ℕ)
      → k₁.world.screen.bus.inputs ≡ vs
      → silent vs ≡ true
      → 0 < ready_count vs
      → Typing m t text k k₁
      → Holds k₁.chat.ring []
      → Returns (ser_loop stack buf rounds (suc n)) k₁ (λ _ k'. Polled m t text k k')
  unfolding ser_loop serial_rx_ready inb
  ser_loop-Polled k k₁ n [] e idle some_left p ring = absurd (omega arith)
  ser_loop-Polled k k₁ n (v ∷ vs) e idle some_left p ring =
      let none_came : (bit_and (v % 2 ^ 8) 0x01 == 0) ≡ true = ground (arith, idle) in
      returns tt
        (record k₁ {
          world = record k₁.world {
            screen = record k₁.world.screen {
              bus = record {
                inputs = vs;
                trace = received uart_line_stat (v % 2 ^ 8) ∷ k₁.world.screen.bus.trace;
              };
            };
          };
        })
        (rw (e, none_came, ◌>>=◌, zoom) refl)
        (record {
          typed = p.typed;
          ring = ring;
          ser_same = p.ser_same;
          moved = p.sent.moved;
          logged = p.sent.logged;
        })

  -- A whole round of `chat_poll`, with any keys in the ring and more that interrupts bring between
  -- its rounds, Enter among them. Let no line that they end be `/deadlock`, let a transfer be
  -- possible if one is `/transferir`, let the array have 136 bytes, let the loop be followed for a
  -- round more than there are keys, let the port get ready once for each byte to be sent and once
  -- more, and let no answer say that a byte came on the serial line. Then `chat_poll` returns; the
  -- keys of the ring were handled in order, up to where a round found it empty: for each line just
  -- the transcript of the transfer was sent, nothing for `/help` or an empty line, or else `[vga]
  -- text` and a newline; the files were exchanged once for each transfer, and are as before if there
  -- was none; the line holds what was typed since the last Enter, the ring is empty, and the serial
  -- line is as before.
  pub chat_poll-Polled :
      (n : ℕ) (arrivals : List (List ℕ)) (k : Kernel) (q t : List ℕ)
      → Holds k.chat.ring q
      → Typed t k.chat.kbd
      → NoFreeze (taken q arrivals) t
      → (0 < transfers (taken q arrivals) t → CanTransfer stack rounds k.world.files)
      → length (taken q arrivals) < n
      → length (sends (taken q arrivals) t) < ready_of k.world
      → silent k.world.screen.bus.inputs ≡ true
      → Returns (chat_poll stack buf rounds n arrivals) k (λ _ k'.
        Polled
          (transfers (taken q arrivals) t)
          (leaves (taken q arrivals) t)
          (sends (taken q arrivals) t)
          k
          k')
  unfolding chat_poll
  chat_poll-Polled n arrivals k q t h typed fine can fuel enough idle =
      >>=-Returns (λ _ k₁. ser_loop stack buf rounds (suc (length k₁.world.screen.bus.inputs)) k₁)
        (kbd_loop-Handles stack buf rounds room n arrivals q fuel k t h typed fine can
          (omega (arith, enough)))
        (λ _ k₁ (p, ring).
          Returns-eq {n = ser_loop stack buf rounds (suc (length k₁.world.screen.bus.inputs))} refl
            (ser_loop-Polled k k₁ (length k₁.world.screen.bus.inputs) k₁.world.screen.bus.inputs
              refl (silent-Tail p.sent.left_over idle) (omega (arith, p.sent.spent, enough)) p
              ring))
