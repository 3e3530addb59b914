-- ===== src/Chat/Served.antt =====
-- A whole round of `chat_poll`, with keys of one user and bytes of the other.
use projeto_so.Base.{
  ℕ, zero, suc, ◌+◌, ◌<◌, ◌≤◌, ◌≡◌, refl, sym, ap, ◌∙◌, arith, List, [], ◌∷◌, ◌++◌, append_assoc,
  bytes, length, u8,
}
use projeto_so.Io.Returns.{Returns, Returns-mono, Returns-eq, >>=-Returns}
use projeto_so.Serial.Ready.{ready_count, idle, ready_count-idle, idle-Tail}
use projeto_so.Deadlock.Transcript.{log_of}
use projeto_so.Chat.{line_max, Kernel}
use projeto_so.Chat.Poll.{ser_loop, chat_poll}
use projeto_so.Chat.Queue.{Holds}
use projeto_so.Chat.Editor.{Typed}
use projeto_so.Chat.Outcome.{CanTransfer, CanTransfer-Moved, Moved, Moved-trans}
use projeto_so.Chat.Session.{sends, leaves, transfers, NoFreeze, taken, Typing}
use projeto_so.Chat.Session.Keyboard.{kbd_loop-Handles}
use projeto_so.Chat.SerialSession.{
  back_for, text_after, answers_to, left_in_line, serial_transfers, NoSerialFreeze,
}
use projeto_so.Chat.SerialLoop.{port_answers, port_answers-ready, ser_loop-Heard}

-- The two lines hold `t` and `s`, the ring is empty, `text` was sent, `n` transfers were made, and
-- the port answers `later`.
pub record Served (n : ℕ) (t s text later : List ℕ) (k k' : Kernel) : Type 0 where
  pub kbd_typed : Typed t k'.chat.kbd
  pub ser_typed : Typed s k'.chat.ser
  pub ring : Holds k'.chat.ring []
  pub moved : Moved n k.world.files k'.world.files
  pub logged : log_of k'.world ≡ log_of k.world ++ text
  pub inputs_are : k'.world.screen.bus.inputs ≡ later

length-port_answers : (input t later : List ℕ) → length input < length (port_answers input t later)
length-port_answers [] t later = omega arith
length-port_answers (c ∷ input) t later = omega (
  arith,
  length-port_answers input (text_after (u8 c) t) later,
  longer (length (back_for (u8 c) t)) (port_answers input (text_after (u8 c) t) later),
)
  where
    longer : (n : ℕ) (rest : List ℕ) → length rest ≤ length (idle n rest)
    longer zero rest = omega arith
    longer (suc n) rest = omega (arith, longer n rest)

module _ (stack buf : List ℕ) (rounds : ℕ) (room : line_max + 16 ≤ length buf) where
  -- After the keyboard's loop the port has the answers for the serial loop.
  pub typed-inputs :
      (n : ℕ) (input t s text later : List ℕ) (k k₁ : Kernel)
      → k.world.screen.bus.inputs ≡ idle (length text) (port_answers input s later)
      → Typing n t text k k₁
      → k₁.world.screen.bus.inputs ≡ port_answers input s later
  typed-inputs n input t s text later k k₁ inputs p =
      let (v, rest, starts, ready) = port_answers-ready input s later in
      idle-Tail (length text) v rest p.sent.left_over (inputs ∙ rw starts refl) ready (
        omega (
          arith,
          p.sent.spent,
          ap ready_count inputs,
          ready_count-idle (length text) (port_answers input s later),
          ap ready_count starts,
        ))
      ∙ sym starts

  -- A whole round of `chat_poll`: any keys in the ring and more that interrupts bring, and any bytes
  -- of `input` on the serial line, Enters among both. Let no line that they end be `/deadlock`, let
  -- a transfer be possible if one is `/transferir`, let the array have 136 bytes, let the keyboard's
  -- loop be followed for a round more than there are keys, and let the port be always ready to send
  -- and bring the bytes one after the other once the keyboard's loop is over. Then `chat_poll`
  -- returns. What was sent is first, for each line of the keyboard, the transcript of the transfer,
  -- nothing for `/help` or an empty line, or else `[vga] text` and a newline; then the echo of each
  -- byte that was added to the serial line, and for each line ended CR, LF and the same with
  -- `[serial]`. The files were exchanged once for each transfer, each line holds what was typed
  -- since its last Enter, the ring is empty, and the port has been read just up to `later`.
  pub chat_poll-Served :
      (n : ℕ) (arrivals : List (List ℕ)) (k : Kernel) (q t input s later : List ℕ)
      → Holds k.chat.ring q
      → Typed t k.chat.kbd
      → Typed s k.chat.ser
      → NoFreeze (taken q arrivals) t
      → NoSerialFreeze (bytes input) s
      → (0 < transfers (taken q arrivals) t + serial_transfers (bytes input) s
          → CanTransfer stack rounds k.world.files)
      → length (taken q arrivals) < n
      → k.world.screen.bus.inputs
        ≡ idle (length (sends (taken q arrivals) t)) (port_answers input s later)
      → Returns (chat_poll stack buf rounds n arrivals) k (λ _ k'.
        Served
          (transfers (taken q arrivals) t + serial_transfers (bytes input) s)
          (leaves (taken q arrivals) t)
          (left_in_line (bytes input) s)
          (sends (taken q arrivals) t ++ answers_to (bytes input) s)
          later
          k
          k')
  unfolding chat_poll
  chat_poll-Served n arrivals k q t input s later h kbd ser fine fine' can fuel inputs =
      >>=-Returns (λ _ k₁. ser_loop stack buf rounds (suc (length k₁.world.screen.bus.inputs)) k₁)
        (kbd_loop-Handles stack buf rounds room n arrivals q fuel k t h kbd fine
          (λ some. can (omega (arith, some)))
          (omega (
            arith,
            ap ready_count inputs,
            ready_count-idle (length (sends (taken q arrivals) t)) (port_answers input s later),
          )))
        (λ _ k₁ (p, ring).
          let answers = typed-inputs _ input _ s _ later k k₁ inputs p in
          Returns-mono
            (Returns-eq {n = ser_loop stack buf rounds (suc (length k₁.world.screen.bus.inputs))}
              refl
              (ser_loop-Heard stack buf rounds room (suc (length k₁.world.screen.bus.inputs)) input
                later k₁ s answers (rw (p.ser_same) ser) fine'
                (λ some. CanTransfer-Moved p.sent.moved (can (omega (arith, some))))
                (omega (arith, ap length answers, length-port_answers input s later))))
            (λ _ k' e. record {
              kbd_typed = rw (e.kbd_same) p.typed;
              ser_typed = e.typed;
              ring = rw (e.ring_same) ring;
              moved = Moved-trans p.sent.moved e.moved;
              logged =
                  e.logged
                  ∙ ap (λ l. l ++ answers_to (bytes input) s) p.sent.logged
                  ∙ append_assoc (log_of k.world) _ _;
              inputs_are = e.inputs_are;
            }))
