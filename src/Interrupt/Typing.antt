-- ===== src/Interrupt/Typing.antt =====
-- From the scan codes of the keyboard to the serial line: the interrupt, and the round of the chat
-- after it.
use projeto_so.Base.{
  ℕ, ◌+◌, ◌<◌, ◌≤◌, ◌≡◌, refl, sym, ap, ◌∙◌, true, false, List, [], ◌∷◌, ◌++◌, ◌==◌, if◌then◌else◌,
  append-nil, bytes, length, Bool-cases, inl, inr,
}
use projeto_so.Io.{Event, sent, received, cli, sti, ◌>>◌}
use projeto_so.Io.Returns.{Returns, Returns-mono, >>=-Returns}
use projeto_so.Io.Traffic.{sent_on, writes}
use projeto_so.Serial.{uart_data}
use projeto_so.Serial.Ready.{idle}
use projeto_so.Deadlock.Transcript.{log_of}
use projeto_so.Chat.{line_max, Kernel}
use projeto_so.Chat.Poll.{chat_poll}
use projeto_so.Chat.Queue.{Holds}
use projeto_so.Chat.Editor.{Typed}
use projeto_so.Chat.Outcome.{CanTransfer}
use projeto_so.Chat.Session.{sends, leaves, transfers, NoFreeze}
use projeto_so.Chat.SerialSession.{answers_to, left_in_line, serial_transfers, NoSerialFreeze}
use projeto_so.Chat.SerialLoop.{port_answers}
use projeto_so.Chat.Served
use projeto_so.Chat.Served.{chat_poll-Served}
use projeto_so.Pic.Chips.{ends}
use projeto_so.Keyboard.Drain.{waits, answers, all_wait, typed}
use projeto_so.Interrupt.{interrupt_handler}
use projeto_so.Interrupt.Dispatch
use projeto_so.Interrupt.Dispatch.{interrupt_handler-Served}

-- Of all that went out, what went to a port.
abbrev at_port : ℕ → List (ℕ × ℕ) → List ℕ
at_port port [] = []
at_port port ((p, v) ∷ ws) = if p == port then v ∷ at_port port ws else at_port port ws

at_port-append :
    (port : ℕ) (us ws : List (ℕ × ℕ)) → at_port port (us ++ ws) ≡ at_port port us ++ at_port port ws
at_port-append port [] ws = refl
at_port-append port ((p, v) ∷ us) ws = elim (Bool-cases (p == port)) [
  | inl e ↦ rw (e, at_port-append port us ws) refl
  | inr e ↦ rw (e, at_port-append port us ws) refl
]

sent_on-writes : (port : ℕ) (t : List Event) → sent_on port t ≡ at_port port (writes t)
sent_on-writes port [] = refl
sent_on-writes port (sent p v ∷ t) = elim (Bool-cases (p == port)) [
  | inl e ↦ rw (e, at_port-append port (writes t) ((p, v) ∷ []), sent_on-writes port t, e) refl
  | inr e ↦
      rw (e, at_port-append port (writes t) ((p, v) ∷ []), sent_on-writes port t, e)
        (sym (append-nil (at_port port (writes t))))
]
sent_on-writes port (received p v ∷ t) = sent_on-writes port t
sent_on-writes port (cli ∷ t) = sent_on-writes port t
sent_on-writes port (sti ∷ t) = sent_on-writes port t

-- The end of the interrupt does not go to the serial port.
log_same :
    {q later : List ℕ} {k k' : Kernel}
    → Dispatch.Served 33 q later k k'
    → log_of k'.world ≡ log_of k.world
log_same {k = k} {k'} s =
    sent_on-writes uart_data k'.world.screen.bus.trace
    ∙ ap (at_port uart_data) s.ended
    ∙ at_port-append uart_data (writes k.world.screen.bus.trace) (ends 33)
    ∙ append-nil _
    ∙ sym (sent_on-writes uart_data k.world.screen.bus.trace)

module _ (stack buf : List ℕ) (rounds : ℕ) (room : line_max + 16 ≤ length buf) where
  -- The interrupt of the keyboard, with scan codes waiting, and then a round of `chat_poll`, from an
  -- empty ring and lines that hold `t` and `s`. Let the controller give its scan codes and then say
  -- that none waits, and let the serial port be always ready to send and bring the bytes of `input`.
  -- Let no line that is ended be `/deadlock`, let a transfer be possible if one is `/transferir`, let
  -- the array have 136 bytes, and let the keyboard's loop be followed for a round more than there
  -- are characters. Then both return, and the characters of the keys pressed, the first 255 of them,
  -- have become lines: just what these lines send went out on the serial port, and then what goes
  -- back and out for the bytes of the serial line. The files were exchanged once for each transfer,
  -- each line holds what was typed since its last Enter, and the ring is empty.
  pub scan_codes_are_sent :
      (n : ℕ) (keys : List (ℕ × ℕ)) (last : ℕ) (k : Kernel) (t input s later : List ℕ)
      → all_wait keys ≡ true
      → waits last ≡ false
      → Holds k.chat.ring []
      → Typed t k.chat.kbd
      → Typed s k.chat.ser
      → NoFreeze (typed keys []) t
      → NoSerialFreeze (bytes input) s
      → (0 < transfers (typed keys []) t + serial_transfers (bytes input) s
          → CanTransfer stack rounds k.world.files)
      → length (typed keys []) < n
      → k.world.screen.bus.inputs
        ≡ answers keys
          ++ last ∷ idle (length (sends (typed keys []) t)) (port_answers input s later)
      → Returns
          (do interrupt_handler 33; chat_poll stack buf rounds n [])
          k
          (λ _ k'.
            Served.Served
              (transfers (typed keys []) t + serial_transfers (bytes input) s)
              (leaves (typed keys []) t)
              (left_in_line (bytes input) s)
              (sends (typed keys []) t ++ answers_to (bytes input) s)
              later
              k
              k')
  scan_codes_are_sent n keys last k t input s later wait stop h kbd ser fine fine' can fuel inputs =
      >>=-Returns (λ _. chat_poll stack buf rounds n [])
        ((interrupt_handler-Served k [] h).0 keys last _ wait stop inputs)
        (λ _ k₁ i.
          Returns-mono
            (chat_poll-Served stack buf rounds room n [] k₁ (typed keys []) t input s later i.ring
              (rw (i.kbd_same) kbd) (rw (i.ser_same) ser) fine fine'
              (λ some. rw (i.files_same) (can some)) fuel i.left)
            (λ _ k' p. record {
              kbd_typed = p.kbd_typed;
              ser_typed = p.ser_typed;
              ring = p.ring;
              moved = rw (i.files_same) at (p.moved);
              logged =
                  p.logged
                  ∙ ap (λ l. l ++ (sends (typed keys []) t ++ answers_to (bytes input) s))
                      (log_same i);
              inputs_are = p.inputs_are;
            }))
