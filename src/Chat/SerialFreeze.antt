-- ===== src/Chat/SerialFreeze.antt =====
-- The command `/deadlock` on the serial line.
use projeto_so.Base.{
  ℕ, zero, suc, ◌+◌, ◌<◌, ◌≤◌, ◌≡◌, refl, sym, ap, arith, true, List, [], ◌∷◌, ◌++◌, length, codes,
  bytes, none, u8,
}
use projeto_so.Io.{zoom, ◌>>=◌}
use projeto_so.Io.Returns.{returns}
use projeto_so.Serial.{uart_data, uart_line_stat}
use projeto_so.Serial.Ready.{ready_count, idle, ready_count-idle}
use projeto_so.Deadlock.Unsafe.{unsafe_log}
use projeto_so.Deadlock.Transcript.{Stage-start, say-Stage, ready_of}
use projeto_so.Chat.{line_max, Kernel, on_chat, terminate}
use projeto_so.Chat.Poll.{ser_enter, ser_process_char, read_one, ser_loop, chat_poll}
use projeto_so.Chat.Queue.{Holds}
use projeto_so.Chat.Editor.{Typed, terminate-Typed}
use projeto_so.Chat.Outcome.{CanTransfer, CanTransfer-Moved}
use projeto_so.Chat.Session.{sends, transfers, NoFreeze, taken}
use projeto_so.Chat.Session.Keyboard.{kbd_loop-Handles}
use projeto_so.Chat.Served.{typed-inputs}
use projeto_so.Chat.SerialSession.{
  ends_line, back_for, text_after, left_in_line, serial_transfers, NoSerialFreeze,
}
use projeto_so.Chat.SerialLoop.{
  port_answers, port_answers-ready, heard, rx_ready-run, read_byte-run, read_one-Heard,
}
use projeto_so.Chat.Freeze.{submit_line-none}

ready_count-later : (v : ℕ) (vs : List ℕ) → ready_count vs ≤ ready_count (v ∷ vs)
ready_count-later v vs = ground arith

-- The answers show the port ready at least as often as those that come later.
ready_count-port_answers :
    (input t later : List ℕ) → ready_count later ≤ ready_count (port_answers input t later)
ready_count-port_answers [] t later = ready_count-later 0x60 later
ready_count-port_answers (c ∷ input) t later =
    let next : List ℕ = port_answers input (text_after (u8 c) t) later in
    let answers : List ℕ = idle (length (back_for (u8 c) t)) next in
    omega (
      arith,
      ready_count-later 0x61 (c ∷ answers),
      ready_count-later c answers,
      ready_count-idle (length (back_for (u8 c) t)) next,
      ready_count-port_answers input (text_after (u8 c) t) later,
    )

-- The end of a line is answered with CR and LF at least.
two_back : (c : ℕ) (t : List ℕ) → ends_line c ≡ true → 2 ≤ length (back_for c t)
two_back c t ends = rw ends (omega arith)

module _ (stack buf : List ℕ) (rounds : ℕ) where
  ser_enter-none :
      (k : Kernel)
      → Typed (codes "/deadlock") k.chat.ser
      → 2 + length unsafe_log ≤ ready_of k.world
      → ser_enter stack buf (suc rounds) k ≡ none
  unfolding ser_enter on_chat
  ser_enter-none k typed enough =
      elim (say-Stage (codes "\r\n") 2 (omega (arith, enough)) refl (Stage-start k.world)) [
        | returns _ w₁ echoes s₁ ↦
            rw
              (
                echoes,
                submit_line-none stack buf rounds (codes "serial") (terminate k.chat.ser).line w₁
                    (terminate-Typed typed).ended (omega (arith, s₁.spent, enough)),
                ◌>>=◌,
                zoom,
              )
              refl
      ]

  read_one-none :
      (c : ℕ) (vs : List ℕ) (k : Kernel)
      → k.world.screen.bus.inputs ≡ c ∷ vs
      → ends_line (u8 c) ≡ true
      → Typed (codes "/deadlock") k.chat.ser
      → 2 + length unsafe_log ≤ ready_count vs
      → read_one stack buf (suc rounds) k ≡ none
  unfolding read_one ser_process_char
  read_one-none c vs k inputs ends typed enough =
      rw
        (
          read_byte-run c vs k inputs,
          ◌>>=◌,
          ends,
          ser_enter-none (heard uart_data c vs k) typed enough,
        )
        refl

  -- The serial loop, with the command behind bytes that make the line what it is.
  ser_loop-none :
      (room : line_max + 16 ≤ length buf) (n : ℕ) (input : List ℕ) (c : ℕ) (more later t : List ℕ)
      (k : Kernel)
      → k.world.screen.bus.inputs ≡ port_answers (input ++ c ∷ more) t later
      → Typed t k.chat.ser
      → NoSerialFreeze (bytes input) t
      → left_in_line (bytes input) t ≡ codes "/deadlock"
      → ends_line (u8 c) ≡ true
      → (0 < serial_transfers (bytes input) t → CanTransfer stack (suc rounds) k.world.files)
      → length unsafe_log ≤ ready_count later
      → ser_loop stack buf (suc rounds) n k ≡ none
  unfolding ser_loop
  ser_loop-none room zero input c more later t k inputs typed fine made ends can enough = refl
  ser_loop-none room (suc n) [] c more later t k inputs typed fine made ends can enough =
      let next : List ℕ = port_answers more (text_after (u8 c) t) later in
      let answers : List ℕ = c ∷ idle (length (back_for (u8 c) t)) next in
      let k₁ : Kernel = heard uart_line_stat 0x61 answers k in
      rw
        (
          rx_ready-run 0x61 answers k inputs,
          ◌>>=◌,
          read_one-none c (idle (length (back_for (u8 c) t)) next) k₁ refl ends
              (rw (sym made) typed)
              (omega (
                arith,
                enough,
                two_back (u8 c) t ends,
                ready_count-idle (length (back_for (u8 c) t)) next,
                ready_count-port_answers more (text_after (u8 c) t) later,
              )),
        )
        refl
  ser_loop-none room (suc n) (b ∷ input) c more later t k inputs typed (fine, others) made ends can
        enough =
      let rest : List ℕ = input ++ c ∷ more in
      let next : List ℕ = port_answers rest (text_after (u8 b) t) later in
      let answers : List ℕ = b ∷ idle (length (back_for (u8 b) t)) next in
      let k₁ : Kernel = heard uart_line_stat 0x61 answers k in
      elim (read_one-Heard stack buf (suc rounds) room b k₁ t next
        (port_answers-ready rest (text_after (u8 b) t) later) refl typed fine
        (λ some. can (omega (arith, some)))) [
          | returns _ k₂ runs h ↦
              rw
                (
                  rx_ready-run 0x61 answers k inputs,
                  ◌>>=◌,
                  runs,
                  ser_loop-none room n input c more later (text_after (u8 b) t) k₂ h.inputs_are
                      h.typed others made ends
                      (λ some. CanTransfer-Moved h.moved (can (omega (arith, some)))) enough,
                )
                refl
        ]

  -- Let the keys in the ring, and those that interrupts bring, end no line that is `/deadlock`, and
  -- let the bytes on the serial line make its line `/deadlock`, with no such line ended before, and
  -- let CR or LF follow, and then anything. Let a transfer be possible if one is asked for before,
  -- let the array have 136 bytes, and let the port be always ready to send while it brings these
  -- bytes, and then get ready once for each byte of the transcript of the deadlock. Then
  -- `chat_poll` does not return, for however many rounds its loops and the locks are followed.
  pub chat_poll_freezes_serial :
      (room : line_max + 16 ≤ length buf) (n : ℕ) (arrivals : List (List ℕ)) (k : Kernel)
      (q t input : List ℕ) (c : ℕ) (more s later : List ℕ)
      → Holds k.chat.ring q
      → Typed t k.chat.kbd
      → Typed s k.chat.ser
      → NoFreeze (taken q arrivals) t
      → NoSerialFreeze (bytes input) s
      → left_in_line (bytes input) s ≡ codes "/deadlock"
      → ends_line (u8 c) ≡ true
      → (0 < transfers (taken q arrivals) t + serial_transfers (bytes input) s
          → CanTransfer stack (suc rounds) k.world.files)
      → length (taken q arrivals) < n
      → k.world.screen.bus.inputs
        ≡ idle (length (sends (taken q arrivals) t)) (port_answers (input ++ c ∷ more) s later)
      → length unsafe_log ≤ ready_count later
      → chat_poll stack buf (suc rounds) n arrivals k ≡ none
  unfolding chat_poll
  chat_poll_freezes_serial room n arrivals k q t input c more s later h kbd ser fine fine' made ends
        can fuel inputs enough =
      elim (kbd_loop-Handles stack buf (suc rounds) room n arrivals q fuel k t h kbd fine
        (λ some. can (omega (arith, some)))
        (omega (
          arith,
          ap ready_count inputs,
          ready_count-idle (length (sends (taken q arrivals) t))
              (port_answers (input ++ c ∷ more) s later),
        ))) [
          | returns _ k₁ runs (p, ring) ↦
              rw
                (
                  runs,
                  ◌>>=◌,
                  ser_loop-none room (suc (length k₁.world.screen.bus.inputs)) input c more later s
                      k₁
                      (typed-inputs stack buf (suc rounds) room _ (input ++ c ∷ more) _ s _ later k
                        k₁ inputs p)
                      (rw (p.ser_same) ser) fine' made ends
                      (λ some. CanTransfer-Moved p.sent.moved (can (omega (arith, some)))) enough,
                )
                refl
        ]
