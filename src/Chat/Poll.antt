-- ===== src/Chat/Poll.antt =====
-- src/chat.c: the handlers of a byte, and the loop over the two inputs.
use projeto_so.Base.{
  ℕ, zero, suc, ◌||◌, none, some, List, [], ◌∷◌, ◌==◌, leb, ltb, if◌then◌else◌, codes, length,
}
use projeto_so.Io.{Run, pure, hang, ◌>>=◌, ◌>>◌}
use projeto_so.Serial.{serial_rx_ready, serial_read_byte}
use projeto_so.Framebuffer.{console_write, console_backspace}
use projeto_so.Deadlock.{on_screen, say}
use projeto_so.Chat.{
  line_max, Chat, Kernel, on_world, on_cpu, on_chat, on_kbd, on_ser, submit_line, reset, terminate,
  drop_last, push, chat_kbd_enqueue, kbd_pop,
}

-- The Enter key, from the array on.
unfoldable pub kbd_enter : (stack buf : List ℕ) → ℕ → Run Kernel (Unit {0})
kbd_enter stack buf rounds k =
    (do
      on_kbd terminate
      on_world (submit_line stack buf rounds (codes "vga") (terminate k.chat.kbd).line)
      on_kbd reset)
      k

unfoldable pub kbd_process_char : (stack buf : List ℕ) → ℕ → (c : ℕ) → Run Kernel (Unit {0})
kbd_process_char stack buf rounds c k =
    if c == b'\n'
    then kbd_enter stack buf rounds k
    else if c == 0x08
    then (if ltb 0 k.chat.kbd.len
        then (do on_kbd drop_last; on_world (on_screen console_backspace)) k
        else pure tt k)
    else if ltb c 32
    then pure tt k
    else if leb line_max k.chat.kbd.len
    then pure tt k
    else (do on_kbd (push c); on_world (on_screen (console_write (c ∷ 0 ∷ [])))) k

unfoldable pub ser_enter : (stack buf : List ℕ) → ℕ → Run Kernel (Unit {0})
ser_enter stack buf rounds k =
    (do
      on_world (say (codes "\r\n"))
      on_ser terminate
      on_world (submit_line stack buf rounds (codes "serial") (terminate k.chat.ser).line)
      on_ser reset)
      k

unfoldable pub ser_process_char : (stack buf : List ℕ) → ℕ → (c : ℕ) → Run Kernel (Unit {0})
ser_process_char stack buf rounds c k =
    if (c == b'\n') || (c == b'\r')
    then ser_enter stack buf rounds k
    else if (c == 0x08) || (c == 127)
    then on_ser (if ltb 0 k.chat.ser.len then drop_last else terminate) k
    else if ltb c 32
    then pure tt k
    else if leb line_max k.chat.ser.len
    then pure tt k
    else (do on_ser (push c); on_world (say (c ∷ 0 ∷ []))) k

-- The keyboard's interrupt comes between two rounds of the loop, and puts its bytes in the ring.
abbrev pub enqueue_all : List ℕ → Chat → Chat
enqueue_all [] c = c
enqueue_all (b ∷ bs) c = enqueue_all bs (record c { ring = chat_kbd_enqueue b c.ring })

-- `while (kbd_pop(&c)) kbd_process_char(c);` with the bytes that come in before each round. It is
-- followed for a number of rounds.
unfoldable pub kbd_loop : (stack buf : List ℕ) → ℕ → ℕ → List (List ℕ) → Run Kernel (Unit {0})
kbd_loop stack buf rounds zero arrivals = hang
kbd_loop stack buf rounds (suc n) [] =
    let rest = kbd_loop stack buf rounds n [] in
    do c ← kbd_pop; elim c [ none ↦ pure tt | some b ↦ kbd_process_char stack buf rounds b >> rest ]
kbd_loop stack buf rounds (suc n) (bytes ∷ arrivals) =
    let rest = kbd_loop stack buf rounds n arrivals in
    do
      on_chat (enqueue_all bytes)
      c ← kbd_pop
      elim c [ none ↦ pure tt | some b ↦ kbd_process_char stack buf rounds b >> rest ]

-- The body of the loop over the serial port.
unfoldable pub read_one : (stack buf : List ℕ) → ℕ → Run Kernel (Unit {0})
read_one stack buf rounds = do c ← on_cpu serial_read_byte; ser_process_char stack buf rounds c

unfoldable pub ser_loop : (stack buf : List ℕ) → ℕ → ℕ → Run Kernel (Unit {0})
ser_loop stack buf rounds zero = hang
ser_loop stack buf rounds (suc n) =
    let rest = ser_loop stack buf rounds n in
    do
      ready ← on_cpu serial_rx_ready
      if ready then (read_one stack buf rounds >> rest) else pure tt

-- Each round of the serial loop takes a recorded answer, so its rounds outlast the answers.
unfoldable pub chat_poll : (stack buf : List ℕ) → ℕ → ℕ → List (List ℕ) → Run Kernel (Unit {0})
chat_poll stack buf rounds kbd_rounds arrivals = do
  kbd_loop stack buf rounds kbd_rounds arrivals
  (λ k. ser_loop stack buf rounds (suc (length k.world.screen.bus.inputs)) k)
