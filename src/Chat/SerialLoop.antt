-- ===== src/Chat/SerialLoop.antt =====
-- The loop of `chat_poll` over the serial port, with the bytes that it reads from the port.
use projeto_so.Base.{
  ℕ, zero, suc, ◌+◌, ◌%◌, ◌^◌, ◌<◌, ◌≤◌, ◌≡◌, refl, sym, ap, ◌∙◌, arith, Bool, not, List, [], ◌∷◌,
  ◌++◌, ◌==◌, append-nil, append_assoc, bit_and, bytes, length, some, u8,
}
use projeto_so.Io.{received, zoom, ◌>>=◌, ◌>>◌, inb}
use projeto_so.Io.Returns.{Returns, returns, Returns-eq}
use projeto_so.Serial.{uart_data, uart_line_stat, serial_rx_ready, serial_read_byte}
use projeto_so.Serial.Ready.{ready_count, idle, ready_count-idle, idle-Tail}
use projeto_so.Deadlock.Transcript.{log_of}
use projeto_so.Chat.{line_max, Kernel, on_cpu}
use projeto_so.Chat.Poll.{ser_process_char, read_one, ser_loop}
use projeto_so.Chat.Editor.{Typed}
use projeto_so.Chat.Outcome.{CanTransfer, CanTransfer-Moved, Moved, unmoved, Moved-trans}
use projeto_so.Chat.SerialSession.{
  Harmless, back_for, text_after, transfers_by, answers_to, left_in_line, serial_transfers,
  NoSerialFreeze, ser_process_char-Echoed,
}

-- The answers of a port that brings the bytes of `input`, on a line that holds `t`: a status that a
-- byte came, the byte, and a status for each byte that is sent for it; at the end a status that none
-- came. It is always ready to send. `later` is what it answers then.
abbrev pub port_answers : (input t later : List ℕ) → List ℕ
port_answers [] t later = 0x60 ∷ later
port_answers (c ∷ input) t later =
    0x61 ∷ c ∷ idle (length (back_for (u8 c) t)) (port_answers input (text_after (u8 c) t) later)

-- The port answered `v`, and `vs` are its next answers.
abbrev pub heard : (port v : ℕ) (vs : List ℕ) → Kernel → Kernel
heard port v vs k = record k {
  world = record k.world {
    screen = record k.world.screen {
      bus = record { inputs = vs; trace = received port (v % 2 ^ 8) ∷ k.world.screen.bus.trace };
    };
  };
}

module _ (v : ℕ) (vs : List ℕ) (k : Kernel) (e : k.world.screen.bus.inputs ≡ v ∷ vs) where
  pub rx_ready-run :
      on_cpu serial_rx_ready k
      ≡ some (not (bit_and (v % 2 ^ 8) 0x01 == 0), heard uart_line_stat v vs k)
  unfolding serial_rx_ready inb
  rx_ready-run = rw (e, ◌>>=◌, zoom) refl

  pub read_byte-run : on_cpu serial_read_byte k ≡ some (u8 v, heard uart_data v vs k)
  unfolding serial_read_byte inb
  read_byte-run = rw (e, zoom) refl

-- The serial line holds `t`, `text` was sent, `n` transfers were made, and the port answers `later`.
pub record Heard (n : ℕ) (t text later : List ℕ) (k k' : Kernel) : Type 0 where
  pub typed : Typed t k'.chat.ser
  pub ring_same : k'.chat.ring ≡ k.chat.ring
  pub kbd_same : k'.chat.kbd ≡ k.chat.kbd
  pub moved : Moved n k.world.files k'.world.files
  pub logged : log_of k'.world ≡ log_of k.world ++ text
  pub inputs_are : k'.world.screen.bus.inputs ≡ later

Heard-trans :
    {m n : ℕ} {t t' r s next later : List ℕ} {k k₁ k₂ : Kernel}
    → Heard m t r next k k₁
    → Heard n t' s later k₁ k₂
    → Heard (m + n) t' (r ++ s) later k k₂
Heard-trans {r = r} {s} {k = k} p q = record {
  typed = q.typed;
  ring_same = q.ring_same ∙ p.ring_same;
  kbd_same = q.kbd_same ∙ p.kbd_same;
  moved = Moved-trans p.moved q.moved;
  logged = q.logged ∙ ap (λ l. l ++ s) p.logged ∙ append_assoc (log_of k.world) r s;
  inputs_are = q.inputs_are;
}

-- The first of the answers shows the port ready.
pub port_answers-ready :
    (input t later : List ℕ)
    → (v : ℕ) × (rest : List ℕ) × (port_answers input t later ≡ v ∷ rest)
      × (not (bit_and (v % 2 ^ 8) 0x20 == 0) ≡ Bool.true)
port_answers-ready [] t later = (0x60, later, refl, refl)
port_answers-ready (c ∷ input) t later = (0x61, _, refl, refl)

module _ (stack buf : List ℕ) (rounds : ℕ) (room : line_max + 16 ≤ length buf) where
  -- One byte, from the moment that it is known to have come.
  pub read_one-Heard :
      (c : ℕ) (k : Kernel) (t next : List ℕ)
      → (v : ℕ) × (rest : List ℕ) × (next ≡ v ∷ rest)
        × (not (bit_and (v % 2 ^ 8) 0x20 == 0) ≡ Bool.true)
      → k.world.screen.bus.inputs ≡ c ∷ idle (length (back_for (u8 c) t)) next
      → Typed t k.chat.ser
      → Harmless (u8 c) t
      → (0 < transfers_by (u8 c) t → CanTransfer stack rounds k.world.files)
      → Returns (read_one stack buf rounds) k (λ _ k'.
        Heard (transfers_by (u8 c) t) (text_after (u8 c) t) (back_for (u8 c) t) next k k')
  unfolding read_one
  read_one-Heard c k t next (v, rest, starts, ready) inputs typed fine can =
      let answers : List ℕ = idle (length (back_for (u8 c) t)) next in
      let k₁ : Kernel = heard uart_data c answers k in
      Returns-eq {n = λ _. ser_process_char stack buf rounds (u8 c) k₁}
        (rw (read_byte-run c answers k inputs, ◌>>=◌) refl)
        (elim (ser_process_char-Echoed stack buf rounds room (u8 c) k₁ t typed fine can (
          omega (
            arith,
            ready_count-idle (length (back_for (u8 c) t)) next,
            ap ready_count starts,
            one_ready v rest ready,
          ))) [
            | returns a k' runs e ↦ returns a k' runs (record {
              typed = e.typed;
              ring_same = e.ring_same;
              kbd_same = e.kbd_same;
              moved = e.sent.moved;
              logged = e.sent.logged;
              inputs_are =
                  idle-Tail (length (back_for (u8 c) t)) v rest e.sent.left_over (rw starts refl)
                    ready
                    (omega (
                      arith,
                      e.sent.spent,
                      ready_count-idle (length (back_for (u8 c) t)) next,
                      ap ready_count starts,
                    ))
                  ∙ sym starts;
            })
          ])
    where
      one_ready :
          (v : ℕ) (rest : List ℕ)
          → not (bit_and (v % 2 ^ 8) 0x20 == 0) ≡ Bool.true
          → ready_count (v ∷ rest) ≡ ready_count rest + 1
      one_ready v rest e = rw e (omega arith)

  -- The serial loop, on a port that brings the bytes of `input`, at least a round longer followed
  -- than there are bytes.
  pub ser_loop-Heard :
      (n : ℕ) (input later : List ℕ) (k : Kernel) (t : List ℕ)
      → k.world.screen.bus.inputs ≡ port_answers input t later
      → Typed t k.chat.ser
      → NoSerialFreeze (bytes input) t
      → (0 < serial_transfers (bytes input) t → CanTransfer stack rounds k.world.files)
      → length input < n
      → Returns (ser_loop stack buf rounds n) k (λ _ k'.
        Heard
          (serial_transfers (bytes input) t)
          (left_in_line (bytes input) t)
          (answers_to (bytes input) t)
          later
          k
          k')
  unfolding ser_loop
  ser_loop-Heard zero input later k t inputs typed fine can fuel = absurd (omega arith)
  ser_loop-Heard (suc n) [] later k t inputs typed fine can fuel =
      returns tt (heard uart_line_stat 0x60 later k)
        (rw (rx_ready-run 0x60 later k inputs, ◌>>=◌) refl)
        (record {
          typed = typed;
          ring_same = refl;
          kbd_same = refl;
          moved = unmoved refl;
          logged = sym (append-nil (log_of k.world));
          inputs_are = refl;
        })
  ser_loop-Heard (suc n) (c ∷ input) later k t inputs typed (fine, others) can fuel =
      let next : List ℕ = port_answers input (text_after (u8 c) t) later in
      let answers : List ℕ = c ∷ idle (length (back_for (u8 c) t)) next in
      let k₁ : Kernel = heard uart_line_stat 0x61 answers k in
      Returns-eq {n = λ _. (read_one stack buf rounds >> ser_loop stack buf rounds n) k₁}
        (rw (rx_ready-run 0x61 answers k inputs, ◌>>=◌) refl)
        (elim (read_one-Heard c k₁ t next (port_answers-ready input (text_after (u8 c) t) later)
          refl typed fine (λ some. can (omega (arith, some)))) [
            | returns _ k₂ runs h ↦
                elim (ser_loop-Heard n input later k₂ (text_after (u8 c) t) h.inputs_are h.typed
                  others (λ some. CanTransfer-Moved h.moved (can (omega (arith, some))))
                  (omega arith)) [
                    | returns _ k' ends h' ↦ returns tt k' (rw (runs, ◌>>=◌) ends) (
                        Heard-trans
                          (record {
                            typed = h.typed;
                            ring_same = h.ring_same;
                            kbd_same = h.kbd_same;
                            moved = h.moved;
                            logged = h.logged;
                            inputs_are = h.inputs_are;
                          })
                          h')
                  ]
          ])
