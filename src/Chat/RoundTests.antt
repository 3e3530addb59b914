-- ===== src/Chat/RoundTests.antt =====
-- Rounds of the chat at concrete states.
use projeto_so.Base.{ℕ, ◌≡◌, refl, arith, List, [], ◌∷◌, ◌++◌, none, inl, codes, length, replicate}
use projeto_so.Io.Returns.{Returns}
use projeto_so.Serial.Ready.{idle, ready_count-replicate}
use projeto_so.Deadlock.Safe.{safe_log}
use projeto_so.Chat.{Kernel, chat_init}
use projeto_so.Chat.Poll.{enqueue_all, chat_poll}
use projeto_so.Chat.Queue.{Holds}
use projeto_so.Chat.Outcome.{reply, transfers_of, not-Freezes, CanTransfer}
use projeto_so.Chat.Session.{sends, enqueue_all-Holds}
use projeto_so.Chat.SerialLoop.{port_answers}
use projeto_so.Chat.Served.{Served, chat_poll-Served}
use projeto_so.Chat.Freeze.{chat_poll_freezes}
use projeto_so.Chat.SerialFreeze.{chat_poll_freezes_serial}
use projeto_so.Chat.Init.{Ready, chat_init-Ready}
use projeto_so.Chat.Tests.{zeros, at_reset}

-- The chat has just been set up, and these are the answers of the port.
abbrev with_port : List ℕ → Kernel
with_port answers = chat_init (record at_reset {
  world = record at_reset.world {
    screen = record at_reset.world.screen { bus = record { inputs = answers; trace = [] } };
  };
})

ready : (answers : List ℕ) → Ready (with_port answers)
ready answers = chat_init-Ready _ refl refl refl refl

can_transfer : (answers : List ℕ) → CanTransfer (zeros 64) 1 (with_port answers).world.files
can_transfer answers = record {
  stack_size = refl;
  followed = omega arith;
  vga_file = (ready answers).files.vga_file;
  serial_file = (ready answers).files.serial_file;
}

-- One user types "oi" and Enter, the other the command and CR.
abbrev both : List ℕ
both = idle (length (sends (codes "oi\n") [])) (port_answers (codes "/transferir\r") [] [])

chat_poll-Served_example :
    Returns (chat_poll (zeros 64) (zeros 136) 1 5 (codes "oi\n" ∷ [])) (with_port both) (λ _ k'.
      Served 1 [] []
        (codes "[vga] oi\n" ++ codes "/transferir\r\n" ++ safe_log)
        []
        (with_port both)
        k')
unfolding chat_init reply transfers_of
chat_poll-Served_example =
    chat_poll-Served (zeros 64) (zeros 136) 1 (omega arith) 5 (codes "oi\n" ∷ []) (with_port both)
      [] [] (codes "/transferir\r") [] [] (ready both).empty_ring (ready both).empty_kbd
      (ready both).empty_ser (not-Freezes (codes "oi") (inl (omega arith)), tt) (ground arith)
      (λ some. can_transfer both) (omega arith) refl

-- The command was typed with a slip: "/deadlick", three corrections, "ock" and Enter.
abbrev slip : List ℕ
slip = codes "/deadlick" ++ 0x08 ∷ 0x08 ∷ 0x08 ∷ codes "ock"

abbrev slipped : Kernel
slipped = record (chat_init at_reset) {
  chat = enqueue_all (slip ++ b'\n' ∷ []) (chat_init at_reset).chat;
}

waits : Holds slipped.chat.ring (slip ++ b'\n' ∷ [])
waits =
    enqueue_all-Holds (slip ++ b'\n' ∷ []) [] (chat_init at_reset).chat
      (chat_init-Ready at_reset refl refl refl refl).empty_ring

chat_poll_freezes_example :
    chat_poll (zeros 64) (zeros 136) 1000 1000 ((b'x' ∷ []) ∷ []) slipped ≡ none
unfolding chat_init
chat_poll_freezes_example =
    chat_poll_freezes (zeros 64) (zeros 136) 999 1000 ((b'x' ∷ []) ∷ []) slip [] [] slipped refl
      refl waits (chat_init-Ready at_reset refl refl refl refl).empty_kbd
      (omega (arith, ready_count-replicate 300))

-- The same on the serial line, with CR and one more byte, while the other user sends "oi".
abbrev slip_on_serial : List ℕ
slip_on_serial =
    idle (length (sends (codes "oi\n") []))
      (port_answers (slip ++ b'\r' ∷ b'x' ∷ []) [] (replicate 300 0x20))

chat_poll_freezes_serial_example :
    chat_poll (zeros 64) (zeros 136) 1000 5 (codes "oi\n" ∷ []) (with_port slip_on_serial) ≡ none
unfolding chat_init reply transfers_of
chat_poll_freezes_serial_example =
    chat_poll_freezes_serial (zeros 64) (zeros 136) 999 (omega arith) 5 (codes "oi\n" ∷ [])
      (with_port slip_on_serial) [] [] slip b'\r' (b'x' ∷ []) [] (replicate 300 0x20)
      (ready slip_on_serial).empty_ring (ready slip_on_serial).empty_kbd
      (ready slip_on_serial).empty_ser (not-Freezes (codes "oi") (inl (omega arith)), tt)
      (ground arith) refl refl (λ some. absurd (omega (arith, some))) (omega arith) refl
      (omega (arith, ready_count-replicate 300))
