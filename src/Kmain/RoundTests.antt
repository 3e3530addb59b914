-- ===== src/Kmain/RoundTests.antt =====
-- Rounds of the kernel's loop at a concrete state.
use projeto_so.Base.{ℕ, ◌≡◌, refl, arith, List, [], ◌∷◌, ◌++◌, codes, some}
use projeto_so.Deadlock.Safe.{safe_log}
use projeto_so.Chat.{Kernel, chat_init}
use projeto_so.Chat.Outcome.{reply, transfers_of}
use projeto_so.Chat.Served.{Served}
use projeto_so.Chat.Init.{Ready, chat_init-Ready}
use projeto_so.Kmain.{poll}
use projeto_so.Kmain.Conversation.{Turn, port_talk, arrivals_of, poll-Served}
use projeto_so.Kmain.Tests.{zeros, at_reset}

-- In the first round one user types "oi" and Enter, and the other begins a command; in the second
-- it is ended, and a key is pressed.
abbrev two_rounds : List Turn
two_rounds =
    record { arrivals = codes "oi\n" ∷ []; input = codes "/trans" }
    ∷ record { arrivals = (b'x' ∷ []) ∷ []; input = codes "ferir\r" }
    ∷ []

abbrev talking : Kernel
talking = chat_init (record at_reset.kernel {
  world = record at_reset.kernel.world {
    screen = record at_reset.kernel.world.screen {
      bus = record { inputs = port_talk two_rounds [] [] []; trace = [] };
    };
  };
})

ready : Ready talking
ready = chat_init-Ready _ refl refl refl refl

poll-Served_example :
    (k : Kernel) × Served 1
      (codes "x")
      []
      (codes "[vga] oi\n/transferir\r\n" ++ safe_log)
      []
      talking
      k
    × (poll
          (zeros 64)
          (zeros 136)
          1
          5
          (arrivals_of two_rounds [])
          (record at_reset { kernel = talking })
        ≡ some (tt, record at_reset { kernel = k }))
    × ((more : List (List (List ℕ)))
        → poll
            (zeros 64)
            (zeros 136)
            1
            5
            (arrivals_of two_rounds more)
            (record at_reset { kernel = talking })
          ≡ poll (zeros 64) (zeros 136) 1 5 more (record at_reset { kernel = k }))
unfolding chat_init reply transfers_of
poll-Served_example =
    poll-Served (zeros 64) (zeros 136) 1 5 (omega arith) [] two_rounds
      (record at_reset { kernel = talking }) [] [] ready.empty_ring ready.empty_kbd ready.empty_ser
      (ground arith)
      (λ some. record {
        stack_size = refl;
        followed = omega arith;
        vga_file = ready.files.vga_file;
        serial_file = ready.files.serial_file;
      })
      refl
