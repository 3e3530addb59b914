-- ===== src/Interrupt/TypingTests.antt =====
-- Keys from the keyboard's controller to the serial line, at a concrete state.
use projeto_so.Base.{ℕ, refl, arith, List, [], ◌∷◌, ◌++◌, inl, replicate, length, codes}
use projeto_so.Io.{◌>>◌}
use projeto_so.Io.Returns.{Returns}
use projeto_so.Serial.Ready.{idle}
use projeto_so.Chat.{Kernel, chat_init}
use projeto_so.Chat.Poll.{chat_poll}
use projeto_so.Chat.Outcome.{reply, transfers_of, not-Freezes}
use projeto_so.Chat.Session.{sends}
use projeto_so.Chat.SerialLoop.{port_answers}
use projeto_so.Chat.Served.{Served}
use projeto_so.Chat.Init.{Ready, chat_init-Ready}
use projeto_so.Keyboard.Drain.{answers}
use projeto_so.Interrupt.{interrupt_handler}
use projeto_so.Interrupt.Typing.{scan_codes_are_sent}

abbrev zeros : ℕ → List ℕ
zeros n = replicate n 0

-- `o` is pressed and let go, then `i`, and then Enter; the other user types "ola" and CR.
abbrev keys : List (ℕ × ℕ)
keys = (0x1D, 0x18) ∷ (0x1D, 0x98) ∷ (0x1D, 0x17) ∷ (0x1D, 0x97) ∷ (0x1D, 0x1C) ∷ (0x1D, 0x9C) ∷ []

abbrev at_keys : Kernel
at_keys = chat_init (record {
  world = record {
    screen = record {
      bus = record {
        inputs =
            answers keys
            ++ 0x1C ∷ idle (length (sends (codes "oi\n") [])) (port_answers (codes "ola\r") [] []);
        trace = [];
      };
      console = record { video_memory = λ k. 0; current_position = 0 };
    };
    files = record {
      file_vga = record {
        lock = record { locked = 0; name = [] };
        contents = zeros 64;
        owner = [];
      };
      file_serial = record {
        lock = record { locked = 0; name = [] };
        contents = zeros 64;
        owner = [];
      };
    };
  };
  chat = record {
    ring = record { kbd_ring = λ k. 0; kbd_head = 7; kbd_tail = 9 };
    kbd = record { line = zeros 121; len = 5 };
    ser = record { line = zeros 121; len = 0 };
  };
})

ready : Ready at_keys
ready = chat_init-Ready _ refl refl refl refl

scan_codes_are_sent_example :
    Returns
      (do interrupt_handler 33; chat_poll (zeros 64) (zeros 136) 1 5 [])
      at_keys
      (λ _ k'. Served 0 [] [] (codes "[vga] oi\nola\r\n[serial] ola\n") [] at_keys k')
unfolding chat_init reply transfers_of
scan_codes_are_sent_example =
    scan_codes_are_sent (zeros 64) (zeros 136) 1 (omega arith) 5 keys 0x1C at_keys []
      (codes "ola\r") [] [] refl refl ready.empty_ring ready.empty_kbd ready.empty_ser
      (not-Freezes (codes "oi") (inl (omega arith)), tt) (ground arith)
      (λ some. record {
        stack_size = refl;
        followed = omega arith;
        vga_file = ready.files.vga_file;
        serial_file = ready.files.serial_file;
      })
      (omega arith) refl
