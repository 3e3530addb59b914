-- ===== src/Keyboard/Tests.antt =====
-- Two keys at the controller: `h` pressed and let go, then Enter.
use projeto_so.Base.{ℕ, refl, arith, List, [], ◌∷◌}
use projeto_so.Io.Returns.{Returns}
use projeto_so.Chat.{Kernel}
use projeto_so.Chat.Queue.{Holds}
use projeto_so.Keyboard.{keyboard_handler}
use projeto_so.Keyboard.Drain.{Drained, keyboard_handler-Drained}

abbrev keys : List (ℕ × ℕ)
keys = (0x1D, 0x23) ∷ (0x1D, 0xA3) ∷ (0x1D, 0x1C) ∷ []

abbrev waiting : Kernel
waiting = record {
  world = record {
    screen = record {
      bus = record { inputs = 0x1D ∷ 0x23 ∷ 0x1D ∷ 0xA3 ∷ 0x1D ∷ 0x1C ∷ 0x1C ∷ []; trace = [] };
      console = record { video_memory = λ k. 0; current_position = 0 };
    };
    files = record {
      file_vga = record { lock = record { locked = 0; name = [] }; contents = []; owner = [] };
      file_serial = record { lock = record { locked = 0; name = [] }; contents = []; owner = [] };
    };
  };
  chat = record {
    ring = record { kbd_ring = λ k. 0; kbd_head = 255; kbd_tail = 255 };
    kbd = record { line = []; len = 0 };
    ser = record { line = []; len = 0 };
  };
}

empty : Holds waiting.chat.ring []
empty = record {
  head_small = omega arith;
  tail_at = refl;
  bounded = omega arith;
  entries = λ i h. absurd (omega arith);
}

keyboard_handler-Drained_example :
    Returns keyboard_handler waiting (λ _ k'. Drained (b'h' ∷ b'\n' ∷ []) [] waiting k')
keyboard_handler-Drained_example =
    keyboard_handler-Drained keys 0x1C [] waiting [] refl refl refl empty
