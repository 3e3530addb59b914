-- ===== src/Interrupt/Tests.antt =====
-- The handler of interrupts with one key at the controller, and its acknowledgements.
use projeto_so.Base.{◌++◌, ◌≢◌, ℕ, ◌≡◌, refl, arith, List, [], ◌∷◌, true, false}
use projeto_so.Io.Returns.{Returns}
use projeto_so.Chat.{Kernel}
use projeto_so.Chat.Queue.{Holds}
use projeto_so.Pic.{pic1_command, pic2_command, pic_remap, pic_acknowledge}
use projeto_so.Pic.Chips.{Chip, Remapped, after, pic_remap-Remapped, pic_acknowledge-acknowledged}
use projeto_so.Keyboard.Drain.{waits, answers, all_wait, typed}
use projeto_so.Interrupt.{interrupt_handler}
use projeto_so.Interrupt.Stubs.{Processor, Scratch, interrupt_handler_in_c}
use projeto_so.Interrupt.Stubs.Restore.{interrupt, interrupt-restores}
use projeto_so.Interrupt.Dispatch.{Served, interrupt_handler-Served}

abbrev waiting : Kernel
waiting = record {
  world = record {
    screen = record {
      bus = record { inputs = 0x1D ∷ 0x23 ∷ 0x1C ∷ []; trace = [] };
      console = record { video_memory = λ k. 0; current_position = 0 };
    };
    files = record {
      file_vga = record { lock = record { locked = 0; name = [] }; contents = []; owner = [] };
      file_serial = record { lock = record { locked = 0; name = [] }; contents = []; owner = [] };
    };
  };
  chat = record {
    ring = record { kbd_ring = λ k. 0; kbd_head = 255; kbd_tail = 255 };
    kbd = record { line = []; len = 0 };
    ser = record { line = []; len = 0 };
  };
}

empty : Holds waiting.chat.ring []
empty = record {
  head_small = omega arith;
  tail_at = refl;
  bounded = omega arith;
  entries = λ i h. absurd (omega arith);
}

abbrev fresh : Chip
fresh = record {
  awaits = 0;
  icw1 = 0x13;
  vector = 8;
  cascade = 0;
  mode = 0;
  mask = 0;
  acknowledged = 0;
}

interrupt_handler-Served_example :
    ((keys : List (ℕ × ℕ)) (last : ℕ) (later : List ℕ)
      → all_wait keys ≡ true
      → waits last ≡ false
      → waiting.world.screen.bus.inputs ≡ answers keys ++ last ∷ later
      → Returns (interrupt_handler 33) waiting (λ _ k'. Served 33 (typed keys []) later waiting k'))
    × ((interrupt : ℕ)
        → interrupt ≢ 33
        → Returns
            (interrupt_handler interrupt)
            waiting
            (λ _ k'. Served interrupt [] waiting.world.screen.bus.inputs waiting k'))
interrupt_handler-Served_example = interrupt_handler-Served waiting [] empty

key-Served : Returns (interrupt_handler 33) waiting (λ _ k'. Served 33 (b'h' ∷ []) [] waiting k')
key-Served =
    (interrupt_handler-Served waiting [] empty).0 ((0x1D, 0x23) ∷ []) 0x1C [] refl refl refl

pic_remap-Remapped_example :
    Returns pic_remap
      (record { inputs = 0xFB ∷ 0xFF ∷ []; trace = [] })
      (λ _ b.
        Remapped 32 0x04 0xFB (after pic1_command b.trace fresh)
        × Remapped 40 0x02 0xFF (after pic2_command b.trace fresh)
        × (b.inputs ≡ []))
pic_remap-Remapped_example = pic_remap-Remapped 0xFB 0xFF [] [] fresh fresh

pic_acknowledge-acknowledged_example :
    Returns (pic_acknowledge 44) waiting.world.screen.bus (λ _ b'.
      ((after pic1_command b'.trace fresh).acknowledged ≡ 1)
      × ((after pic2_command b'.trace fresh).acknowledged ≡ 1)
      × (b'.inputs ≡ waiting.world.screen.bus.inputs))
pic_acknowledge-acknowledged_example =
    pic_acknowledge-acknowledged 44 waiting.world.screen.bus fresh fresh

-- The processor in the middle of some code, with interrupts on.
abbrev working : Processor
working = record {
  cpu = record {
    registers = record {
      edi = 1;
      esi = 2;
      ebp = 3;
      esp = 0xC010_5000;
      ebx = 4;
      edx = 5;
      ecx = 6;
      eax = 7;
    };
    position = record { eip = 0xC010_0123; cs = 0x08; eflags = 0x202 };
    stack = 8 ∷ 9 ∷ [];
  };
  kernel = waiting;
}

abbrev left_by_c : Scratch
left_by_c = record { eax = 0; ecx = 0; edx = 0xA0; eflags = 0x46; arguments = λ words. words }

-- A key is pressed.
interrupt-restores_example :
    Returns
      (interrupt interrupt_handler_in_c left_by_c 0xC010_2000 0xC010_1000 33 0)
      working
      (λ _ m'. (m'.cpu ≡ working.cpu) × Served 33 (b'h' ∷ []) [] waiting m'.kernel)
interrupt-restores_example =
    interrupt-restores interrupt_handler_in_c left_by_c (λ words. refl) 0xC010_2000 0xC010_1000 33 0
      working (omega arith) key-Served
