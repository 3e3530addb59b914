-- ===== src/Kmain/Tests.antt =====
-- The start of the kernel with garbage in its static data, the serial port always ready.
use projeto_so.Base.{
  ℕ, ◌≡◌, refl, arith, List, [], ◌∷◌, ◌==◌, if◌then◌else◌, inr, codes, true, false, replicate, ◌++◌,
  some,
}
use projeto_so.Io.{Run, hang, ◌>>◌}
use projeto_so.Serial.Ready.{ready_count-replicate}
use projeto_so.Memory.Initialize.{Ram, MemoryMap, memory_map_at}
use projeto_so.Memory.Initialize.Regions.{last, more}
use projeto_so.Memory.Initialize.Steps.{MapIs}
use projeto_so.Chat.Init.{Ready}
use projeto_so.Pic.Chips.{Chip}
use projeto_so.Kmain.{
  Machine, Image, multiboot_info_at, start_kernel, before_program, start_chat, poll, kmain,
}
use projeto_so.Deadlock.Safe.{safe_log}
use projeto_so.Chat.Outcome.{reply, transfers_of, not-Freezes}
use projeto_so.Chat.Session.Round.{Polled}
use projeto_so.Kmain.FirstRound.{kmain_talks}
use projeto_so.Kmain.Booted.{Booted}
use projeto_so.Kmain.Boot.{marks, kmain_enters_chat, kmain_jumps}

abbrev pub zeros : ℕ → List ℕ
zeros n = replicate n 0

abbrev pub at_reset : Machine
at_reset = record {
  kernel = record {
    world = record {
      screen = record {
        bus = record { inputs = replicate 900 0x20; trace = [] };
        console = record { video_memory = λ k. 0; current_position = 0 };
      };
      files = record {
        file_vga = record {
          lock = record { locked = 1; name = [] };
          contents = zeros 64;
          owner = [];
        };
        file_serial = record {
          lock = record { locked = 0; name = [] };
          contents = zeros 64;
          owner = [];
        };
      };
    };
    chat = record {
      ring = record { kbd_ring = λ k. 0; kbd_head = 7; kbd_tail = 9 };
      kbd = record { line = zeros 121; len = 5 };
      ser = record { line = zeros 121; len = 0 };
    };
  };
  pmm_bitmap = λ i. 5;
  gdt = record {
    gdt_entries = λ i. record {
      limit_low = i;
      base_low = 1;
      base_mid = 2;
      access = 3;
      granularity = 4;
      base_high = 5;
    };
    gdt_pointer = record { limit = 0; base = 0 };
    segments = record {
      gdtr = record { limit = 0; base = 0 };
      cs = 8;
      ds = 0x18;
      es = 0x18;
      fs = 0x18;
      gs = 0x18;
      ss = 0x18;
    };
  };
  idt = record {
    idt_entries =
        λ i. record { offset_low = i; selector = 7; zeros = 1; type_attr = 0xFF; offset_high = 9 };
    idt_pointer = record { limit = 0; base = 0 };
    idtr = record { limit = 0; base = 0 };
  };
}

abbrev pub image : Image
image = record {
  gdt_address = 0xC010_8000;
  idt_address = 0xC010_9000;
  handlers = λ i. if i == 200 then 0 else 0xC010_1000;
  kernel_start = 0xC010_0000;
  kernel_end = 0xC010_C000;
}

-- A controller whose vectors are still those of the start.
abbrev pub chip : Chip
chip = record {
  awaits = 0;
  icw1 = 0x13;
  vector = 8;
  cascade = 0;
  mode = 0;
  mask = 0xFF;
  acknowledged = 0;
}

-- The boot loader's structure, with the memory map of one entry: 3 MiB from 1 MiB on. The modules
-- start at 2 MiB.
abbrev pub ram : (mods_count : ℕ) → Ram
ram mods_count a =
    if a == 0xC001_0000
    then 0x48
    else if a == 0xC001_0014
    then mods_count
    else if a == 0xC001_0018
    then 0x8000
    else if a == 0xC001_002C
    then 24
    else if a == 0xC001_0030
    then 0x9000
    else if a == 0xC000_9000
    then 20
    else if a == 0xC000_9004
    then 0x10_0000
    else if a == 0xC000_900C
    then 0x30_0000
    else if a == 0xC000_9014
    then 1
    else if a == 0xC000_8000
    then 0x20_0000
    else if a == 0xC000_8004
    then 0x20_0010
    else 0

abbrev entries : (mods_count : ℕ) → List MemoryMap
entries mods_count = memory_map_at (ram mods_count) 0xC000_9000 ∷ []

one_region_of_one : MapIs (multiboot_info_at (ram 1) 0xC001_0000) (ram 1) (entries 1)
one_region_of_one = more (omega arith) (omega arith) (λ h. omega arith) (last (omega arith))

one_region_of_two : MapIs (multiboot_info_at (ram 2) 0xC001_0000) (ram 2) (entries 2)
one_region_of_two = more (omega arith) (omega arith) (λ h. omega arith) (last (omega arith))

kmain_enters_chat_example :
    (m' : Machine) × ((stack buf : List ℕ) (rounds kbd_rounds : ℕ)
      → kmain 0xC001_0000 (ram 2) image (λ a. hang) stack buf rounds kbd_rounds [] at_reset
        ≡ some (tt, m'))
    × ((stack buf : List ℕ) (rounds kbd_rounds : ℕ) (arrivals : List (List (List ℕ)))
        → kmain 0xC001_0000 (ram 2) image (λ a. hang) stack buf rounds kbd_rounds arrivals at_reset
          ≡ poll stack buf rounds kbd_rounds arrivals m')
    × Booted image (marks 0xC001_0000 (ram 2) image (entries 2)) chip chip true m'
    × Ready m'.kernel
kmain_enters_chat_example =
    kmain_enters_chat 0xC001_0000 (ram 2) image (entries 2) chip chip at_reset one_region_of_two
      (omega arith, (omega arith, tt)) (omega arith) (λ k. ground arith) (λ i. omega arith) refl
      refl refl refl (λ a. hang) (inr (omega arith)) (omega (arith, ready_count-replicate 900))

kmain_jumps_example :
    (m' : Machine) × ((start_kernel (multiboot_info_at (ram 1) 0xC001_0000) (ram 1) image
          >> before_program)
        at_reset
      ≡ some (tt, m'))
    × ((program : ℕ → Run Machine (Unit {0})) (stack buf : List ℕ) (rounds kbd_rounds : ℕ)
          (arrivals : List (List (List ℕ)))
        → kmain 0xC001_0000 (ram 1) image program stack buf rounds kbd_rounds arrivals at_reset
          ≡ (program 0xC020_0000 >> start_chat >> poll stack buf rounds kbd_rounds arrivals) m')
    × Booted image (marks 0xC001_0000 (ram 1) image (entries 1)) chip chip false m'
kmain_jumps_example =
    kmain_jumps 0xC001_0000 (ram 1) image (entries 1) chip chip at_reset one_region_of_one
      (omega arith, tt) (omega arith) (λ k. ground arith) (λ i. omega arith) (omega arith) refl
      (omega (arith, ready_count-replicate 900))

-- The keys of "oi" and Enter come before the first round, and those of a command before the second.
abbrev typed_keys : List (List ℕ)
typed_keys = codes "oi\n" ∷ codes "/transferir\n" ∷ []

kmain_talks_example :
    (m₁ : Machine) × (m₂ : Machine) × (kmain 0xC001_0000
        (ram 2)
        image
        (λ a. hang)
        (zeros 64)
        (zeros 136)
        1
        20
        []
        at_reset
      ≡ some (tt, m₁))
    × (kmain 0xC001_0000
          (ram 2)
          image
          (λ a. hang)
          (zeros 64)
          (zeros 136)
          1
          20
          (typed_keys ∷ [])
          at_reset
        ≡ some (tt, m₂))
    × Booted image (marks 0xC001_0000 (ram 2) image (entries 2)) chip chip true m₁
    × Ready m₁.kernel
    × Polled 1 [] (codes "[vga] oi\n" ++ safe_log) m₁.kernel m₂.kernel
    × (kmain 0xC001_0000
          (ram 2)
          image
          (λ a. hang)
          (zeros 64)
          (zeros 136)
          1
          20
          (typed_keys ∷ [])
          at_reset
        ≡ poll (zeros 64) (zeros 136) 1 20 [] m₂)
unfolding reply transfers_of
kmain_talks_example =
    kmain_talks 0xC001_0000 (ram 2) image (entries 2) chip chip at_reset one_region_of_two
      (omega arith, (omega arith, tt)) (omega arith) (λ k. ground arith) (λ i. omega arith) refl
      refl refl refl (λ a. hang) (zeros 64) (zeros 136) 1 20 typed_keys [] (inr (omega arith))
      (
        not-Freezes (codes "oi") (omega arith),
        (not-Freezes (codes "/transferir") (omega arith), tt),
      )
      (λ some. (refl, omega arith)) (omega arith) (omega arith)
      (omega (arith, ready_count-replicate 900)) refl
