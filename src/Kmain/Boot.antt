-- ===== src/Kmain/Boot.antt =====
-- What `kmain` has set up when it gets to the loop of the chat, or to the program of a module.
use projeto_so.Base.{
  ℕ, ◌+◌, ◌-◌, ◌%◌, ◌^◌, ◌≤◌, ◌<◌, true, false, bit_and, List, ◌≡◌, ◌≢◌, refl, ap, arith, ◌⊎◌, inl,
  inr, some, [], Bool-cases, length, sub_u32, ==_false, ◌==◌,
}
use projeto_so.Io.{◌>>=◌, Run, ◌>>◌}
use projeto_so.Io.Returns.{Returns, returns, Returns-mono, >>=-run}
use projeto_so.Serial.Ready.{ready_count}
use projeto_so.Memory.{page_size, kernel_base}
use projeto_so.Memory.Frames.{IsWords}
use projeto_so.Memory.Initialize.{Ram, MemoryMap, multiboot_flag_mods}
use projeto_so.Memory.Initialize.Steps.{MapIs, ModulesSound}
use projeto_so.Memory.Initialize.Result.{mark}
use projeto_so.Deadlock.{data_size}
use projeto_so.Chat.{line_max, chat_init}
use projeto_so.Chat.Init.{Ready, chat_init-Ready}
use projeto_so.Pic.Chips.{Chip}
use projeto_so.Kmain.{
  Machine, Image, bus_of, multiboot_info_at, program_address, start_kernel, run_module, start_chat,
  enter_chat, before_program, unexpected_modules, change, poll, kmain,
}
use projeto_so.Kmain.Steps.{>>-Returns, Along-start, Along-fewer, print-Along, show-Along}
use projeto_so.Kmain.Tables.{set_up_tables-From, greet-From}
use projeto_so.Kmain.Pages.{set_up_memory-Started}
use projeto_so.Kmain.Booted.{AtLoop, Booted, Running, still-Running, Running-Booted, disable-Booted}

-- The marks that `pmm_initialize` gives the frames.
abbrev pub marks : (ebx : ℕ) → Ram → Image → List MemoryMap → ℕ → ℕ
marks ebx ram image entries =
    mark (multiboot_info_at ram ebx) ram image.kernel_start image.kernel_end entries

module _ (ebx : ℕ) (ram : Ram) (image : Image) (entries : List MemoryMap) (c₁ c₂ : Chip)
    (m : Machine) (map : MapIs (multiboot_info_at ram ebx) ram entries)
    (mods : ModulesSound (multiboot_info_at ram ebx) ram)
    (low : sub_u32 image.kernel_end kernel_base
      < 2 ^ 32 - page_size + sub_u32 image.kernel_start kernel_base % page_size)
    (fits : (k : ℕ) → image.handlers k < 2 ^ 32) (words : IsWords m.pmm_bitmap) where
  start_kernel-Running :
      (left : ℕ)
      → 529 + left ≤ ready_count (bus_of m).inputs
      → Returns
          (start_kernel (multiboot_info_at ram ebx) ram image)
          m
          (λ _ m'. Running image (marks ebx ram image entries) c₁ c₂ m left m')
  unfolding start_kernel
  start_kernel-Running left ready =
      >>-Returns
        (>>-Returns (set_up_tables-From image c₁ c₂ (omega arith) (Along-start m ready))
          (λ _ f. greet-From (omega arith) f))
        (λ _ f.
          Returns-mono
            (set_up_memory-Started (multiboot_info_at ram ebx) ram image entries map mods low words
              (omega arith) f.along)
            (λ _ _ s. record {
              bitmap = s.bitmap;
              first_taken = s.first_taken;
              since = record {
                moment = f.moment;
                there = f.there;
                along = Along-fewer (omega arith) s.along;
              };
            }))

  -- No module, or not one.
  no_program-Running :
      {left : ℕ} {m₁ : Machine} (program : ℕ → Run Machine (Unit {0}))
      → (bit_and (multiboot_info_at ram ebx).flags multiboot_flag_mods ≡ 0)
        ⊎ ((multiboot_info_at ram ebx).mods_count ≢ 1)
      → 77 ≤ left
      → Running image (marks ebx ram image entries) c₁ c₂ m left m₁
      → Returns
          (run_module (multiboot_info_at ram ebx) ram program)
          m₁
          (λ _ m'. Running image (marks ebx ram image entries) c₁ c₂ m (left - 77) m')
  unfolding run_module unexpected_modules
  no_program-Running program other room r =
      elim (Bool-cases (bit_and (multiboot_info_at ram ebx).flags multiboot_flag_mods == 0)) [
        | inl absent ↦ rw absent (
            Returns-mono (print-Along _ r.since.along (omega arith))
              (λ _ _ a. still-Running r (Along-fewer (omega arith) a)))
        | inr listed ↦
            let not_one : ((multiboot_info_at ram ebx).mods_count == 1) ≡ false =
              ground (arith, other, listed) in
            rw (listed, not_one)
              (>>-Returns (print-Along _ r.since.along (omega arith)) (λ _ a₁.
                >>-Returns (print-Along _ a₁ (omega arith)) (λ _ a₂.
                  Returns-mono (show-Along _ _ a₂)
                    (λ _ _ a₃. still-Running r (Along-fewer (omega arith) a₃)))))
      ]

  -- With one module, up to its call.
  before_program-Booted :
      {m₁ : Machine}
      → Running image (marks ebx ram image entries) c₁ c₂ m 79 m₁
      → Returns before_program m₁
          (λ _ m'. Booted image (marks ebx ram image entries) c₁ c₂ false m')
  unfolding before_program
  before_program-Booted r = >>-Returns (print-Along _ r.since.along (omega arith)) (λ _ a₁.
      >>-Returns (show-Along _ _ a₁) (λ _ a₂.
        >>-Returns (print-Along _ a₂ (omega arith))
          (λ m₂ a₃. disable-Booted m₂ (Running-Booted fits (still-Running r a₃)))))

  -- Let the boot loader's structures be sound and list one module; let the addresses of the
  -- handlers have 32 bits, the words of the bitmap too, and the kernel's last address be below the
  -- last page of 4 GiB; and let the serial port get ready 608 times. Then `kmain` gets
  -- through all that is before the call of the program, and calls it at the module's start moved up
  -- by 0xC0000000, in the same state for every program. There interrupts are off, segments, gates and controllers are set up, and the first free frame is
  -- taken, if there was one; should the program return, the chat starts.
  pub kmain_jumps :
      bit_and (multiboot_info_at ram ebx).flags multiboot_flag_mods ≢ 0
      → (multiboot_info_at ram ebx).mods_count ≡ 1
      → 608 ≤ ready_count (bus_of m).inputs
      → (m' : Machine) × ((start_kernel (multiboot_info_at ram ebx) ram image >> before_program) m
          ≡ some (tt, m'))
        × ((program : ℕ → Run Machine (Unit {0})) (stack buf : List ℕ) (rounds kbd_rounds : ℕ)
              (arrivals : List (List (List ℕ)))
            → kmain ebx ram image program stack buf rounds kbd_rounds arrivals m
              ≡ (program (program_address (multiboot_info_at ram ebx) ram)
                    >> start_chat
                    >> poll stack buf rounds kbd_rounds arrivals)
                  m')
        × Booted image (marks ebx ram image entries) c₁ c₂ false m'
  unfolding kmain enter_chat run_module
  kmain_jumps listed one ready = elim (start_kernel-Running 79 ready) [
    | returns _ m₁ e r ↦ elim (before_program-Booted r) [
      | returns _ m' e' booted ↦ (
        m',
        rw (e, e', ◌>>=◌) refl,
        λ program stack buf rounds kbd_rounds arrivals.
            rw (e, ==_false listed, one, e', ◌>>=◌) refl,
        booted,
      )
    ]
  ]

  module _ (kbd : length m.kernel.chat.kbd.line ≡ line_max + 1)
      (ser : length m.kernel.chat.ser.line ≡ line_max + 1)
      (vga : length m.kernel.world.files.file_vga.contents ≡ data_size)
      (serial : length m.kernel.world.files.file_serial.contents ≡ data_size) where
    init_chat-AtLoop :
        {left : ℕ} (m₁ : Machine)
        → Running image (marks ebx ram image entries) c₁ c₂ m left m₁
        → Returns
            (change (λ v. record v { kernel = chat_init v.kernel }))
            m₁
            (λ _ m'. AtLoop image (marks ebx ram image entries) c₁ c₂ m left m')
    unfolding change chat_init
    init_chat-AtLoop m₁ r =
        let b = Running-Booted fits r in
        let a = r.since.along in
        returns tt (record m₁ { kernel = chat_init m₁.kernel }) refl
          (record {
            booted = record {
              in_place = b.in_place;
              controllers = b.controllers;
              interrupts = b.interrupts;
            };
            chat =
                chat_init-Ready m₁.kernel (rw (ap (λ b. b.3) a.same) kbd)
                  (rw (ap (λ b. b.3) a.same) ser) (rw (ap (λ b. b.4) a.same) vga)
                  (rw (ap (λ b. b.4) a.same) serial);
            spare = a.spare;
            left_over = a.left_over;
          })

    start_chat-AtLoop :
        {left : ℕ} {m₁ : Machine}
        → 48 ≤ left
        → Running image (marks ebx ram image entries) c₁ c₂ m left m₁
        → Returns start_chat m₁
            (λ _ m'. AtLoop image (marks ebx ram image entries) c₁ c₂ m (left - 48) m')
    unfolding start_chat
    start_chat-AtLoop room r = >>-Returns (print-Along _ r.since.along (omega arith)) (λ _ a₁.
        >>-Returns (show-Along _ _ a₁) (λ _ a₂. >>-Returns (show-Along _ _ a₂) (λ _ a₃.
          >>-Returns (show-Along _ _ a₃) (λ _ a₄.
            >>-Returns (show-Along _ _ a₄) (λ m₂ a₅. init_chat-AtLoop m₂ (still-Running r a₅))))))

    pub enter_chat-AtLoop :
        (left : ℕ) (program : ℕ → Run Machine (Unit {0}))
        → (bit_and (multiboot_info_at ram ebx).flags multiboot_flag_mods ≡ 0)
          ⊎ ((multiboot_info_at ram ebx).mods_count ≢ 1)
        → 654 + left ≤ ready_count (bus_of m).inputs
        → Returns
            (enter_chat (multiboot_info_at ram ebx) ram image program)
            m
            (λ _ m'. AtLoop image (marks ebx ram image entries) c₁ c₂ m left m')
    unfolding enter_chat
    enter_chat-AtLoop left program other ready =
        >>-Returns
          (>>-Returns (start_kernel-Running (125 + left) (omega (arith, ready)))
            (λ _ r. no_program-Running program other (omega arith) r))
          (λ _ r. Returns-mono (start_chat-AtLoop (omega arith) r) (λ _ _ at. record {
            booted = at.booted;
            chat = at.chat;
            spare = omega (arith, at.spare);
            left_over = at.left_over;
          }))

    -- Let the boot loader's structures be sound and list no module, or not just one; let the static
    -- arrays have their sizes, the addresses of the handlers and the words of the bitmap 32 bits, and the kernel's last address
    -- be below the last page of 4 GiB; and let the serial port get ready 654 times. Then `kmain`,
    -- whatever else the static data held, gets to its loop over `chat_poll`, and goes on with any
    -- rounds of it from the state that it is then in. There the segments are
    -- flat and loaded, the vectors 0 to 47 lead to their handlers, both controllers send the
    -- vectors 32 to 47, interrupts are on, the first frame that `pmm_initialize` left free is
    -- taken, if there was one, and no other, and the chat is set up.
    pub kmain_enters_chat :
        (program : ℕ → Run Machine (Unit {0}))
        → (bit_and (multiboot_info_at ram ebx).flags multiboot_flag_mods ≡ 0)
          ⊎ ((multiboot_info_at ram ebx).mods_count ≢ 1)
        → 654 ≤ ready_count (bus_of m).inputs
        → (m' : Machine) × ((stack buf : List ℕ) (rounds kbd_rounds : ℕ)
            → kmain ebx ram image program stack buf rounds kbd_rounds [] m ≡ some (tt, m'))
          × ((stack buf : List ℕ) (rounds kbd_rounds : ℕ) (arrivals : List (List (List ℕ)))
              → kmain ebx ram image program stack buf rounds kbd_rounds arrivals m
                ≡ poll stack buf rounds kbd_rounds arrivals m')
          × Booted image (marks ebx ram image entries) c₁ c₂ true m'
          × Ready m'.kernel
    unfolding kmain poll
    kmain_enters_chat program other ready = elim (enter_chat-AtLoop 0 program other ready) [
      | returns _ m' e at ↦ (
        m',
        λ stack buf rounds kbd_rounds. rw (e, ◌>>=◌) refl,
        λ stack buf rounds kbd_rounds arrivals.
            >>=-run (enter_chat (multiboot_info_at ram ebx) ram image program)
              (λ _. poll stack buf rounds kbd_rounds arrivals) e,
        at.booted,
        at.chat,
      )
    ]
